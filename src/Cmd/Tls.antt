-- ===== src/Cmd/Tls.antt =====
-- cmd/cee-exporter/tls.go: how the listener is secured. The calls of crypto/tls, crypto/x509,
-- crypto/ecdsa and encoding/pem are fields of a record, keys and certificates are bytes to the
-- model, and times are nanoseconds.
pub mod SelfSigned
use cee_exporter.Common.{
  ℕ, ◌+◌, ◌-◌, ◌*◌, Bool, true, false, Option, none, some, List, [], ◌∷◌, if◌then◌else◌, Bytes,
  codes,
}
use cee_exporter.Parser.CheckEvent.{is_empty}

-- The certificate's template; what it is for is a signature and a server.
pub record Template : Type 0 where
  pub serial_number : ℕ
  pub organization : List Bytes
  pub dns_names : List Bytes
  pub not_before : ℕ
  pub not_after : ℕ

-- What the libraries answer; `none` is an error.
pub record TlsLibrary : Type 0 where
  pub load_x509_key_pair : Bytes → Bytes → Option Bytes
  pub generate_key : Option Bytes
  pub marshal_ec_private_key : Bytes → Option Bytes
  -- the template signed with the key, as its own parent
  pub create_certificate : Template → Bytes → Option Bytes
  pub encode_to_memory : Bytes → Bytes → Bytes
  pub x509_key_pair : Bytes → Bytes → Option Bytes
  pub listens : Bytes → Bool
  pub now : ℕ

-- tls.VersionTLS12
abbrev pub version_tls12 : ℕ
version_tls12 = 0x0303

pub record TlsConfig : Type 0 where
  pub certificates : List Bytes
  pub min_version : ℕ

-- The ACME manager's policy, contact and cache.
pub record Manager : Type 0 where
  pub host_whitelist : List Bytes
  pub email : Bytes
  pub dir_cache : Bytes

-- The configuration of the listener: none, that of the mode, or that of the manager.
pub data Tls : Type 0 where
  plain : Tls
  manual : TlsConfig → Tls
  self_signed : TlsConfig → Tls
  acme : Manager → Tls

unfoldable pub or_else : Bytes → Bytes → Bytes
or_else s default = if is_empty s then default else s

-- In nanoseconds.
abbrev pub minute : ℕ
minute = 60000000000

abbrev pub year : ℕ
year = 365 * 24 * 60 * minute

unfoldable pub self_signed_hosts : List Bytes → List Bytes
self_signed_hosts [] = codes "localhost" ∷ []
self_signed_hosts (h ∷ hs) = h ∷ hs

unfoldable pub template : ℕ → List Bytes → Template
template now hosts = record {
  serial_number = 1;
  organization = codes "cee-exporter" ∷ [];
  dns_names = hosts;
  not_before = now - minute;
  not_after = now + year;
}

infixl 5 ◌>>=◌
abbrev pub ◌>>=◌ : {A B : Type 0} → Option A → (A → Option B) → Option B
none >>= f = none
some a >>= f = f a

module _ (lib : TlsLibrary) where
  abbrev pub config_of : Bytes → TlsConfig
  config_of cert = record { certificates = cert ∷ []; min_version = version_tls12 }

  unfoldable pub build_manual_tls : Bytes → Bytes → Option TlsConfig
  build_manual_tls cert_file key_file = do
    cert ← lib.load_x509_key_pair cert_file key_file
    some (config_of cert)

  unfoldable pub build_self_signed_tls : List Bytes → Option TlsConfig
  build_self_signed_tls hosts = do
    key ← lib.generate_key
    key_der ← lib.marshal_ec_private_key key
    cert_der ← lib.create_certificate (template lib.now (self_signed_hosts hosts)) key
    let cert_pem = lib.encode_to_memory (codes "CERTIFICATE") cert_der
    let key_pem = lib.encode_to_memory (codes "EC PRIVATE KEY") key_der
    cert ← lib.x509_key_pair cert_pem key_pem
    some (config_of cert)

  unfoldable pub build_autocert_tls : List Bytes → Bytes → Bytes → Option Manager
  build_autocert_tls [] email cache_dir = none
  build_autocert_tls (d ∷ ds) email cache_dir = some (record {
    host_whitelist = d ∷ ds;
    email = email;
    dir_cache = or_else cache_dir (codes "/var/cache/cee-exporter/acme");
  })

  -- Whether the listener of the challenge starts.
  unfoldable pub start_acme_challenge_listener : Bytes → Bool
  start_acme_challenge_listener challenge_addr = lib.listens (or_else challenge_addr (codes ":443"))
