-- ===== src/Cmd/Tls/SelfSigned.antt =====
-- cmd/cee-exporter/tls.go: the certificate of the mode self-signed.
use mathlib.Core.Option.{some-injective}
use cee_exporter.Common.{
  ◌+◌, ◌≢◌, sym, ap, ◌≤◌, ◌<◌, ◌≡◌, refl, Option, none, some, List, [], ◌∷◌, Bytes, codes, length,
  arith,
}
use cee_exporter.Cmd.Tls.{
  TlsLibrary, TlsConfig, Template, template, year, ◌>>=◌, self_signed_hosts, build_self_signed_tls,
  version_tls12,
}

>>=-eq-some :
    {A B : Type 0} (o : Option A) (f : A → Option B) {b : B}
    → (o >>= f) ≡ some b
    → (a : A) × (o ≡ some a) × (f a ≡ some b)
>>=-eq-some none f h = cc
>>=-eq-some (some a) f h = (a, refl, h)

hosts_named : (hosts : List Bytes) → 0 < length (self_signed_hosts hosts)
unfolding self_signed_hosts
hosts_named [] = omega arith
hosts_named (h ∷ hs) = omega arith

hosts_kept : (hosts : List Bytes) → hosts ≢ [] → self_signed_hosts hosts ≡ hosts
unfolding self_signed_hosts
hosts_kept [] h = absurd (h refl)
hosts_kept (x ∷ hs) h = refl

module _ (lib : TlsLibrary) where
  -- A configuration with one certificate, made of a template signed with a fresh key.
  pub record IsSelfSigned (t : Template) (cfg : TlsConfig) : Type 0 where
    pub key : Bytes
    pub key_der : Bytes
    pub cert_der : Bytes
    pub cert : Bytes
    pub fresh : lib.generate_key ≡ some key
    pub marshalled : lib.marshal_ec_private_key key ≡ some key_der
    pub signed : lib.create_certificate t key ≡ some cert_der
    pub assembled :
        lib.x509_key_pair
          (lib.encode_to_memory (codes "CERTIFICATE") cert_der)
          (lib.encode_to_memory (codes "EC PRIVATE KEY") key_der)
        ≡ some cert
    pub served : cfg.certificates ≡ cert ∷ []
    pub version : cfg.min_version ≡ version_tls12

  -- A configuration of the mode self-signed serves one certificate, signed with a fresh key, for
  -- TLS 1.2 at least. The certificate is for some host, for each configured host if there is one,
  -- and is valid now and for a year.
  pub build_self_signed_tls-IsSelfSigned :
      (hosts : List Bytes) (cfg : TlsConfig)
      → build_self_signed_tls lib hosts ≡ some cfg
      → let t = template lib.now (self_signed_hosts hosts) in
        IsSelfSigned t cfg
        × (0 < length t.dns_names)
        × (hosts ≢ [] → t.dns_names ≡ hosts)
        × (t.not_before ≤ lib.now)
        × (lib.now + year ≤ t.not_after)
  unfolding build_self_signed_tls template
  build_self_signed_tls-IsSelfSigned hosts cfg e =
      let (k, ek, e1) = >>=-eq-some lib.generate_key _ e in
      let (kd, ekd, e2) = >>=-eq-some (lib.marshal_ec_private_key k) _ e1 in
      let (cd, ecd, e3) =
        >>=-eq-some (lib.create_certificate (template lib.now (self_signed_hosts hosts)) k) _ e2 in
      let (c, ec, e4) = >>=-eq-some (lib.x509_key_pair _ _) _ e3 in
      (
        record {
          key = k;
          key_der = kd;
          cert_der = cd;
          cert = c;
          fresh = ek;
          marshalled = ekd;
          signed = ecd;
          assembled = ec;
          served = ap (λ (x : TlsConfig). x.certificates) (sym (some-injective _ _ e4));
          version = ap (λ (x : TlsConfig). x.min_version) (sym (some-injective _ _ e4));
        },
        hosts_named hosts,
        hosts_kept hosts,
        omega arith,
        omega arith,
      )
