-- ===== src/Server/Health/Expiry.antt =====
-- What pkg/server/health.go reports of the certificate of a file.
use cee_exporter.Common.{
  ◌+◌, ◌*◌, ◌≤◌, ◌<◌, ◌≡◌, refl, if◌then◌else◌, Bool, true, false, inl, inr, Option, none, some,
  List, [], ◌∷◌, ◌++◌, All, codes, bytes_eq, ℤ, pos, negsuc, floor_div, arith, Bool-cases,
  Option-cases, ap,
}
use cee_exporter.Parser.CheckEvent.Number.{is_empty}
use cee_exporter.Server.Health.{
  HealthConfig, PemBlock, Certificates, TlsInfo, day, below_thirty, first_certificate,
  load_first_cert, tls_info_of, build_tls_info,
}

-- A day of 24 hours that an instant is in, both from now: day 0 is the next 24 hours, day -1 the
-- last ones. The day has the sign of the instant.
abbrev pub InDay : ℤ → ℤ → Type 0
InDay (pos k) (pos n) = (k * day ≤ n) × (n < k * day + day)
InDay (negsuc k) (negsuc n) = (k * day ≤ n) × (n < k * day + day)
InDay _ _ = ⊥

floor_div-InDay : (z : ℤ) → InDay (floor_div z day) z
floor_div-InDay (pos n) = (omega arith, omega arith)
floor_div-InDay (negsuc n) = (omega arith, omega arith)

module _ {C : Type 0} (lib : Certificates C) where
  -- The certificate in a block, if it holds one.
  abbrev pub certificate_in : PemBlock → Option C
  certificate_in b =
      if bytes_eq b.type (codes "CERTIFICATE") then lib.parse_certificate b.bytes else none

  -- The first certificate of the blocks, or that there is none: said by position, not by the loop.
  abbrev pub IsFirst : List PemBlock → Option C → Type 0
  IsFirst blocks none = All (λ b. certificate_in b ≡ none) blocks
  IsFirst blocks (some c) =
      (before : List PemBlock) × (b : PemBlock) × (after : List PemBlock) × (blocks
        ≡ before ++ b ∷ after)
      × All (λ b. certificate_in b ≡ none) before
      × (certificate_in b ≡ some c)

  IsFirst-skip :
      (b : PemBlock) (bs : List PemBlock) (o : Option C)
      → certificate_in b ≡ none
      → IsFirst bs o
      → IsFirst (b ∷ bs) o
  IsFirst-skip b bs none n h = (n, h)
  IsFirst-skip b bs (some c) n (before, d, after, e, ns, p) =
      (b ∷ before, d, after, ap (λ x. b ∷ x) e, (n, ns), p)

  first_certificate-IsFirst :
      (blocks : List PemBlock) → IsFirst blocks (first_certificate lib blocks)
  unfolding first_certificate
  first_certificate-IsFirst [] = tt
  first_certificate-IsFirst (b ∷ bs) = elim (Bool-cases (bytes_eq b.type (codes "CERTIFICATE"))) [
    | inr e ↦ rw e (IsFirst-skip b bs _ (rw e refl) (first_certificate-IsFirst bs))
    | inl e ↦ elim (Option-cases (lib.parse_certificate b.bytes)) [
      | inl n ↦ rw (e, n) (IsFirst-skip b bs _ (rw e n) (first_certificate-IsFirst bs))
      | inr (c, p) ↦ rw (e, p) ([], b, bs, refl, tt, rw e p)
    ]
  ]

  -- The report on a certificate.
  abbrev pub Reports : Option C → TlsInfo × Bool → Type 0
  Reports none (info, warns) = (info.days_remaining ≡ none) × (warns ≡ false)
  Reports (some c) (info, warns) =
      (d : ℤ) × (info.days_remaining ≡ some d)
      × InDay d (lib.until_expiry c)
      × (warns ≡ below_thirty d)

  tls_info_of-Reports : (enabled : Bool) (o : Option C) → Reports o (tls_info_of lib enabled o)
  unfolding tls_info_of
  tls_info_of-Reports enabled none = (refl, refl)
  tls_info_of-Reports enabled (some c) =
      (floor_div (lib.until_expiry c) day, refl, floor_div-InDay (lib.until_expiry c), refl)

  -- With TLS on and a file of blocks that can be read, the report is on the first block of the file
  -- that holds a certificate which parses, and says nothing of days where there is none. The days
  -- reported are of the day in which the certificate expires: 0 exactly within the next 24 hours,
  -- negative exactly once it has expired; the expiry is logged exactly below 30 days.
  pub build_tls_info-Reports :
      (cfg : HealthConfig) (blocks : List PemBlock)
      → cfg.tls_enabled ≡ true
      → is_empty cfg.tls_cert_file ≡ false
      → lib.read_blocks cfg.tls_cert_file ≡ some blocks
      → (o : Option C) × IsFirst blocks o × Reports o (build_tls_info lib cfg)
  unfolding build_tls_info load_first_cert
  build_tls_info-Reports cfg blocks t f r = (
    first_certificate lib blocks,
    first_certificate-IsFirst blocks,
    rw (t, f, load_first_cert, r) (tls_info_of-Reports true (first_certificate lib blocks)),
  )
