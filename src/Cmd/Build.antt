-- ===== src/Cmd/Build.antt =====
-- buildWriter of cmd/cee-exporter/main.go: how deep its calls go.
use cee_exporter.Common.{
  ℕ, zero, suc, ◌≡◌, refl, Bool, true, false, not, Option, none, some, List, [], ◌∷◌, ◌++◌, Bytes,
  codes, bytes_eq, every, arith, if-both, All,
}
use cee_exporter.Cmd.{
  OutputConfig, Constructors, Built, built, refused, too_deep, with_addr, build_targets,
  build_writer,
}

-- The call came to an end.
abbrev pub Ends : {W : Type 0} → Built W → Type 0
Ends (built w addr) = Unit
Ends refused = Unit
Ends too_deep = ⊥

abbrev pub is_multi : Bytes → Bool
is_multi t = bytes_eq t (codes "multi")

module _ {W : Type 0} (new : Constructors W) where
  with_addr-Ends : (addr : Bytes) (o : Option W) → Ends (with_addr new addr o)
  unfolding with_addr
  with_addr-Ends addr none = tt
  with_addr-Ends addr (some w) = tt

  -- A type other than "multi" needs no further call.
  build_writer-flat :
      (depth : ℕ) (cfg : OutputConfig)
      → is_multi cfg.type ≡ false
      → Ends (build_writer new (suc depth) cfg)
  unfolding build_writer
  build_writer-flat depth cfg n =
      if-both Ends (bytes_eq cfg.type (codes "gelf")) _ _ (with_addr-Ends _ _) (
        if-both Ends (bytes_eq cfg.type (codes "evtx")) _ _ (with_addr-Ends _ _) (
          rw n (
            if-both Ends (bytes_eq cfg.type (codes "syslog")) _ _ (with_addr-Ends _ _)
              (if-both Ends (bytes_eq cfg.type (codes "beats")) _ _ (with_addr-Ends _ _) tt))))

  build_targets-Ends :
      (sub : OutputConfig → Built W) (cfg : OutputConfig) (ts : List Bytes) (ws : List W)
      (addrs : List Bytes)
      → All (λ t. Ends (sub (record cfg { type = t }))) ts
      → Ends (build_targets new sub cfg ts ws addrs)
  unfolding build_targets
  build_targets-Ends sub cfg [] ws addrs h = tt
  build_targets-Ends sub cfg (t ∷ ts) ws addrs (h, hs) =
      next (sub (record cfg { type = t })) h
        (λ w addr. build_targets-Ends sub cfg ts (ws ++ w ∷ []) (addrs ++ addr ∷ []) hs)
    where
      next :
          (b : Built W)
          → Ends b
          → ((w : W) (addr : Bytes)
              → Ends (build_targets new sub cfg ts (ws ++ w ∷ []) (addrs ++ addr ∷ [])))
          → Ends (elim b [
            | built w addr ↦ build_targets new sub cfg ts (ws ++ w ∷ []) (addrs ++ addr ∷ [])
            | refused ↦ refused
            | too_deep ↦ too_deep
          ])
      next (built w addr) e k = k w addr
      next refused e k = tt
      next too_deep e k = e

  targets-flat :
      (cfg : OutputConfig) (ts : List Bytes)
      → every (λ t. not (is_multi t)) ts ≡ true
      → All (λ t. Ends (build_writer new 1 (record cfg { type = t }))) ts
  targets-flat cfg [] h = tt
  targets-flat cfg (t ∷ ts) h = (
    build_writer-flat 0 (record cfg { type = t }) (ground (arith, h)),
    targets-flat cfg ts (ground (arith, h)),
  )

-- Where no target of the configuration is "multi", buildWriter ends, with a writer or an error,
-- whatever its type is: two levels of calls are enough, one for "multi" and one for its targets.
pub build_writer-Ends :
    {W : Type 0} (new : Constructors W) (cfg : OutputConfig)
    → every (λ t. not (is_multi t)) cfg.targets ≡ true
    → Ends (build_writer new 2 cfg)
unfolding build_writer
build_writer-Ends new cfg h =
    if-both Ends (bytes_eq cfg.type (codes "gelf")) _ _ (with_addr-Ends new _ _) (
      if-both Ends (bytes_eq cfg.type (codes "evtx")) _ _ (with_addr-Ends new _ _) (
        if-both Ends (bytes_eq cfg.type (codes "multi")) _ _
          (build_targets-Ends new _ cfg cfg.targets [] [] (targets-flat new cfg cfg.targets h))
          (if-both Ends (bytes_eq cfg.type (codes "syslog")) _ _ (with_addr-Ends new _ _)
            (if-both Ends (bytes_eq cfg.type (codes "beats")) _ _ (with_addr-Ends new _ _) tt))))

-- A configuration of type "multi" whose first target is "multi" is never built and never refused:
-- no depth of calls is enough for buildWriter.
pub build_writer_self :
    {W : Type 0} (new : Constructors W) (depth : ℕ) (cfg : OutputConfig) (rest : List Bytes)
    → cfg.type ≡ codes "multi"
    → cfg.targets ≡ codes "multi" ∷ rest
    → build_writer new depth cfg ≡ too_deep
unfolding build_writer build_targets codes bytes_eq
build_writer_self new zero cfg rest h k = refl
build_writer_self new (suc depth) cfg rest h k = rw (
  h,
  k,
  build_writer,
  build_targets,
  build_writer_self new depth (record cfg { type = codes "multi" }) rest refl k,
)
