-- ===== src/Cmd/Startup/Sound.antt =====
-- How `run` of cmd/cee-exporter/main.go starts.
use mathlib.Core.Option
use cee_exporter.Common.{◌≡◌, Bool, true, false, Option, none, some}
use cee_exporter.Cmd.{validate_output_config}
use cee_exporter.Cmd.Config.{Config}
use cee_exporter.Cmd.Tls.{Tls, plain}
use cee_exporter.Cmd.Startup.{System, Outcome, exits, serves, diverges}

abbrev pub is_secured : Tls → Bool
is_secured plain = false
is_secured _ = true

module _ {W S : Type 0} (sys : System W S) where
  abbrev Secures : Bool → Option Tls → Type 0
  Secures flag none = Unit
  Secures flag (some tls) = flag ≡ is_secured tls

  -- A sound start: a service has a valid output, no event was written for it, and what /health
  -- will say of TLS is what the listener does; an exit with code 0 is one of the test mode.
  abbrev pub IsSound : Bool → S → Outcome W × S → Type 0
  IsSound emit_test s (serves svc, s') =
      (emit_test ≡ false)
      × (s' ≡ s)
      × (validate_output_config svc.config.output ≡ true)
      × (svc.health.tls_enabled ≡ is_secured svc.tls)
  IsSound emit_test s (exits code, s') = code ≡ 0 → emit_test ≡ true
  IsSound emit_test s (diverges, s') = Unit
