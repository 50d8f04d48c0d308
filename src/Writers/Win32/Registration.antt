-- ===== src/Writers/Win32/Registration.antt =====
-- pkg/evtx/writer_windows.go: what ensureEventSource leaves registered.
use mathlib.Core.Bool.{false≢true}
use cee_exporter.Common.{
  ◌≡◌, refl, ap, ◌∙◌, sym, Bool, true, false, Option, none, some, Bytes, bytes_eq, bytes_eq_refl,
  bytes_eq_iff, Bool-cases, inl, inr,
}
use cee_exporter.Writers.Win32.{
  EventLog, win32_source_name, install_after, ensure_registered, ensure_event_source,
}

module _ {S : Type 0} (api : EventLog S)
    (installs : (file : Bytes) (s s' : S)
      → api.install win32_source_name file s ≡ (s', true)
      → api.registered s' ≡ some file) where
  install_after-registers :
      (exe : Bytes) (q : S × Bool) (s' : S)
      → install_after api exe q ≡ (s', true)
      → api.registered s' ≡ some exe
  unfolding install_after
  install_after-registers exe (s, true) s' e = installs exe s s' e
  install_after-registers exe (s, false) s' e = absurd (false≢true (ap (λ (q : S × Bool). q.1) e))

  ensure_registered-registers :
      (exe : Bytes) (o : Option Bytes) (s s' : S)
      → api.registered s ≡ o
      → ensure_registered api exe o s ≡ (s', true)
      → api.registered s' ≡ some exe
  unfolding ensure_registered install_after
  ensure_registered-registers exe none s s' o e = installs exe s s' e
  ensure_registered-registers exe (some file) s s' o e = elim (Bool-cases (bytes_eq file exe)) [
    | inl same ↦
        ap api.registered (sym (ap (λ (q : S × Bool). q.0) (rw same at e)))
        ∙ o
        ∙ ap some ((bytes_eq_iff file exe).0 same)
    | inr other ↦ install_after-registers exe (api.remove win32_source_name s) s' (rw other at e)
  ]

  -- If ensureEventSource succeeds, the messages of the source are registered with this executable,
  -- and the next start changes nothing. This is of an API in which a successful install registers
  -- the file that it was given.
  pub ensure_event_source-settles :
      (exe : Bytes) (s s' : S)
      → ensure_event_source api exe s ≡ (s', true)
      → (api.registered s' ≡ some exe) × (ensure_event_source api exe s' ≡ (s', true))
  unfolding ensure_event_source
  ensure_event_source-settles exe s s' e =
      let r = ensure_registered-registers exe (api.registered s) s s' refl e in
      (r, rw r (unfold ensure_registered in rw (bytes_eq_refl exe) refl))
