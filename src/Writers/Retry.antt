-- ===== src/Writers/Retry.antt =====
-- sendWithRetry of pkg/evtx/writer.go: when it reports success, and how often it sends.
use cee_exporter.Common.{ℕ, ◌+◌, ◌≡◌, Bool, false, ◌&&◌, ◌||◌, List, [], ◌∷◌, if◌then◌else◌, arith}
use cee_exporter.Writers.{send_with_retry}

-- A connection on which each call of `send` and `reconnect` is recorded, with the outcomes still to
-- come.
pub record Line : Type 0 where
  pub outcomes : List Bool
  pub sends : ℕ
  pub reconnects : ℕ

abbrev pub next_of : List Bool → Bool × List Bool
next_of [] = (false, [])
next_of (b ∷ bs) = (b, bs)

unfoldable pub recorded_send : Line → Line × Bool
recorded_send l =
    (record l { outcomes = (next_of l.outcomes).1; sends = l.sends + 1 }, (next_of l.outcomes).0)

unfoldable pub recorded_reconnect : Line → Line × Bool
recorded_reconnect l = (
  record l { outcomes = (next_of l.outcomes).1; reconnects = l.reconnects + 1 },
  (next_of l.outcomes).0,
)

-- Whatever the connection does, the payload is sent once or twice with at most one reconnect
-- between, and the outcome is that of the last send: an error is reported exactly if the first send
-- failed and then the reconnect or the second send failed.
pub send_with_retry-outcome :
    (a b c : Bool) (rest : List Bool) (n m : ℕ)
    → send_with_retry recorded_send recorded_reconnect
        (record { outcomes = a ∷ b ∷ c ∷ rest; sends = n; reconnects = m })
      ≡ (
        record {
          outcomes = if a then b ∷ c ∷ rest else if b then rest else c ∷ rest;
          sends = if a then n + 1 else if b then n + 2 else n + 1;
          reconnects = if a then m else m + 1;
        },
        a || b && c,
      )
unfolding send_with_retry recorded_send recorded_reconnect
send_with_retry-outcome a b c rest n m = ground arith
