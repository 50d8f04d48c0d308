-- ===== src/Writers/Sockets/Single.antt =====
-- The connections of pkg/evtx/writer_gelf.go and writer_syslog.go: one at a time.
use cee_exporter.Common.{
  ℕ, suc, ◌<◌, ◌≡◌, ◌∙◌, ap, refl, Bool, true, false, Option, none, some, List, Bytes, [], ◌∷◌,
  ◌==◌, if◌then◌else◌, arith,
}
use cee_exporter.Writers.Sockets.{Socket, Endpoint, drop_old, keep_dialled, connect, close_conn}

-- A network on which each dial that succeeds opens a connection with a new number. The outcomes of
-- the dials, closes and writes to come are given; past their end all fail.
pub record Network : Type 0 where
  pub dials : List Bool
  pub closes : List Bool
  pub writes : List Bool
  pub next : ℕ
  pub live : List ℕ

abbrev without : ℕ → List ℕ → List ℕ
without c [] = []
without c (d ∷ ds) = if c == d then ds else d ∷ without c ds

unfoldable pub dial_with : List Bool → Network → Network × Option ℕ
dial_with [] n = (n, none)
dial_with (true ∷ os) n =
    (record n { dials = os; next = suc n.next; live = n.next ∷ n.live }, some n.next)
dial_with (false ∷ os) n = (record n { dials = os }, none)

abbrev pub network_dial : Endpoint → Network → Network × Option ℕ
network_dial e n = dial_with n.dials n

-- A close ends the connection whether or not it reports an error.
unfoldable pub close_with : List Bool → ℕ → Network → Network × Bool
close_with [] c n = (record n { live = without c n.live }, false)
close_with (o ∷ os) c n = (record n { closes = os; live = without c n.live }, o)

abbrev pub network_close : ℕ → Network → Network × Bool
network_close c n = close_with n.closes c n

unfoldable pub write_with : List Bool → Network → Network × Bool
write_with [] n = (n, false)
write_with (o ∷ os) n = (record n { writes = os }, o)

abbrev pub network_write : Bytes → ℕ → Network → Network × Bool
network_write b c n = write_with n.writes n

-- The live connections are exactly the one that the writer holds, whose number is not to come.
abbrev pub HoldsOne : Option ℕ → Network → Type 0
HoldsOne none n = n.live ≡ []
HoldsOne (some c) n = (n.live ≡ c ∷ []) × (c < n.next)

abbrev pub the_connect : Endpoint → Socket ℕ Network → Socket ℕ Network × Bool
the_connect = connect network_dial network_close

close_with-live :
    (os : List Bool) (c : ℕ) (n : Network)
    → ((close_with os c n).0.live ≡ without c n.live) × ((close_with os c n).0.next ≡ n.next)
unfolding close_with
close_with-live [] c n = (refl, refl)
close_with-live (o ∷ os) c n = (refl, refl)

drop_old-live :
    (c d : ℕ) (n : Network)
    → n.live ≡ d ∷ c ∷ []
    → c < d
    → ((drop_old network_dial network_close (some c) n).live ≡ d ∷ [])
      × ((drop_old network_dial network_close (some c) n).next ≡ n.next)
unfolding drop_old
drop_old-live c d n h l =
    ((close_with-live n.closes c n).0 ∙ rw h (ground (arith, l)), (close_with-live n.closes c n).1)

dialled-HoldsOne :
    (old : Option ℕ) (os : List Bool) (n : Network)
    → HoldsOne old n
    → HoldsOne
        (keep_dialled network_dial network_close old (dial_with os n)).0.conn
        (keep_dialled network_dial network_close old (dial_with os n)).0.world
unfolding keep_dialled dial_with drop_old
dialled-HoldsOne none [] n h = h
dialled-HoldsOne (some c) [] n h = h
dialled-HoldsOne none (false ∷ os) n h = h
dialled-HoldsOne (some c) (false ∷ os) n h = h
dialled-HoldsOne none (true ∷ os) n h = (ap (λ ls. n.next ∷ ls) h, omega arith)
dialled-HoldsOne (some c) (true ∷ os) n (h, l) =
    let n' = record n { dials = os; next = suc n.next; live = n.next ∷ n.live } in
    let (live, next) = drop_old-live c n.next n' (ap (λ ls. n.next ∷ ls) h) l in
    (live, omega (arith, next))

pub connect-HoldsOne :
    (e : Endpoint) (w : Socket ℕ Network)
    → HoldsOne w.conn w.world
    → HoldsOne (the_connect e w).0.conn (the_connect e w).0.world
unfolding connect
connect-HoldsOne e w h = dialled-HoldsOne w.conn w.world.dials w.world h

pub closed-none :
    (old : Option ℕ) (n : Network)
    → HoldsOne old n
    → (close_conn network_dial network_close old n).0.live ≡ []
unfolding close_conn
closed-none none n h = h
closed-none (some c) n (h, l) = (close_with-live n.closes c n).0 ∙ rw h (ground arith)
