-- ===== src/Queue/Ledger.antt =====
-- An abstract view of pkg/queue/queue.go: what is pending and what was handed to the writer, with
-- neither an order nor a place. A bag is a list up to the order of its items.
use mathlib.Core.Quot
use mathlib.Core.Quot.{Quot, Quot-set}
use cee_exporter.Common.{
  ◌≡◌, refl, Bool, true, false, none, some, List, [], ◌∷◌, ◌++◌, arith, total, count, count-append,
}
use cee_exporter.Queue.Conservation.{held_by}
use cee_exporter.Queue.{Queue, Action, enqueues, ends, enqueue, step}

abbrev pub SameItems {ℓ} : {E : Type ℓ} → List E → List E → Type ℓ
SameItems {E} xs ys = (p : E → Bool) → count p xs ≡ count p ys

abbrev pub Bag {ℓ} : Type ℓ → Type ℓ
Bag E = Quot (SameItems {E = E})

-- The accepted events that no completed call of the writer was given, and those that one was.
pub record Ledger {ℓ} (E : Type ℓ) : Type ℓ where
  pub pending : Bag E
  pub delivered : Bag E

module _ {ℓ} {E : Type ℓ} where
  pub SameItems-append : (b xs ys : List E) → SameItems xs ys → SameItems (b ++ xs) (b ++ ys)
  SameItems-append b xs ys h p = omega (arith, h p, count-append p b xs, count-append p b ys)

  -- A bag with the items of a list more.
  unfoldable pub add : List E → Bag E → Bag E
  add b =
      Quot.lift Quot-set (λ xs. Quot.mk (b ++ xs))
        (λ xs ys h. Quot.sound (SameItems-append b xs ys h))

  abbrev pub flat {κ} : {A : Type κ} → (A → List E) → List A → List E
  flat f [] = []
  flat f (x ∷ xs) = f x ++ flat f xs

  pub count-flat {κ} :
      {A : Type κ} (p : E → Bool) (f : A → List E) (xs : List A)
      → count p (flat f xs) ≡ total (λ x. count p (f x)) xs
  count-flat p f [] = refl
  count-flat p f (x ∷ xs) = omega (arith, count-append p (f x) (flat f xs), count-flat p f xs)

  abbrev pub waiting : Queue E → List E
  waiting q = q.ch ++ flat held_by q.workers

  abbrev pub written : Queue E → List E
  written q = flat (λ (c : List E × Bool). c.0) q.calls

  abbrev pub ledger : Queue E → Ledger E
  ledger q = record { pending = Quot.mk (waiting q); delivered = Quot.mk (written q) }

  -- What the caller of `Enqueue` is told; no other action has an answer.
  abbrev pub told : Action E → Queue E → Bool
  told (enqueues e) q = (enqueue e q).1
  told _ q = false

  -- A schedule with the answers along it.
  unfoldable pub answered : List (Action E) → Queue E → List (Action E × Bool)
  answered [] q = []
  answered (a ∷ as') q = (a, told a q) ∷ elim (step a q) [ none ↦ [] | some q' ↦ answered as' q' ]

  -- What an action does to a ledger: an event that `Enqueue` accepts is pending once more, one that
  -- it refuses is not seen, a completed call of the writer moves a batch that was pending, and
  -- nothing else is seen.
  abbrev pub Allowed : Action E → Bool → Ledger E → Ledger E → Type ℓ
  Allowed (enqueues e) true s t =
      t ≡ record { pending = add (e ∷ []) s.pending; delivered = s.delivered }
  Allowed (enqueues e) false s t = t ≡ s
  Allowed (ends i ok now) b s t =
      (batch : List E) × (rest : Bag E) × (s.pending ≡ add batch rest)
      × (t ≡ record { pending = rest; delivered = add batch s.delivered })
  Allowed _ b s t = t ≡ s

  -- A history of a ledger, with the answers that were given.
  abbrev pub Replays : List (Action E × Bool) → Ledger E → Ledger E → Type ℓ
  Replays [] s t = t ≡ s
  Replays ((a, b) ∷ as') s t = (m : Ledger E) × Allowed a b s m × Replays as' m t
