-- ===== src/Cron.antt =====
-- internal/cron/delivery.go: the delivery of stored activity to the Panel. The client is an argument
-- that acts on a state of its own.
pub mod Delivery
pub mod Refusal
mod Examples
use daemon.Common.{
  ℕ, zero, suc, ◌/◌, Bool, true, false, ◌||◌, not, Option, none, some, List, [], ◌∷◌, ◌++◌, take,
  drop, length, ◌==◌, if◌then◌else◌,
}
use daemon.Common.Int.{ℤ}

-- `batchItem`
pub record BatchItem (A : Type 0) : Type 0 where
  pub activity : A
  pub ids : List ℤ

abbrev pub activities : {A : Type 0} → List (BatchItem A) → List A
activities [] = []
activities (i ∷ is) = i.activity ∷ activities is

abbrev pub ids_of : {A : Type 0} → List (BatchItem A) → List ℤ
ids_of [] = []
ids_of (i ∷ is) = i.ids ++ ids_of is

-- `isRefused`, where `status` is what `AsRequestError` makes of the error.
unfoldable pub is_refused : {E : Type 0} → (E → Option ℕ) → E → Bool
is_refused status e = elim (status e) [
  | none ↦ false
  | some code ↦ code == 400 || code == 413 || code == 422
]

-- What `deliver` returns once the batch was sent, with the deliveries of its halves.
unfoldable pub settle :
    {S A E : Type 0}
    → (E → Option ℕ)
    → BatchItem A
    → List (BatchItem A)
    → S × Option E
    → S × List ℤ × Option E
    → S × List ℤ × Option E
    → S × List ℤ × Option E
settle status i is sent front back = elim sent.1 [
  | none ↦ (sent.0, ids_of (i ∷ is), none)
  | some e ↦
      if not (is_refused status e)
      then (sent.0, [], some e)
      else if length (i ∷ is) == 1
      then (sent.0, i.ids, none)
      else elim front.2 [ some e' ↦ front | none ↦ (back.0, front.1 ++ back.1, back.2) ]
]

-- `deliver`, with fuel for its recursion: the client's state, the ids that are done and the error.
unfoldable pub deliver :
    {S A E : Type 0}
    → (S → List A → S × Option E)
    → (E → Option ℕ)
    → ℕ
    → S
    → List (BatchItem A)
    → S × List ℤ × Option E
deliver send status zero s items = (s, [], none)
deliver send status (suc n) s [] = (s, [], none)
deliver send status (suc n) s (i ∷ is) =
    let mid = length (i ∷ is) / 2 in
    let sent = send s (activities (i ∷ is)) in
    let front = deliver send status n sent.0 (take mid (i ∷ is)) in
    let back = deliver send status n front.0 (drop mid (i ∷ is)) in
    settle status i is sent front back
