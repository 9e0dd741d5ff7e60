-- ===== src/Cron/Delivery.antt =====
-- The items that a run of `deliver` is done with.
use mathlib.Core.Path.{subst}
use mathlib.Core.List.{append_assoc, append-nil}
use daemon.Common.{
  ℕ, zero, suc, ◌/◌, ◌≤◌, ◌≡◌, refl, sym, ap, ◌∙◌, inl, inr, true, Option, none, some, List, [],
  ◌∷◌, ◌++◌, take, drop, length, arith, ◌==◌, Bool-cases, Option-cases, take-append-drop,
  length-take, length-drop,
}
use daemon.Common.Int.{ℤ}
use daemon.Cron.{BatchItem, activities, ids_of, is_refused, settle, deliver}

pub ids_of-append :
    {A : Type 0} (xs ys : List (BatchItem A)) → ids_of (xs ++ ys) ≡ ids_of xs ++ ids_of ys
ids_of-append [] ys = refl
ids_of-append (x ∷ xs) ys =
    ap (λ l. x.ids ++ l) (ids_of-append xs ys) ∙ sym (append_assoc x.ids (ids_of xs) (ids_of ys))

-- A result that is done with the first items, and with all of them if there is no error.
abbrev pub IsPrefix : {S A E : Type 0} → List (BatchItem A) → S × List ℤ × Option E → Type 0
IsPrefix {A} items r =
    (done : List (BatchItem A)) × (rest : List (BatchItem A)) × (items ≡ done ++ rest)
    × (r.1 ≡ ids_of done)
    × (r.2 ≡ none → rest ≡ [])

-- The two halves, the second of which is only delivered after the first.
IsPrefix-halves :
    {S A E : Type 0} (xs ys : List (BatchItem A)) (front back : S × List ℤ × Option E)
    → IsPrefix xs front
    → IsPrefix ys back
    → front.2 ≡ none
    → IsPrefix (xs ++ ys) (back.0, front.1 ++ back.1, back.2)
IsPrefix-halves xs ys front back (d, r, e, f, g) (d', r', e', f', g') no_error = (
  d ++ d',
  r',
  ap (λ l. l ++ ys) (e ∙ ap (λ l. d ++ l) (g no_error) ∙ append-nil d)
      ∙ ap (λ l. d ++ l) e'
      ∙ sym (append_assoc d d' r'),
  ap (λ l. l ++ back.1) f ∙ ap (λ l. ids_of d ++ l) f' ∙ sym (ids_of-append d d'),
  g',
)

IsPrefix-front :
    {S A E : Type 0} (xs ys : List (BatchItem A)) (front : S × List ℤ × Option E) (e : E)
    → IsPrefix xs front
    → front.2 ≡ some e
    → IsPrefix (xs ++ ys) front
IsPrefix-front xs ys front e (d, r, same, f, g) failed =
    (d, r ++ ys, ap (λ l. l ++ ys) same ∙ append_assoc d r ys, f, λ none_left. absurd cc)

pub single_ids :
    {A : Type 0} (i : BatchItem A) (is : List (BatchItem A))
    → (length (i ∷ is) == 1) ≡ true
    → i.ids ≡ ids_of (i ∷ is)
single_ids i [] h = sym (append-nil i.ids)
single_ids i (x ∷ is) h = absurd (ground arith)

IsPrefix-settle :
    {S A E : Type 0} (status : E → Option ℕ) (i : BatchItem A) (is xs ys : List (BatchItem A))
    (sent : S × Option E) (front back : S × List ℤ × Option E)
    → xs ++ ys ≡ i ∷ is
    → (2 ≤ length (i ∷ is) → IsPrefix xs front)
    → (2 ≤ length (i ∷ is) → IsPrefix ys back)
    → IsPrefix (i ∷ is) (settle status i is sent front back)
unfolding settle
IsPrefix-settle status i is xs ys (s, none) front back e f b =
    (i ∷ is, [], sym (append-nil (i ∷ is)), refl, λ _. refl)
IsPrefix-settle status i is xs ys (s, some x) front back e f b =
    elim (Bool-cases (is_refused status x)) [
      | inr kept ↦ rw kept ([], i ∷ is, refl, refl, λ fine. absurd cc)
      | inl refused ↦ elim (Bool-cases (length (i ∷ is) == 1)) [
        | inl single ↦
            rw (refused, single)
              (i ∷ is, [], sym (append-nil (i ∷ is)), single_ids i is single, λ _. refl)
        | inr more ↦
            let long : 2 ≤ length (i ∷ is) = ground (arith, more) in
            elim (Option-cases front.2) [
              | inr (e', failed) ↦
                  rw (refused, more, failed)
                    (subst (λ l. IsPrefix l front) e
                      (IsPrefix-front xs ys front e' (f long) failed))
              | inl fine ↦
                  rw (refused, more, fine)
                    (subst (λ l. IsPrefix l (back.0, front.1 ++ back.1, back.2)) e
                      (IsPrefix-halves xs ys front back (f long) (b long) fine))
            ]
      ]
    ]

module _ {S A E : Type 0} (send : S → List A → S × Option E) (status : E → Option ℕ) where
  pub take_half :
      (n : ℕ) (items : List (BatchItem A))
      → length items ≤ suc n
      → 2 ≤ length items
      → length (take (length items / 2) items) ≤ n
  take_half n items h k = omega (arith, length-take (length items / 2) items)

  pub drop_half :
      (n : ℕ) (items : List (BatchItem A))
      → length items ≤ suc n
      → 2 ≤ length items
      → length (drop (length items / 2) items) ≤ n
  drop_half n items h k = omega (arith, length-drop (length items / 2) items)

  -- With fuel for the number of items, the ids that a delivery returns are those of the first of
  -- its items, in their order, and those of all of them if it returns no error.
  pub deliver-IsPrefix :
      (n : ℕ) (s : S) (items : List (BatchItem A))
      → length items ≤ n
      → IsPrefix items (deliver send status n s items)
  unfolding deliver
  deliver-IsPrefix zero s [] h = ([], [], refl, refl, λ _. refl)
  deliver-IsPrefix zero s (i ∷ is) h = absurd (omega arith)
  deliver-IsPrefix (suc n) s [] h = ([], [], refl, refl, λ _. refl)
  deliver-IsPrefix (suc n) s (i ∷ is) h =
      let items = i ∷ is in
      let mid = length items / 2 in
      let sent = send s (activities items) in
      let front = deliver send status n sent.0 (take mid items) in
      IsPrefix-settle status i is (take mid items) (drop mid items) sent front
        (deliver send status n front.0 (drop mid items)) (take-append-drop mid items)
        (λ k. deliver-IsPrefix n sent.0 (take mid items) (take_half n items h k))
        (λ k. deliver-IsPrefix n front.0 (drop mid items) (drop_half n items h k))
