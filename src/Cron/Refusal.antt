-- ===== src/Cron/Refusal.antt =====
-- A delivery to a Panel that refuses a batch for the activities in it.
use mathlib.Core.Path.{subst}
use mathlib.Core.List.{append_assoc, append-nil}
use daemon.Common.{
  ℕ, zero, suc, ◌/◌, ◌≤◌, ◌≡◌, refl, sym, ap, ◌∙◌, inl, inr, Bool, true, false, not, Option, none,
  some, List, [], ◌∷◌, ◌++◌, take, drop, length, keep, any, arith, ◌==◌, if◌then◌else◌, Bool-cases,
  take-append-drop,
}
use daemon.Common.Int.{ℤ}
use daemon.Cron.{BatchItem, activities, ids_of, is_refused, settle, deliver}
use daemon.Cron.Delivery.{ids_of-append, take_half, drop_half}

-- A Panel that keeps what it accepts, and refuses a batch with an activity that it calls bad.
abbrev pub panel : {A E : Type 0} → (A → Bool) → E → List A → List A → List A × Option E
panel bad e s l = if any bad l then (s, some e) else (s ++ l, none)

abbrev pub good : {A : Type 0} → (A → Bool) → List (BatchItem A) → List A
good bad items = keep (λ a. not (bad a)) (activities items)

keep_all_good :
    {A : Type 0} (bad : A → Bool) (l : List A) → any bad l ≡ false → keep (λ a. not (bad a)) l ≡ l
keep_all_good bad [] h = refl
keep_all_good bad (x ∷ l) h = ground (arith, keep_all_good bad l)

good-append :
    {A : Type 0} (bad : A → Bool) (xs ys : List (BatchItem A))
    → good bad (xs ++ ys) ≡ good bad xs ++ good bad ys
good-append bad [] ys = refl
good-append bad (x ∷ xs) ys = elim (Bool-cases (bad x.activity)) [
  | inl refused ↦ rw refused (good-append bad xs ys)
  | inr fine ↦ rw fine (ap (λ l. x.activity ∷ l) (good-append bad xs ys))
]

-- The result of a delivery that got everything else through.
abbrev pub Delivered :
    {A E : Type 0} → (A → Bool) → List A → List (BatchItem A) → List A × List ℤ × Option E → Type 0
Delivered bad s items r = (r.0 ≡ s ++ good bad items) × (r.1 ≡ ids_of items) × (r.2 ≡ none)

Delivered-halves :
    {A E : Type 0} (bad : A → Bool) (s : List A) (xs ys : List (BatchItem A))
    (front back : List A × List ℤ × Option E)
    → Delivered bad s xs front
    → Delivered bad front.0 ys back
    → Delivered {E = E} bad s (xs ++ ys) (back.0, front.1 ++ back.1, back.2)
Delivered-halves bad s xs ys front back (a, b, c) (a', b', c') = (
  a'
      ∙ ap (λ l. l ++ good bad ys) a
      ∙ append_assoc s (good bad xs) (good bad ys)
      ∙ ap (λ l. s ++ l) (sym (good-append bad xs ys)),
  ap (λ l. l ++ back.1) b ∙ ap (λ l. ids_of xs ++ l) b' ∙ sym (ids_of-append xs ys),
  c',
)

single_bad :
    {A E : Type 0} (bad : A → Bool) (s : List A) (i : BatchItem A) (is : List (BatchItem A))
    → any bad (activities (i ∷ is)) ≡ true
    → (length (i ∷ is) == 1) ≡ true
    → Delivered {E = E} bad s (i ∷ is) (s, i.ids, none)
single_bad bad s i [] h one = (rw (bad_one h) (sym (append-nil s)), sym (append-nil i.ids), refl)
  where
    bad_one : any bad (activities (i ∷ [])) ≡ true → bad i.activity ≡ true
    bad_one h = ground (arith, h)
single_bad bad s i (x ∷ is) h one = absurd (ground arith)

Delivered-settle :
    {A E : Type 0} (bad : A → Bool) (status : E → Option ℕ) (e : E) (s : List A) (i : BatchItem A)
    (is xs ys : List (BatchItem A)) (front back : List A × List ℤ × Option E)
    → is_refused status e ≡ true
    → xs ++ ys ≡ i ∷ is
    → any bad (activities (i ∷ is)) ≡ true
    → (2 ≤ length (i ∷ is) → Delivered bad s xs front)
    → (2 ≤ length (i ∷ is) → Delivered bad front.0 ys back)
    → Delivered bad s (i ∷ is) (settle status i is (s, some e) front back)
unfolding settle
Delivered-settle bad status e s i is xs ys front back refused joined some_bad f b =
    elim (Bool-cases (length (i ∷ is) == 1)) [
      | inl single ↦ rw (refused, single) (single_bad bad s i is some_bad single)
      | inr more ↦
          let long : 2 ≤ length (i ∷ is) = ground (arith, more) in
          rw (refused, more, (f long).2)
            (subst (λ l. Delivered bad s l (back.0, front.1 ++ back.1, back.2)) joined
              (Delivered-halves bad s xs ys front back (f long) (b long)))
    ]

module _ {A E : Type 0} (bad : A → Bool) (status : E → Option ℕ) (e : E) where
  panel_refuses : (s l : List A) → any bad l ≡ true → panel bad e s l ≡ (s, some e)
  panel_refuses s l h = rw h refl

  panel_accepts : (s l : List A) → any bad l ≡ false → panel bad e s l ≡ (s ++ l, none)
  panel_accepts s l h = rw h refl

  accepted-Delivered :
      (s : List A) (i : BatchItem A) (is : List (BatchItem A))
      (front back : List A × List ℤ × Option E)
      → any bad (activities (i ∷ is)) ≡ false
      → Delivered bad s
          (i ∷ is)
          (settle status i is (panel bad e s (activities (i ∷ is))) front back)
  unfolding settle
  accepted-Delivered s i is front back fine =
      rw (panel_accepts s (activities (i ∷ is)) fine)
        (ap (λ l. s ++ l) (sym (keep_all_good bad (activities (i ∷ is)) fine)), refl, refl)

  -- A Panel that refuses, with an error that counts as a refusal, exactly the batches with a bad
  -- activity: with fuel for the number of items, a delivery to it brings it every other activity
  -- once and in order, returns the ids of all items, and no error.
  pub deliver-Delivered :
      is_refused status e ≡ true
      → (n : ℕ) (s : List A) (items : List (BatchItem A)) → length items ≤ n
      → Delivered bad s items (deliver (panel bad e) status n s items)
  unfolding deliver
  deliver-Delivered refused zero s [] h = (sym (append-nil s), refl, refl)
  deliver-Delivered refused zero s (i ∷ is) h = absurd (omega arith)
  deliver-Delivered refused (suc n) s [] h = (sym (append-nil s), refl, refl)
  deliver-Delivered refused (suc n) s (i ∷ is) h =
      let items = i ∷ is in
      let mid = length items / 2 in
      let front = deliver (panel bad e) status n s (take mid items) in
      let back = deliver (panel bad e) status n front.0 (drop mid items) in
      elim (Bool-cases (any bad (activities items))) [
        | inl some_bad ↦ rw (panel_refuses s (activities items) some_bad) (
            Delivered-settle bad status e s i is (take mid items) (drop mid items) front back
              refused (take-append-drop mid items) some_bad
              (λ k.
                deliver-Delivered refused n s (take mid items)
                  (take_half (panel bad e) status n items h k))
              (λ k.
                deliver-Delivered refused n front.0 (drop mid items)
                  (drop_half (panel bad e) status n items h k)))
        | inr fine ↦
            accepted-Delivered s i is
              (deliver (panel bad e) status n (panel bad e s (activities items)).0 (take mid items))
              (deliver (panel bad e) status n
                (deliver (panel bad e) status n (panel bad e s (activities items)).0
                  (take mid items)).0
                (drop mid items))
              fine
      ]
