-- ===== src/Collab/Edits/Splice.antt =====
-- Replacement of ranges of a text, and the components that stand for it.
use mathlib.Core.Path.{subst, subst₂}
use mathlib.Core.List.{append-nil}
use daemon.Common.{
  ℕ, ◌-◌, ◌≤◌, ◌≡◌, refl, sym, ap, ◌∙◌, some, List, [], ◌∷◌, ◌++◌, take, drop, length, arith,
  length-take, length-append, length-drop, take-append, take-append-drop, drop-drop, take-drop,
  take-take, drop-append_le,
}
use daemon.Collab.Text.{Text}
use daemon.Collab.Ot.{Component, retain, insert, delete, run}
use daemon.Collab.Ot.Plain.{retain-run, delete-run, insert-run}

-- A range of runes with its new text.
pub record Range : Type 0 where
  pub start : ℕ
  pub end : ℕ
  pub text : Text

abbrev pub replace : Range → Text → Text
replace r s = take r.start s ++ (r.text ++ drop r.end s)

-- The ranges replaced one by one, the last one first, so that none moves those before it.
abbrev pub replace_all : List Range → Text → Text
replace_all [] s = s
replace_all (r ∷ rs) s = replace r (replace_all rs s)

-- From a cursor on, the ranges ascend, do not overlap and end within the text.
abbrev pub AreOrdered : ℕ → List Range → ℕ → Type 0
AreOrdered cursor [] size = cursor ≤ size
AreOrdered cursor (r ∷ rs) size = (cursor ≤ r.start) × (r.start ≤ r.end) × AreOrdered r.end rs size

-- The builder calls of the loop, as components.
abbrev pub components : List Range → ℕ → ℕ → List Component
components [] cursor size = retain (size - cursor) ∷ []
components (r ∷ rs) cursor size =
    retain (r.start - cursor) ∷ delete (r.end - r.start) ∷ insert r.text ∷ components rs r.end size

end_bound : (rs : List Range) (cursor size : ℕ) → AreOrdered cursor rs size → cursor ≤ size
end_bound [] cursor size h = h
end_bound (r ∷ rs) cursor size (a, b, h) = omega (arith, end_bound rs r.end size h)

take-replace :
    (r : Range) (s : Text) (c : ℕ)
    → c ≤ r.start
    → r.start ≤ length s
    → (take c (replace r s) ≡ take c s) × (c ≤ length (replace r s))
take-replace r s c h k =
    let size = length-take r.start s in
    (
      sym (take-take c r.start (replace r s) h)
          ∙ ap (take c)
              (take-append (take r.start s) (r.text ++ drop r.end s) r.start (omega (arith, size)))
          ∙ take-take c r.start s h,
      rw (length-append (take r.start s) (r.text ++ drop r.end s)) (omega (arith, size)),
    )

-- Before the first range nothing changes.
take-replace_all :
    (rs : List Range) (cursor : ℕ) (s : Text)
    → AreOrdered cursor rs (length s)
    → (take cursor (replace_all rs s) ≡ take cursor s) × (cursor ≤ length (replace_all rs s))
take-replace_all [] cursor s h = (refl, h)
take-replace_all (r ∷ rs) cursor s (a, b, h) =
    let (same, long) = take-replace_all rs r.end s h in
    let (kept, room) = take-replace r (replace_all rs s) cursor a (omega (arith, long)) in
    (
      kept
          ∙ sym (take-take cursor r.end (replace_all rs s) (omega arith))
          ∙ ap (take cursor) same
          ∙ take-take cursor r.end s (omega arith),
      room,
    )

run-empty : run [] [] ≡ some []
unfolding run
run-empty = refl

-- The text behind the cursor, split at the range.
split_twice :
    (r : Range) (cursor : ℕ) (s : Text)
    → cursor ≤ r.start
    → r.start ≤ r.end
    → take (r.start - cursor) (drop cursor s)
        ++ (take (r.end - r.start) (drop r.start s) ++ drop r.end s)
      ≡ drop cursor s
split_twice r cursor s a b =
    ap (λ t. take (r.start - cursor) (drop cursor s) ++ t)
      (ap (λ t. take (r.end - r.start) (drop r.start s) ++ t)
          (sym (drop-drop r.start (r.end - r.start) r.end s (omega arith)))
        ∙ take-append-drop (r.end - r.start) (drop r.start s)
        ∙ sym (drop-drop cursor (r.start - cursor) r.start s (omega arith)))
    ∙ take-append-drop (r.start - cursor) (drop cursor s)

take_start :
    (r : Range) (s s' : Text)
    → r.start ≤ r.end
    → take r.end s' ≡ take r.end s
    → take r.start s' ≡ take r.start s
take_start r s s' b same =
    sym (take-take r.start r.end s' b) ∙ ap (take r.start) same ∙ take-take r.start r.end s b

-- The replaced text behind the cursor.
join :
    (r : Range) (cursor : ℕ) (s s' : Text)
    → cursor ≤ r.start
    → r.start ≤ length s'
    → take r.start s' ≡ take r.start s
    → take (r.start - cursor) (drop cursor s) ++ (r.text ++ drop r.end s')
      ≡ drop cursor (replace r s')
join r cursor s s' a long same =
    ap (λ t. t ++ (r.text ++ drop r.end s'))
      (take-drop cursor (r.start - cursor) r.start s (omega arith) ∙ ap (drop cursor) (sym same))
    ∙ sym (
        drop-append_le (take r.start s') (r.text ++ drop r.end s') cursor
          (omega (arith, length-take r.start s')))

-- What the components do behind the cursor is what the replacements do there.
pub run-components :
    (rs : List Range) (cursor : ℕ) (s : Text)
    → AreOrdered cursor rs (length s)
    → run (components rs cursor (length s)) (drop cursor s) ≡ some (drop cursor (replace_all rs s))
run-components [] cursor s h =
    subst (λ t. run (retain (length s - cursor) ∷ []) t ≡ some t) (append-nil (drop cursor s))
      (retain-run (length s - cursor) [] (drop cursor s) [] [] (length-drop cursor s) run-empty)
run-components (r ∷ rs) cursor s (a, b, h) =
    let (same, long) = take-replace_all rs r.end s h in
    let bound = end_bound rs r.end (length s) h in
    let s' = replace_all rs s in
    let kept = take (r.start - cursor) (drop cursor s) in
    let gone = take (r.end - r.start) (drop r.start s) in
    subst₂ (λ t u. run (components (r ∷ rs) cursor (length s)) t ≡ some u)
      (split_twice r cursor s a b)
      (join r cursor s s' a (omega (arith, long)) (take_start r s s' b same))
      (retain-run (r.start - cursor) _ kept (gone ++ drop r.end s) (r.text ++ drop r.end s')
        (omega (arith, length-take (r.start - cursor) (drop cursor s), length-drop cursor s, bound))
        (delete-run (r.end - r.start) _ gone (drop r.end s) (r.text ++ drop r.end s')
          (omega
            (arith, length-take (r.end - r.start) (drop r.start s), length-drop r.start s, bound))
          (insert-run r.text _ (drop r.end s) (drop r.end s') (run-components rs r.end s h))))
