-- ===== src/Collab/Edits/Applied.antt =====
-- `betterFilesCollabChangesToOperation` against the replacement of ranges.
use daemon.Common.{
  ℕ, ◌-◌, ◌≤◌, ◌≡◌, refl, ap, ◌∙◌, Bool, some, List, [], ◌∷◌, take, length, arith, ok, inl, inr,
  Result-cases,
}
use daemon.Common.Int.{ℤ, pos, negsuc, ◌+ℤ◌}
use daemon.Collab.Text.{Text, utf16_prefix}
use daemon.Collab.Text.Offsets.{widths, rune_offset_iff}
use daemon.Collab.Ot.{Ot, build, Builds}
use daemon.Collab.Edits.{
  TextEdit, edit_offset, edit_range, build_changes, changes_to_operation, sort_edits,
}
use daemon.Collab.Edits.Splice.{Range, AreOrdered, components, replace_all, run-components}

-- The edits name the ranges: by their UTF-16 offsets, with their texts.
abbrev pub Follows : Text → List TextEdit → List Range → Type 0
Follows content [] [] = Unit {0}
Follows content [] (r ∷ rs) = ⊥
Follows content (e ∷ es) [] = ⊥
Follows content (e ∷ es) (r ∷ rs) =
    (e.range_offset ≡ pos (widths (take r.start content)))
    × (e.range_offset +ℤ e.range_length ≡ pos (widths (take r.end content)))
    × (r.text ≡ e.text)
    × Follows content es rs

edit_offset_found :
    (content : Text) (z : ℤ) (k : ℕ)
    → edit_offset (utf16_prefix content) z ≡ some k
    → (k ≤ length content) × (z ≡ pos (widths (take k content)))
unfolding edit_offset
edit_offset_found content (pos n) k h =
    let (le, e) = (rune_offset_iff content n k).0 h in (le, ap pos e)
edit_offset_found content (negsuc n) k h = cc

module _ (ot : Ot) (valid_text : Text → Bool) where
  edit_range_checks :
      (prefix : List ℕ) (cursor : ℕ) (e : TextEdit) (start end : ℕ)
      → edit_range ot valid_text prefix cursor e ≡ ok (start, end)
      → (edit_offset prefix e.range_offset ≡ some start)
        × (edit_offset prefix (e.range_offset +ℤ e.range_length) ≡ some end)
        × (cursor ≤ start)
        × (start ≤ end)
  unfolding edit_range
  edit_range_checks prefix cursor e start end h = ground arith

  build_changes_round :
      (prefix : List ℕ) (size : ℕ) (op : ot.Op) (cursor : ℕ) (e : TextEdit) (es : List TextEdit)
      (op' : ot.Op)
      → build_changes ot valid_text prefix size op cursor (e ∷ es) ≡ ok op'
      → (range : ℕ × ℕ) × (edit_range ot valid_text prefix cursor e ≡ ok range)
        × (build_changes ot valid_text prefix size
              (ot.with_insert
                (ot.with_delete (ot.with_retain op (range.0 - cursor)) (range.1 - range.0))
                e.text)
              range.1
              es
            ≡ ok op')
  unfolding build_changes
  build_changes_round prefix size op cursor e es op' h =
      elim (Result-cases (edit_range ot valid_text prefix cursor e)) [
        | inr (x, r) ↦ absurd (ground arith)
        | inl (range, r) ↦ (range, r, rw r at h)
      ]

  build_changes_empty :
      (prefix : List ℕ) (size : ℕ) (op : ot.Op) (cursor : ℕ) (op' : ot.Op)
      → build_changes ot valid_text prefix size op cursor [] ≡ ok op'
      → op' ≡ ot.with_retain op (size - cursor)
  unfolding build_changes
  build_changes_empty prefix size op cursor op' h = ground arith

  -- The loop builds the components of ranges that the edits name.
  build_changes-components :
      (content : Text) (op : ot.Op) (cursor : ℕ) (es : List TextEdit) (op' : ot.Op)
      → cursor ≤ length content
      → build_changes ot valid_text (utf16_prefix content) (length content) op cursor es ≡ ok op'
      → (rs : List Range) × AreOrdered cursor rs (length content)
        × Follows content es rs
        × (op' ≡ build ot op (components rs cursor (length content)))
  build_changes-components content op cursor [] op' c h =
      ([], c, tt, build_changes_empty (utf16_prefix content) (length content) op cursor op' h)
  build_changes-components content op cursor (e ∷ es) op' c h =
      let ((start, end), r, more) =
        build_changes_round (utf16_prefix content) (length content) op cursor e es op' h in
      let (a, b, lo, hi) = edit_range_checks (utf16_prefix content) cursor e start end r in
      let from = edit_offset_found content e.range_offset start a in
      let to = edit_offset_found content (e.range_offset +ℤ e.range_length) end b in
      let (rs, ordered, follows, same) =
        build_changes-components content
          (ot.with_insert (ot.with_delete (ot.with_retain op (start - cursor)) (end - start))
            e.text)
          end es op' to.0 more in
      let range : Range = record { start = start; end = end; text = e.text } in
      (range ∷ rs, (lo, hi, ordered), (from.1, to.1, refl, follows), same)

  changes_to_operation_loop :
      (content : Text) (changes : List TextEdit) (op : ot.Op)
      → changes_to_operation ot valid_text content changes ≡ ok op
      → build_changes ot valid_text
          (utf16_prefix content)
          (length content)
          ot.empty
          0
          (sort_edits changes)
        ≡ ok op
  unfolding changes_to_operation
  changes_to_operation_loop content changes op h = ground arith

  -- Where the package applies an operation as it was built, the operation made of editor changes
  -- applies to the content, and replaces there, from the last to the first, the ascending ranges
  -- that the sorted changes name by their UTF-16 offsets, each by the text of its change.
  pub changes_to_operation-replaces :
      Builds ot
      → (content : Text) (changes : List TextEdit) (op : ot.Op)
      → changes_to_operation ot valid_text content changes ≡ ok op
      → (rs : List Range) × AreOrdered 0 rs (length content)
        × Follows content (sort_edits changes) rs
        × (ot.apply op content ≡ some (replace_all rs content))
  changes_to_operation-replaces builds content changes op h =
      let (rs, ordered, follows, same) =
        build_changes-components content ot.empty 0 (sort_edits changes) op (omega arith)
          (changes_to_operation_loop content changes op h) in
      (
        rs,
        ordered,
        follows,
        ap (λ o. ot.apply o content) same
            ∙ builds (components rs 0 (length content)) content
            ∙ run-components rs 0 content ordered,
      )
