-- ===== src/Collab/Edits.antt =====
-- Editor changes as operations, and back: `betterFilesCollabChangesToOperation` and
-- `betterFilesCollabOperationToChanges`.
pub mod Splice
pub mod Applied
use daemon.Common.{
  ℕ, ◌+◌, ◌-◌, ◌*◌, Bool, true, false, ◌&&◌, ◌||◌, not, Option, none, some, List, [], ◌∷◌, ◌++◌,
  length, get_elem?, ltb, ◌==◌, if◌then◌else◌, Result, ok, err, ◌>>=◌, ◌>>◌, require, reject,
}
use daemon.Common.Int.{ℤ, pos, negsuc, ◌+ℤ◌, pos_part, ltb_ℤ}
use daemon.Collab.Text.{Text, same_text, utf16_prefix, rune_offset, content_hash}
use daemon.Collab.Ot.{Ot, Component, retain, insert, delete}

-- `betterFilesCollabTextEdit`
pub record TextEdit : Type 0 where
  pub range_offset : ℤ
  pub range_length : ℤ
  pub text : Text
  pub base_hash : Text
  pub base_length : ℤ

pub data CollabError : Type 0 where
  base_not_found invalid_edit too_large transform_failed apply_failed : CollabError
  reconstruct_failed : CollabError
  -- An index out of range, which panics.
  panicked : CollabError

-- `sort.SliceStable` by the offset.
unfoldable pub insert_edit : TextEdit → List TextEdit → List TextEdit
insert_edit e [] = e ∷ []
insert_edit e (f ∷ fs) =
    if ltb_ℤ f.range_offset e.range_offset then f ∷ insert_edit e fs else e ∷ f ∷ fs

unfoldable pub sort_edits : List TextEdit → List TextEdit
sort_edits [] = []
sort_edits (e ∷ es) = insert_edit e (sort_edits es)

-- `betterFilesCollabRuneOffset` on an int; a negative offset is before every entry of the table.
unfoldable pub edit_offset : List ℕ → ℤ → Option ℕ
edit_offset prefix (pos n) = rune_offset prefix n
edit_offset prefix (negsuc n) = none

abbrev pub or_invalid {ℓ} : {A : Type ℓ} → Option A → Result CollabError A
or_invalid none = err invalid_edit
or_invalid (some a) = ok a

module _ (ot : Ot) (valid_text : Text → Bool) where
  open ot use {Op, empty, with_retain, with_insert, with_delete}

  -- The start and the end of an edit, in runes, after its checks.
  unfoldable pub edit_range : List ℕ → ℕ → TextEdit → Result CollabError (ℕ × ℕ)
  edit_range prefix cursor e = do
    reject (ltb_ℤ e.range_offset (pos 0) || ltb_ℤ e.range_length (pos 0) || not (valid_text e.text))
        invalid_edit
    start ← or_invalid (edit_offset prefix e.range_offset)
    end ← or_invalid (edit_offset prefix (e.range_offset +ℤ e.range_length))
    reject (ltb start cursor || ltb end start) invalid_edit
    ok (start, end)

  -- The loop over the sorted changes and the retain behind it.
  unfoldable pub build_changes : List ℕ → ℕ → Op → ℕ → List TextEdit → Result CollabError Op
  build_changes prefix size op cursor [] = ok (with_retain op (size - cursor))
  build_changes prefix size op cursor (e ∷ es) = do
    range ← edit_range prefix cursor e
    build_changes prefix size
        (with_insert (with_delete (with_retain op (range.0 - cursor)) (range.1 - range.0)) e.text)
        range.1 es

  unfoldable pub changes_to_operation : Text → List TextEdit → Result CollabError Op
  changes_to_operation content changes = do
    reject (not (valid_text content) || length changes == 0) invalid_edit
    build_changes (utf16_prefix content) (length content) empty 0 (sort_edits changes)

-- `pending`: an edit that is being put together.
pub record Pending : Type 0 where
  pub offset : ℕ
  pub length : ℕ
  pub text : Text

-- The local variables of the loop of `OperationToChanges`.
pub record Scan : Type 0 where
  pub changes : List TextEdit
  pub source : ℕ
  pub pending : Option Pending

abbrev pub edit_of : Text → ℕ → Pending → TextEdit
edit_of base_hash base_length p = record {
  range_offset = pos p.offset;
  range_length = pos p.length;
  text = p.text;
  base_hash = base_hash;
  base_length = pos base_length;
}

unfoldable pub flush : Text → ℕ → Scan → Scan
flush base_hash base_length s = elim s.pending [
  | none ↦ s
  | some p ↦ record s {
    changes =
        if not (p.length == 0) || not (same_text p.text [])
        then s.changes ++ edit_of base_hash base_length p ∷ []
        else s.changes;
    pending = none;
  }
]

abbrev pub entry : List ℕ → ℕ → Result CollabError ℕ
entry prefix i = elim (get_elem? prefix i) [ none ↦ err panicked | some n ↦ ok n ]

-- The pending edit, begun at the place of the scan if there is none.
unfoldable pub pend : List ℕ → Scan → Result CollabError Pending
pend prefix s = elim s.pending [
  | some p ↦ ok p
  | none ↦ do offset ← entry prefix s.source; ok (record { offset = offset; length = 0; text = [] })
]

-- One round of the loop over `Ops`, for a text of `size` runes.
unfoldable pub scan_component : Text → ℕ → List ℕ → ℕ → Component → Scan → Result CollabError Scan
scan_component base_hash base_length prefix size (retain n) s =
    ok (record (flush base_hash base_length s) { source = s.source + n })
scan_component base_hash base_length prefix size (insert t) s = do
  p ← pend prefix s
  ok (record s { pending = some (record p { text = p.text ++ t }) })
scan_component base_hash base_length prefix size (delete n) s = do
  reject (ltb size (s.source + n)) invalid_edit
  p ← pend prefix s
  to ← entry prefix (s.source + n)
  from ← entry prefix s.source
  ok (record s {
    pending = some (record p { length = p.length + (to - from) });
    source = s.source + n;
  })

unfoldable pub scan_ops : Text → ℕ → List ℕ → ℕ → List Component → Scan → Result CollabError Scan
scan_ops base_hash base_length prefix size [] s = ok (flush base_hash base_length s)
scan_ops base_hash base_length prefix size (c ∷ cs) s = do
  s' ← scan_component base_hash base_length prefix size c s
  scan_ops base_hash base_length prefix size cs s'

-- The operation is not nil here.
unfoldable pub operation_to_changes : (ot : Ot) → Text → ot.Op → Result CollabError (List TextEdit)
operation_to_changes ot content op = do
  require (ot.base_len op == length content) invalid_edit
  base_length ← entry (utf16_prefix content) (length content)
  done ←
      scan_ops (content_hash content) base_length (utf16_prefix content) (length content)
        (ot.ops op) (record { changes = []; source = 0; pending = none })
  require (done.source == length content) invalid_edit
  ok done.changes
