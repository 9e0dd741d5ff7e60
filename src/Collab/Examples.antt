-- ===== src/Collab/Examples.antt =====
-- Runs of the shared text document, and the theorems at concrete inputs.
use daemon.Common.{
  ◌-◌, take, ◌↔◌, ◌+◌, ◌≤◌, ◌≡◌, refl, Bool, true, false, none, some, List, [], ◌∷◌, length,
  get_elem?, Result, ok, err,
}
use daemon.Common.Int.{pos, ◌+ℤ◌}
use daemon.Collab.Text.{
  Text, utf16_units, utf16_encode, utf16_len, prefix_from, utf16_prefix, search_ints, rune_offset,
  hash_units, hex_digits, content_hash, utf8_len,
}
use daemon.Collab.Text.Offsets.{widths, rune_offset_iff}
use daemon.Collab.Ot.{Component, retain, insert, delete, run}
use daemon.Collab.Ot.Plain.{inverse, plain, plain-Builds, plain-Inverts}
use daemon.Collab.Edits
use daemon.Collab.Edits.{
  TextEdit, insert_edit, sort_edits, edit_offset, edit_range, build_changes, changes_to_operation,
  flush, pend, scan_component, scan_ops, operation_to_changes,
}
use daemon.Collab.Edits.Splice.{Range, AreOrdered, replace_all}
use daemon.Collab.Edits.Applied.{Follows, changes_to_operation-replaces}
use daemon.Collab.Document.{
  new_document, Document, ApplyResult, replace, snapshot, find_base, rebuild, resolve_agreed,
  resolve_base, transform_past, push_history, commit, apply_monaco_changes,
}
use daemon.Collab.Document.History.{IsValid, apply_monaco_changes-IsValid, replace-IsValid}
use daemon.Collab.Document.Base.{resolve_base-past}

program : Unit {0}
unfolding new_document utf16_units utf16_encode utf16_len prefix_from utf16_prefix search_ints
    rune_offset hash_units hex_digits content_hash utf8_len run inverse insert_edit sort_edits
    edit_offset edit_range build_changes changes_to_operation flush pend scan_component scan_ops
    operation_to_changes replace snapshot find_base rebuild resolve_agreed resolve_base
    transform_past push_history commit apply_monaco_changes ◌+ℤ◌
program = tt

-- The characters A and B around one that is a surrogate pair in UTF-16.
abbrev smile : Text
smile = b'A' ∷ 0x1f600 ∷ b'B' ∷ []

abbrev all_texts : Text → Bool
all_texts s = true

-- The edit that replaces the pair by C, against the text as it is now.
abbrev edit : TextEdit
edit = record {
  range_offset = pos 1;
  range_length = pos 2;
  text = b'C' ∷ [];
  base_hash = [];
  base_length = pos 0;
}

abbrev start : Document plain
start = replace plain (record (new_document plain []) { revision = 4 }) smile

abbrev outcome : Result Edits.CollabError (Document plain × ApplyResult plain)
outcome = apply_monaco_changes plain all_texts start (edit ∷ []) (pos 100)

abbrev op : List Component
op = retain 1 ∷ delete 1 ∷ insert (b'C' ∷ []) ∷ retain 1 ∷ []

edit-op : changes_to_operation plain all_texts smile (edit ∷ []) ≡ ok op
unfolding program
edit-op = refl

inside_pair : rune_offset (utf16_prefix smile) 2 ≡ none
unfolding program
inside_pair = refl

-- The hash of "AB": 65 * 31 + 66 = 0x821.
hash_of_text :
    content_hash (b'A' ∷ b'B' ∷ []) ≡ b'0' ∷ b'0' ∷ b'0' ∷ b'0' ∷ b'0' ∷ b'8' ∷ b'2' ∷ b'1' ∷ []
unfolding program
hash_of_text = refl

unknown_base :
    resolve_base plain start (record edit { base_hash = b'x' ∷ [] } ∷ []) ≡ err Edits.base_not_found
unfolding program
unknown_base = refl

-- The document once the edit is applied, and what the call returns.
abbrev edited : Document plain
edited = commit plain start op (b'A' ∷ b'C' ∷ b'B' ∷ [])

abbrev result : ApplyResult plain
result = record {
  changes = record edit { base_hash = content_hash smile; base_length = pos 4 } ∷ [];
  revision = 6;
  transformed = false;
}

accepted : apply_monaco_changes plain all_texts start (edit ∷ []) (pos 100) ≡ ok (edited, result)
unfolding program
accepted = refl

too_large : apply_monaco_changes plain all_texts start (edit ∷ []) (pos 2) ≡ err Edits.too_large
unfolding program
too_large = refl

start-IsValid : IsValid plain start
start-IsValid = replace-IsValid plain (record (new_document plain []) { revision = 4 }) smile

apply_monaco_changes-IsValid_example :
    IsValid plain edited
    × (edited.revision ≡ start.revision + 1)
    × (result.revision ≡ edited.revision)
apply_monaco_changes-IsValid_example =
    apply_monaco_changes-IsValid plain plain-Inverts all_texts start edited (edit ∷ []) (pos 100)
      result accepted start-IsValid

edited-IsValid : IsValid plain edited
edited-IsValid =
    (apply_monaco_changes-IsValid plain plain-Inverts all_texts start edited (edit ∷ []) (pos 100)
      result accepted start-IsValid).0

changes_to_operation-replaces_example :
    (rs : List Range) × AreOrdered 0 rs 3
    × Follows smile (sort_edits (edit ∷ [])) rs
    × (run op smile ≡ some (replace_all rs smile))
changes_to_operation-replaces_example =
    changes_to_operation-replaces plain all_texts plain-Builds smile (edit ∷ []) op edit-op

rune_offset_iff_example :
    (rune_offset (utf16_prefix smile) 3 ≡ some 2)
    ↔ ((2 ≤ length smile) × (3 ≡ widths (take 2 smile)))
rune_offset_iff_example = rune_offset_iff smile 3 2

-- An edit of the text as it was before the first one.
abbrev late_edit : TextEdit
late_edit = record edit { base_hash = content_hash smile; base_length = pos 4 }

resolved : resolve_base plain edited (late_edit ∷ []) ≡ ok (5, smile)
unfolding program
resolved = refl

resolve_base-past_example :
    (5 ≤ edited.revision)
    × (get_elem? (edited.content ∷ edited-IsValid.earlier) (edited.revision - 5) ≡ some smile)
resolve_base-past_example = resolve_base-past plain edited-IsValid (late_edit ∷ []) 5 smile resolved
