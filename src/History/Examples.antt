-- ===== src/History/Examples.antt =====
-- Runs of the file history with a plain codec, and the theorems at concrete inputs.
use daemon.Common.{
  ℕ, ◌≤◌, ◌≡◌, refl, sym, ◌⊎◌, true, Option, none, some, [], ◌∷◌, ◌++◌, length, drop, map, arith,
  ◌==◌, Result, ok, err, String,
}
use daemon.History.Table.{
  Bytes, Row, Tables, find_row, upsert_file, find_history_file, latest_revision, latest_chain,
  chain_length, chains_of, insert_row, payload_sum,
}
use daemon.History.Replay.{
  Codec, IsLossless, Distinguishes, HistoryError, path_taken, encode_delta, collect, replay,
  replay_chain, reconstruct, insert_encoded_snapshot, insert_snapshot, insert_compact,
}
use daemon.History.Prune.{
  HistoryConfig, prune_old_chains, drop_oldest, is_droppable, first_chain, drop_globally_oldest,
  drop_until, prune_file, prune_server,
}
use daemon.History.Store.{
  list, delete_file, rename_file, content, insert_first, insert_next, prune, record_in,
  record_revision,
}
use daemon.History.Store.Valid.{IsValid, record_revision-IsValid, content-record_revision}
use daemon.History.Store.Paid.{ArePaid}
use daemon.History.Store.Ended.{NoneOldest, NoneDroppable, prune_file-ends, prune_server-ends}
use daemon.History.Store.Reached.{Reachable, empty, recorded, Reachable-IsValid, content-Reachable}

program : Unit {0}
unfolding upsert_file find_history_file latest_revision latest_chain chain_length chains_of
    insert_row encode_delta collect replay replay_chain reconstruct insert_encoded_snapshot
    insert_snapshot insert_compact prune_old_chains drop_oldest is_droppable first_chain
    drop_globally_oldest drop_until prune_file prune_server list delete_file rename_file content
    insert_first insert_next prune record_in record_revision
program = tt

-- Snapshots are the content, deltas what is behind the base.
abbrev plain : Codec
plain = record {
  encode = λ content. some content;
  decode = λ payload. some payload;
  encode_with = λ base content. some (drop (length base) content);
  decode_with = λ base payload. some (base ++ payload);
  hash = λ content. content;
}

plain-IsLossless : IsLossless plain
plain-IsLossless content payload e = sym e

plain-Distinguishes : Distinguishes plain
plain-Distinguishes a b e = e

abbrev cfg : HistoryConfig
cfg = record { anchor_interval = 3; keep_chains = 2; per_file_budget = 100; per_server_budget = 8 }

abbrev nothing : Tables
nothing = record { files = []; revisions = [] }

abbrev first_content : Bytes
first_content = 1 ∷ 2 ∷ 3 ∷ 4 ∷ []

abbrev second_content : Bytes
second_content = 1 ∷ 2 ∷ 3 ∷ 4 ∷ 5 ∷ []

abbrev third_content : Bytes
third_content = 9 ∷ 8 ∷ 7 ∷ 6 ∷ []

abbrev tables_of : Result HistoryError (Tables × ℕ) → Tables
tables_of (ok (t, id)) = t
tables_of (err x) = nothing

abbrev one : Tables
one = tables_of (record_revision plain cfg nothing "a" [] first_content "u" 5)

abbrev two : Tables
two = tables_of (record_revision plain cfg one "a" first_content second_content "u" 6)

-- A third content that is no continuation of the second: its chain takes the place of the first.
abbrev three : Tables
three = tables_of (record_revision plain cfg two "a" second_content third_content "u" 7)

two_revisions : map {B = ℕ × ℕ} (λ r. (r.id, r.stored_size)) (list "a" two) ≡ (2, 1) ∷ (1, 4) ∷ []
unfolding program
two_revisions = refl

one_revision : map {B = ℕ × ℕ} (λ r. (r.id, r.stored_size)) (list "a" three) ≡ (3, 4) ∷ []
unfolding program
one_revision = refl

renamed_and_read : Result HistoryError (Bytes × String)
renamed_and_read = elim (rename_file "a" "b" two) [ ok t ↦ content plain t 1 | err x ↦ err x ]

read_after_rename : renamed_and_read ≡ ok (first_content, "b")
unfolding program renamed_and_read
read_after_rename = refl

taken_path :
    rename_file "a" "b" (tables_of (record_revision plain cfg two "b" [] third_content "u" 8))
    ≡ err path_taken
unfolding program
taken_path = refl

no_revisions_left : (delete_file "a" two).revisions ≡ []
unfolding program
no_revisions_left = refl

one_recorded : record_revision plain cfg nothing "a" [] first_content "u" 5 ≡ ok (one, 1)
unfolding program
one_recorded = refl

two_recorded : record_revision plain cfg one "a" first_content second_content "u" 6 ≡ ok (two, 2)
unfolding program
two_recorded = refl

three_recorded :
    record_revision plain cfg two "a" second_content third_content "u" 7 ≡ ok (three, 3)
unfolding program
three_recorded = refl

two-Reachable : Reachable plain cfg two
two-Reachable =
    recorded "a" first_content second_content "u" 6 2
      (recorded "a" [] first_content "u" 5 1 empty one_recorded) two_recorded

two-IsValid : IsValid plain two
two-IsValid =
    Reachable-IsValid plain plain-IsLossless plain-Distinguishes cfg (omega arith) two two-Reachable

content-record_revision_example : content plain three 3 ≡ ok (third_content, "a")
content-record_revision_example =
    content-record_revision plain plain-IsLossless plain-Distinguishes cfg two "a" second_content
      third_content "u" 7 three 3 (omega arith) two-IsValid refl three_recorded

record_revision-IsValid_example : IsValid plain three
record_revision-IsValid_example =
    record_revision-IsValid plain plain-IsLossless plain-Distinguishes cfg two "a" second_content
      third_content "u" 7 three 3 (omega arith) two-IsValid three_recorded

abbrev row_of : Option Row → Row
row_of none = record {
  id = 0;
  file_id = 0;
  chain_id = 0;
  size = 0;
  user_id = "";
  base_id = none;
  payload = [];
  content_hash = [];
  created = 0;
}
row_of (some r) = r

abbrev second_row : Row
second_row = row_of (find_row 2 two.revisions)

second_found : find_row 2 two.revisions ≡ some second_row
unfolding program
second_found = refl

content-Reachable_example :
    (bytes : Bytes) × (path : String) × (content plain two 2 ≡ ok (bytes, path))
    × (plain.hash bytes ≡ second_row.content_hash)
content-Reachable_example =
    content-Reachable plain plain-IsLossless plain-Distinguishes cfg (omega arith) two 2 second_row
      two-Reachable second_found

two-ArePaid : ArePaid two.revisions
unfolding program
two-ArePaid = (omega arith, (omega arith, tt))

prune_server-ends_example :
    (payload_sum
        (λ r. true)
        (prune_server 1 (some 1) (record cfg { per_server_budget = 4 }) two.revisions)
      ≤ 4)
    ⊎ NoneDroppable 1
        (some 1)
        (prune_server 1 (some 1) (record cfg { per_server_budget = 4 }) two.revisions)
prune_server-ends_example =
    prune_server-ends 1 (some 1) (record cfg { per_server_budget = 4 }) two.revisions refl
      two-ArePaid

prune_file-ends_example :
    (payload_sum
        (λ r. r.file_id == 1)
        (prune_file 1 (some 1) (record cfg { per_file_budget = 4 }) two.revisions)
      ≤ 4)
    ⊎ NoneOldest 1
        (some 1)
        2
        (prune_file 1 (some 1) (record cfg { per_file_budget = 4 }) two.revisions)
prune_file-ends_example =
    prune_file-ends 1 (some 1) (record cfg { per_file_budget = 4 }) two.revisions two-ArePaid
