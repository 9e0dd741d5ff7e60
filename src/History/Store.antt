-- ===== src/History/Store.antt =====
-- The operations of `fileHistoryStore` in server/file_history.go. The mutex makes each one step, and
-- the transaction of `record` leaves the tables as they were where it returns an error.
pub mod Sound
pub mod Dropped
pub mod Kept
pub mod Paid
pub mod Ended
pub mod Inserted
pub mod Next
pub mod Recorded
pub mod Valid
pub mod Renamed
pub mod Files
pub mod Reached
use daemon.Common.{
  ℕ, zero, suc, ◌+◌, ◌-◌, Bool, true, false, ◌&&◌, not, Option, none, some, List, [], ◌∷◌, length,
  keep, map, leb, ltb, ◌==◌, if◌then◌else◌, is_some, Result, ok, err, ◌>>=◌, ◌>>◌, reject, String,
  str_eq,
}
use daemon.History.Table.{
  Bytes, same_bytes, Row, File, Tables, find_path, find_file, find_row, upsert_file,
  find_history_file, latest_revision, latest_chain, chain_length, delete_rows,
}
use daemon.History.Replay.{
  Codec, HistoryError, path_taken, no_rows, reconstruct, insert_snapshot, insert_compact,
}
use daemon.History.Prune.{HistoryConfig, max_uint64, prune_file, prune_server}

-- `FileRevision`
pub record FileRevision : Type 0 where
  pub id : ℕ
  pub size : ℕ
  pub stored_size : ℕ
  pub user : String
  pub is_snapshot : Bool
  pub created : ℕ

abbrev pub file_revision : Row → FileRevision
file_revision r = record {
  id = r.id;
  size = r.size;
  stored_size = length r.payload;
  user = r.user_id;
  is_snapshot = not (is_some r.base_id);
  created = r.created;
}

unfoldable pub list : String → Tables → List FileRevision
list path t =
    if find_history_file path t == 0
    then []
    else map file_revision (keep (λ r. r.file_id == find_history_file path t) t.revisions)

-- `deleteFile`, with the revisions that `ON DELETE CASCADE` takes along.
unfoldable pub delete_file : String → Tables → Tables
delete_file path t = elim (find_path path t.files) [
  | none ↦ t
  | some f ↦ record {
    files = keep (λ g. not (str_eq g.path path)) t.files;
    revisions = delete_rows (λ r. r.file_id == f.id) t.revisions;
  }
]

abbrev pub rename : String → String → File → File
rename old new f = if str_eq f.path old then record f { path = new } else f

-- `renameFile`; two files of one path are refused by `UNIQUE`.
unfoldable pub rename_file : String → String → Tables → Result HistoryError Tables
rename_file old new t =
    if is_some (find_path old t.files) && is_some (find_path new t.files) && not (str_eq old new)
    then err path_taken
    else ok (record t { files = map (rename old new) t.files })

-- The two calls that prune, behind an insertion.
unfoldable pub prune : HistoryConfig → ℕ → List Row → List Row
prune cfg file rows =
    let protected = latest_chain file rows in
    prune_server file protected cfg (prune_file file protected cfg rows)

module _ (c : Codec) where
  unfoldable pub content : Tables → ℕ → Result HistoryError (Bytes × String)
  content t id = do
    bytes ← reconstruct c t.revisions id
    elim (find_row id t.revisions) [
      | none ↦ err no_rows
      | some r ↦ elim (find_file r.file_id t.files) [
        | none ↦ err no_rows
        | some f ↦ ok (bytes, f.path)
      ]
    ]

  -- The revision before any other one of a file.
  unfoldable pub insert_first :
      ℕ → Bytes → Bytes → String → ℕ → List Row → Result HistoryError (List Row × ℕ)
  insert_first file before after user now rows =
      if ltb 0 (length before)
      then (do
        base ← insert_snapshot c file "" before (now - 1) rows
        insert_compact c file base.1 base.1 before user after now base.0)
      else insert_snapshot c file user after now rows

  -- A revision behind the latest one, whose content is not the same.
  unfoldable pub insert_next :
      HistoryConfig → ℕ → Row → Bytes → String → ℕ → List Row → Result HistoryError (List Row × ℕ)
  insert_next cfg file latest after user now rows =
      if leb (max_uint64 cfg.anchor_interval 1) (chain_length file latest.chain_id rows)
      then insert_snapshot c file user after now rows
      else elim (reconstruct c rows latest.id) [
        | err _ ↦ insert_snapshot c file user after now rows
        | ok previous ↦ insert_compact c file latest.id latest.chain_id previous user after now rows
      ]

  unfoldable pub record_in :
      HistoryConfig → Tables → ℕ → Bytes → Bytes → String → ℕ → Result HistoryError (Tables × ℕ)
  record_in cfg t file before after user now = elim (latest_revision file t.revisions) [
    | none ↦ do
      inserted ← insert_first file before after user now t.revisions
      ok (record t { revisions = prune cfg file inserted.0 }, inserted.1)
    | some latest ↦ if same_bytes latest.content_hash (c.hash after) then ok (t, latest.id) else (do
      inserted ← insert_next cfg file latest after user now t.revisions
      ok (record t { revisions = prune cfg file inserted.0 }, inserted.1))
  ]

  unfoldable pub record_revision :
      HistoryConfig
      → Tables
      → String
      → Bytes
      → Bytes
      → String
      → ℕ
      → Result HistoryError (Tables × ℕ)
  record_revision cfg t path before after user now =
      if same_bytes before after
      then ok (t, 0)
      else let (t', file) = upsert_file path t in record_in cfg t' file before after user now
