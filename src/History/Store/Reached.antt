-- ===== src/History/Store/Reached.antt =====
-- Runs of the operations of server/file_history.go, from empty tables.
use daemon.Common.{ℕ, ◌≤◌, ◌≡◌, some, [], ok, String}
use daemon.History.Table.{Bytes, Row, Tables, find_row}
use daemon.History.Replay.{Codec, IsLossless, Distinguishes, max_steps}
use daemon.History.Store.Valid.{IsValid, record_revision-IsValid, content-IsValid}
use daemon.History.Store.Files.{delete_file-IsValid, rename_file-IsValid}
use daemon.History.Prune.{HistoryConfig}
use daemon.History.Store.{content, record_revision, delete_file, rename_file}

module _ (c : Codec) where
  -- The tables that the operations of the store make of empty ones.
  pub data Reachable (cfg : HistoryConfig) : Tables → Type 0 where
    empty : Reachable cfg (record { files = []; revisions = [] })
    recorded :
        {t t' : Tables} (path : String) (before after : Bytes) (user : String) (now id : ℕ)
        → Reachable cfg t
        → record_revision c cfg t path before after user now ≡ ok (t', id)
        → Reachable cfg t'
    deleted : {t : Tables} (path : String) → Reachable cfg t → Reachable cfg (delete_file path t)
    renamed_to :
        {t t' : Tables} (old new : String)
        → Reachable cfg t
        → rename_file old new t ≡ ok t'
        → Reachable cfg t'

  pub Reachable-IsValid :
      IsLossless c
      → Distinguishes c
      → (cfg : HistoryConfig) → cfg.anchor_interval ≤ max_steps
      → (t : Tables) → Reachable cfg t
      → IsValid c t
  Reachable-IsValid lossless distinct cfg le t empty = record { sound = tt; files = tt; owned = tt }
  Reachable-IsValid lossless distinct cfg le t
        (recorded {t = s} path before after user now id r e) =
      record_revision-IsValid c lossless distinct cfg s path before after user now t id le
        (Reachable-IsValid lossless distinct cfg le s r) e
  Reachable-IsValid lossless distinct cfg le t (deleted {t = s} path r) =
      delete_file-IsValid c path s (Reachable-IsValid lossless distinct cfg le s r)
  Reachable-IsValid lossless distinct cfg le t (renamed_to {t = s} old new r e) =
      rename_file-IsValid c old new s t (Reachable-IsValid lossless distinct cfg le s r) e

  -- Where the codec gives back what it encoded and hashes tell contents apart, and with an anchor
  -- interval of at most 1000: after any run of records, deletions and renamings from empty tables,
  -- every revision that there is reads back, as a content of its hash with the path of a file.
  pub content-Reachable :
      IsLossless c
      → Distinguishes c
      → (cfg : HistoryConfig) → cfg.anchor_interval ≤ max_steps
      → (t : Tables) (id : ℕ) (row : Row) → Reachable cfg t
      → find_row id t.revisions ≡ some row
      → (bytes : Bytes) × (path : String) × (content c t id ≡ ok (bytes, path))
        × (c.hash bytes ≡ row.content_hash)
  content-Reachable lossless distinct cfg le t id row r found =
      content-IsValid c t id row (Reachable-IsValid lossless distinct cfg le t r) found
