-- ===== src/History/Table.antt =====
-- The tables of server/file_history.go and its SQL statements. The table of revisions is a list, the
-- last one first; a new row has the greatest id plus one, as SQLite gives it. Numbers of type int64
-- that are ids, sizes and times are natural numbers; a NULL is `none`.
pub mod Chains
use Prim.Native.Nat.{max}
use daemon.Common.{
  ℕ, zero, suc, ◌+◌, ◌≤◌, Bool, true, false, ◌&&◌, not, Option, none, some, List, [], ◌∷◌, find?,
  keep, length, String, str_eq, ltb, ◌==◌, if◌then◌else◌,
}

abbrev pub Bytes : Type 0
Bytes = List ℕ

-- `bytes.Equal`, and `==` on hashes.
abbrev pub same_bytes : Bytes → Bytes → Bool
same_bytes [] [] = true
same_bytes [] (b ∷ ys) = false
same_bytes (a ∷ xs) [] = false
same_bytes (a ∷ xs) (b ∷ ys) = a == b && same_bytes xs ys

-- A row of `revisions`.
pub record Row : Type 0 where
  pub id : ℕ
  pub file_id : ℕ
  pub chain_id : ℕ
  pub size : ℕ
  pub user_id : String
  pub base_id : Option ℕ
  pub payload : Bytes
  pub content_hash : Bytes
  pub created : ℕ

-- A row of `files`.
pub record File : Type 0 where
  pub id : ℕ
  pub path : String

pub record Tables : Type 0 where
  pub files : List File
  pub revisions : List Row

abbrev pub max_id : List Row → ℕ
max_id [] = 0
max_id (r ∷ rs) = max r.id (max_id rs)

abbrev pub max_file_id : List File → ℕ
max_file_id [] = 0
max_file_id (f ∷ fs) = max f.id (max_file_id fs)

-- `WHERE id = ?`
abbrev pub find_row : ℕ → List Row → Option Row
find_row id = find? (λ r. r.id == id)

abbrev pub find_path : String → List File → Option File
find_path path = find? (λ f. str_eq f.path path)

abbrev pub find_file : ℕ → List File → Option File
find_file id = find? (λ f. f.id == id)

-- `upsertHistoryFile`
unfoldable pub upsert_file : String → Tables → Tables × ℕ
upsert_file path t = elim (find_path path t.files) [
  | some f ↦ (t, f.id)
  | none ↦ (
    record t { files = record { id = suc (max_file_id t.files); path = path } ∷ t.files },
    suc (max_file_id t.files),
  )
]

-- `findHistoryFile`: 0 says that there is none.
unfoldable pub find_history_file : String → Tables → ℕ
find_history_file path t = elim (find_path path t.files) [ some f ↦ f.id | none ↦ 0 ]

-- `latestFileRevision`
unfoldable pub latest_revision : ℕ → List Row → Option Row
latest_revision file = find? (λ r. r.file_id == file)

-- `latestHistoryChainID`
unfoldable pub latest_chain : ℕ → List Row → Option ℕ
unfolding latest_revision
latest_chain file rows = elim (latest_revision file rows) [ none ↦ none | some r ↦ some r.chain_id ]

-- `WHERE file_id = ? AND chain_id = ?`
abbrev pub in_chain : ℕ → ℕ → Row → Bool
in_chain file chain r = r.file_id == file && r.chain_id == chain

-- `currentHistoryChainLength`
unfoldable pub chain_length : ℕ → ℕ → List Row → ℕ
chain_length file chain rows = length (keep (in_chain file chain) rows)

-- `INSERT INTO revisions`, for a snapshot with the statement behind it that makes the row its own
-- chain (`chain` is `none`), for a delta with the chain of its base.
unfoldable pub insert_row :
    ℕ → Option ℕ → String → Option ℕ → ℕ → Bytes → Bytes → ℕ → List Row → List Row × ℕ
insert_row file chain user base size payload hash created rows =
    let id = suc (max_id rows) in
    (
      record {
        id = id;
        file_id = file;
        chain_id = elim chain [ none ↦ id | some c ↦ c ];
        size = size;
        user_id = user;
        base_id = base;
        payload = payload;
        content_hash = hash;
        created = created;
      }
          ∷ rows,
      id,
    )

-- `DELETE FROM revisions WHERE …`
abbrev pub delete_rows : (Row → Bool) → List Row → List Row
delete_rows p = keep (λ r. not (p r))

-- `SUM(LENGTH(payload))` of the rows that a test passes.
abbrev pub payload_sum : (Row → Bool) → List Row → ℕ
payload_sum p [] = 0
payload_sum p (r ∷ rs) = (if p r then length r.payload else 0) + payload_sum p rs

-- `SELECT DISTINCT chain_id … ORDER BY chain_id DESC` of a file.
abbrev pub insert_chain : ℕ → List ℕ → List ℕ
insert_chain c [] = c ∷ []
insert_chain c (d ∷ ds) =
    if c == d then d ∷ ds else if ltb d c then c ∷ d ∷ ds else d ∷ insert_chain c ds

unfoldable pub chains_of : ℕ → List Row → List ℕ
chains_of file [] = []
chains_of file (r ∷ rs) =
    if r.file_id == file then insert_chain r.chain_id (chains_of file rs) else chains_of file rs
