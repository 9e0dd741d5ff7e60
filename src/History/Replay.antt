-- ===== src/History/Replay.antt =====
-- The coding of contents in server/file_history.go, and the way back from a revision through its
-- bases. zstd and SHA-256 are parameters.
pub mod Holds
use daemon.Common.{
  ℕ, zero, suc, ◌*◌, ◌≤◌, ◌≡◌, Bool, true, false, Option, none, some, List, [], ◌∷◌, length,
  reverse, leb, is_some, if◌then◌else◌, Result, ok, err, ◌>>=◌, ◌>>◌, require, reject, String,
}
use daemon.History.Table.{Bytes, same_bytes, Row, find_row, insert_row}

-- What the file uses of zstd at its level and of SHA-256; `none` is an error.
pub record Codec : Type 0 where
  pub encode : Bytes → Option Bytes
  pub decode : Bytes → Option Bytes
  -- With a dictionary, which is the first argument.
  pub encode_with : Bytes → Bytes → Option Bytes
  pub decode_with : Bytes → Bytes → Option Bytes
  pub hash : Bytes → Bytes

-- What is decoded is what was encoded.
abbrev pub IsLossless : Codec → Type 0
IsLossless c =
    (content payload : Bytes) → c.encode content ≡ some payload → c.decode payload ≡ some content

-- No two contents that occur have one hash.
abbrev pub Distinguishes : Codec → Type 0
Distinguishes c = (a b : Bytes) → c.hash a ≡ c.hash b → a ≡ b

pub data HistoryError : Type 0 where
  no_rows no_anchor hash_mismatch codec_failed path_taken : HistoryError

abbrev pub coded {ℓ} : {A : Type ℓ} → Option A → Result HistoryError A
coded none = err codec_failed
coded (some a) = ok a

abbrev pub max_steps : ℕ
max_steps = 1000

module _ (c : Codec) where
  -- `encodeHistoryDelta`, which decodes what it encoded.
  unfoldable pub encode_delta : Bytes → Bytes → Option Bytes
  encode_delta base content = elim (c.encode_with base content) [
    | none ↦ none
    | some payload ↦ elim (c.decode_with base payload) [
      | none ↦ none
      | some decoded ↦ if same_bytes decoded content then some payload else none
    ]
  ]

  -- The loop that goes from a revision to its snapshot, over at most the given number of rows.
  unfoldable pub collect : ℕ → List Row → Option ℕ → Result HistoryError (List Row)
  collect zero rows current = ok []
  collect (suc n) rows none = ok []
  collect (suc n) rows (some id) = elim (find_row id rows) [
    | none ↦ err no_rows
    | some r ↦ do rest ← collect n rows r.base_id; ok (r ∷ rest)
  ]

  -- The loop over the deltas, the oldest first.
  unfoldable pub replay : Bytes → List Row → Result HistoryError Bytes
  replay content [] = ok content
  replay content (r ∷ rs) = do
    next ← coded (c.decode_with content r.payload)
    require (same_bytes (c.hash next) r.content_hash) hash_mismatch
    replay next rs

  -- `reconstructHistoryRevision` from the reversed chain on.
  unfoldable pub replay_chain : List Row → Result HistoryError Bytes
  replay_chain [] = err no_anchor
  replay_chain (s ∷ deltas) = do
    reject (is_some s.base_id) no_anchor
    content ← coded (c.decode s.payload)
    require (same_bytes (c.hash content) s.content_hash) hash_mismatch
    replay content deltas

  unfoldable pub reconstruct : List Row → ℕ → Result HistoryError Bytes
  reconstruct rows id = do chain ← collect max_steps rows (some id); replay_chain (reverse chain)

  -- `insertHistorySnapshot` once the content is encoded.
  unfoldable pub insert_encoded_snapshot : ℕ → String → Bytes → Bytes → ℕ → List Row → List Row × ℕ
  unfolding insert_row
  insert_encoded_snapshot file user content payload created rows =
      insert_row file none user none (length content) payload (c.hash content) created rows

  unfoldable pub insert_snapshot :
      ℕ → String → Bytes → ℕ → List Row → Result HistoryError (List Row × ℕ)
  insert_snapshot file user content created rows = do
    payload ← coded (c.encode content)
    ok (insert_encoded_snapshot file user content payload created rows)

  -- `insertCompactHistoryRevision`: a delta, unless it is not smaller by a tenth.
  unfoldable pub insert_compact :
      ℕ → ℕ → ℕ → Bytes → String → Bytes → ℕ → List Row → Result HistoryError (List Row × ℕ)
  insert_compact file base_id chain base user content created rows = do
    snapshot ← coded (c.encode content)
    elim (encode_delta base content) [
      | none ↦ ok (insert_encoded_snapshot file user content snapshot created rows)
      | some delta ↦
          if leb (length snapshot * 9) (length delta * 10)
          then ok (insert_encoded_snapshot file user content snapshot created rows)
          else ok (
              insert_row file (some chain) user (some base_id) (length content) delta
                (c.hash content) created rows)
    ]
