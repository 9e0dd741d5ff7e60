-- ===== src/History/Prune.antt =====
-- The limits of server/file_history.go: how many chains of a file are kept, and how many bytes.
use Prim.Native.Nat.{min}
use daemon.Common.{
  ℕ, zero, suc, Bool, true, false, ◌&&◌, ◌||◌, not, Option, none, some, List, [], ◌∷◌, keep, length,
  take, leb, ltb, ◌==◌, if◌then◌else◌,
}
use daemon.History.Table.{Row, chains_of, delete_rows, payload_sum, in_chain}

-- `config.FileHistoryConfiguration`, as far as the store uses it.
pub record HistoryConfig : Type 0 where
  pub anchor_interval : ℕ
  pub keep_chains : ℕ
  pub per_file_budget : ℕ
  pub per_server_budget : ℕ

-- `maxUint64`
abbrev pub max_uint64 : ℕ → ℕ → ℕ
max_uint64 value fallback = if value == 0 then fallback else value

abbrev pub last_of : List ℕ → Option ℕ
last_of [] = none
last_of (c ∷ []) = some c
last_of (c ∷ d ∷ ds) = last_of (d ∷ ds)

-- `pruneOldHistoryChains`
unfoldable pub prune_old_chains : ℕ → ℕ → List Row → List Row
prune_old_chains file keep_chains rows =
    let chains = take keep_chains (chains_of file rows) in
    if ltb (length chains) keep_chains then rows else elim (last_of chains) [
      | none ↦ rows
      | some oldest ↦ delete_rows (λ r. r.file_id == file && ltb r.chain_id oldest) rows
    ]

abbrev pub is_protected : Option ℕ → ℕ → Bool
is_protected none chain = false
is_protected (some p) chain = chain == p

-- `MIN(chain_id)` over the chains that are not protected, which are the last of the descending ones.
abbrev pub oldest_chain : ℕ → Option ℕ → List Row → Option ℕ
oldest_chain file protected rows =
    last_of (keep (λ chain. not (is_protected protected chain)) (chains_of file rows))

-- `DELETE` of a chain, and the bytes that it frees.
abbrev pub drop_chain : ℕ → ℕ → List Row → List Row × ℕ
drop_chain file chain rows =
    (delete_rows (in_chain file chain) rows, payload_sum (in_chain file chain) rows)

-- `dropOldestHistoryChain`
unfoldable pub drop_oldest : ℕ → Option ℕ → ℕ → List Row → List Row × ℕ
drop_oldest file protected min_chains rows =
    if leb (length (chains_of file rows)) (max_uint64 min_chains 1)
    then (rows, 0)
    else elim (oldest_chain file protected rows) [
      | none ↦ (rows, 0)
      | some chain ↦ drop_chain file chain rows
    ]

-- A row of a chain that may be dropped for the server's budget.
unfoldable pub is_droppable : ℕ → Option ℕ → List Row → Row → Bool
is_droppable file protected rows r =
    ltb 1 (length (chains_of r.file_id rows))
    && not (r.file_id == file && is_protected protected r.chain_id)

-- `MIN(created)` of a chain.
abbrev pub created_of : ℕ → ℕ → List Row → ℕ → ℕ
created_of file chain [] least = least
created_of file chain (r ∷ rs) least =
    created_of file chain rs (if in_chain file chain r then min least r.created else least)

-- Whether the chain of a row comes before that of another one in `ORDER BY MIN(created), chain_id`.
abbrev pub comes_before : List Row → Row → Row → Bool
comes_before rows r s =
    let a = created_of r.file_id r.chain_id rows r.created in
    let b = created_of s.file_id s.chain_id rows s.created in
    ltb a b || (a == b && ltb r.chain_id s.chain_id)

-- The first in that order of the rows, given the best one so far.
unfoldable pub first_chain : List Row → Option Row → List Row → Option Row
first_chain all best [] = best
first_chain all none (r ∷ rs) = first_chain all (some r) rs
first_chain all (some s) (r ∷ rs) =
    first_chain all (some (if comes_before all r s then r else s)) rs

-- `dropGloballyOldestHistoryChain`
unfoldable pub drop_globally_oldest : ℕ → Option ℕ → List Row → List Row × ℕ
drop_globally_oldest file protected rows =
    elim (first_chain rows none (keep (is_droppable file protected rows) rows)) [
      | none ↦ (rows, 0)
      | some r ↦ drop_chain r.file_id r.chain_id rows
    ]

-- A loop that drops chains until the bytes fit, or until nothing is freed; with fuel.
unfoldable pub drop_until : ℕ → (List Row → ℕ) → ℕ → (List Row → List Row × ℕ) → List Row → List Row
drop_until zero size budget drop rows = rows
drop_until (suc n) size budget drop rows =
    let rest = drop_until n size budget drop (drop rows).0 in
    if leb (size rows) budget then rows else if (drop rows).1 == 0 then (drop rows).0 else rest

-- `pruneHistory`
unfoldable pub prune_file : ℕ → Option ℕ → HistoryConfig → List Row → List Row
prune_file file protected cfg rows =
    let kept = prune_old_chains file (max_uint64 cfg.keep_chains 1) rows in
    drop_until (suc (length kept)) (payload_sum (λ r. r.file_id == file)) cfg.per_file_budget
      (drop_oldest file protected (max_uint64 cfg.keep_chains 1)) kept

-- `pruneServerHistory`
unfoldable pub prune_server : ℕ → Option ℕ → HistoryConfig → List Row → List Row
prune_server file protected cfg rows =
    if cfg.per_server_budget == 0
    then rows
    else drop_until (suc (length rows)) (payload_sum (λ r. true)) cfg.per_server_budget
        (drop_globally_oldest file protected) rows
