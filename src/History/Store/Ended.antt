-- ===== src/History/Store/Ended.antt =====
-- How the loops of pruning end.
use mathlib.Core.Path.{subst}
use daemon.Common.{
  ℕ, suc, ◌≤◌, ◌<◌, ◌≡◌, refl, inl, inr, ◌⊎◌, true, false, ◌&&◌, not, Option, none, some, List, [],
  ◌∷◌, keep, take, length, All, arith, ◌==◌, ==_iff, leb, ltb, if◌then◌else◌, Bool-cases,
  Option-cases, is_some,
}
use daemon.History.Table.{Row, chains_of, in_chain, payload_sum}
use daemon.History.Table.Chains.{All-keep}
use daemon.History.Prune.{
  HistoryConfig, max_uint64, last_of, prune_old_chains, is_protected, oldest_chain, drop_oldest,
  is_droppable, first_chain, comes_before, drop_globally_oldest, prune_file, prune_server,
}
use daemon.History.Store.Dropped.{All-last_of, All-insert_chain}
use daemon.History.Store.Kept.{first_chain-Passes}
use daemon.History.Store.Paid.{
  ArePaid, chain_bytes, drop_until-ends, All-imp, chain_bytes-paid, ArePaid-drop_chain, keep_nil,
}

first_chain-some :
    (all : List Row) (s : Row) (xs : List Row) → is_some (first_chain all (some s) xs) ≡ true
unfolding first_chain
first_chain-some all s [] = refl
first_chain-some all s (x ∷ xs) = first_chain-some all (if comes_before all x s then x else s) xs

first_chain-none : (all xs : List Row) → first_chain all none xs ≡ none → xs ≡ []
unfolding first_chain
first_chain-none all [] e = refl
first_chain-none all (x ∷ xs) e = absurd (ground (arith, e, first_chain-some all x xs))

-- Nothing is left to drop for the budget of the server: every row that is not of the protected chain
-- is of a file with one chain.
abbrev pub NoneDroppable : ℕ → Option ℕ → List Row → Type 0
NoneDroppable file protected rows = All (λ r. is_droppable file protected rows r ≡ false) rows

drop_globally_oldest-step :
    (file : ℕ) (protected : Option ℕ) (rows : List Row)
    → ArePaid rows
    → (ArePaid (drop_globally_oldest file protected rows).0
        × (length (drop_globally_oldest file protected rows).0 < length rows)
        × (0 < (drop_globally_oldest file protected rows).1))
      ⊎ (NoneDroppable file protected rows × (drop_globally_oldest file protected rows ≡ (rows, 0)))
unfolding drop_globally_oldest
drop_globally_oldest-step file protected rows h =
    let droppable = keep (is_droppable file protected rows) rows in
    elim (Option-cases (first_chain rows none droppable)) [
      | inl none_left ↦ inr (
        keep_nil (is_droppable file protected rows) rows
            (first_chain-none rows droppable none_left),
        ground (arith, none_left),
      )
      | inr (r, found) ↦
          let bytes : ltb 0 (chain_bytes rows r) ≡ true =
            first_chain-Passes (λ s. ltb 0 (chain_bytes rows s)) rows none droppable tt
              (All-keep (λ s. ltb 0 (chain_bytes rows s) ≡ true) (is_droppable file protected rows)
                rows
                (All-imp (λ s. 0 < chain_bytes rows s) (λ s. ltb 0 (chain_bytes rows s) ≡ true) rows
                  (λ s k. ground (arith, k)) (chain_bytes-paid rows h)))
              r found in
          rw (drop_globally_oldest, found)
            (inl (ArePaid-drop_chain r.file_id r.chain_id rows h (ground (arith, bytes))))
    ]

-- With a budget of the server that is not 0, and rows whose payloads are not empty, pruning for
-- the server ends with the bytes within the budget, or with no row left that it may drop.
pub prune_server-ends :
    (file : ℕ) (protected : Option ℕ) (cfg : HistoryConfig) (rows : List Row)
    → (cfg.per_server_budget == 0) ≡ false
    → ArePaid rows
    → (payload_sum (λ r. true) (prune_server file protected cfg rows) ≤ cfg.per_server_budget)
      ⊎ NoneDroppable file protected (prune_server file protected cfg rows)
unfolding prune_server
prune_server-ends file protected cfg rows limited h =
    rw (prune_server, limited)
      (drop_until-ends (NoneDroppable file protected) (payload_sum (λ r. true))
        cfg.per_server_budget (drop_globally_oldest file protected)
        (drop_globally_oldest-step file protected) (suc (length rows)) rows (omega arith) h)

-- Nothing is left to drop for the budget of a file: it has no more chains than it keeps, or none but
-- the protected one.
abbrev pub NoneOldest : ℕ → Option ℕ → ℕ → List Row → Type 0
NoneOldest file protected least rows =
    (length (chains_of file rows) ≤ max_uint64 least 1) ⊎ (oldest_chain file protected rows ≡ none)

All-chain_bytes :
    (file : ℕ) (all rows : List Row)
    → All (λ r. 0 < chain_bytes all r) rows
    → All (λ x. 0 < payload_sum (in_chain file x) all) (chains_of file rows)
unfolding chains_of
All-chain_bytes file all [] h = tt
All-chain_bytes file all (r ∷ rs) (h, hs) = elim (Bool-cases (r.file_id == file)) [
  | inr other ↦ rw other (All-chain_bytes file all rs hs)
  | inl own ↦ rw own (
      All-insert_chain (λ x. 0 < payload_sum (in_chain file x) all) r.chain_id (chains_of file rs)
        (subst (λ f. 0 < payload_sum (in_chain f r.chain_id) all) ((==_iff r.file_id file).0 own) h)
        (All-chain_bytes file all rs hs))
]

drop_oldest-step :
    (file : ℕ) (protected : Option ℕ) (least : ℕ) (rows : List Row)
    → ArePaid rows
    → (ArePaid (drop_oldest file protected least rows).0
        × (length (drop_oldest file protected least rows).0 < length rows)
        × (0 < (drop_oldest file protected least rows).1))
      ⊎ (NoneOldest file protected least rows × (drop_oldest file protected least rows ≡ (rows, 0)))
unfolding drop_oldest
drop_oldest-step file protected least rows h =
    elim (Bool-cases (leb (length (chains_of file rows)) (max_uint64 least 1))) [
      | inl few ↦ inr (inl (ground (arith, few)), ground (arith, few))
      | inr many ↦ elim (Option-cases (oldest_chain file protected rows)) [
        | inl none_left ↦ inr (inr none_left, ground (arith, many, none_left))
        | inr (chain, found) ↦
            let bytes : 0 < payload_sum (in_chain file chain) rows =
              All-last_of (λ x. 0 < payload_sum (in_chain file x) rows)
                (keep (λ x. not (is_protected protected x)) (chains_of file rows)) chain
                (All-keep (λ x. 0 < payload_sum (in_chain file x) rows)
                  (λ x. not (is_protected protected x)) (chains_of file rows)
                  (All-chain_bytes file rows rows (chain_bytes-paid rows h)))
                found in
            rw (drop_oldest, many, found) (inl (ArePaid-drop_chain file chain rows h bytes))
      ]
    ]

ArePaid-prune_old_chains :
    (file n : ℕ) (rows : List Row) → ArePaid rows → ArePaid (prune_old_chains file n rows)
unfolding prune_old_chains
ArePaid-prune_old_chains file n rows h =
    elim (Bool-cases (ltb (length (take n (chains_of file rows))) n)) [
      | inl few ↦ rw (prune_old_chains, few) h
      | inr many ↦ elim (Option-cases (last_of (take n (chains_of file rows)))) [
        | inl none_left ↦ rw (prune_old_chains, many, none_left) h
        | inr (d, found) ↦
            rw (prune_old_chains, many, found)
              (All-keep (λ r. 0 < length r.payload)
                (λ r. not (r.file_id == file && ltb r.chain_id d)) rows h)
      ]
    ]

-- With rows whose payloads are not empty, pruning for a file ends with its bytes within the
-- budget, or with no more chains than are kept, or with no chain but the protected one.
pub prune_file-ends :
    (file : ℕ) (protected : Option ℕ) (cfg : HistoryConfig) (rows : List Row)
    → ArePaid rows
    → (payload_sum (λ r. r.file_id == file) (prune_file file protected cfg rows)
        ≤ cfg.per_file_budget)
      ⊎ NoneOldest file protected
          (max_uint64 cfg.keep_chains 1)
          (prune_file file protected cfg rows)
unfolding prune_file
prune_file-ends file protected cfg rows h =
    let n = max_uint64 cfg.keep_chains 1 in
    let kept = prune_old_chains file n rows in
    drop_until-ends (NoneOldest file protected n) (payload_sum (λ r. r.file_id == file))
      cfg.per_file_budget (drop_oldest file protected n) (drop_oldest-step file protected n)
      (suc (length kept)) kept (omega arith) (ArePaid-prune_old_chains file n rows h)
