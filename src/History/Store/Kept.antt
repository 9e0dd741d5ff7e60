-- ===== src/History/Store/Kept.antt =====
-- What pruning deletes.
use mathlib.Core.Path.{subst}
use daemon.Common.{
  ℕ, zero, suc, ◌≡◌, inl, inr, Bool, true, false, ◌&&◌, Option, none, some, List, [], ◌∷◌, keep,
  length, All, arith, ◌==◌, leb, if◌then◌else◌, Bool-cases, Option-cases,
}
use daemon.History.Table.{Row, payload_sum}
use daemon.History.Prune.{
  HistoryConfig, max_uint64, prune_old_chains, drop_oldest, is_droppable, first_chain, comes_before,
  drop_globally_oldest, drop_until, prune_file, prune_server,
}
use daemon.History.Store.Dropped.{
  Prunes, Tops, Prunes-refl, Prunes-trans, Prunes-drop_chain, Prunes-prune_old_chains,
  Prunes-drop_oldest,
}

All-kept_rows : (p : Row → Bool) (xs : List Row) → All (λ x. p x ≡ true) (keep p xs)
All-kept_rows p [] = tt
All-kept_rows p (x ∷ xs) = elim (Bool-cases (p x)) [
  | inl kept ↦ rw kept (kept, All-kept_rows p xs)
  | inr gone ↦ rw gone (All-kept_rows p xs)
]

-- The best row so far passes a test, if there is one.
abbrev Passes : (Row → Bool) → Option Row → Type 0
Passes p none = Unit {0}
Passes p (some r) = p r ≡ true

Passes-choice :
    (p : Row → Bool) (b : Bool) (r s : Row)
    → p r ≡ true
    → p s ≡ true
    → p (if b then r else s) ≡ true
Passes-choice p true r s h k = h
Passes-choice p false r s h k = k

pub first_chain-Passes :
    (p : Row → Bool) (rows : List Row) (best : Option Row) (xs : List Row)
    → Passes p best
    → All (λ x. p x ≡ true) xs
    → (r : Row) → first_chain rows best xs ≡ some r
    → p r ≡ true
unfolding first_chain
first_chain-Passes p rows none [] b h r e = absurd cc
first_chain-Passes p rows (some s) [] b h r e =
    let same : s ≡ r = cc in subst (λ x. p x ≡ true) same b
first_chain-Passes p rows none (x ∷ xs) b (h, hs) r e =
    first_chain-Passes p rows (some x) xs h hs r e
first_chain-Passes p rows (some s) (x ∷ xs) b (h, hs) r e =
    first_chain-Passes p rows (some (if comes_before rows x s then x else s)) xs
      (Passes-choice p (comes_before rows x s) x s h b) hs r e

other_chain :
    (file chain : ℕ) (rows : List Row) (r : Row)
    → is_droppable file (some chain) rows r ≡ true
    → (file == r.file_id && chain == r.chain_id) ≡ false
unfolding is_droppable
other_chain file chain rows r h = ground arith

Prunes-drop_globally_oldest :
    (file chain : ℕ) (rows : List Row)
    → Prunes file chain rows (drop_globally_oldest file (some chain) rows).0
unfolding drop_globally_oldest
Prunes-drop_globally_oldest file chain rows =
    elim (Option-cases (first_chain rows none (keep (is_droppable file (some chain) rows) rows))) [
      | inl none_left ↦ rw (drop_globally_oldest, none_left) (Prunes-refl file chain rows)
      | inr (r, found) ↦
          let passes =
            first_chain-Passes (is_droppable file (some chain) rows) rows none
              (keep (is_droppable file (some chain) rows) rows) tt
              (All-kept_rows (is_droppable file (some chain) rows) rows) r found in
          rw (drop_globally_oldest, found)
            (Prunes-drop_chain file chain r.file_id r.chain_id rows
              (other_chain file chain rows r passes))
    ]

Prunes-drop_until :
    (file chain n : ℕ) (size : List Row → ℕ) (budget : ℕ) (drop : List Row → List Row × ℕ)
    → ((rows : List Row) → Prunes file chain rows (drop rows).0)
    → (rows : List Row) → Prunes file chain rows (drop_until n size budget drop rows)
unfolding drop_until
Prunes-drop_until file chain zero size budget drop step rows = Prunes-refl file chain rows
Prunes-drop_until file chain (suc n) size budget drop step rows =
    elim (Bool-cases (leb (size rows) budget)) [
      | inl fits ↦ rw fits (Prunes-refl file chain rows)
      | inr over ↦ elim (Bool-cases ((drop rows).1 == 0)) [
        | inl still ↦ rw (over, still) (step rows)
        | inr freed ↦
            rw (over, freed)
              (Prunes-trans file chain rows (drop rows).0
                (drop_until n size budget drop (drop rows).0) (step rows)
                (Prunes-drop_until file chain n size budget drop step (drop rows).0))
      ]
    ]

Prunes-prune_file :
    (file chain : ℕ) (cfg : HistoryConfig) (rows : List Row)
    → Tops file chain rows
    → Prunes file chain rows (prune_file file (some chain) cfg rows)
unfolding prune_file
Prunes-prune_file file chain cfg rows tops =
    let n = max_uint64 cfg.keep_chains 1 in
    let kept = prune_old_chains file n rows in
    let size : List Row → ℕ = payload_sum (λ r. r.file_id == file) in
    Prunes-trans file chain rows kept
      (drop_until (suc (length kept)) size cfg.per_file_budget (drop_oldest file (some chain) n)
        kept)
      (Prunes-prune_old_chains file chain n rows tops)
      (Prunes-drop_until file chain (suc (length kept)) size cfg.per_file_budget
        (drop_oldest file (some chain) n) (Prunes-drop_oldest file chain n) kept)

Prunes-prune_server :
    (file chain : ℕ) (cfg : HistoryConfig) (rows : List Row)
    → Prunes file chain rows (prune_server file (some chain) cfg rows)
unfolding prune_server
Prunes-prune_server file chain cfg rows = elim (Bool-cases (cfg.per_server_budget == 0)) [
  | inl unlimited ↦ rw unlimited (Prunes-refl file chain rows)
  | inr limited ↦ rw limited (
      Prunes-drop_until file chain (suc (length rows)) (payload_sum (λ r. true))
        cfg.per_server_budget (drop_globally_oldest file (some chain))
        (Prunes-drop_globally_oldest file chain) rows)
]

pub Prunes-prune :
    (file chain : ℕ) (cfg : HistoryConfig) (rows : List Row)
    → Tops file chain rows
    → Prunes file chain rows
        (prune_server file (some chain) cfg (prune_file file (some chain) cfg rows))
Prunes-prune file chain cfg rows tops =
    Prunes-trans file chain rows (prune_file file (some chain) cfg rows)
      (prune_server file (some chain) cfg (prune_file file (some chain) cfg rows))
      (Prunes-prune_file file chain cfg rows tops)
      (Prunes-prune_server file chain cfg (prune_file file (some chain) cfg rows))
