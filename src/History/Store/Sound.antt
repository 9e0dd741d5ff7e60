-- ===== src/History/Store/Sound.antt =====
-- Tables whose every revision can be read.
use mathlib.Core.Path.{subst}
use daemon.Common.{
  ℕ, suc, ◌≤◌, ◌<◌, ◌≡◌, refl, inl, inr, Bool, true, false, some, List, [], ◌∷◌, All, arith, ◌==◌,
  ==_iff, ==_refl, Bool-cases, ok,
}
use daemon.History.Table.{Bytes, Row, find_row, chain_length, latest_revision}
use daemon.History.Table.Chains.{keep_chains, All-keep, find_row-insert, chain_length-keep_chains}
use daemon.History.Replay.{Codec, reconstruct, max_steps}
use daemon.History.Replay.Holds.{
  Holds, Holds-insert, Holds-keep_chains, Holds-weaken, Holds-hash, reconstruct-Holds,
}

pub chain_length-head :
    (x : Row) (rows : List Row)
    → chain_length x.file_id x.chain_id (x ∷ rows) ≡ suc (chain_length x.file_id x.chain_id rows)
unfolding chain_length
chain_length-head x rows = ground arith

chain_length-other :
    (x : Row) (rows : List Row) (r : Row)
    → (x.file_id == r.file_id) ≡ false
    → chain_length r.file_id r.chain_id (x ∷ rows) ≡ chain_length r.file_id r.chain_id rows
unfolding chain_length
chain_length-other x rows r h = ground arith

module _ (c : Codec) where
  -- A row before the older rows: its id is greater, its chain no older than the others of its file,
  -- it is one of at most as many rows of its chain as `reconstruct` follows, and it stands for a
  -- content.
  pub record IsSound (r : Row) (older : List Row) : Type 0 where
    pub fresh : All (λ s. s.id < r.id) older
    pub chained : All (λ s. s.file_id ≡ r.file_id → s.chain_id ≤ r.chain_id) older
    pub own : r.chain_id ≤ r.id
    pub short : chain_length r.file_id r.chain_id older < max_steps
    pub content : Bytes
    pub holds : Holds c (r ∷ older) r.id content (suc (chain_length r.file_id r.chain_id older))

  abbrev pub AreSound : List Row → Type 0
  AreSound [] = Unit {0}
  AreSound (r ∷ rs) = IsSound r rs × AreSound rs

  pub find_row-head : (r : Row) (rs : List Row) → find_row r.id (r ∷ rs) ≡ some r
  find_row-head r rs = rw (==_refl r.id) refl

  -- Deleting whole chains leaves the rest sound.
  pub AreSound-keep_chains :
      (p : ℕ → ℕ → Bool) (rows : List Row) → AreSound rows → AreSound (keep_chains p rows)
  AreSound-keep_chains p [] h = tt
  AreSound-keep_chains p (r ∷ rs) (v, h) = elim (Bool-cases (p r.file_id r.chain_id)) [
    | inr gone ↦ rw gone (AreSound-keep_chains p rs h)
    | inl kept ↦ rw kept (
      record {
        fresh = All-keep (λ s. s.id < r.id) (λ s. p s.file_id s.chain_id) rs v.fresh;
        chained =
            All-keep (λ s. s.file_id ≡ r.file_id → s.chain_id ≤ r.chain_id)
              (λ s. p s.file_id s.chain_id) rs v.chained;
        own = v.own;
        short = omega (arith, v.short, chain_length-keep_chains p r.file_id r.chain_id rs kept);
        content = v.content;
        holds =
            Holds-weaken c (r ∷ keep_chains p rs)
              (suc (chain_length r.file_id r.chain_id (keep_chains p rs)))
              (omega (arith, chain_length-keep_chains p r.file_id r.chain_id rs kept))
              (kept_holds kept);
      },
      AreSound-keep_chains p rs h,
    )
  ]
    where
      kept_holds :
          p r.file_id r.chain_id ≡ true
          → Holds c
              (r ∷ keep_chains p rs)
              r.id
              v.content
              (suc (chain_length r.file_id r.chain_id rs))
      kept_holds kept =
          subst (λ l. Holds c l r.id v.content (suc (chain_length r.file_id r.chain_id rs)))
            (rw kept refl) (Holds-keep_chains c p (r ∷ rs) r (find_row-head r rs) kept v.holds)

  -- A row among sound ones stands for a content through no more rows than `reconstruct` follows.
  pub AreSound-Holds :
      (id : ℕ) (rows : List Row) (r : Row)
      → AreSound rows
      → find_row id rows ≡ some r
      → (content : Bytes) × Holds c rows id content max_steps
  AreSound-Holds id [] r h f = absurd cc
  AreSound-Holds id (x ∷ rows) r (v, h) f = elim (Bool-cases (x.id == id)) [
    | inl same ↦ (
      v.content,
      subst (λ i. Holds c (x ∷ rows) i v.content max_steps) ((==_iff x.id id).0 same)
          (Holds-weaken c (x ∷ rows) max_steps (omega (arith, v.short)) v.holds),
    )
    | inr other ↦
        let (content, held) = AreSound-Holds id rows r h (ground (arith, other, f)) in
        (content, Holds-insert c x rows v.fresh held)
  ]

  -- What the latest revision of a file is.
  abbrev pub IsLatest : ℕ → List Row → Row → Type 0
  IsLatest file rows r =
      (content : Bytes) × Holds c rows r.id content (chain_length r.file_id r.chain_id rows)
      × (find_row r.id rows ≡ some r)
      × (r.file_id ≡ file)
      × All (λ s. s.file_id ≡ file → s.chain_id ≤ r.chain_id) rows

  pub IsLatest-head :
      (file : ℕ) (x : Row) (rows : List Row)
      → IsSound x rows
      → x.file_id ≡ file
      → IsLatest file (x ∷ rows) x
  IsLatest-head file x rows v e = (
    v.content,
    Holds-weaken c (x ∷ rows) (chain_length x.file_id x.chain_id (x ∷ rows))
        (omega (arith, chain_length-head x rows)) v.holds,
    find_row-head x rows,
    e,
    (
      λ _. omega arith,
      subst (λ f. All (λ s. s.file_id ≡ f → s.chain_id ≤ x.chain_id) rows) e v.chained,
    ),
  )

  -- The latest revision of a file, with the length of its chain.
  pub IsLatest-Holds :
      (file : ℕ) (rows : List Row) (r : Row)
      → AreSound rows
      → latest_revision file rows ≡ some r
      → IsLatest file rows r
  unfolding latest_revision
  IsLatest-Holds file [] r h f = absurd cc
  IsLatest-Holds file (x ∷ rows) r (v, h) f = elim (Bool-cases (x.file_id == file)) [
    | inl own ↦
        let same : x ≡ r = ground (arith, own, f) in
        subst (IsLatest file (x ∷ rows)) same
          (IsLatest-head file x rows v ((==_iff x.file_id file).0 own))
    | inr other ↦
        let (content, held, found, e, chained) =
          IsLatest-Holds file rows r h (ground (arith, other, f)) in
        (
          content,
          Holds-weaken c (x ∷ rows) (chain_length r.file_id r.chain_id (x ∷ rows))
              (omega (arith, chain_length-other x rows r (ground (arith, other, e))))
              (Holds-insert c x rows v.fresh held),
          find_row-insert x rows r.id r v.fresh found,
          e,
          (λ own. absurd (ground (arith, other, own)), chained),
        )
  ]

  -- Every revision of sound tables can be reconstructed, to a content of the hash that it has.
  pub reconstruct-AreSound :
      (id : ℕ) (rows : List Row) (r : Row)
      → AreSound rows
      → find_row id rows ≡ some r
      → (content : Bytes) × (reconstruct c rows id ≡ ok content) × (c.hash content ≡ r.content_hash)
  reconstruct-AreSound id rows r h f =
      let (content, held) = AreSound-Holds id rows r h f in
      (content, reconstruct-Holds c rows held (omega arith), Holds-hash c rows r f held)
