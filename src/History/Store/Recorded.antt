-- ===== src/History/Store/Recorded.antt =====
-- What `record` leaves in the table of revisions of server/file_history.go.
use mathlib.Core.Path.{subst}
use daemon.Common.{
  ℕ, ◌≤◌, ◌≡◌, refl, sym, ap, ◌∙◌, inl, inr, Bool, true, not, some, List, [], ◌∷◌, All, arith, ◌==◌,
  ==_iff, Bool-cases, Option-cases, Result-cases, ok, String,
}
use daemon.History.Table.{Bytes, same_bytes, Row, Tables, find_row, latest_revision, latest_chain}
use daemon.History.Table.Chains.{same_bytes-eq, keep_chains, All-keep, find_row-keep_chains}
use daemon.History.Replay.{Codec, IsLossless, Distinguishes, max_steps}
use daemon.History.Replay.Holds.{Holds, Holds-keep_chains, Holds-hash}
use daemon.History.Store.Sound.{
  AreSound, AreSound-keep_chains, AreSound-Holds, IsLatest-Holds, find_row-head,
}
use daemon.History.Store.Dropped.{Tops}
use daemon.History.Store.Kept.{Prunes-prune}
use daemon.History.Store.Inserted.{IsInserted, not_of}
use daemon.History.Store.Next.{insert_first-IsInserted, insert_next-IsInserted}
use daemon.History.Prune.{HistoryConfig, prune_file, prune_server}
use daemon.History.Store.{insert_first, insert_next, prune, record_in}

latest_chain-head :
    (file : ℕ) (r : Row) (rows : List Row)
    → r.file_id ≡ file
    → latest_chain file (r ∷ rows) ≡ some r.chain_id
unfolding latest_chain latest_revision
latest_chain-head file r rows h = ground (arith, h)

prune-head :
    (cfg : HistoryConfig) (file : ℕ) (r : Row) (rows : List Row)
    → r.file_id ≡ file
    → prune cfg file (r ∷ rows)
      ≡ prune_server file (some r.chain_id) cfg (prune_file file (some r.chain_id) cfg (r ∷ rows))
unfolding prune
prune-head cfg file r rows h = rw (latest_chain-head file r rows h) refl

All-not_of :
    (known : ℕ → Bool) (file : ℕ) (rows : List Row)
    → known file ≡ true
    → All (λ s. known s.file_id ≡ true) (not_of file rows)
    → All (λ s. known s.file_id ≡ true) rows
All-not_of known file [] k = λ h. tt
All-not_of known file (r ∷ rs) k = elim (Bool-cases (r.file_id == file)) [
  | inl own ↦
      rw own (λ h. (ap known ((==_iff r.file_id file).0 own) ∙ k, All-not_of known file rs k h))
  | inr other ↦ rw other (λ (h, hs). (h, All-not_of known file rs k hs))
]

module _ (c : Codec) where
  -- The rows behind `record`: they are sound, the revision of the id is of the file and stands for
  -- the content, and no row is of a file that no row was of before.
  pub record IsRecorded (file : ℕ) (before : List Row) (content : Bytes) (id : ℕ) (rows : List Row)
      : Type 0 where
    pub row : Row
    pub found : find_row id rows ≡ some row
    pub of_file : row.file_id ≡ file
    pub sound : AreSound c rows
    pub holds : Holds c rows id content max_steps
    pub owned :
        (known : ℕ → Bool)
        → known file ≡ true
        → All (λ s. known s.file_id ≡ true) before
        → All (λ s. known s.file_id ≡ true) rows

  -- Pruning leaves the revision that has just been inserted.
  prune-IsInserted :
      (cfg : HistoryConfig) (file : ℕ) (before : List Row) (content : Bytes) (res : List Row × ℕ)
      → IsInserted c file before content res
      → IsRecorded file before content res.1 (prune cfg file res.0)
  prune-IsInserted cfg file before content res i =
      let rows = i.row ∷ i.older in
      let (sound, below) = i.sound in
      let tops : Tops file i.row.chain_id rows = (
        λ _. omega arith,
        subst (λ f. All (λ s. s.file_id ≡ f → s.chain_id ≤ i.row.chain_id) i.older) i.of_file
            sound.chained,
      ) in
      let (p, kept, same) = Prunes-prune file i.row.chain_id cfg rows tops in
      let own : p i.row.file_id i.row.chain_id ≡ true =
        ap (λ f. p f i.row.chain_id) i.of_file ∙ kept in
      let is_kept : keep_chains p rows ≡ prune cfg file res.0 =
        sym (ap (prune cfg file) i.rows ∙ prune-head cfg file i.row i.older i.of_file ∙ same) in
      subst (IsRecorded file before content res.1) is_kept (
        subst (λ n. IsRecorded file before content n (keep_chains p rows)) i.id
          (record {
            row = i.row;
            found = find_row-keep_chains p i.row.id rows i.row (find_row-head c i.row i.older) own;
            of_file = i.of_file;
            sound = AreSound-keep_chains c p rows i.sound;
            holds = Holds-keep_chains c p rows i.row (find_row-head c i.row i.older) own i.holds;
            owned = λ known k h.
                All-keep (λ s. known s.file_id ≡ true) (λ s. p s.file_id s.chain_id) rows
                  (
                    ap known i.of_file ∙ k,
                    All-not_of known file i.older k (
                        subst (All (λ s. known s.file_id ≡ true)) (sym i.others) (
                          All-keep (λ s. known s.file_id ≡ true) (λ s. not (s.file_id == file))
                            before h)),
                  );
          }))

  -- The latest revision of the file has the content already.
  latest-IsRecorded :
      Distinguishes c
      → (file : ℕ) (rows : List Row) (latest : Row) (after : Bytes) → AreSound c rows
      → latest_revision file rows ≡ some latest
      → same_bytes latest.content_hash (c.hash after) ≡ true
      → IsRecorded file rows after latest.id rows
  latest-IsRecorded distinct file rows latest after h is_latest same =
      let (_, _, found, of_file, _) = IsLatest-Holds c file rows latest h is_latest in
      let (content, held) = AreSound-Holds c latest.id rows latest h found in
      let hashes = same_bytes-eq latest.content_hash (c.hash after) same in
      let same_content = distinct content after (Holds-hash c rows latest found held ∙ hashes) in
      record {
        row = latest;
        found = found;
        of_file = of_file;
        sound = h;
        holds = subst (λ x. Holds c rows latest.id x max_steps) same_content held;
        owned = λ known k h. h;
      }

  IsRecorded-as :
      (file : ℕ) (t : Tables) (content : Bytes) (res res' : Tables × ℕ)
      → res ≡ res'
      → res.0.files ≡ t.files
      → IsRecorded file t.revisions content res.1 res.0.revisions
      → (res'.0.files ≡ t.files) × IsRecorded file t.revisions content res'.1 res'.0.revisions
  IsRecorded-as file t content res res' e files r = (
    sym (ap (λ (x : Tables × ℕ). x.0.files) e) ∙ files,
    subst (λ (x : Tables × ℕ). IsRecorded file t.revisions content x.1 x.0.revisions) e r,
  )

  pub record_in-IsRecorded :
      IsLossless c
      → Distinguishes c
      → (cfg : HistoryConfig) (t : Tables) (file : ℕ) (before after : Bytes) (user : String)
        (now : ℕ) (t' : Tables) (id : ℕ)
      → cfg.anchor_interval ≤ max_steps
      → AreSound c t.revisions
      → record_in c cfg t file before after user now ≡ ok (t', id)
      → (t'.files ≡ t.files) × IsRecorded file t.revisions after id t'.revisions
  unfolding record_in
  record_in-IsRecorded lossless distinct cfg t file before after user now t' id le h e =
      elim (Option-cases (latest_revision file t.revisions)) [
        | inl unseen ↦ elim (Result-cases (insert_first c file before after user now t.revisions)) [
          | inr (x, failed) ↦ absurd (ground (arith, unseen, failed, e))
          | inl (res, inserted) ↦
              IsRecorded-as file t after (record t { revisions = prune cfg file res.0 }, res.1)
                (t', id) (ground (arith, unseen, inserted, e)) refl
                (prune-IsInserted cfg file t.revisions after res (
                  insert_first-IsInserted c lossless file before after user now t.revisions res h
                    inserted))
        ]
        | inr (latest, is_latest) ↦
            elim (Bool-cases (same_bytes latest.content_hash (c.hash after))) [
              | inl same ↦
                  IsRecorded-as file t after (t, latest.id) (t', id)
                    (ground (arith, is_latest, same, e)) refl
                    (latest-IsRecorded distinct file t.revisions latest after h is_latest same)
              | inr other ↦
                  elim (Result-cases (insert_next c cfg file latest after user now t.revisions)) [
                    | inr (x, failed) ↦ absurd (ground (arith, is_latest, other, failed, e))
                    | inl (res, inserted) ↦
                        IsRecorded-as file t after
                          (record t { revisions = prune cfg file res.0 }, res.1) (t', id)
                          (ground (arith, is_latest, other, inserted, e)) refl
                          (prune-IsInserted cfg file t.revisions after res (
                            insert_next-IsInserted c lossless cfg file latest after user now
                              t.revisions res le h
                              (IsLatest-Holds c file t.revisions latest h is_latest) inserted))
                  ]
            ]
      ]
