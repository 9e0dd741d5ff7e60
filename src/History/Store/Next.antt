-- ===== src/History/Store/Next.antt =====
-- The insertions of `record`: the first revision of a file, and one behind its latest.
use mathlib.Core.Path.{subst}
use daemon.Common.{
  ℕ, ◌-◌, ◌*◌, ◌≤◌, ◌<◌, ◌≡◌, refl, ap, ◌∙◌, inl, inr, false, List, ◌∷◌, length, arith, leb, ltb,
  Bool-cases, Option-cases, Result-cases, ok, String,
}
use daemon.History.Table.{Bytes, Row, chain_length, insert_row}
use daemon.History.Replay.{
  Codec, IsLossless, encode_delta, reconstruct, insert_encoded_snapshot, insert_snapshot,
  insert_compact, max_steps,
}
use daemon.History.Replay.Holds.{reconstruct-Holds}
use daemon.History.Store.Sound.{AreSound, IsLatest, IsLatest-head, chain_length-head}
use daemon.History.Store.Inserted.{
  IsInserted, not_of-own, encode_delta-decodes, insert_delta-IsInserted,
  insert_encoded_snapshot-IsInserted, insert_snapshot-IsInserted, chains_below, chain_length_fresh,
}
use daemon.History.Prune.{HistoryConfig, max_uint64}
use daemon.History.Store.{insert_first, insert_next}

below_anchor :
    (interval n : ℕ) → interval ≤ max_steps → leb (max_uint64 interval 1) n ≡ false → n < max_steps
below_anchor interval n le h = ground arith

module _ (c : Codec) where
  pub insert_compact-IsInserted :
      IsLossless c
      → (file base_id chain : ℕ) (b : Row) (base : Bytes) (user : String) (content : Bytes)
        (created : ℕ) (rows : List Row) (res : List Row × ℕ)
      → AreSound c rows
      → IsLatest c file rows b
      → b.id ≡ base_id
      → b.chain_id ≡ chain
      → reconstruct c rows b.id ≡ ok base
      → chain_length b.file_id b.chain_id rows < max_steps
      → insert_compact c file base_id chain base user content created rows ≡ ok res
      → IsInserted c file rows content res
  unfolding insert_compact
  insert_compact-IsInserted lossless file base_id chain b base user content created rows res h
        latest i ch back short e =
      elim (Option-cases (c.encode content)) [
        | inl failed ↦ absurd (ground (arith, failed, e))
        | inr (payload, encoded) ↦
            let whole =
              insert_encoded_snapshot-IsInserted c file user content payload created rows h
                (lossless content payload encoded) in
            elim (Option-cases (encode_delta c base content)) [
              | inl failed ↦
                  subst (IsInserted c file rows content) (ground (arith, encoded, failed, e)) whole
              | inr (d, made) ↦ elim (Bool-cases (leb (length payload * 9) (length d * 10))) [
                | inl large ↦
                    subst (IsInserted c file rows content) (ground (arith, encoded, made, large, e))
                      whole
                | inr small ↦
                    subst (IsInserted c file rows content)
                      (ground (arith, encoded, made, small, e, i, ch))
                      (insert_delta-IsInserted c file b user base content d created rows h latest
                        back short (encode_delta-decodes c base content d made))
              ]
            ]
      ]

  insert_snapshot-own :
      (file : ℕ) (user : String) (content : Bytes) (created : ℕ) (rows older : List Row)
      (res : List Row × ℕ) (r : Row)
      → insert_snapshot c file user content created rows ≡ ok res
      → res.0 ≡ r ∷ older
      → r.chain_id ≡ r.id
  unfolding insert_snapshot insert_encoded_snapshot insert_row
  insert_snapshot-own file user content created rows older (rs, id) r e f =
      elim (Option-cases (c.encode content)) [
        | inl failed ↦ absurd (ground (arith, failed, e))
        | inr (payload, encoded) ↦ ground (arith, encoded, e, f)
      ]

  -- The second insertion of a first revision, behind the snapshot of what the file was before.
  first_chain :
      IsLossless c
      → (file : ℕ) (before after : Bytes) (user : String) (now : ℕ) (rows : List Row)
        (base res : List Row × ℕ) (b : IsInserted c file rows before base)
      → b.row.chain_id ≡ b.row.id
      → insert_compact c file base.1 base.1 before user after now (b.row ∷ b.older) ≡ ok res
      → IsInserted c file rows after res
  first_chain lossless file before after user now rows base res b own e =
      let (sound, below) = b.sound in
      let none_older : chain_length b.row.file_id b.row.chain_id b.older ≡ 0 =
        ap (λ n. chain_length b.row.file_id n b.older) own
        ∙ chain_length_fresh c b.older b.row.id b.row.file_id
            (chains_below c b.older b.row.id below sound.fresh) in
      let i =
        insert_compact-IsInserted lossless file base.1 base.1 b.row before user after now
          (b.row ∷ b.older) res b.sound (IsLatest-head c file b.row b.older sound b.of_file) b.id
          (own ∙ b.id) (reconstruct-Holds c (b.row ∷ b.older) b.holds (omega arith))
          (omega (arith, none_older, chain_length-head b.row b.older)) e in
      record {
        row = i.row;
        older = i.older;
        rows = i.rows;
        id = i.id;
        of_file = i.of_file;
        others = i.others ∙ not_of-own file b.row b.older b.of_file ∙ b.others;
        sound = i.sound;
        holds = i.holds;
      }

  pub insert_first-IsInserted :
      IsLossless c
      → (file : ℕ) (before after : Bytes) (user : String) (now : ℕ) (rows : List Row)
        (res : List Row × ℕ)
      → AreSound c rows
      → insert_first c file before after user now rows ≡ ok res
      → IsInserted c file rows after res
  unfolding insert_first
  insert_first-IsInserted lossless file before after user now rows res h e =
      elim (Bool-cases (ltb 0 (length before))) [
        | inr empty ↦
            insert_snapshot-IsInserted c lossless file user after now rows res h
              (ground (arith, empty, e))
        | inl written ↦ elim (Result-cases (insert_snapshot c file "" before (now - 1) rows)) [
          | inr (x, failed) ↦ absurd (ground (arith, written, failed, e))
          | inl (base, inserted) ↦
              let b =
                insert_snapshot-IsInserted c lossless file "" before (now - 1) rows base h
                  inserted in
              let own =
                insert_snapshot-own file "" before (now - 1) rows b.older base b.row inserted
                  b.rows in
              first_chain lossless file before after user now rows base res b own
                (ground (arith, written, inserted, e, b.rows))
        ]
      ]

  pub insert_next-IsInserted :
      IsLossless c
      → (cfg : HistoryConfig) (file : ℕ) (latest : Row) (after : Bytes) (user : String) (now : ℕ)
        (rows : List Row) (res : List Row × ℕ)
      → cfg.anchor_interval ≤ max_steps
      → AreSound c rows
      → IsLatest c file rows latest
      → insert_next c cfg file latest after user now rows ≡ ok res
      → IsInserted c file rows after res
  unfolding insert_next
  insert_next-IsInserted lossless cfg file latest after user now rows res le h is_latest e =
      elim (Bool-cases
        (leb (max_uint64 cfg.anchor_interval 1) (chain_length file latest.chain_id rows))) [
          | inl long ↦
              insert_snapshot-IsInserted c lossless file user after now rows res h
                (ground (arith, long, e))
          | inr room ↦
              let short : chain_length file latest.chain_id rows < max_steps =
                below_anchor cfg.anchor_interval (chain_length file latest.chain_id rows) le room in
              elim (Result-cases (reconstruct c rows latest.id)) [
                | inr (x, broken) ↦
                    insert_snapshot-IsInserted c lossless file user after now rows res h
                      (ground (arith, room, broken, e))
                | inl (previous, back) ↦
                    let (content, held, found, of, chained) = is_latest in
                    insert_compact-IsInserted lossless file latest.id latest.chain_id latest
                      previous user after now rows res h is_latest refl refl back
                      (omega (arith, ap (λ f. chain_length f latest.chain_id rows) of, short))
                      (ground (arith, room, back, e))
              ]
        ]
