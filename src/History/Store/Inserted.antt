-- ===== src/History/Store/Inserted.antt =====
-- What an insertion adds to sound tables: a latest revision of the content.
use mathlib.Core.Path.{subst}
use daemon.Common.{
  ℕ, suc, ◌≤◌, ◌<◌, ◌≡◌, refl, sym, ap, inl, inr, not, none, some, List, [], ◌∷◌, keep, length, All,
  arith, ◌==◌, ==_refl, ==_iff, Bool-cases, Option-cases, Result, ok, String,
}
use daemon.History.Table.{Bytes, same_bytes, Row, chain_length, max_id, insert_row}
use daemon.History.Table.Chains.{same_bytes-eq, All-max_id, find_row-insert, find_row-All}
use daemon.History.Replay.{
  Codec, IsLossless, HistoryError, encode_delta, reconstruct, insert_encoded_snapshot,
  insert_snapshot, max_steps,
}
use daemon.History.Replay.Holds.{
  Holds, snapshot, delta, Holds-insert, Holds-weaken, reconstruct-Holds,
}
use daemon.History.Store.Sound.{AreSound, IsLatest}

ok_unique : {r : Result HistoryError Bytes} {x y : Bytes} → r ≡ ok x → r ≡ ok y → x ≡ y
ok_unique e f = cc

-- The rows of the other files.
abbrev pub not_of : ℕ → List Row → List Row
not_of file = keep (λ s. not (s.file_id == file))

pub not_of-own :
    (file : ℕ) (r : Row) (rows : List Row)
    → r.file_id ≡ file
    → not_of file (r ∷ rows) ≡ not_of file rows
not_of-own file r rows h = rw ((==_iff r.file_id file).1 h) refl

module _ (c : Codec) where
  -- The rows with a new latest revision of a file, which stands for a content.
  pub record IsInserted (file : ℕ) (before : List Row) (content : Bytes) (res : List Row × ℕ)
      : Type 0 where
    pub row : Row
    pub older : List Row
    pub rows : res.0 ≡ row ∷ older
    pub id : row.id ≡ res.1
    pub of_file : row.file_id ≡ file
    pub others : not_of file older ≡ not_of file before
    pub sound : AreSound c (row ∷ older)
    pub holds : Holds c (row ∷ older) row.id content max_steps

  pub chains_below :
      (rows : List Row) (n : ℕ)
      → AreSound c rows
      → All (λ s. s.id < n) rows
      → All (λ s. s.chain_id < n) rows
  chains_below [] n h k = tt
  chains_below (r ∷ rs) n (v, h) (k, ks) = (omega (arith, v.own), chains_below rs n h ks)

  chained_below :
      (rows : List Row) (n file : ℕ)
      → All (λ s. s.chain_id < n) rows
      → All (λ s. s.file_id ≡ file → s.chain_id ≤ n) rows
  chained_below [] n file h = tt
  chained_below (r ∷ rs) n file (h, hs) = (λ _. omega arith, chained_below rs n file hs)

  pub chain_length_fresh :
      (rows : List Row) (n file : ℕ) → All (λ s. s.chain_id < n) rows → chain_length file n rows ≡ 0
  unfolding chain_length
  chain_length_fresh [] n file h = refl
  chain_length_fresh (r ∷ rs) n file (h, hs) = ground (arith, chain_length_fresh rs n file hs)

  -- A row that is sound before the older rows, and stands for a content.
  added :
      (file : ℕ) (content : Bytes) (r : Row) (rows : List Row)
      → AreSound c rows
      → r.id ≡ suc (max_id rows)
      → r.file_id ≡ file
      → All (λ s. s.file_id ≡ r.file_id → s.chain_id ≤ r.chain_id) rows
      → r.chain_id ≤ r.id
      → chain_length r.file_id r.chain_id rows < max_steps
      → Holds c (r ∷ rows) r.id content (suc (chain_length r.file_id r.chain_id rows))
      → IsInserted file rows content (r ∷ rows, suc (max_id rows))
  added file content r rows h i f ch own short held = record {
    row = r;
    older = rows;
    rows = refl;
    id = i;
    of_file = f;
    others = refl;
    sound = (
      record {
        fresh = subst (λ n. All (λ s. s.id < n) rows) (sym i) (All-max_id rows);
        chained = ch;
        own = own;
        short = short;
        content = content;
        holds = held;
      },
      h,
    );
    holds = Holds-weaken c (r ∷ rows) max_steps (omega (arith, short)) held;
  }

  pub insert_encoded_snapshot-IsInserted :
      (file : ℕ) (user : String) (content payload : Bytes) (created : ℕ) (rows : List Row)
      → AreSound c rows
      → c.decode payload ≡ some content
      → IsInserted file rows content
          (insert_encoded_snapshot c file user content payload created rows)
  unfolding insert_encoded_snapshot insert_row
  insert_encoded_snapshot-IsInserted file user content payload created rows h d =
      let n = suc (max_id rows) in
      let below = chains_below rows n h (All-max_id rows) in
      let r : Row = record {
        id = n;
        file_id = file;
        chain_id = n;
        size = length content;
        user_id = user;
        base_id = none;
        payload = payload;
        content_hash = c.hash content;
        created = created;
      } in
      added file content r rows h refl refl (chained_below rows n file below) (omega arith)
        (omega (arith, chain_length_fresh rows n file below))
        (snapshot r (rw (==_refl n) refl) refl d refl)

  pub insert_snapshot-IsInserted :
      IsLossless c
      → (file : ℕ) (user : String) (content : Bytes) (created : ℕ) (rows : List Row)
        (res : List Row × ℕ)
      → AreSound c rows
      → insert_snapshot c file user content created rows ≡ ok res
      → IsInserted file rows content res
  unfolding insert_snapshot
  insert_snapshot-IsInserted lossless file user content created rows res h e =
      elim (Option-cases (c.encode content)) [
        | inl failed ↦ absurd (ground (arith, failed, e))
        | inr (payload, encoded) ↦
            let same : insert_encoded_snapshot c file user content payload created rows ≡ res =
              ground (arith, encoded, e) in
            subst (IsInserted file rows content) same (
              insert_encoded_snapshot-IsInserted file user content payload created rows h
                (lossless content payload encoded))
      ]

  pub encode_delta-decodes :
      (base content payload : Bytes)
      → encode_delta c base content ≡ some payload
      → c.decode_with base payload ≡ some content
  unfolding encode_delta
  encode_delta-decodes base content payload e = elim (Option-cases (c.encode_with base content)) [
    | inl failed ↦ absurd (ground (arith, failed, e))
    | inr (p, encoded) ↦ elim (Option-cases (c.decode_with base p)) [
      | inl failed ↦ absurd (ground (arith, encoded, failed, e))
      | inr (decoded, back) ↦ elim (Bool-cases (same_bytes decoded content)) [
        | inr other ↦ absurd (ground (arith, encoded, back, other, e))
        | inl same ↦
            let is_payload : p ≡ payload = ground (arith, encoded, back, same, e) in
            rw (sym is_payload, back) (ap some (same_bytes-eq decoded content same))
      ]
    ]
  ]

  -- A delta behind the latest revision of the file.
  pub insert_delta-IsInserted :
      (file : ℕ) (b : Row) (user : String) (base content payload : Bytes) (created : ℕ)
      (rows : List Row)
      → AreSound c rows
      → IsLatest c file rows b
      → reconstruct c rows b.id ≡ ok base
      → chain_length b.file_id b.chain_id rows < max_steps
      → c.decode_with base payload ≡ some content
      → IsInserted file rows content (
          insert_row file
            (some b.chain_id)
            user
            (some b.id)
            (length content)
            payload
            (c.hash content)
            created
            rows)
  unfolding insert_row
  insert_delta-IsInserted file b user base content payload created rows h
        (held_content, held, found, of, chained) back short d =
      let n = suc (max_id rows) in
      let below = chains_below rows n h (All-max_id rows) in
      let r : Row = record {
        id = n;
        file_id = file;
        chain_id = b.chain_id;
        size = length content;
        user_id = user;
        base_id = some b.id;
        payload = payload;
        content_hash = c.hash content;
        created = created;
      } in
      let same_base : held_content ≡ base =
        ok_unique (reconstruct-Holds c rows held (omega (arith, short))) back in
      let own : b.chain_id < n = find_row-All (λ s. s.chain_id < n) b.id rows b below found in
      let len : chain_length file b.chain_id rows ≡ chain_length b.file_id b.chain_id rows =
        ap (λ f. chain_length f b.chain_id rows) (sym of) in
      let held' : Holds c rows b.id base (chain_length file b.chain_id rows) =
        Holds-weaken c rows (chain_length file b.chain_id rows) (omega (arith, len)) (
          subst (λ x. Holds c rows b.id x (chain_length b.file_id b.chain_id rows)) same_base
            held) in
      added file content r rows h refl refl chained (omega (arith, own)) (omega (arith, len, short))
        (delta r b base (rw (==_refl n) refl) refl
          (find_row-insert r rows b.id b (All-max_id rows) found) of refl
          (Holds-insert c r rows (All-max_id rows) held') d refl)
