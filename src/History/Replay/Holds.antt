-- ===== src/History/Replay/Holds.antt =====
-- The content that a revision stands for, against its reconstruction.
use mathlib.Core.List.{reverse-cons}
use daemon.Common.{
  ℕ, zero, suc, ◌≤◌, ◌<◌, ◌≡◌, refl, sym, ap, ◌∙◌, inl, inr, Bool, true, Option, none, some, List,
  [], ◌∷◌, ◌++◌, reverse, All, arith, Option-cases, Bool-cases, ok,
}
use daemon.History.Table.{Bytes, same_bytes, Row, find_row}
use daemon.History.Table.Chains.{
  same_bytes_refl, keep_chains, find_row-keep_chains, find_row-insert,
}
use daemon.History.Replay.{Codec, collect, replay, replay_chain, reconstruct, max_steps}

some_inj {ℓ} : {A : Type ℓ} {x y : A} → some x ≡ some y → x ≡ y
some_inj e = cc

-- Two rows that a lookup finds are the same, and pass the same test.
same_row :
    (p : ℕ → ℕ → Bool) {o : Option Row} (x r : Row)
    → o ≡ some x
    → o ≡ some r
    → p x.file_id x.chain_id ≡ true
    → p r.file_id r.chain_id ≡ true
same_row p x r f g k = sym (ap (λ (y : Row). p y.file_id y.chain_id) (some_inj (sym f ∙ g))) ∙ k

module _ (c : Codec) where
  -- A revision stands for a content through at most `n` rows: a snapshot that decodes to it, or a
  -- delta that makes it of the content of its base, which is of the same file and chain.
  pub data Holds (rows : List Row) : ℕ → Bytes → ℕ → Type 0 where
    snapshot :
        {id : ℕ} {content : Bytes} {n : ℕ} (r : Row)
        → find_row id rows ≡ some r
        → r.base_id ≡ none
        → c.decode r.payload ≡ some content
        → c.hash content ≡ r.content_hash
        → Holds rows id content (suc n)
    delta :
        {id : ℕ} {content : Bytes} {n : ℕ} (r b : Row) (base : Bytes)
        → find_row id rows ≡ some r
        → r.base_id ≡ some b.id
        → find_row b.id rows ≡ some b
        → b.file_id ≡ r.file_id
        → b.chain_id ≡ r.chain_id
        → Holds rows b.id base n
        → c.decode_with base r.payload ≡ some content
        → c.hash content ≡ r.content_hash
        → Holds rows id content (suc n)

  pub Holds-insert :
      (x : Row) (rows : List Row) {id : ℕ} {content : Bytes} {n : ℕ}
      → All (λ s. s.id < x.id) rows
      → Holds rows id content n
      → Holds (x ∷ rows) id content n
  Holds-insert x rows {id} fresh (snapshot r f b d h) =
      snapshot r (find_row-insert x rows id r fresh f) b d h
  Holds-insert x rows {id} fresh (delta r b base f e g s t held d h) =
      delta r b base (find_row-insert x rows id r fresh f) e (find_row-insert x rows b.id b fresh g)
        s t (Holds-insert x rows fresh held) d h

  pub Holds-keep_chains :
      (p : ℕ → ℕ → Bool) (rows : List Row) {id : ℕ} {content : Bytes} {n : ℕ} (x : Row)
      → find_row id rows ≡ some x
      → p x.file_id x.chain_id ≡ true
      → Holds rows id content n
      → Holds (keep_chains p rows) id content n
  Holds-keep_chains p rows {id} x fx kept (snapshot r f b d h) =
      snapshot r (find_row-keep_chains p id rows r f (same_row p x r fx f kept)) b d h
  Holds-keep_chains p rows {id} x fx kept (delta r b base f e g s t held d h) =
      let own = same_row p x r fx f kept in
      let kept_base : p b.file_id b.chain_id ≡ true = rw (s, t) own in
      delta r b base (find_row-keep_chains p id rows r f own) e
        (find_row-keep_chains p b.id rows b g kept_base) s t
        (Holds-keep_chains p rows b g kept_base held) d h

  pub Holds-weaken :
      (rows : List Row) {id : ℕ} {content : Bytes} {n : ℕ} (m : ℕ)
      → n ≤ m
      → Holds rows id content n
      → Holds rows id content m
  Holds-weaken rows zero le (snapshot r f b d h) = absurd (omega arith)
  Holds-weaken rows (suc m) le (snapshot r f b d h) = snapshot r f b d h
  Holds-weaken rows zero le (delta r b base f e g s t held d h) = absurd (omega arith)
  Holds-weaken rows (suc m) le (delta r b base f e g s t held d h) =
      delta r b base f e g s t (Holds-weaken rows m (omega arith) held) d h

  -- The hash in the row is that of the content.
  pub Holds-hash :
      (rows : List Row) {id : ℕ} {content : Bytes} {n : ℕ} (x : Row)
      → find_row id rows ≡ some x
      → Holds rows id content n
      → c.hash content ≡ x.content_hash
  Holds-hash rows x fx (snapshot r f b d h) =
      h ∙ ap (λ (y : Row). y.content_hash) (some_inj (sym f ∙ fx))
  Holds-hash rows x fx (delta r b base f e g s t held d h) =
      h ∙ ap (λ (y : Row). y.content_hash) (some_inj (sym f ∙ fx))

  replay-append :
      (content next : Bytes) (rs : List Row) (before : Bytes) (r : Row)
      → replay c before rs ≡ ok content
      → c.decode_with content r.payload ≡ some next
      → c.hash next ≡ r.content_hash
      → replay c before (rs ++ r ∷ []) ≡ ok next
  unfolding replay
  replay-append content next [] before r e d h =
      ground (arith, e, d, h, same_bytes_refl r.content_hash)
  replay-append content next (x ∷ rs) before r e d h =
      elim (Option-cases (c.decode_with before x.payload)) [
        | inl failed ↦ absurd (ground (arith, failed, e))
        | inr (m, dm) ↦ elim (Bool-cases (same_bytes (c.hash m) x.content_hash)) [
          | inl same ↦ ground (arith, dm, same, e, replay-append content next rs m r)
          | inr other ↦ absurd (ground (arith, dm, other, e))
        ]
      ]

  replay_chain-append :
      (content next : Bytes) (rs : List Row) (r : Row)
      → replay_chain c rs ≡ ok content
      → c.decode_with content r.payload ≡ some next
      → c.hash next ≡ r.content_hash
      → replay_chain c (rs ++ r ∷ []) ≡ ok next
  unfolding replay_chain
  replay_chain-append content next [] r e d h = absurd cc
  replay_chain-append content next (x ∷ rs) r e d h = elim (Option-cases (c.decode x.payload)) [
    | inl failed ↦ absurd (ground (arith, failed, e))
    | inr (m, dm) ↦ elim (Bool-cases (same_bytes (c.hash m) x.content_hash)) [
      | inl same ↦ ground (arith, dm, same, e, replay-append content next rs m r)
      | inr other ↦ absurd (ground (arith, dm, other, e))
    ]
  ]

  collect-none : (n : ℕ) (rows : List Row) → collect c n rows none ≡ ok []
  unfolding collect
  collect-none zero rows = refl
  collect-none (suc n) rows = refl

  collect-row :
      (n id : ℕ) (rows chain : List Row) (r : Row) (base : Option ℕ)
      → find_row id rows ≡ some r
      → r.base_id ≡ base
      → collect c n rows base ≡ ok chain
      → collect c (suc n) rows (some id) ≡ ok (r ∷ chain)
  unfolding collect
  collect-row n id rows chain r base f e h = ground (arith, f, e, h)

  replay_chain-snapshot :
      (r : Row) (content : Bytes)
      → r.base_id ≡ none
      → c.decode r.payload ≡ some content
      → c.hash content ≡ r.content_hash
      → replay_chain c (r ∷ []) ≡ ok content
  unfolding replay_chain replay
  replay_chain-snapshot r content b d h = ground (arith, b, d, h, same_bytes_refl r.content_hash)

  collect-Holds :
      (rows : List Row) {id : ℕ} {content : Bytes} {n : ℕ}
      → Holds rows id content n
      → (chain : List Row) × (collect c n rows (some id) ≡ ok chain)
        × (replay_chain c (reverse chain) ≡ ok content)
  collect-Holds rows {n = zero} held = elim held [ ]
  collect-Holds rows {id} {content} {n = suc n} (snapshot r f b d h) = (
    r ∷ [],
    collect-row n id rows [] r none f b (collect-none n rows),
    replay_chain-snapshot r content b d h,
  )
  collect-Holds rows {id} {content} {n = suc n} (delta r b base f e g s t held d h) =
      let (chain, found, back) = collect-Holds rows held in
      (
        r ∷ chain,
        collect-row n id rows chain r (some b.id) f e found,
        ap (replay_chain c) (reverse-cons r chain)
            ∙ replay_chain-append base content (reverse chain) r back d h,
      )

  pub reconstruct-Holds :
      (rows : List Row) {id : ℕ} {content : Bytes} {n : ℕ}
      → Holds rows id content n
      → n ≤ max_steps
      → reconstruct c rows id ≡ ok content
  unfolding reconstruct
  reconstruct-Holds rows {id} {content} held le =
      let (chain, found, back) = collect-Holds rows (Holds-weaken rows 1000 le held) in
      rw found back
