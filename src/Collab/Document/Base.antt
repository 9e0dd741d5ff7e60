-- ===== src/Collab/Document/Base.antt =====
-- The base that `resolveBase` gives, against the chain of past contents.
use mathlib.Core.Path.{subst}
use mathlib.Core.List.{reverse-reverse, reverse-cons}
use daemon.Common.{
  ℕ, suc, ◌+◌, ◌-◌, ◌≤◌, ◌<◌, ◌≡◌, sym, ap, ◌⊎◌, inl, inr, Bool-cases, some, List, [], ◌∷◌, ◌++◌,
  length, reverse, get_elem?, length-reverse, arith, ok, Option-cases, Result-cases, All, ltb,
  ltb→lt, not_ltb→le,
}
use daemon.Common.Int.{ℤ}
use daemon.Collab.Text.{Text, same_text}
use daemon.Collab.Ot.{Ot}
use daemon.Collab.Edits.{TextEdit}
use daemon.Collab.Document.{
  Operation, Document, find_base, rebuild, is_base, resolve_agreed, resolve_base,
}
use daemon.Collab.Document.History.{Chain, IsValid}

-- `All` of a list in another order.
All-append {ℓ} :
    {A : Type ℓ} (P : A → Type 0) (xs ys : List A) → All P xs → All P ys → All P (xs ++ ys)
All-append P [] ys h k = k
All-append P (x ∷ xs) ys (p, h) k = (p, All-append P xs ys h k)

All-reverse {ℓ} : {A : Type ℓ} (P : A → Type 0) (xs : List A) → All P xs → All P (reverse xs)
All-reverse P [] h = tt
All-reverse P (x ∷ xs) (p, h) =
    subst (All P) (sym (reverse-cons x xs))
      (All-append P (reverse xs) (x ∷ []) (All-reverse P xs h) (p, tt))

module _ (ot : Ot) where
  -- Going back through a chain to a revision that it covers gives the content of that revision.
  rebuild-Chain :
      (base : ℕ) (hs : List (Operation ot)) (bs : List Text) (c b : Text) (n : ℕ)
      → Chain ot c n hs bs
      → rebuild ot base hs c ≡ ok b
      → base ≤ n
      → n ≤ base + length hs
      → get_elem? (c ∷ bs) (n - base) ≡ some b
  unfolding rebuild
  rebuild-Chain base [] [] c b n h e lo hi =
      let z : n - base ≡ 0 = omega (arith, hi, lo) in rw z (ground (arith, e))
  rebuild-Chain base [] (b₁ ∷ bs) c b n h e lo hi = absurd h
  rebuild-Chain base (h ∷ hs) [] c b n l e lo hi = absurd l
  rebuild-Chain base (h ∷ hs) (b₁ ∷ bs) c b n (l, more) e lo hi =
      elim (Bool-cases (ltb base h.revision)) [
        | inl later ↦
            let back : rebuild ot base hs b₁ ≡ ok b = ground (arith, later, l.back, e) in
            let z : n - base ≡ suc (n - 1 - base) =
              omega (arith, ltb→lt base h.revision later, l.numbered) in
            rw z (
              rebuild-Chain base hs bs b₁ b (n - 1) more back
                (omega (arith, ltb→lt base h.revision later, l.numbered))
                (omega (arith, hi, ltb→lt base h.revision later, l.numbered)))
        | inr reached ↦
            let z : n - base ≡ 0 =
              omega (arith, lo, not_ltb→le base h.revision reached, l.numbered) in
            let same : c ≡ b = ground (arith, reached, e) in rw z (ap some same)
      ]

  -- The revisions of a chain, the newest of which is `n`.
  Covers : ℕ → ℕ → Operation ot → Type 0
  Covers n size h = (1 ≤ h.revision) × (h.revision ≤ n) × (n < h.revision + size)

  Chain-Covers :
      (n size : ℕ) (hs : List (Operation ot)) (bs : List Text) (c : Text) (m : ℕ)
      → Chain ot c m hs bs
      → m ≤ n
      → n + length hs ≤ m + size
      → All (Covers n size) hs
  unfolding Covers
  Chain-Covers n size [] bs c m h lo hi = tt
  Chain-Covers n size (h ∷ hs) [] c m l lo hi = absurd l
  Chain-Covers n size (h ∷ hs) (b ∷ bs) c m (l, more) lo hi = (
    omega (arith, l.numbered, l.positive),
    Chain-Covers n size hs bs b (m - 1) more (omega arith) (omega (arith, l.positive)),
  )

  find_base-Covers :
      (hash : Text) (len : ℤ) (hs : List (Operation ot)) (n size base : ℕ)
      → All (Covers n size) hs
      → find_base ot hash len hs ≡ some base
      → (base ≤ n) × (n ≤ base + size)
  unfolding find_base Covers
  find_base-Covers hash len [] n size base h e = cc
  find_base-Covers hash len (x ∷ hs) n size base (c, h) e =
      ground (arith, find_base-Covers hash len hs n size base h)

  -- A search of the history finds a revision that the chain covers.
  find_base-reach :
      (d : Document ot) (bs : List Text) (hash : Text) (len : ℤ) (base : ℕ)
      → Chain ot d.content d.revision (reverse d.history) bs
      → find_base ot hash len d.history ≡ some base
      → (base ≤ d.revision) × (d.revision ≤ base + length d.history)
  find_base-reach d bs hash len base h e =
      find_base-Covers hash len d.history d.revision (length d.history) base
        (subst (All (Covers d.revision (length d.history))) (reverse-reverse d.history) (
          All-reverse (Covers d.revision (length d.history)) (reverse d.history) (
            Chain-Covers d.revision (length d.history) (reverse d.history) bs d.content d.revision h
              (omega arith) (omega (arith, length-reverse d.history)))))
        e

  -- What `resolve_agreed` answers: the present content, or one that a search found and rebuilt.
  resolve_agreed-cases :
      (d : Document ot) (hash : Text) (len : ℤ) (rev : ℕ) (b : Text)
      → resolve_agreed ot d hash len ≡ ok (rev, b)
      → ((rev ≡ d.revision) × (b ≡ d.content))
        ⊎ ((find_base ot hash len d.history ≡ some rev)
            × (rebuild ot rev (reverse d.history) d.content ≡ ok b))
  unfolding resolve_agreed
  resolve_agreed-cases d hash len rev b e = elim (Bool-cases (same_text hash [])) [
    | inl empty ↦ inl (ground arith)
    | inr given ↦ elim (Bool-cases (is_base ot hash len d.content)) [
      | inl present ↦ inl (ground arith)
      | inr past ↦ elim (Option-cases (find_base ot hash len d.history)) [
        | inl missing ↦ absurd (ground arith)
        | inr (base, found) ↦ elim (Result-cases (rebuild ot base (reverse d.history) d.content)) [
          | inl (c, back) ↦ inr (ground arith)
          | inr (x, failed) ↦ absurd (ground arith)
        ]
      ]
    ]
  ]

  resolve_base-agreed :
      (d : Document ot) (changes : List TextEdit) (rev : ℕ) (b : Text)
      → resolve_base ot d changes ≡ ok (rev, b)
      → (hash : Text) × (len : ℤ) × (resolve_agreed ot d hash len ≡ ok (rev, b))
  unfolding resolve_base
  resolve_base-agreed d [] rev b e = absurd (cc)
  resolve_base-agreed d (c ∷ cs) rev b e = (c.base_hash, c.base_length, ground arith)

  -- In a valid document, the revision and the text that a patch is resolved to belong together: the
  -- revision is not after the present one, and the text is the content of the chain of past
  -- contents at that revision.
  pub resolve_base-past :
      {d : Document ot}
      → (v : IsValid ot d) (changes : List TextEdit) (rev : ℕ) (b : Text)
      → resolve_base ot d changes ≡ ok (rev, b)
      → (rev ≤ d.revision) × (get_elem? (d.content ∷ v.earlier) (d.revision - rev) ≡ some b)
  resolve_base-past {d} v changes rev b e =
      let (hash, len, r) = resolve_base-agreed d changes rev b e in
      elim (resolve_agreed-cases d hash len rev b r) [
        | inl (now, same) ↦
            let z : d.revision - rev ≡ 0 = omega (arith, now) in
            (omega (arith, now), rw z (ap some (sym same)))
        | inr (found, back) ↦
            let (lo, hi) = find_base-reach d v.earlier hash len rev v.chain found in
            (
              lo,
              rebuild-Chain rev (reverse d.history) v.earlier d.content b d.revision v.chain back lo
                  (omega (arith, hi, length-reverse d.history)),
            )
      ]
