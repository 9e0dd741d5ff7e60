-- ===== src/Collab/Document/History.antt =====
-- The history as a chain of contents, through `applyMonacoChanges` and `replace`.
use mathlib.Core.Path.{subst}
use mathlib.Core.List.{reverse-append}
use daemon.Common.{
  ℕ, zero, suc, ◌+◌, ◌-◌, ◌≤◌, ◌≡◌, refl, sym, ap, ◌∙◌, inl, inr, Bool, true, false, ◌&&◌, some,
  List, [], ◌∷◌, ◌++◌, length, take, drop, reverse, length-drop, arith, ok, Option-cases,
  Result-cases, le_or_lt, lt→ltb, le→not_ltb, length-reverse, take_all, reverse-drop, ltb,
  if◌then◌else◌,
}
use daemon.Common.Int.{ℤ, pos, ltb_ℤ}
use daemon.Collab.Text.{Text, utf16_len, utf8_len, content_hash}
use daemon.Collab.Ot.{Ot, Inverts}
use daemon.Collab.Edits.{TextEdit, changes_to_operation, operation_to_changes}
use daemon.Collab.Document.{
  Operation, Document, ApplyResult, history_limit, replace, resolve_base, transform_past,
  push_history, commit, apply_monaco_changes,
}

-- A list cut to its last elements, in reverse.
reverse-cut :
    {A : Type 0} (limit : ℕ) (xs : List A)
    → reverse (if ltb limit (length xs) then drop (length xs - limit) xs else xs)
      ≡ take limit (reverse xs)
reverse-cut limit xs = elim (le_or_lt (length xs) limit) [
  | inl short ↦
      rw (le→not_ltb limit (length xs) short)
        (sym (take_all limit (reverse xs) (omega (arith, length-reverse xs))))
  | inr long ↦
      rw (lt→ltb limit (length xs) long) (reverse-drop (length xs - limit) limit xs (omega arith))
]

module _ (ot : Ot) where
  -- One operation of the history, from the content before it to the content after it.
  pub record Links (h : Operation ot) (revision : ℕ) (before after : Text) : Type 0 where
    pub numbered : h.revision ≡ revision
    pub positive : 1 ≤ revision
    pub forth : ot.apply h.forward before ≡ some after
    pub back : ot.apply h.inverse after ≡ some before
    pub from_hash : h.base_hash ≡ content_hash before
    pub from_length : h.base_length ≡ utf16_len before
    pub to_hash : h.target_hash ≡ content_hash after
    pub to_length : h.target_len ≡ utf16_len after

  -- From a content at a revision back through the operations, the newest first, to the contents
  -- before them.
  abbrev pub Chain : Text → ℕ → List (Operation ot) → List Text → Type 0
  Chain content revision [] [] = Unit {0}
  Chain content revision [] (b ∷ bs) = ⊥
  Chain content revision (h ∷ hs) [] = ⊥
  Chain content revision (h ∷ hs) (b ∷ bs) =
      Links h revision b content × Chain b (revision - 1) hs bs

  pub record IsValid (d : Document ot) : Type 0 where
    pub earlier : List Text
    pub chain : Chain d.content d.revision (reverse d.history) earlier
    pub limited : length d.history ≤ history_limit

  -- A shorter history is a chain too.
  Chain-take :
      (n : ℕ) (c : Text) (r : ℕ) (hs : List (Operation ot)) (bs : List Text)
      → Chain c r hs bs
      → Chain c r (take n hs) (take n bs)
  Chain-take zero c r hs bs h = tt
  Chain-take (suc n) c r [] [] h = tt
  Chain-take (suc n) c r [] (b ∷ bs) h = absurd h
  Chain-take (suc n) c r (h ∷ hs) [] e = absurd e
  Chain-take (suc n) c r (h ∷ hs) (b ∷ bs) (l, e) = (l, Chain-take n b (r - 1) hs bs e)

  reverse-push_history :
      (history : List (Operation ot)) (h : Operation ot)
      → reverse (push_history ot history h) ≡ take history_limit (h ∷ reverse history)
  unfolding push_history
  reverse-push_history history h =
      reverse-cut history_limit (history ++ h ∷ [])
      ∙ ap (take history_limit) (reverse-append history (h ∷ []))

  length-push_history :
      (history : List (Operation ot)) (h : Operation ot)
      → length (push_history ot history h) ≤ history_limit
  unfolding push_history
  length-push_history history h =
      ground (arith, length-drop (length (history ++ h ∷ []) - history_limit) (history ++ h ∷ []))

  commit-IsValid :
      Inverts ot
      → (d : Document ot) (incoming : ot.Op) (next : Text) → ot.apply incoming d.content ≡ some next
      → IsValid d
      → IsValid (commit ot d incoming next)
  unfolding commit
  commit-IsValid inverts d incoming next e v = record {
    earlier = take history_limit (d.content ∷ v.earlier);
    chain =
        subst (λ hs. Chain next (d.revision + 1) hs (take history_limit (d.content ∷ v.earlier)))
          (sym (reverse-push_history d.history added))
          (Chain-take history_limit next (d.revision + 1) (added ∷ reverse d.history)
            (d.content ∷ v.earlier)
            (
              link,
              subst (λ n. Chain d.content n (reverse d.history) v.earlier) (omega arith) v.chain,
            ));
    limited = length-push_history d.history added;
  }
    where
      added : Operation ot
      added = record {
        revision = d.revision + 1;
        base_hash = content_hash d.content;
        base_length = utf16_len d.content;
        target_hash = content_hash next;
        target_len = utf16_len next;
        forward = incoming;
        inverse = ot.invert incoming d.content;
      }

      link : Links added (d.revision + 1) d.content next
      link = record {
        numbered = refl;
        positive = omega arith;
        forth = e;
        back = inverts incoming d.content next e;
        from_hash = refl;
        from_length = refl;
        to_hash = refl;
        to_length = refl;
      }

  apply_steps :
      (valid_text : Text → Bool) (d d' : Document ot) (changes : List TextEdit) (max_bytes : ℤ)
      (r : ApplyResult ot)
      → apply_monaco_changes ot valid_text d changes max_bytes ≡ ok (d', r)
      → (incoming : ot.Op) × (next : Text) × (ot.apply incoming d.content ≡ some next)
        × (d' ≡ commit ot d incoming next)
        × (r.revision ≡ d.revision + 1)
        × ((ltb_ℤ (pos 0) max_bytes && ltb_ℤ max_bytes (pos (utf8_len next))) ≡ false)
  unfolding apply_monaco_changes
  apply_steps valid_text d d' changes max_bytes r h =
      elim (Result-cases (resolve_base ot d changes)) [
        | inr (x, b) ↦ absurd (ground arith)
        | inl ((rev, base), b) ↦
            elim (Result-cases (changes_to_operation ot valid_text base changes)) [
              | inr (x, g) ↦ absurd (ground arith)
              | inl (given, g) ↦ elim (Result-cases (transform_past ot rev given d.history)) [
                | inr (x, t) ↦ absurd (ground arith)
                | inl (incoming, t) ↦
                    elim (Result-cases (operation_to_changes ot d.content incoming)) [
                      | inr (x, n) ↦ absurd (ground arith)
                      | inl (normalized, n) ↦ elim (Option-cases (ot.apply incoming d.content)) [
                        | inl e ↦ absurd (ground arith)
                        | inr (next, e) ↦
                            (incoming, next, e, ground arith, ground arith, ground arith)
                      ]
                    ]
              ]
            ]
      ]

  -- Where the package's `Invert` undoes an operation, an accepted patch keeps the document valid:
  -- its history, at most 128 operations long, is a chain of consecutive revisions, each operation
  -- and its inverse lead from one content to the next and back, and the hashes and lengths are
  -- those of these contents. The revision is one more, and is the one that the result names.
  pub apply_monaco_changes-IsValid :
      Inverts ot
      → (valid_text : Text → Bool) (d d' : Document ot) (changes : List TextEdit) (max_bytes : ℤ)
        (r : ApplyResult ot)
      → apply_monaco_changes ot valid_text d changes max_bytes ≡ ok (d', r)
      → IsValid d
      → IsValid d' × (d'.revision ≡ d.revision + 1) × (r.revision ≡ d'.revision)
  apply_monaco_changes-IsValid inverts valid_text d d' changes max_bytes r h v =
      let (incoming, next, e, same, named, _) = apply_steps valid_text d d' changes max_bytes r h in
      subst (λ x. IsValid x × (x.revision ≡ d.revision + 1) × (r.revision ≡ x.revision)) (sym same)
        (commit-IsValid inverts d incoming next e v, unfold commit in refl, unfold commit in named)

  -- Under a limit that is positive, an accepted patch leaves a content within it.
  pub apply_monaco_changes_fits :
      (valid_text : Text → Bool) (d d' : Document ot) (changes : List TextEdit) (max_bytes : ℤ)
      (r : ApplyResult ot)
      → apply_monaco_changes ot valid_text d changes max_bytes ≡ ok (d', r)
      → ltb_ℤ (pos 0) max_bytes ≡ true
      → ltb_ℤ max_bytes (pos (utf8_len d'.content)) ≡ false
  unfolding commit
  apply_monaco_changes_fits valid_text d d' changes max_bytes r h positive =
      let (incoming, next, e, same, named, fits) =
        apply_steps valid_text d d' changes max_bytes r h in
      let content : d'.content ≡ next = ap (λ (x : Document ot). x.content) same in
      rw content (ground (arith, fits, positive))

  pub replace-IsValid : (d : Document ot) (content : Text) → IsValid (replace ot d content)
  unfolding replace
  replace-IsValid d content = record { earlier = []; chain = tt; limited = omega arith }
