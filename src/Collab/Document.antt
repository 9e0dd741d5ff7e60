-- ===== src/Collab/Document.antt =====
-- The document with its history, `betterFilesCollabDocument`: `replace`, `snapshot`, `resolveBase`
-- and `applyMonacoChanges`. The embedded mutex makes each method one step.
pub mod History
pub mod Base
use daemon.Common.{
  ℕ, suc, ◌+◌, ◌-◌, Bool, true, false, ◌&&◌, ◌||◌, not, Option, none, some, List, [], ◌∷◌, ◌++◌,
  length, drop, reverse, all, ltb, leb, ◌==◌, if◌then◌else◌, Result, ok, err, ◌>>=◌, ◌>>◌, require,
  reject,
}
use daemon.Common.Int.{ℤ, pos, negsuc, ltb_ℤ, eqb_ℤ}
use daemon.Collab.Text.{Text, same_text, utf16_len, utf8_len, content_hash}
use daemon.Collab.Ot.{Ot}
use daemon.Collab.Edits
use daemon.Collab.Edits.{TextEdit, CollabError, changes_to_operation, operation_to_changes}

abbrev pub history_limit : ℕ
history_limit = 128

module _ (ot : Ot) where
  open ot use {Op, transform, apply, invert}

  -- `betterFilesCollabOperation`. A revision is at least 1.
  pub record Operation : Type 0 where
    pub revision : ℕ
    pub base_hash : Text
    pub base_length : ℕ
    pub target_hash : Text
    pub target_len : ℕ
    pub forward : Op
    pub inverse : Op

  -- The history is in the order of the source, the oldest first.
  pub record Document : Type 0 where
    pub content : Text
    pub revision : ℕ
    pub history : List Operation

  unfoldable pub new_document : Text → Document
  new_document content = record { content = content; revision = 0; history = [] }

  unfoldable pub replace : Document → Text → Document
  replace d content = record d { content = content; revision = d.revision + 1; history = [] }

  unfoldable pub snapshot : Document → Text × ℕ
  snapshot d = (d.content, d.revision)

  -- The search for the revision of a base; `none` is the source's -1.
  unfoldable pub find_base : Text → ℤ → List Operation → Option ℕ
  find_base hash len [] = none
  find_base hash len (h ∷ hs) =
      if same_text h.base_hash hash && eqb_ℤ (pos h.base_length) len
      then (if h.revision == 0 then none else some (h.revision - 1))
      else if same_text h.target_hash hash && eqb_ℤ (pos h.target_len) len
      then some h.revision
      else find_base hash len hs

  -- The loop that goes back to a revision, over the history with the newest first.
  unfoldable pub rebuild : ℕ → List Operation → Text → Result CollabError Text
  rebuild base [] content = ok content
  rebuild base (h ∷ hs) content = elim (ltb base h.revision) [
    | false ↦ ok content
    | true ↦ elim (apply h.inverse content) [
      | none ↦ err Edits.reconstruct_failed
      | some before ↦ rebuild base hs before
    ]
  ]

  abbrev pub is_base : Text → ℤ → Text → Bool
  is_base hash len content =
      same_text (content_hash content) hash && eqb_ℤ (pos (utf16_len content)) len

  -- `resolveBase` once the changes agree on their base.
  unfoldable pub resolve_agreed : Document → Text → ℤ → Result CollabError (ℕ × Text)
  resolve_agreed d hash len =
      if same_text hash []
      then ok (d.revision, d.content)
      else if ltb_ℤ len (pos 0)
      then err Edits.invalid_edit
      else if is_base hash len d.content
      then ok (d.revision, d.content)
      else elim (find_base hash len d.history) [
        | none ↦ err Edits.base_not_found
        | some base ↦ do
          content ← rebuild base (reverse d.history) d.content
          require (is_base hash len content) Edits.base_not_found
          ok (base, content)
      ]

  unfoldable pub resolve_base : Document → List TextEdit → Result CollabError (ℕ × Text)
  resolve_base d [] = err Edits.invalid_edit
  resolve_base d (c ∷ cs) =
      if all (λ e. same_text e.base_hash c.base_hash && eqb_ℤ e.base_length c.base_length) cs
      then resolve_agreed d c.base_hash c.base_length
      else err Edits.invalid_edit

  -- The incoming operation taken past the later history, the oldest first.
  unfoldable pub transform_past : ℕ → Op → List Operation → Result CollabError Op
  transform_past base incoming [] = ok incoming
  transform_past base incoming (h ∷ hs) = elim (leb h.revision base) [
    | true ↦ transform_past base incoming hs
    | false ↦ elim (transform incoming h.forward) [
      | none ↦ err Edits.transform_failed
      | some (incoming', other) ↦ transform_past base incoming' hs
    ]
  ]

  pub record ApplyResult : Type 0 where
    pub changes : List TextEdit
    pub revision : ℕ
    pub transformed : Bool

  -- The history with one more operation, cut to the newest ones.
  unfoldable pub push_history : List Operation → Operation → List Operation
  push_history history h =
      let longer = history ++ h ∷ [] in
      if ltb history_limit (length longer)
      then drop (length longer - history_limit) longer
      else longer

  -- The document after `incoming` has taken its content to `next`.
  unfoldable pub commit : Document → Op → Text → Document
  commit d incoming next = record {
    content = next;
    revision = d.revision + 1;
    history = push_history d.history (record {
      revision = d.revision + 1;
      base_hash = content_hash d.content;
      base_length = utf16_len d.content;
      target_hash = content_hash next;
      target_len = utf16_len next;
      forward = incoming;
      inverse = invert incoming d.content;
    });
  }

  abbrev pub applied : Option Text → Result CollabError Text
  applied none = err Edits.apply_failed
  applied (some next) = ok next

  -- The new document and the result; an error leaves the document as it was.
  unfoldable pub apply_monaco_changes :
      (Text → Bool) → Document → List TextEdit → ℤ → Result CollabError (Document × ApplyResult)
  apply_monaco_changes valid_text d changes max_bytes = do
    base ← resolve_base d changes
    given ← changes_to_operation ot valid_text base.1 changes
    incoming ← transform_past base.0 given d.history
    normalized ← operation_to_changes ot d.content incoming
    next ← applied (apply incoming d.content)
    reject (ltb_ℤ (pos 0) max_bytes && ltb_ℤ max_bytes (pos (utf8_len next))) Edits.too_large
    ok (
      commit d incoming next,
      record {
        changes = normalized;
        revision = d.revision + 1;
        transformed = not (base.0 == d.revision);
      },
    )
