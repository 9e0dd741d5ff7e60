-- ===== src/Collab/Session/Messages/Written.antt =====
-- What an edit may make of a document and of the session.
use mathlib.Core.Path.{subst}
use daemon.Common.{
  ◌≤◌, ◌≡◌, refl, sym, inl, inr, ◌⊎◌, true, ◌&&◌, Option, some, List, length, ◌==◌, Bool-cases,
  Option-cases, Result-cases, arith, ok, err,
}
use daemon.Common.Int.{ℤ, pos, ltb_ℤ}
use daemon.Collab.Text.{Text, same_text, utf8_len}
use daemon.Collab.Ot.{Ot}
use daemon.Collab.Document.{Document}
use daemon.Collab.Names.{Strings}
use daemon.Collab.Session.{
  Session, Member, Output, OpenFile, payload_limit, find_member, put_document,
}
use daemon.Collab.Session.Messages.{
  Message, open_file, close_file, move, patch, share, save, patch_refusal, content_refusal,
  apply_patch, share_snapshot, save_file, receive, patch_document, share_document, save_document,
  Patch, Snapshot,
}
use daemon.Collab.Session.Messages.{needs_write, patch_limit}
use daemon.Collab.Document.{apply_monaco_changes, ApplyResult, replace}
use daemon.Collab.Edits.{
  CollabError, TextEdit, base_not_found, invalid_edit, too_large, transform_failed, apply_failed,
  reconstruct_failed, panicked,
}
use daemon.Collab.Session.Messages.Opened.{Opens}
use daemon.Collab.Session.Messages.Edited.{IsMoved, edit_document-rule}
use daemon.Collab.Session.{users_for_path}

abbrev pub version_of : Message → ℤ
version_of (patch p) = p.version
version_of (share p) = p.version
version_of (save p) = p.version
version_of m = pos 0

module _ (strings : Strings) (files : Text → Option OpenFile) (ot : Ot) where
  -- A patch within its limit.
  pub record IsPatched (s : Session ot) (d d' : Document ot) : Type 0 where
    pub changes : List TextEdit
    pub result : ApplyResult ot
    pub positive : ltb_ℤ (pos 0) (patch_limit strings files ot s d) ≡ true
    pub applied :
        apply_monaco_changes ot strings.valid_text d changes (patch_limit strings files ot s d)
        ≡ ok (d', result)

  -- The document as it was, with another content within the limit of the session, or patched.
  abbrev pub Writes : Session ot → Document ot → Document ot → Type 0
  Writes s d d' =
      (d' ≡ d)
      ⊎ ((content : Text) × (d' ≡ replace ot d content) × (utf8_len content ≤ payload_limit ot s))
      ⊎ IsPatched s d d'

  abbrev pub put : Text → Document ot → Session ot → Session ot
  put path d s = record s { documents = put_document ot path d s.documents }

  patch_failed :
      (p : Patch) (path : Text) (s : Session ot) (m : Member) (out : List Output) (d : Document ot)
      (e : CollabError)
      → ltb_ℤ (pos 0) (patch_limit strings files ot s d) ≡ true
      → apply_monaco_changes ot strings.valid_text d p.changes (patch_limit strings files ot s d)
        ≡ err e
      → (patch_document strings files ot p path s m out d).0 ≡ s
  unfolding patch_document
  patch_failed p path s m out d base_not_found room h = ground (arith, room, h)
  patch_failed p path s m out d invalid_edit room h = ground (arith, room, h)
  patch_failed p path s m out d too_large room h = ground (arith, room, h)
  patch_failed p path s m out d transform_failed room h = ground (arith, room, h)
  patch_failed p path s m out d apply_failed room h = ground (arith, room, h)
  patch_failed p path s m out d reconstruct_failed room h = ground (arith, room, h)
  patch_failed p path s m out d panicked room h = ground (arith, room, h)

  patch_document-rule :
      (P : Session ot → Type 0) (p : Patch) (path : Text) (s : Session ot) (m : Member)
      (out : List Output) (d : Document ot)
      → P s
      → ((d' : Document ot) → IsPatched s d d' → P (put path d' s))
      → P (patch_document strings files ot p path s m out d).0
  unfolding patch_document
  patch_document-rule P p path s m out d start written =
      elim (Bool-cases (ltb_ℤ (pos 0) (patch_limit strings files ot s d))) [
        | inr over ↦ arrives s (ground (arith, over)) start
        | inl room ↦
            elim (Result-cases (
              apply_monaco_changes ot strings.valid_text d p.changes
                (patch_limit strings files ot s d))) [
                  | inr (e, failed) ↦ arrives s (patch_failed p path s m out d e room failed) start
                  | inl ((d', r), applied) ↦
                      let done = written d' (record {
                        changes = p.changes;
                        result = r;
                        positive = room;
                        applied = applied;
                      }) in
                      elim (Bool-cases (length r.changes == 0)) [
                        | inl empty ↦
                            arrives (put path d' s) (ground (arith, room, applied, empty)) done
                        | inr changed ↦
                            arrives (put path d' s) (ground (arith, room, applied, changed)) done
                      ]
                ]
      ]
    where
      arrives :
          (s' : Session ot)
          → (patch_document strings files ot p path s m out d).0 ≡ s'
          → P s'
          → P (patch_document strings files ot p path s m out d).0
      arrives s' e h = subst P (sym e) h

  share_document-rule :
      (P : Session ot → Type 0) (p : Snapshot) (path : Text) (s : Session ot) (m : Member)
      (out : List Output) (d : Document ot)
      → P s
      → P (put path d s)
      → P (put path (replace ot d p.content) s)
      → P (share_document strings files ot p path s m out d).0
  unfolding share_document
  share_document-rule P p path s m out d start same replaced =
      elim (Bool-cases (same_text d.content p.content)) [
        | inl equal ↦ arrives (put path d s) (ground (arith, equal)) same
        | inr other ↦
            elim (Bool-cases
              (d.revision == 0 && length (users_for_path ot s path m.handler_id) == 0)) [
                | inl alone ↦
                    arrives (put path (replace ot d p.content) s) (ground (arith, other, alone))
                      replaced
                | inr shared ↦ arrives s (ground (arith, other, shared)) start
              ]
      ]
    where
      arrives :
          (s' : Session ot)
          → (share_document strings files ot p path s m out d).0 ≡ s'
          → P s'
          → P (share_document strings files ot p path s m out d).0
      arrives s' e h = subst P (sym e) h

  -- What holds of a session holds behind the receipt of an edit, if it holds once the member has
  -- moved, once the document is open, and of what may be written of it.
  pub edit-rule :
      (P : Session ot → Type 0) (message : Message) (s : Session ot) (m : Member)
      → needs_write message ≡ true
      → find_member ot m.handler_id s.members ≡ some m
      → P s
      → ((s2 : Session ot) (m2 : Member) → IsMoved ot (version_of message) s m s2 m2 → P s2)
      → ((path : Text) (s2 s3 : Session ot) (m2 : Member) (d : Document ot)
          → IsMoved ot (version_of message) s m s2 m2
          → Opens strings.valid_text files ot path s2 s3 d
          → P s3
            × ((d' : Document ot)
                → ((d' ≡ d)
                    ⊎ ((content : Text) × (d' ≡ replace ot d content)
                        × (utf8_len content ≤ payload_limit ot s))
                    ⊎ IsPatched s3 d d')
                → P (put path d' s3)))
      → P (receive strings files ot message s m).0
  unfolding receive apply_patch share_snapshot save_file patch_refusal content_refusal save_document
  edit-rule P (patch p) s m edits found start moved opened =
      elim (Option-cases (patch_refusal strings files ot p s)) [
        | inr (why, refusal) ↦ subst P (ground (arith, refusal)) start
        | inl passes ↦ subst P (ground (arith, passes)) (
            edit_document-rule ot strings files P p.version p.path s m
              (patch_document strings files ot p) found start moved
              (λ path s2 s3 m2 out d i o.
                let (start', written) = opened path s2 s3 m2 d i o in
                patch_document-rule P p path s3 m2 out d start' (λ d' w. written d' (inr (inr w)))))
      ]
  edit-rule P (share p) s m edits found start moved opened =
      elim (Option-cases (
        content_refusal strings files ot "collaboration snapshot is too large or invalid" p.content
          s)) [
            | inr (why, refusal) ↦ subst P (ground (arith, refusal)) start
            | inl passes ↦
                let small : utf8_len p.content ≤ payload_limit ot s = ground (arith, passes) in
                subst P (ground (arith, passes)) (
                  edit_document-rule ot strings files P p.version p.path s m
                    (share_document strings files ot p) found start moved
                    (λ path s2 s3 m2 out d i o.
                      let (start', written) = opened path s2 s3 m2 d i o in
                      share_document-rule P p path s3 m2 out d start' (written d (inl refl))
                        (written (replace ot d p.content) (inr (inl (p.content, refl, small))))))
          ]
  edit-rule P (save p) s m edits found start moved opened =
      elim (Option-cases (
        content_refusal strings files ot "collaboration save payload is too large or invalid"
          p.content s)) [
            | inr (why, refusal) ↦ subst P (ground (arith, refusal)) start
            | inl passes ↦
                let small : utf8_len p.content ≤ payload_limit ot s = ground (arith, passes) in
                subst P (ground (arith, passes)) (
                  edit_document-rule ot strings files P p.version p.path s m
                    (save_document strings files ot p) found start moved
                    (λ path s2 s3 m2 out d i o.
                      (opened path s2 s3 m2 d i o).1 (replace ot d p.content)
                        (inr (inl (p.content, refl, small)))))
          ]
  edit-rule P (open_file raw) s m edits found start moved opened = absurd cc
  edit-rule P (close_file raw) s m edits found start moved opened = absurd cc
  edit-rule P (move p) s m edits found start moved opened = absurd cc
