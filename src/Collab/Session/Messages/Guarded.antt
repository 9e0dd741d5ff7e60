-- ===== src/Collab/Session/Messages/Guarded.antt =====
-- The documents of a session that is view-only.
use mathlib.Core.Path.{subst}
use daemon.Common.{
  ◌≡◌, refl, sym, ap, ◌∙◌, inl, inr, Bool, true, false, Option, some, List, [], ◌∷◌, ◌++◌,
  Bool-cases, Option-cases, Result-cases, arith,
}
use daemon.Collab.Text.{Text, same_text}
use daemon.Collab.Ot.{Ot}
use daemon.Collab.Document.{Document}
use daemon.Collab.Names.{Strings, collab_path}
use daemon.Collab.Session.{
  Session, Member, OpenFile, edit_mode, find_document, document_for, move_member, put_member,
}
use daemon.Collab.Session.Messages.{
  Message, open_file, close_file, move, patch, share, save, set_file, set_presence, patch_refusal,
  content_refusal, apply_patch, share_snapshot, save_file, receive, Presence,
}
use daemon.Collab.Session.Messages.Opened.{Opens, document_for-Opens}

module _ (strings : Strings) (files : Text → Option OpenFile) (ot : Ot) where
  -- The second session has every document of the first one, as it was there.
  abbrev pub Keeps : Session ot → Session ot → Type 0
  Keeps s s' =
      (path : Text) (d : Document ot)
      → find_document ot path s.documents ≡ some d
      → find_document ot path s'.documents ≡ some d

  find_document-append :
      (path : Text) (d : Document ot) (ds es : List (Text × Document ot))
      → find_document ot path ds ≡ some d
      → find_document ot path (ds ++ es) ≡ some d
  find_document-append path d [] es h = absurd cc
  find_document-append path d ((p, e) ∷ ds) es h =
      ground (arith, h, find_document-append path d ds es)

  -- Opening a document, in a session with the same ones.
  Opens-Keeps :
      (path : Text) (s s2 s3 : Session ot) (d : Document ot)
      → s2.documents ≡ s.documents
      → Opens strings.valid_text files ot path s2 s3 d
      → Keeps s s3
  Opens-Keeps path s s2 s3 d same (inl (e, found)) = λ p x h.
      ap (λ (y : Session ot). find_document ot p y.documents) e ∙ ap (find_document ot p) same ∙ h
  Opens-Keeps path s s2 s3 d same (inr added) = λ p x h.
      ap (λ (y : Session ot). find_document ot p y.documents) added.session
      ∙ find_document-append p x s2.documents ((path, d) ∷ []) (ap (find_document ot p) same ∙ h)

  pub set_file-rule :
      (P : Session ot → Type 0) (opens : Bool) (raw : Text) (s : Session ot) (m : Member)
      → P s
      → ((file : Text)
          → P (record s { members = put_member ot (record m { file_path = file }) s.members }))
      → ((file path : Text) (s3 : Session ot) (d : Document ot)
          → Opens strings.valid_text files ot path
              (record s { members = put_member ot (record m { file_path = file }) s.members })
              s3
              d
          → P s3)
      → P (set_file strings files ot opens raw s m).0
  unfolding set_file
  set_file-rule P opens raw s m start moved done = elim (Option-cases (collab_path strings raw)) [
    | inl bad ↦ arrives s (ground (arith, bad)) start
    | inr (path, good) ↦
        let opened : Session ot = record s {
          members = put_member ot (record m { file_path = path }) s.members;
        } in
        let left : Session ot = record s {
          members = put_member ot (record m { file_path = [] }) s.members;
        } in
        elim (Bool-cases opens) [
          | inr closes ↦ elim (Bool-cases (same_text m.file_path path)) [
            | inl there ↦ arrives left (ground (arith, good, closes, there)) (moved [])
            | inr away ↦ arrives s (ground (arith, good, closes, away)) start
          ]
          | inl opening ↦
              elim (Result-cases (document_for ot strings.valid_text files path opened)) [
                | inr (why, failed) ↦
                    arrives opened (ground (arith, good, opening, failed)) (moved path)
                | inl ((s3, d), found) ↦ arrives s3 (ground (arith, good, opening, found)) (
                    done path path s3 d
                      (document_for-Opens strings.valid_text files ot path opened s3 d found))
              ]
        ]
  ]
    where
      arrives :
          (s' : Session ot)
          → (set_file strings files ot opens raw s m).0 ≡ s'
          → P s'
          → P (set_file strings files ot opens raw s m).0
      arrives s' e h = subst P (sym e) h

  pub set_presence-rule :
      (P : Session ot → Type 0) (p : Presence) (s : Session ot) (m : Member)
      → P s
      → ((file : Text)
          → P (record s { members = put_member ot (record m { file_path = file }) s.members }))
      → P (set_presence strings files ot p s m).0
  unfolding set_presence move_member
  set_presence-rule P p s m start moved = elim (Option-cases (collab_path strings p.path)) [
    | inl bad ↦ arrives s (ground (arith, bad)) start
    | inr (path, good) ↦ elim (Bool-cases (same_text m.file_path path)) [
      | inl there ↦ arrives s (ground (arith, good, there)) start
      | inr away ↦
          arrives (record s { members = put_member ot (record m { file_path = path }) s.members })
            (ground (arith, good, away)) (moved path)
    ]
  ]
    where
      arrives :
          (s' : Session ot)
          → (set_presence strings files ot p s m).0 ≡ s'
          → P s'
          → P (set_presence strings files ot p s m).0
      arrives s' e h = subst P (sym e) h

  Keeps-refl : (s s' : Session ot) → s ≡ s' → Keeps s s'
  Keeps-refl s s' e = subst (Keeps s) e (λ path d h. h)

  receive-Keeps :
      (message : Message) (s : Session ot) (m : Member)
      → same_text s.mode edit_mode ≡ false
      → Keeps s (receive strings files ot message s m).0
  unfolding receive apply_patch share_snapshot save_file patch_refusal content_refusal
  receive-Keeps (open_file path) s m view =
      set_file-rule (Keeps s) true path s m (λ p d h. h) (λ file p d h. h)
        (λ file p s3 d o.
          Opens-Keeps p s
            (record s { members = put_member ot (record m { file_path = file }) s.members }) s3 d
            refl o)
  receive-Keeps (close_file path) s m view =
      set_file-rule (Keeps s) false path s m (λ p d h. h) (λ file p d h. h)
        (λ file p s3 d o.
          Opens-Keeps p s
            (record s { members = put_member ot (record m { file_path = file }) s.members }) s3 d
            refl o)
  receive-Keeps (move p) s m view = set_presence-rule (Keeps s) p s m (λ p d h. h) (λ file p d h. h)
  receive-Keeps (patch p) s m view =
      Keeps-refl s (receive strings files ot (patch p) s m).0 (ground (arith, view))
  receive-Keeps (share p) s m view =
      Keeps-refl s (receive strings files ot (share p) s m).0 (ground (arith, view))
  receive-Keeps (save p) s m view =
      Keeps-refl s (receive strings files ot (save p) s m).0 (ground (arith, view))

  -- In a session that is not in edit mode, every document that is open stays open and as it is,
  -- whatever message is received.
  pub find_document-receive :
      (message : Message) (s : Session ot) (m : Member) (path : Text) (d : Document ot)
      → same_text s.mode edit_mode ≡ false
      → find_document ot path s.documents ≡ some d
      → find_document ot path (receive strings files ot message s m).0.documents ≡ some d
  find_document-receive message s m path d view found = receive-Keeps message s m view path d found
