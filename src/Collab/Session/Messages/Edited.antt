-- ===== src/Collab/Session/Messages/Edited.antt =====
-- The steps that the messages to a document share: the version, the path of the member, the document.
use mathlib.Core.Path.{subst}
use daemon.Common.{
  ◌≡◌, refl, sym, ap, ◌∙◌, inl, inr, true, ◌||◌, not, Option, some, List, [], ◌∷◌, ◌++◌, map,
  Bool-cases, Option-cases, Result-cases, arith, String, str_eq, str_eq_iff,
}
use daemon.Common.Int.{ℤ, pos, ltb_ℤ}
use daemon.Collab.Text.{Text, same_text}
use daemon.Collab.Ot.{Ot}
use daemon.Collab.Document.{Document}
use daemon.Collab.Names.{Strings, collab_path}
use daemon.Collab.Session.{
  Session, Member, Output, OpenFile, document_for, move_member, accept_version, find_member,
  put_member, refused,
}
use daemon.Collab.Session.Messages.{edit_document}
use daemon.Collab.Session.Messages.Opened.{Opens, document_for-Opens}

module _ (ot : Ot) where
  ids : List Member → List String
  ids ms = map (λ m. m.handler_id) ms

  pub ids-put_member :
      (m : Member) (ms : List Member)
      → map (λ n. n.handler_id) (put_member ot m ms) ≡ map (λ n. n.handler_id) ms
  ids-put_member m [] = refl
  ids-put_member m (n ∷ ns) = elim (Bool-cases (str_eq n.handler_id m.handler_id)) [
    | inl same ↦
        let e : m.handler_id ≡ n.handler_id = sym ((str_eq_iff n.handler_id m.handler_id).0 same) in
        rw (same, e, ids-put_member m ns) refl
    | inr other ↦ rw (other, ids-put_member m ns) refl
  ]

  pub find_member-put_member :
      (m m0 : Member) (ms : List Member)
      → find_member ot m.handler_id ms ≡ some m0
      → find_member ot m.handler_id (put_member ot m ms) ≡ some m
  find_member-put_member m m0 [] h = absurd cc
  find_member-put_member m m0 (n ∷ ns) h =
      ground (arith, h, str_eq_iff m.handler_id m.handler_id, find_member-put_member m m0 ns)

  -- The session with other members under the same ids, and the member with a new version.
  pub record IsMoved (version : ℤ) (s : Session ot) (m : Member) (s' : Session ot) (m' : Member)
      : Type 0 where
    pub newer : ltb_ℤ m.last_version version ≡ true
    pub same_id : m'.handler_id ≡ m.handler_id
    pub moved_to : m'.last_version ≡ version
    pub session : s' ≡ record s { members = s'.members }
    pub same_ids : map (λ n. n.handler_id) s'.members ≡ map (λ n. n.handler_id) s.members
    pub found : find_member ot m.handler_id s'.members ≡ some m'

  accept_version-IsMoved :
      (version : ℤ) (s s' : Session ot) (m m' : Member)
      → find_member ot m.handler_id s.members ≡ some m
      → accept_version ot version s m ≡ some (s', m')
      → IsMoved version s m s' m'
  unfolding accept_version
  accept_version-IsMoved version s s' m m' found e =
      elim (Bool-cases (ltb_ℤ version (pos 1) || not (ltb_ℤ m.last_version version))) [
        | inl stale ↦ absurd (ground (arith, stale, e))
        | inr fresh ↦
            let moved : Member = record m { last_version = version } in
            let t : Session ot = record s { members = put_member ot moved s.members } in
            let same : (t, moved) ≡ (s', m') = ground (arith, fresh, e) in
            subst (λ (x : Session ot × Member). IsMoved version s m x.0 x.1) same
              (record {
                newer = ground (arith, fresh);
                same_id = refl;
                moved_to = refl;
                session = refl;
                same_ids = ids-put_member moved s.members;
                found = find_member-put_member moved m s.members found;
              })
      ]

  move_member-IsMoved :
      (version : ℤ) (path : Text) (s s' : Session ot) (m m' : Member)
      → IsMoved version s m s' m'
      → IsMoved version s m (move_member ot path s' m').0 (move_member ot path s' m').1
  unfolding move_member
  move_member-IsMoved version path s s' m m' i = elim (Bool-cases (same_text m'.file_path path)) [
    | inl there ↦ rw (move_member, there) i
    | inr away ↦
        let moved : Member = record m' { file_path = path } in
        let found' : find_member ot moved.handler_id s'.members ≡ some m' =
          ap (λ id. find_member ot id s'.members) i.same_id ∙ i.found in
        rw (move_member, away)
          (record {
            newer = i.newer;
            same_id = i.same_id;
            moved_to = i.moved_to;
            session =
                ap (λ (x : Session ot). record x { members = put_member ot moved s'.members })
                  i.session;
            same_ids = ids-put_member moved s'.members ∙ i.same_ids;
            found =
                ap (λ id. find_member ot id (put_member ot moved s'.members)) (sym i.same_id)
                ∙ find_member-put_member moved m' s'.members found';
          })
  ]

  module _ (strings : Strings) (files : Text → Option OpenFile) where
    -- What holds of a session holds behind an edit of a document, if it holds once the member has
    -- moved, and of what the edit makes of the session and the document that it opens.
    pub edit_document-rule :
        (P : Session ot → Type 0) (version : ℤ) (raw : Text) (s : Session ot) (m : Member)
        (go : Text → Session ot → Member → List Output → Document ot → Session ot × List Output)
        → find_member ot m.handler_id s.members ≡ some m
        → P s
        → ((s2 : Session ot) (m2 : Member) → IsMoved version s m s2 m2 → P s2)
        → ((path : Text) (s2 s3 : Session ot) (m2 : Member) (out : List Output) (d : Document ot)
            → IsMoved version s m s2 m2
            → Opens strings.valid_text files ot path s2 s3 d
            → P (go path s3 m2 out d).0)
        → P (edit_document strings files ot version raw s m go).0
    unfolding edit_document
    edit_document-rule P version raw s m go found start moved done =
        elim (Option-cases (collab_path strings raw)) [
          | inl bad ↦
              arrives (s, refused "file is not allowed in live collaboration" ∷ [])
                (ground (arith, bad)) start
          | inr (path, good) ↦ elim (Option-cases (accept_version ot version s m)) [
            | inl stale ↦ arrives (s, []) (ground (arith, good, stale)) start
            | inr ((s1, m1), accepted) ↦
                let s2 = (move_member ot path s1 m1).0 in
                let m2 = (move_member ot path s1 m1).1 in
                let out = (move_member ot path s1 m1).2 in
                let i =
                  move_member-IsMoved version path s s1 m m1
                    (accept_version-IsMoved version s s1 m m1 found accepted) in
                elim (Result-cases (document_for ot strings.valid_text files path s2)) [
                  | inr (why, failed) ↦
                      arrives (s2, out ++ refused why ∷ []) (ground (arith, good, accepted, failed))
                        (moved s2 m2 i)
                  | inl ((s3, d), opened) ↦
                      arrives (go path s3 m2 out d) (ground (arith, good, accepted, opened)) (
                        done path s2 s3 m2 out d i
                          (document_for-Opens strings.valid_text files ot path s2 s3 d opened))
                ]
          ]
        ]
      where
        arrives :
            (res : Session ot × List Output)
            → edit_document strings files ot version raw s m go ≡ res
            → P res.0
            → P (edit_document strings files ot version raw s m go).0
        arrives res e h = subst (λ (x : Session ot × List Output). P x.0) (sym e) h
