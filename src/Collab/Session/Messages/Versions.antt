-- ===== src/Collab/Session/Messages/Versions.antt =====
-- The versions that a member gives its edits.
use daemon.Common.{
  ◌≡◌, refl, sym, ap, ◌∙◌, inl, inr, ◌⊎◌, true, false, Option, some, List, [], ◌∷◌, arith, String,
  str_eq_iff,
}
use daemon.Common.Int.{ℤ, ltb_ℤ}
use daemon.Collab.Text.{Text}
use daemon.Collab.Ot.{Ot}
use daemon.Collab.Document.{Document}
use daemon.Collab.Names.{Strings}
use daemon.Collab.Session.{Session, Member, OpenFile, find_member}
use daemon.Collab.Session.Messages.{Message, receive}
use daemon.Collab.Session.Messages.{needs_write}
use daemon.Collab.Session.Messages.Opened.{Opens}
use daemon.Collab.Session.Messages.Edited.{IsMoved}
use daemon.Collab.Session.Messages.Written.{edit-rule, version_of}

ltb_ℤ_irrefl : (a : ℤ) → ltb_ℤ a a ≡ false
ltb_ℤ_irrefl a = ground arith

module _ (strings : Strings) (files : Text → Option OpenFile) (ot : Ot) where
  pub find_member-id :
      (id : String) (ms : List Member) (m : Member)
      → find_member ot id ms ≡ some m
      → m.handler_id ≡ id
  find_member-id id [] m h = absurd cc
  find_member-id id (n ∷ ns) m h =
      ground (arith, h, str_eq_iff n.handler_id id, find_member-id id ns m)

  -- An edit whose version is not newer than the member's last one changes nothing.
  pub receive_stale :
      (message : Message) (s : Session ot) (m : Member)
      → needs_write message ≡ true
      → find_member ot m.handler_id s.members ≡ some m
      → ltb_ℤ m.last_version (version_of message) ≡ false
      → (receive strings files ot message s m).0 ≡ s
  receive_stale message s m edits found stale =
      edit-rule strings files ot (λ x. x ≡ s) message s m edits found refl
        (λ s2 m2 i. absurd (ground (arith, stale, i.newer)))
        (λ path s2 s3 m2 d i o. absurd (ground (arith, stale, i.newer)))

  -- The session is as it was, or the member has the version as its last one.
  abbrev Counted : Session ot → Member → ℤ → Session ot → Type 0
  Counted s m version x =
      (x ≡ s)
      ⊎ ((m2 : Member) × (find_member ot m.handler_id x.members ≡ some m2)
          × (m2.last_version ≡ version))

  Opens-Counted :
      (path : Text) (version : ℤ) (s s2 s3 : Session ot) (m m2 : Member) (d : Document ot)
      → IsMoved ot version s m s2 m2
      → Opens strings.valid_text files ot path s2 s3 d
      → find_member ot m.handler_id s3.members ≡ some m2
  Opens-Counted path version s s2 s3 m m2 d i (inl (e, found)) =
      ap (λ (x : Session ot). find_member ot m.handler_id x.members) e ∙ i.found
  Opens-Counted path version s s2 s3 m m2 d i (inr added) =
      ap (λ (x : Session ot). find_member ot m.handler_id x.members) added.session ∙ i.found

  -- An edit of a member changes nothing when it is received a second time from it, in the session
  -- that the first receipt left.
  pub receive_again :
      (message : Message) (s : Session ot) (m m' : Member)
      → needs_write message ≡ true
      → find_member ot m.handler_id s.members ≡ some m
      → find_member ot m.handler_id (receive strings files ot message s m).0.members ≡ some m'
      → (receive strings files ot message (receive strings files ot message s m).0 m').0
        ≡ (receive strings files ot message s m).0
  receive_again message s m m' edits found found' =
      let s' = (receive strings files ot message s m).0 in
      let counted : Counted s m (version_of message) s' =
        edit-rule strings files ot (Counted s m (version_of message)) message s m edits found
          (inl refl) (λ s2 m2 i. inr (m2, i.found, i.moved_to))
          (λ path s2 s3 m2 d i o.
            let there = Opens-Counted path (version_of message) s s2 s3 m m2 d i o in
            (inr (m2, there, i.moved_to), λ d' w. inr (m2, there, i.moved_to))) in
      elim counted [
        | inl same ↦
            let same_member : m' ≡ m = ground (
              arith,
              found,
              found',
              ap (λ (x : Session ot). find_member ot m.handler_id x.members) same,
            ) in
            ap (λ x. (receive strings files ot message x m').0) same
            ∙ ap (λ x. (receive strings files ot message s x).0) same_member
        | inr (m2, there, version) ↦
            let same_member : m2 ≡ m' = ground (arith, there, found') in
            let last : m'.last_version ≡ version_of message =
              ap (λ (x : Member). x.last_version) (sym same_member) ∙ version in
            let id = find_member-id m.handler_id s'.members m' found' in
            receive_stale message s' m' edits (ap (λ x. find_member ot x s'.members) id ∙ found')
              (rw last (ltb_ℤ_irrefl (version_of message)))
      ]
