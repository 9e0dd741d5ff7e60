-- ===== src/Collab/Rooms/Reached.antt =====
-- The limits of the registry behind a handler.
use mathlib.Core.Path.{subst}
use daemon.Common.{
  ◌≤◌, ◌≡◌, sym, inl, inr, Bool-cases, Option-cases, arith, ℕ, suc, Bool, ◌&&◌, ◌||◌, not, Option,
  some, List, [], ◌∷◌, length, keep, map, leb, ◌==◌, is_some, String, str_eq,
}
use daemon.Common.Int.{pos}
use daemon.Tokens.{Denylist, Payload}
use daemon.Collab.Text.{Text, same_text}
use daemon.Collab.Ot.{Ot}
use daemon.Collab.Names.{Strings, collab_code}
use daemon.Collab.Session.{Session, Member, User, OpenFile, edit_mode, session_expired, find_member}
use daemon.Collab.Rooms.{
  Token, SessionInfo, Join, Client, can_read, can_write, verified_session, put_session,
  delete_session, get_or_create, find_session, remove_member, leave_codes, leave_all, member_for,
}
use daemon.Collab.Session.Messages.Limits.{IsLimited}
use daemon.Collab.Rooms.Requests.{joined_user, set_member, enter, join_session}
use daemon.Collab.Session.Messages.Versions.{find_member-id}
use daemon.Collab.Rooms.Kept.{
  AreLimited, AreLimited-keep, AreLimited-put, AreLimited-find, with_members,
  get_or_create-AreLimited,
}

length-keep : {A : Type 0} (q : A → Bool) (xs : List A) → length (keep q xs) ≤ length xs
length-keep q [] = omega arith
length-keep q (x ∷ xs) = ground (arith, length-keep q xs)

length-set_member :
    (strings : Strings) (ot : Ot) (m : Member) (ms : List Member)
    → length (set_member strings ot m ms) ≤ suc (length ms)
length-set_member strings ot m [] = omega arith
length-set_member strings ot m (n ∷ ns) = ground (arith, length-set_member strings ot m ns)

module _ (strings : Strings) (files : Text → Option OpenFile) (ot : Ot) where
  -- The registry that a handler leaves, once it is known which one.
  pub leaves :
      {left : List (Session ot)} (rooms : List (Session ot))
      → left ≡ rooms
      → AreLimited ot rooms
      → AreLimited ot left
  leaves rooms e h = subst (AreLimited ot) (sym e) h

  pub remove_member-AreLimited :
      (raw : Text) (id : String) (rooms : List (Session ot))
      → AreLimited ot rooms
      → AreLimited ot (remove_member strings ot raw id rooms).0
  unfolding remove_member
  remove_member-AreLimited raw id rooms h =
      let code = collab_code strings raw in
      elim (Option-cases (find_session strings ot code rooms)) [
        | inl unknown ↦ leaves rooms (ground (arith, unknown)) h
        | inr (s, found) ↦
            let ms = keep (λ m. not (str_eq m.handler_id id)) s.members in
            let left : Session ot = record s { members = ms } in
            let v = AreLimited-find strings files ot code rooms s h found in
            elim (Bool-cases (is_some (find_member ot id s.members))) [
              | inr absent ↦ leaves rooms (ground (arith, found, absent)) h
              | inl there ↦ elim (Bool-cases (length ms == 0)) [
                | inl empty ↦
                    leaves (delete_session strings ot code rooms)
                      (ground (arith, found, there, empty))
                      (AreLimited-keep strings files ot (λ x. not (same_text x.code code)) rooms h)
                | inr some_left ↦
                    leaves (put_session strings ot left rooms)
                      (ground (arith, found, there, some_left))
                      (AreLimited-put strings files ot left rooms
                        (with_members strings files ot s ms v (
                          omega (
                            arith,
                            length-keep (λ m. not (str_eq m.handler_id id)) s.members,
                            v.few_members,
                          )))
                        h)
              ]
            ]
      ]

  pub leave_codes-AreLimited :
      (codes : List Text) (id : String) (rooms : List (Session ot))
      → AreLimited ot rooms
      → AreLimited ot (leave_codes strings ot codes id rooms).0
  unfolding leave_codes
  leave_codes-AreLimited [] id rooms h = h
  leave_codes-AreLimited (code ∷ rest) id rooms h =
      leave_codes-AreLimited rest id (remove_member strings ot code id rooms).0
        (remove_member-AreLimited code id rooms h)

  enter-AreLimited :
      (now : ℕ) (h : Client) (jwt : Payload) (u : User) (info : SessionInfo)
      (rooms : List (Session ot))
      → AreLimited ot rooms
      → AreLimited ot (enter strings ot now h jwt u info rooms).0
  unfolding enter
  enter-AreLimited now h jwt u info rooms v =
      let rooms1 = (leave_all strings ot h.id rooms).0 in
      let v1 = leave_codes-AreLimited (map (λ s. s.code) rooms) h.id rooms v in
      let (v2, w) = get_or_create-AreLimited strings files ot now info rooms1 v1 in
      let rooms2 = (get_or_create strings ot now info rooms1).0 in
      let s = (get_or_create strings ot now info rooms1).1 in
      let m : Member = record {
        handler_id = h.id;
        user = joined_user strings ot h jwt u;
        file_path = [];
        joined_at = now;
        last_version = pos 0;
      } in
      let s' : Session ot = record s { members = set_member strings ot m s.members } in
      elim (Bool-cases
        (not (str_eq s.server_uuid info.server_uuid) || not (same_text s.mode info.mode))) [
          | inl changed ↦ leaves rooms2 (ground (arith, changed)) v2
          | inr same ↦ elim (Bool-cases (leb s.max_users (length s.members))) [
            | inl full ↦ leaves rooms2 (ground (arith, same, full)) v2
            | inr room ↦ leaves (put_session strings ot s' rooms2) (ground (arith, same, room)) (
                AreLimited-put strings files ot s' rooms2
                  (with_members strings files ot s (set_member strings ot m s.members) w
                    (ground (arith, room, length-set_member strings ot m s.members)))
                  v2)
          ]
        ]

  pub join_session-AreLimited :
      (parse : Text → Option Token) (deny : Denylist) (now : ℕ) (h : Client) (j : Join)
      (rooms : List (Session ot))
      → AreLimited ot rooms
      → AreLimited ot (join_session strings ot parse deny now h j rooms).0
  unfolding join_session
  join_session-AreLimited parse deny now h j rooms v = elim (Bool-cases (can_read deny h)) [
    | inr unread ↦ leaves rooms (ground (arith, unread)) v
    | inl reads ↦ elim (Option-cases (verified_session strings ot parse now j.code j.token)) [
      | inl invalid ↦ leaves rooms (ground (arith, reads, invalid)) v
      | inr ((info, user_uuid), verified) ↦ elim (Option-cases h.jwt) [
        | inl anonymous ↦ leaves rooms (ground (arith, reads, verified, anonymous)) v
        | inr (jwt, known) ↦
            elim (Bool-cases (
              not (str_eq info.server_uuid jwt.server_uuid)
              || not (str_eq user_uuid jwt.user_uuid))) [
                | inl foreign ↦ leaves rooms (ground (arith, reads, verified, known, foreign)) v
                | inr own ↦
                    elim (Bool-cases (same_text info.mode edit_mode && not (can_write deny h))) [
                      | inl unwritable ↦
                          leaves rooms (ground (arith, reads, verified, known, own, unwritable)) v
                      | inr may_edit ↦
                          elim (Bool-cases (same_text (collab_code strings info.code) [])) [
                            | inl no_code ↦
                                leaves rooms
                                  (ground (arith, reads, verified, known, own, may_edit, no_code)) v
                            | inr code ↦
                                leaves (enter strings ot now h jwt j.user info rooms).0
                                  (ground (arith, reads, verified, known, own, may_edit, code))
                                  (enter-AreLimited now h jwt j.user info rooms v)
                          ]
                    ]
              ]
      ]
    ]
  ]

  find_member-same :
      (id : String) (ms : List Member) (m : Member)
      → find_member ot id ms ≡ some m
      → find_member ot m.handler_id ms ≡ some m
  find_member-same id ms m h =
      subst (λ x. find_member ot x ms ≡ some m) (sym (find_member-id strings files ot id ms m h)) h

  -- Whom a message is from, if it is from a member: the registry is within its limits, and so is the
  -- session, which has the member.
  pub member_for-AreLimited :
      (now : ℕ) (id : String) (raw : Text) (rooms : List (Session ot))
      → AreLimited ot rooms
      → AreLimited ot (member_for strings ot now id raw rooms).0
        × ((s : Session ot) (m : Member)
            → (member_for strings ot now id raw rooms).1 ≡ some (s, m)
            → IsLimited ot s × (find_member ot m.handler_id s.members ≡ some m))
  unfolding member_for
  member_for-AreLimited now id raw rooms v =
      let code = collab_code strings raw in
      elim (Option-cases (find_session strings ot code rooms)) [
        | inl unknown ↦
            (leaves rooms (ground (arith, unknown)) v, λ s m e. absurd (ground (arith, unknown, e)))
        | inr (x, found) ↦ elim (Bool-cases (session_expired ot now x)) [
          | inl old ↦ (
            leaves (delete_session strings ot code rooms) (ground (arith, found, old))
                (AreLimited-keep strings files ot (λ y. not (same_text y.code code)) rooms v),
            λ s m e. absurd (ground (arith, found, old, e)),
          )
          | inr live ↦ elim (Option-cases (find_member ot id x.members)) [
            | inl stranger ↦ (
              leaves rooms (ground (arith, found, live, stranger)) v,
              λ s m e. absurd (ground (arith, found, live, stranger, e)),
            )
            | inr (y, there) ↦ (
              leaves rooms (ground (arith, found, live, there)) v,
              λ s m e.
                  let same : (x, y) ≡ (s, m) = ground (arith, found, live, there, e) in
                  subst
                    (λ (z : Session ot × Member).
                      IsLimited ot z.0 × (find_member ot z.1.handler_id z.0.members ≡ some z.1))
                    same
                    (
                      AreLimited-find strings files ot code rooms x v found,
                      find_member-same id x.members y there,
                    ),
            )
          ]
        ]
      ]
