-- ===== src/Collab/Rooms/Requests.antt =====
-- The handlers of the messages in router/websocket/betterfiles_collaboration.go, on the registry.
use daemon.Common.{
  ℕ, Bool, true, ◌&&◌, ◌||◌, not, Option, none, some, List, [], ◌∷◌, ◌++◌, length, keep, map, leb,
  ◌==◌, if◌then◌else◌, String, str_eq,
}
use daemon.Common.Int.{pos}
use daemon.Policy.Names.{codes}
use daemon.Tokens.{Denylist, Payload}
use daemon.Collab.Text.{Text, same_text}
use daemon.Collab.Ot.{Ot}
use daemon.Collab.Names.{Strings, collab_code, collab_path, safe_text, safe_image}
use daemon.Collab.Session.{
  Session, Member, User, Output, OpenFile, edit_mode, view_mode, refused, joined, check_result,
  closed, external_edit, send, session_expired, users_for_path, broadcast_file_users,
  broadcast_members,
}
use daemon.Collab.Session.Messages.{Message, needs_write, receive}
use daemon.Collab.Rooms.{
  Token, SessionInfo, Join, Client, Need, nothing, read_permission, write_permission, Request, join,
  leave, close, to_session, file_check, edited_outside, undecoded, can_read, can_write,
  verified_session, put_session, delete_session, get_or_create, leave_codes, leave_all, member_for,
}

module _ (strings : Strings) (ot : Ot) where
  abbrev pub set_member : Member → List Member → List Member
  set_member m [] = m ∷ []
  set_member m (n ∷ ns) = if str_eq n.handler_id m.handler_id then m ∷ ns else n ∷ set_member m ns

  -- The user that a handler joins as.
  unfoldable pub joined_user : Client → Payload → User → User
  joined_user h jwt u =
      let name = safe_text strings u.username 48 in
      let connection = safe_text strings u.connection_id 80 in
      record {
        uuid = jwt.user_uuid;
        username = if same_text name [] then codes "User" else name;
        image = safe_image strings u.image;
        connection_id = if same_text connection [] then codes h.id else connection;
      }

  -- `h.betterFilesCollabJoin` behind its checks of the token.
  unfoldable pub enter :
      ℕ
      → Client
      → Payload
      → User
      → SessionInfo
      → List (Session ot)
      → List (Session ot) × List Output
  unfolding leave_codes get_or_create joined_user broadcast_file_users broadcast_members
  enter now h jwt u info rooms =
      let (rooms1, out) = leave_all strings ot h.id rooms in
      let (rooms2, s) = get_or_create strings ot now info rooms1 in
      let user = joined_user h jwt u in
      let m : Member = record {
        handler_id = h.id;
        user = user;
        file_path = [];
        joined_at = now;
        last_version = pos 0;
      } in
      let s' : Session ot = record s { members = set_member m s.members } in
      if not (str_eq s.server_uuid info.server_uuid) || not (same_text s.mode info.mode)
      then (rooms2, out ++ refused "collaboration session metadata changed" ∷ [])
      else if leb s.max_users (length s.members)
      then (rooms2, out ++ refused "collaboration session is full" ∷ [])
      else (
        put_session strings ot s' rooms2,
        out
            ++ joined (collab_code strings info.code) user s.mode
              ∷ broadcast_members ot s'
              ∷ broadcast_file_users ot s'
              ∷ [],
      )

  unfoldable pub join_session :
      (Text → Option Token)
      → Denylist
      → ℕ
      → Client
      → Join
      → List (Session ot)
      → List (Session ot) × List Output
  unfolding verified_session enter
  join_session parse deny now h j rooms =
      if not (can_read deny h)
      then (rooms, refused "missing file read permission" ∷ [])
      else elim (verified_session strings ot parse now j.code j.token) [
        | none ↦ (rooms, refused "invalid or expired collaboration session token" ∷ [])
        | some (info, user_uuid) ↦ elim h.jwt [
          | none ↦ (rooms, refused "collaboration session does not match this server" ∷ [])
          | some jwt ↦
              if not (str_eq info.server_uuid jwt.server_uuid)
                || not (str_eq user_uuid jwt.user_uuid)
              then (rooms, refused "collaboration session does not match this server" ∷ [])
              else if same_text info.mode edit_mode && not (can_write deny h)
              then (rooms, refused "missing file write permission" ∷ [])
              else if same_text (collab_code strings info.code) []
              then (rooms, refused "invalid collaboration session code" ∷ [])
              else enter now h jwt j.user info rooms
        ]
      ]

  abbrev pub not_joined : Output
  not_joined = refused "not joined to this collaboration session"

  -- `h.betterFilesCollabClose`
  unfoldable pub close_session :
      ℕ → Client → Text → List (Session ot) → List (Session ot) × List Output
  unfolding member_for
  close_session now h raw rooms = elim (member_for strings ot now h.id raw rooms).1 [
    | none ↦ ((member_for strings ot now h.id raw rooms).0, not_joined ∷ [])
    | some (s, m) ↦
        if not (str_eq s.owner_uuid "") && not (str_eq m.user.uuid s.owner_uuid)
        then (
          (member_for strings ot now h.id raw rooms).0,
          refused "only the live session owner can close it" ∷ [],
        )
        else (
          delete_session strings ot s.code (member_for strings ot now h.id raw rooms).0,
          send ot s (some h.id) (closed []) ∷ [],
        )
  ]

  -- `betterFilesCollabSessionsForServer`: the registry without the expired sessions, and those of
  -- the server.
  unfoldable pub sessions_for_server :
      ℕ → String → List (Session ot) → List (Session ot) × List (Session ot)
  unfolding session_expired
  sessions_for_server now server rooms =
      let live = keep (λ s. not (session_expired ot now s)) rooms in
      (live, keep (λ s. str_eq s.server_uuid server) live)

  -- The users that edit a path, of each session in edit mode that has any.
  abbrev pub editing : Text → String → List (Session ot) → List (Session ot × List User)
  editing path id [] = []
  editing path id (s ∷ rest) =
      let users = users_for_path ot s path id in
      if not (same_text s.mode edit_mode) || length users == 0
      then editing path id rest
      else (s, users) ∷ editing path id rest

  abbrev pub all_users : List (Session ot × List User) → List User
  all_users [] = []
  all_users ((s, users) ∷ rest) = users ++ all_users rest

  abbrev pub not_allowed : Output
  not_allowed = refused "file is not allowed in live collaboration"

  -- `h.betterFilesCollabFileCheck` with `betterFilesCollabConflictsForPath`
  unfoldable pub check_file :
      Denylist → ℕ → Client → Text → Text → List (Session ot) → List (Session ot) × List Output
  unfolding sessions_for_server users_for_path
  check_file deny now h raw request rooms =
      if not (can_read deny h)
      then (rooms, refused "missing file read permission" ∷ [])
      else elim (collab_path strings raw) [
        | none ↦ (rooms, not_allowed ∷ [])
        | some path ↦ elim h.jwt [
          | none ↦ (rooms, check_result path (safe_text strings request 80) [] ∷ [])
          | some jwt ↦
              let (live, own) = sessions_for_server now jwt.server_uuid rooms in
              (
                live,
                check_result path (safe_text strings request 80) (
                      map (λ c. record { code = (c.0).code; mode = (c.0).mode; users = c.1 })
                        (editing path h.id own))
                    ∷ [],
              )
        ]
      ]

  -- `h.betterFilesCollabExternalEdit`
  unfoldable pub tell_external_edit :
      Denylist → ℕ → Client → Text → User → List (Session ot) → List (Session ot) × List Output
  unfolding sessions_for_server users_for_path joined_user
  tell_external_edit deny now h raw u rooms =
      if not (can_write deny h)
      then (rooms, refused "missing file write permission" ∷ [])
      else elim h.jwt [
        | none ↦ (rooms, refused "missing websocket identity" ∷ [])
        | some jwt ↦ elim (collab_path strings raw) [
          | none ↦ (rooms, not_allowed ∷ [])
          | some path ↦
              let (live, own) = sessions_for_server now jwt.server_uuid rooms in
              (
                live,
                map (λ c. send ot c.0 none (external_edit path (joined_user h jwt u) c.1))
                    (editing path h.id own),
              )
        ]
      ]

  -- What `CloseBetterFilesCollaborationSessions` closes.
  unfoldable pub is_revoked : ℕ → String → Text → Session ot → Bool
  unfolding session_expired
  is_revoked now server raw s =
      let mode = strings.trim_space raw in
      let any_mode = not (same_text mode edit_mode) && not (same_text mode view_mode) in
      not (session_expired ot now s)
      && str_eq s.server_uuid server
      && (any_mode || same_text s.mode mode)

  -- `CloseBetterFilesCollaborationSessions`, with the number of the sessions.
  unfoldable pub close_sessions :
      ℕ → String → Text → Text → List (Session ot) → List (Session ot) × List Output × ℕ
  unfolding session_expired is_revoked
  close_sessions now server mode raw_reason rooms =
      let safe = safe_text strings raw_reason 160 in
      let reason =
        if same_text safe []
        then codes "Live collaboration was revoked by an administrator."
        else safe in
      let revoked = keep (is_revoked now server mode) rooms in
      (
        keep (λ s. not (session_expired ot now s) && not (is_revoked now server mode s)) rooms,
        map (λ s. send ot s none (closed reason)) revoked,
        length revoked,
      )

  -- A message to a session, behind the check of the permission.
  unfoldable pub relay :
      (Text → Option OpenFile)
      → ℕ
      → Client
      → Text
      → Message
      → List (Session ot)
      → List (Session ot) × List Output
  unfolding member_for
  relay files now h raw message rooms = elim (member_for strings ot now h.id raw rooms).1 [
    | none ↦ ((member_for strings ot now h.id raw rooms).0, not_joined ∷ [])
    | some (s, m) ↦
        let (s', out) = receive strings files ot message s m in
        (put_session strings ot s' (member_for strings ot now h.id raw rooms).0, out)
  ]

  abbrev pub allowed : Denylist → Client → Need → Bool
  allowed deny h nothing = true
  allowed deny h read_permission = can_read deny h
  allowed deny h write_permission = can_write deny h

  abbrev pub missing : Need → Output
  missing write_permission = refused "missing file write permission"
  missing need = refused "missing file read permission"

  -- `h.HandleBetterFilesCollaboration`
  unfoldable pub handle :
      (Text → Option Token)
      → (Text → Option OpenFile)
      → Denylist
      → ℕ
      → Client
      → Request
      → List (Session ot)
      → List (Session ot) × List Output
  unfolding join_session leave_codes close_session check_file tell_external_edit relay
  handle parse files deny now h (join j) rooms = join_session parse deny now h j rooms
  handle parse files deny now h leave rooms = leave_all strings ot h.id rooms
  handle parse files deny now h (close raw) rooms = close_session now h raw rooms
  handle parse files deny now h (to_session raw message) rooms =
      if needs_write message && not (can_write deny h)
      then (rooms, refused "missing file write permission" ∷ [])
      else relay files now h raw message rooms
  handle parse files deny now h (file_check raw request) rooms =
      check_file deny now h raw request rooms
  handle parse files deny now h (edited_outside raw u) rooms =
      tell_external_edit deny now h raw u rooms
  handle parse files deny now h (undecoded need why) rooms =
      if allowed deny h need then (rooms, refused why ∷ []) else (rooms, missing need ∷ [])
