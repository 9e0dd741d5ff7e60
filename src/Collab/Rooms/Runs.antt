-- ===== src/Collab/Rooms/Runs.antt =====
-- Runs of requests, disconnections and revocations.
use daemon.Common.{
  inl, inr, Bool-cases, Option-cases, arith, ℕ, ◌&&◌, not, Option, none, List, [], keep, map,
  String, str_eq,
}
use daemon.Tokens.{Denylist}
use daemon.Collab.Text.{Text, same_text}
use daemon.Collab.Ot.{Ot}
use daemon.Collab.Names.{Strings, collab_path}
use daemon.Collab.Session.{Session, User, OpenFile, session_expired}
use daemon.Collab.Session.Messages.{Message, needs_write, receive}
use daemon.Collab.Rooms.{
  Token, Client, Request, join, leave, close, to_session, file_check, edited_outside, undecoded,
  can_read, can_write, put_session, delete_session, remove_member, member_for,
}
use daemon.Collab.Ot.{Inverts}
use daemon.Collab.Session.Messages.Limits.{receive-IsLimited}
use daemon.Collab.Rooms.Requests.{
  close_session, sessions_for_server, check_file, tell_external_edit, close_sessions, is_revoked,
  relay, handle, allowed,
}
use daemon.Collab.Rooms.Kept.{AreLimited, AreLimited-keep, AreLimited-put}
use daemon.Collab.Rooms.Reached.{
  leaves, remove_member-AreLimited, leave_codes-AreLimited, join_session-AreLimited,
  member_for-AreLimited,
}

module _ (strings : Strings) (files : Text → Option OpenFile) (ot : Ot) where
  relay-AreLimited :
      Inverts ot
      → (now : ℕ) (h : Client) (raw : Text) (message : Message) (rooms : List (Session ot))
      → AreLimited ot rooms
      → AreLimited ot (relay strings ot files now h raw message rooms).0
  unfolding relay
  relay-AreLimited inverts now h raw message rooms v =
      let (left, member) = member_for-AreLimited strings files ot now h.id raw rooms v in
      let rooms' = (member_for strings ot now h.id raw rooms).0 in
      elim (Option-cases (member_for strings ot now h.id raw rooms).1) [
        | inl stranger ↦ leaves strings files ot rooms' (ground (arith, stranger)) left
        | inr ((s, m), known) ↦
            let (w, there) = member s m known in
            let s' = (receive strings files ot message s m).0 in
            leaves strings files ot (put_session strings ot s' rooms') (ground (arith, known)) (
              AreLimited-put strings files ot s' rooms'
                (receive-IsLimited strings files ot inverts message s m there w) left)
      ]

  close_session-AreLimited :
      (now : ℕ) (h : Client) (raw : Text) (rooms : List (Session ot))
      → AreLimited ot rooms
      → AreLimited ot (close_session strings ot now h raw rooms).0
  unfolding close_session
  close_session-AreLimited now h raw rooms v =
      let (left, member) = member_for-AreLimited strings files ot now h.id raw rooms v in
      let rooms' = (member_for strings ot now h.id raw rooms).0 in
      elim (Option-cases (member_for strings ot now h.id raw rooms).1) [
        | inl stranger ↦ leaves strings files ot rooms' (ground (arith, stranger)) left
        | inr ((s, m), known) ↦
            elim (Bool-cases
              (not (str_eq s.owner_uuid "") && not (str_eq m.user.uuid s.owner_uuid))) [
                | inl guest ↦ leaves strings files ot rooms' (ground (arith, known, guest)) left
                | inr owner ↦
                    leaves strings files ot (delete_session strings ot s.code rooms')
                      (ground (arith, known, owner))
                      (AreLimited-keep strings files ot (λ x. not (same_text x.code s.code)) rooms'
                        left)
              ]
      ]

  check_file-AreLimited :
      (deny : Denylist) (now : ℕ) (h : Client) (raw request : Text) (rooms : List (Session ot))
      → AreLimited ot rooms
      → AreLimited ot (check_file strings ot deny now h raw request rooms).0
  unfolding check_file sessions_for_server
  check_file-AreLimited deny now h raw request rooms v = elim (Bool-cases (can_read deny h)) [
    | inr unread ↦ leaves strings files ot rooms (ground (arith, unread)) v
    | inl reads ↦ elim (Option-cases (collab_path strings raw)) [
      | inl bad ↦ leaves strings files ot rooms (ground (arith, reads, bad)) v
      | inr (path, good) ↦ elim (Option-cases h.jwt) [
        | inl anonymous ↦ leaves strings files ot rooms (ground (arith, reads, good, anonymous)) v
        | inr (jwt, known) ↦
            leaves strings files ot (keep (λ s. not (session_expired ot now s)) rooms)
              (ground (arith, reads, good, known))
              (AreLimited-keep strings files ot (λ s. not (session_expired ot now s)) rooms v)
      ]
    ]
  ]

  tell_external_edit-AreLimited :
      (deny : Denylist) (now : ℕ) (h : Client) (raw : Text) (u : User) (rooms : List (Session ot))
      → AreLimited ot rooms
      → AreLimited ot (tell_external_edit strings ot deny now h raw u rooms).0
  unfolding tell_external_edit sessions_for_server
  tell_external_edit-AreLimited deny now h raw u rooms v = elim (Bool-cases (can_write deny h)) [
    | inr unwritable ↦ leaves strings files ot rooms (ground (arith, unwritable)) v
    | inl writes ↦ elim (Option-cases h.jwt) [
      | inl anonymous ↦ leaves strings files ot rooms (ground (arith, writes, anonymous)) v
      | inr (jwt, known) ↦ elim (Option-cases (collab_path strings raw)) [
        | inl bad ↦ leaves strings files ot rooms (ground (arith, writes, known, bad)) v
        | inr (path, good) ↦
            leaves strings files ot (keep (λ s. not (session_expired ot now s)) rooms)
              (ground (arith, writes, known, good))
              (AreLimited-keep strings files ot (λ s. not (session_expired ot now s)) rooms v)
      ]
    ]
  ]

  handle-AreLimited :
      Inverts ot
      → (parse : Text → Option Token) (deny : Denylist) (now : ℕ) (h : Client) (request : Request)
        (rooms : List (Session ot))
      → AreLimited ot rooms
      → AreLimited ot (handle strings ot parse files deny now h request rooms).0
  unfolding handle
  handle-AreLimited inverts parse deny now h (join j) rooms v =
      join_session-AreLimited strings files ot parse deny now h j rooms v
  handle-AreLimited inverts parse deny now h leave rooms v =
      leave_codes-AreLimited strings files ot (map (λ s. s.code) rooms) h.id rooms v
  handle-AreLimited inverts parse deny now h (close raw) rooms v =
      close_session-AreLimited now h raw rooms v
  handle-AreLimited inverts parse deny now h (to_session raw message) rooms v =
      elim (Bool-cases (needs_write message && not (can_write deny h))) [
        | inl forbidden ↦ leaves strings files ot rooms (ground (arith, forbidden)) v
        | inr allowed ↦
            leaves strings files ot (relay strings ot files now h raw message rooms).0
              (ground (arith, allowed)) (relay-AreLimited inverts now h raw message rooms v)
      ]
  handle-AreLimited inverts parse deny now h (file_check raw request) rooms v =
      check_file-AreLimited deny now h raw request rooms v
  handle-AreLimited inverts parse deny now h (edited_outside raw u) rooms v =
      tell_external_edit-AreLimited deny now h raw u rooms v
  handle-AreLimited inverts parse deny now h (undecoded need why) rooms v =
      elim (Bool-cases (allowed strings ot deny h need)) [
        | inl yes_allowed ↦ leaves strings files ot rooms (ground (arith, yes_allowed)) v
        | inr forbidden ↦ leaves strings files ot rooms (ground (arith, forbidden)) v
      ]

abbrev no_files : Text → Option OpenFile
no_files path = none

module _ (strings : Strings) (ot : Ot) where
  -- The registries that requests make of the empty one, with the connections that end and the
  -- sessions that the Panel revokes. The files may change from one request to the next.
  pub data Reach : List (Session ot) → Type 0 where
    start : Reach []
    handled :
        {rooms : List (Session ot)} (parse : Text → Option Token) (files : Text → Option OpenFile)
        (deny : Denylist) (now : ℕ) (h : Client) (request : Request)
        → Reach rooms
        → Reach (handle strings ot parse files deny now h request rooms).0
    disconnected :
        {rooms : List (Session ot)} (code : Text) (id : String)
        → Reach rooms
        → Reach (remove_member strings ot code id rooms).0
    revoked :
        {rooms : List (Session ot)} (now : ℕ) (server : String) (mode reason : Text)
        → Reach rooms
        → Reach (close_sessions strings ot now server mode reason rooms).0

  -- Where the package's Invert undoes an operation: after any run of requests, ended connections
  -- and revocations that starts without sessions, under files that may change, every session has
  -- between 2 and 20 places and no more members than places, at most 32 documents, and each
  -- document has a valid history and a content within the limit of the session, which is at most
  -- 10 MiB.
  pub Reach-AreLimited :
      Inverts ot → (rooms : List (Session ot)) → Reach rooms → AreLimited ot rooms
  unfolding close_sessions
  Reach-AreLimited inverts rooms start = tt
  Reach-AreLimited inverts rooms (handled {rooms = r} parse files deny now h request reach) =
      handle-AreLimited strings files ot inverts parse deny now h request r
        (Reach-AreLimited inverts r reach)
  Reach-AreLimited inverts rooms (disconnected {rooms = r} code id reach) =
      remove_member-AreLimited strings no_files ot code id r (Reach-AreLimited inverts r reach)
  Reach-AreLimited inverts rooms (revoked {rooms = r} now server mode reason reach) =
      AreLimited-keep strings no_files ot
        (λ s. not (session_expired ot now s) && not (is_revoked strings ot now server mode s)) r
        (Reach-AreLimited inverts r reach)
