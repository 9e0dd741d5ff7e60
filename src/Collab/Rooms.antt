-- ===== src/Collab/Rooms.antt =====
-- The registry of sessions in router/websocket/betterfiles_collaboration.go, and the handlers of the
-- messages. A message is one step, with one reading of the clock. The key of a session is its code.
pub mod Requests
pub mod Kept
pub mod Reached
pub mod Runs
mod Examples
use daemon.Common.{
  ℕ, zero, suc, ◌+◌, Bool, true, false, ◌&&◌, ◌||◌, not, Option, none, some, List, [], ◌∷◌, ◌++◌,
  length, keep, map, any, find?, ltb, leb, ◌==◌, if◌then◌else◌, is_some, String, str_eq,
}
use daemon.Common.Int.{ℤ, pos, negsuc, ltb_ℤ, pos_part}
use daemon.Policy.Names.{codes}
use daemon.Tokens.{Denylist, Payload, has_permission}
use daemon.Collab.Text.{Text, same_text}
use daemon.Collab.Ot.{Ot}
use daemon.Collab.Names.{Strings, collab_code, collab_path, safe_text, safe_image}
use daemon.Collab.Session.{
  Session, Member, User, Output, Event, OpenFile, Conflict, edit_mode, view_mode, max_payload_bytes,
  refused, joined, check_result, closed, external_edit, send, session_expired, find_member,
  users_for_path, broadcast_file_users, broadcast_members,
}
use daemon.Collab.Session.Messages.{Message, patch, share, save, receive}

-- `betterFilesCollabToken`
pub record Token : Type 0 where
  pub server_uuid : String
  pub user_uuid : String
  pub enabled : Bool
  pub code : Text
  pub owner_uuid : String
  pub mode : Text
  pub max_users : ℤ
  pub max_file_bytes : ℤ
  pub expires_at : ℤ

-- `betterFilesCollabSessionInfo`, once verified.
pub record SessionInfo : Type 0 where
  pub code : Text
  pub server_uuid : String
  pub owner_uuid : String
  pub mode : Text
  pub max_users : ℕ
  pub max_file_bytes : ℕ
  pub expires_at : ℕ

-- What a client says of the session and of itself.
pub record Join : Type 0 where
  pub code : Text
  pub token : Text
  pub user : User

-- A websocket handler, with the token that it has now.
pub record Client : Type 0 where
  pub id : String
  pub jwt : Option Payload

pub data Need : Type 0 where
  nothing read_permission write_permission : Need

pub data Request : Type 0 where
  join : Join → Request
  leave : Request
  close : Text → Request
  to_session : Text → Message → Request
  file_check : Text → Text → Request
  edited_outside : Text → User → Request
  -- A payload that does not decode, and what its handler says.
  undecoded : Need → String → Request

abbrev pub clamp_users : ℤ → ℕ
clamp_users (negsuc n) = 10
clamp_users (pos n) = if ltb n 2 || ltb 20 n then 10 else n

abbrev pub clamp_file_bytes : ℤ → ℕ
clamp_file_bytes (negsuc n) = max_payload_bytes
clamp_file_bytes (pos n) = if ltb n 1 || ltb max_payload_bytes n then max_payload_bytes else n

abbrev pub normal_mode : Text → Text
normal_mode mode = if same_text mode edit_mode then mode else view_mode

abbrev pub may : Denylist → Option Payload → String → Bool
may deny none permission = false
may deny (some p) permission = has_permission deny p permission

-- `h.betterFilesCollabCanRead`
abbrev pub can_read : Denylist → Client → Bool
can_read deny h = may deny h.jwt "file.read-content"

abbrev pub can_write : Denylist → Client → Bool
can_write deny h = may deny h.jwt "file.update"

module _ (strings : Strings) (ot : Ot) where
  -- `betterFilesCollabVerifiedSession`, with what the token is parsed to.
  unfoldable pub verified_session :
      (Text → Option Token) → ℕ → Text → Text → Option (SessionInfo × String)
  verified_session parse now code token =
      if same_text (strings.trim_space token) [] then none else elim (parse token) [
        | none ↦ none
        | some t ↦
            let own = collab_code strings t.code in
            let expires = if ltb_ℤ (pos 0) t.expires_at then pos_part t.expires_at else now + 900 in
            if not t.enabled
            then none
            else if same_text own [] || not (same_text own (collab_code strings code))
            then none
            else if leb expires now
            then none
            else some (
              record {
                code = own;
                server_uuid = t.server_uuid;
                owner_uuid = t.owner_uuid;
                mode = normal_mode t.mode;
                max_users = clamp_users t.max_users;
                max_file_bytes = clamp_file_bytes t.max_file_bytes;
                expires_at = expires;
              },
              t.user_uuid,
            )
      ]

  abbrev pub find_session : Text → List (Session ot) → Option (Session ot)
  find_session code = find? (λ s. same_text s.code code)

  abbrev pub delete_session : Text → List (Session ot) → List (Session ot)
  delete_session code = keep (λ s. not (same_text s.code code))

  -- A session is changed in place.
  abbrev pub put_session : Session ot → List (Session ot) → List (Session ot)
  put_session s = map (λ x. if same_text x.code s.code then s else x)

  unfoldable pub new_session : Text → SessionInfo → Session ot
  new_session code info = record {
    code = code;
    server_uuid = info.server_uuid;
    owner_uuid = info.owner_uuid;
    mode = normal_mode info.mode;
    max_users = clamp_users (pos info.max_users);
    max_file_bytes = clamp_file_bytes (pos info.max_file_bytes);
    expires_at = info.expires_at;
    members = [];
    documents = [];
  }

  -- `betterFilesCollabGetOrCreateSession`
  unfoldable pub get_or_create :
      ℕ → SessionInfo → List (Session ot) → List (Session ot) × Session ot
  unfolding session_expired new_session
  get_or_create now info rooms =
      let code = collab_code strings info.code in
      let fresh = new_session code info in
      elim (find_session code rooms) [
        | none ↦ (fresh ∷ rooms, fresh)
        | some s ↦
            if session_expired ot now s
            then (fresh ∷ delete_session code rooms, fresh)
            else let s' : Session ot =
                if ltb 0 info.expires_at && ltb s.expires_at info.expires_at
                then record s { expires_at = info.expires_at }
                else s in
              (put_session s' rooms, s')
      ]

  -- `betterFilesCollabRemoveMember`
  unfoldable pub remove_member : Text → String → List (Session ot) → List (Session ot) × List Output
  unfolding broadcast_file_users broadcast_members
  remove_member raw id rooms = elim (find_session (collab_code strings raw) rooms) [
    | none ↦ (rooms, [])
    | some s ↦
        let left : Session ot = record s {
          members = keep (λ m. not (str_eq m.handler_id id)) s.members;
        } in
        if not (is_some (find_member ot id s.members))
        then (rooms, [])
        else if length left.members == 0
        then (delete_session (collab_code strings raw) rooms, [])
        else (put_session left rooms, broadcast_members ot left ∷ broadcast_file_users ot left ∷ [])
  ]

  -- `h.betterFilesCollabLeaveAll`, over the codes that there were.
  unfoldable pub leave_codes :
      List Text → String → List (Session ot) → List (Session ot) × List Output
  leave_codes [] id rooms = (rooms, [])
  leave_codes (code ∷ rest) id rooms =
      let (rooms', out) = remove_member code id rooms in
      let (rooms'', out') = leave_codes rest id rooms' in (rooms'', out ++ out')

  abbrev pub leave_all : String → List (Session ot) → List (Session ot) × List Output
  leave_all id rooms = leave_codes (map (λ s. s.code) rooms) id rooms

  -- `betterFilesCollabMemberFor`
  unfoldable pub member_for :
      ℕ → String → Text → List (Session ot) → List (Session ot) × Option (Session ot × Member)
  unfolding session_expired
  member_for now id raw rooms = elim (find_session (collab_code strings raw) rooms) [
    | none ↦ (rooms, none)
    | some s ↦
        if session_expired ot now s
        then (delete_session (collab_code strings raw) rooms, none)
        else elim (find_member ot id s.members) [
          | none ↦ (rooms, none)
          | some m ↦ (rooms, some (s, m))
        ]
  ]
