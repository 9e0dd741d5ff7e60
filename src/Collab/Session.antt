-- ===== src/Collab/Session.antt =====
-- A session of the shared editor in router/websocket/betterfiles_collaboration.go: its members and
-- documents, and what a message to it does. What is sent is a list of outputs; the order of a map's
-- entries is that of a list here, where the source has none. The files of the server are a function.
pub mod Messages
use daemon.Common.{
  ℕ, zero, suc, ◌+◌, Bool, true, false, ◌&&◌, ◌||◌, not, Option, none, some, List, [], ◌∷◌, ◌++◌,
  length, keep, map, any, find?, ltb, leb, ◌==◌, if◌then◌else◌, is_some, String, str_eq, Result, ok,
  err,
}
use daemon.Common.Int.{ℤ, pos, negsuc, ltb_ℤ}
use daemon.Policy.Names.{codes}
use daemon.Collab.Text.{Text, same_text, utf8_len}
use daemon.Collab.Ot.{Ot}
use daemon.Collab.Edits.{TextEdit}
use daemon.Collab.Document.{Document, new_document}

abbrev pub max_payload_bytes : ℕ
max_payload_bytes = 10485760

abbrev pub max_documents : ℕ
max_documents = 32

abbrev pub max_session_bytes : ℕ
max_session_bytes = 33554432

abbrev pub edit_mode : Text
edit_mode = codes "edit"

abbrev pub view_mode : Text
view_mode = codes "view"

-- `betterFilesCollabUser`
pub record User : Type 0 where
  pub uuid : String
  pub username : Text
  pub image : Text
  pub connection_id : Text

-- `betterFilesCollabMember`; the handler is known by its id.
pub record Member : Type 0 where
  pub handler_id : String
  pub user : User
  pub file_path : Text
  pub joined_at : ℕ
  pub last_version : ℤ

-- `betterFilesCollabFileConflict`
pub record Conflict : Type 0 where
  pub code : Text
  pub mode : Text
  pub users : List User

pub data Event : Type 0 where
  closed : Text → Event
  members_are : List User → Text → Event
  file_users : List (Text × List User) → Event
  presence : Text → ℕ → ℕ → Text → User → Event
  patched : Text → List TextEdit → ℤ → ℕ → ℕ → ℕ → User → Event
  snapshot_of : Text → Text → ℤ → ℕ → ℕ → ℕ → User → Event
  saved : Text → Text → ℤ → ℕ → User → Event
  external_edit : Text → User → List User → Event

-- What is sent: to the sender of the message, or to handlers of a session.
pub data Output : Type 0 where
  refused : String → Output
  joined : Text → User → Text → Output
  document_sent : Text → Text → Text → ℕ → Output
  check_result : Text → Text → List Conflict → Output
  broadcast : Text → List String → Event → Output

-- What opening a file gives; it is read up to a number of bytes.
pub record OpenFile : Type 0 where
  pub is_dir : Bool
  pub size : ℕ
  pub read : ℕ → Option Text

-- `betterFilesCollabClampCursor`
unfoldable pub clamp_cursor : ℤ → ℕ
clamp_cursor (negsuc n) = 1
clamp_cursor (pos n) = if ltb n 1 then 1 else if ltb 1000000 n then 1000000 else n

-- `fileUsers[path] = append(fileUsers[path], user)`
abbrev pub add_user : Text → User → List (Text × List User) → List (Text × List User)
add_user path user [] = (path, user ∷ []) ∷ []
add_user path user ((p, users) ∷ rest) =
    if same_text p path
    then (p, users ++ user ∷ []) ∷ rest
    else (p, users) ∷ add_user path user rest

module _ (ot : Ot) where
  -- `betterFilesCollabSession`
  pub record Session : Type 0 where
    pub code : Text
    pub server_uuid : String
    pub owner_uuid : String
    pub mode : Text
    pub max_users : ℕ
    pub max_file_bytes : ℕ
    pub expires_at : ℕ
    pub members : List Member
    pub documents : List (Text × Document ot)

  unfoldable pub session_expired : ℕ → Session → Bool
  session_expired now s = leb s.expires_at now

  abbrev pub find_member : String → List Member → Option Member
  find_member id = find? (λ m. str_eq m.handler_id id)

  abbrev pub find_document : Text → List (Text × Document ot) → Option (Document ot)
  find_document path [] = none
  find_document path ((p, d) ∷ rest) = if same_text p path then some d else find_document path rest

  -- A document is changed in place.
  abbrev pub put_document :
      Text → Document ot → List (Text × Document ot) → List (Text × Document ot)
  put_document path d [] = []
  put_document path d ((p, e) ∷ rest) =
      if same_text p path then (p, d) ∷ rest else (p, e) ∷ put_document path d rest

  -- A member is changed in place.
  abbrev pub put_member : Member → List Member → List Member
  put_member m = map (λ n. if str_eq n.handler_id m.handler_id then m else n)

  -- The bytes of the documents, `betterFilesCollabSessionDocumentBytes`.
  unfoldable pub document_bytes : List (Text × Document ot) → ℕ
  document_bytes [] = 0
  document_bytes ((p, d) ∷ rest) = utf8_len d.content + document_bytes rest

  abbrev pub payload_limit : Session → ℕ
  payload_limit s =
      if s.max_file_bytes == 0 || ltb max_payload_bytes s.max_file_bytes
      then max_payload_bytes
      else s.max_file_bytes

  -- `betterFilesCollabAcceptVersion`; `none` is the source's `false`.
  unfoldable pub accept_version : ℤ → Session → Member → Option (Session × Member)
  accept_version version s m =
      if ltb_ℤ version (pos 1) || not (ltb_ℤ m.last_version version)
      then none
      else let moved : Member = record m { last_version = version } in
        some (record s { members = put_member moved s.members }, moved)

  abbrev pub others : Session → Option String → List String
  others s none = map (λ m. m.handler_id) s.members
  others s (some id) = map (λ m. m.handler_id) (keep (λ m. not (str_eq m.handler_id id)) s.members)

  -- `betterFilesCollabBroadcast`, to all, or to all but one.
  abbrev pub send : Session → Option String → Event → Output
  send s except event = broadcast s.code (others s except) event

  -- `betterFilesCollabBroadcastFileUsers`
  abbrev pub users_by_file : List Member → List (Text × List User) → List (Text × List User)
  users_by_file [] acc = acc
  users_by_file (m ∷ ms) acc =
      users_by_file ms (if same_text m.file_path [] then acc else add_user m.file_path m.user acc)

  unfoldable pub broadcast_file_users : Session → Output
  broadcast_file_users s = send s none (file_users (users_by_file s.members []))

  -- `betterFilesCollabBroadcastMembers`
  unfoldable pub broadcast_members : Session → Output
  broadcast_members s = send s none (members_are (map (λ m. m.user) s.members) s.mode)

  -- `betterFilesCollabSetMemberPath`, with the broadcast where it returns true.
  unfoldable pub move_member : Text → Session → Member → Session × Member × List Output
  unfolding broadcast_file_users
  move_member path s m =
      if same_text m.file_path path
      then (s, m, [])
      else let moved : Member = record m { file_path = path } in
        let s' : Session = record s { members = put_member moved s.members } in
        (s', moved, broadcast_file_users s' ∷ [])

  -- `betterFilesCollabUsersForPath`
  unfoldable pub users_for_path : Session → Text → String → List User
  users_for_path s path except =
      map (λ m. m.user)
        (keep
          (λ m.
            not (not (str_eq except "") && str_eq m.handler_id except)
            && same_text m.file_path path)
          s.members)

  -- `betterFilesCollabDocumentFor` from the reading of the file on.
  unfoldable pub add_document :
      (Text → Bool) → Text → Text → Session → Result String (Session × Document ot)
  unfolding document_bytes
  add_document valid_text path content s =
      if ltb (payload_limit s) (utf8_len content) || not (valid_text content)
      then err "collaboration file is too large or is not UTF-8 text"
      else if leb max_documents (length s.documents)
      then err "collaboration session has too many open documents"
      else if ltb max_session_bytes (document_bytes s.documents + utf8_len content)
      then err "collaboration session document memory limit reached"
      else let d = new_document ot content in
        ok (record s { documents = s.documents ++ (path, d) ∷ [] }, d)

  -- `betterFilesCollabDocumentFor`
  unfoldable pub document_for :
      (Text → Bool)
      → (Text → Option OpenFile)
      → Text
      → Session
      → Result String (Session × Document ot)
  document_for valid_text files path s = elim (find_document path s.documents) [
    | some d ↦ ok (s, d)
    | none ↦ elim (files path) [
      | none ↦ err "could not open collaboration file"
      | some f ↦
          if f.is_dir
          then err "collaboration path is not a file"
          else if ltb (payload_limit s) f.size
          then err "collaboration file is too large"
          else elim (f.read (payload_limit s + 1)) [
            | none ↦ err "could not read collaboration file"
            | some content ↦ add_document valid_text path content s
          ]
    ]
  ]

  -- `betterFilesCollabSendDocument`
  unfoldable pub send_document : Session → Text → Document ot → Output
  send_document s path d = document_sent s.code path d.content d.revision
