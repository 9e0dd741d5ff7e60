-- ===== src/Collab/Session/Messages.antt =====
-- The handlers of the messages to a session in router/websocket/betterfiles_collaboration.go, from
-- the point on where the sender is known as a member of the session. A message is one step.
pub mod Opened
pub mod Edited
pub mod Written
pub mod Guarded
pub mod Versions
pub mod Limits
use daemon.Common.{
  ℕ, zero, suc, ◌+◌, Bool, true, false, ◌&&◌, ◌||◌, not, Option, none, some, List, [], ◌∷◌, ◌++◌,
  length, any, ltb, leb, ◌==◌, if◌then◌else◌, is_some, String, str_eq, Result, ok, err,
}
use daemon.Common.Int.{ℤ, pos, negsuc, ltb_ℤ, ◌-ℤ◌}
use daemon.Collab.Text.{Text, same_text, utf8_len}
use daemon.Collab.Ot.{Ot}
use daemon.Collab.Edits.{TextEdit, CollabError, base_not_found, too_large}
use daemon.Collab.Document.{Document, ApplyResult, apply_monaco_changes, replace, snapshot}
use daemon.Collab.Names.{Strings, collab_path, safe_text}
use daemon.Collab.Session.{
  Session, Member, User, Output, Event, OpenFile, edit_mode, max_payload_bytes, max_session_bytes,
  clamp_cursor, refused, presence, patched, snapshot_of, saved, send, payload_limit, accept_version,
  move_member, document_for, document_bytes, put_document, send_document, users_for_path,
  broadcast_file_users, put_member,
}

pub record Presence : Type 0 where
  pub path : Text
  pub line : ℤ
  pub column : ℤ
  pub selection : Text

pub record Snapshot : Type 0 where
  pub path : Text
  pub content : Text
  pub version : ℤ
  pub line : ℤ
  pub column : ℤ

pub record Patch : Type 0 where
  pub path : Text
  pub changes : List TextEdit
  pub version : ℤ
  pub line : ℤ
  pub column : ℤ

pub record Saved : Type 0 where
  pub path : Text
  pub content : Text
  pub version : ℤ

-- The messages to a session, once decoded.
pub data Message : Type 0 where
  open_file : Text → Message
  close_file : Text → Message
  move : Presence → Message
  patch : Patch → Message
  share : Snapshot → Message
  save : Saved → Message

-- The messages whose handler asks for the write permission.
abbrev pub needs_write : Message → Bool
needs_write (patch p) = true
needs_write (share p) = true
needs_write (save p) = true
needs_write m = false

abbrev pub is_bad : (Text → Bool) → TextEdit → Bool
is_bad valid_text e =
    ltb_ℤ e.range_offset (pos 0)
    || ltb_ℤ e.range_length (pos 0)
    || ltb_ℤ e.base_length (pos 0)
    || not (valid_text e.text)
    || ltb_ℤ (pos max_payload_bytes) e.range_offset
    || ltb_ℤ (pos max_payload_bytes) e.range_length
    || ltb_ℤ (pos max_payload_bytes) e.base_length

abbrev pub text_bytes : List TextEdit → ℕ
text_bytes [] = 0
text_bytes (e ∷ es) = utf8_len e.text + text_bytes es

module _ (strings : Strings) (files : Text → Option OpenFile) (ot : Ot) where
  abbrev pub refuse : Session ot → String → Session ot × List Output
  refuse s why = (s, refused why ∷ [])

  -- What comes behind the check of a path, of `none` if it is not allowed.
  abbrev pub with_path :
      Text → Session ot → (Text → Session ot × List Output) → Session ot × List Output
  with_path raw s go = elim (collab_path strings raw) [
    | none ↦ refuse s "file is not allowed in live collaboration"
    | some path ↦ go path
  ]

  -- A document for a path, or the refusal behind what was sent before.
  abbrev pub with_document :
      Text
      → Session ot
      → List Output
      → (Session ot → Document ot → Session ot × List Output)
      → Session ot × List Output
  with_document path s out go = elim (document_for ot strings.valid_text files path s) [
    | err why ↦ (s, out ++ refused why ∷ [])
    | ok (s', d) ↦ go s' d
  ]

  -- The checks that a patch, a snapshot and a save share: a new version, the path of the member, and
  -- the document.
  unfoldable pub edit_document :
      ℤ
      → Text
      → Session ot
      → Member
      → (Text → Session ot → Member → List Output → Document ot → Session ot × List Output)
      → Session ot × List Output
  edit_document version raw s m go = with_path raw s (λ path. elim (accept_version ot version s m) [
    | none ↦ (s, [])
    | some (s1, m1) ↦
        let (s2, m2, out) = move_member ot path s1 m1 in
        with_document path s2 out (λ s3 d. go path s3 m2 out d)
  ])

  -- `betterFilesCollabSetFile`
  unfoldable pub set_file : Bool → Text → Session ot → Member → Session ot × List Output
  unfolding broadcast_file_users send_document
  set_file opens raw s m = with_path raw s (λ path.
      let s' : Session ot =
        if opens
        then record s { members = put_member ot (record m { file_path = path }) s.members }
        else if same_text m.file_path path
        then record s { members = put_member ot (record m { file_path = [] }) s.members }
        else s in
      let out = broadcast_file_users ot s' ∷ [] in
      if opens
      then with_document path s' out (λ s'' d. (s'', out ++ send_document ot s'' path d ∷ []))
      else (s', out))

  -- `betterFilesCollabPresence`
  unfoldable pub set_presence : Presence → Session ot → Member → Session ot × List Output
  unfolding clamp_cursor move_member
  set_presence p s m = with_path p.path s (λ path.
      let (s', m', out) = move_member ot path s m in
      (
        s',
        out
            ++ send ot s' (some m.handler_id) (
                presence path (clamp_cursor p.line) (clamp_cursor p.column)
                  (safe_text strings p.selection 120) m'.user)
              ∷ [],
      ))

  -- The bytes that a patch may take a document to.
  abbrev pub patch_limit : Session ot → Document ot → ℤ
  patch_limit s d =
      let available =
        pos max_session_bytes
        -ℤ (pos (document_bytes ot s.documents) -ℤ pos (utf8_len d.content)) in
      if ltb_ℤ available (pos (payload_limit ot s)) then available else pos (payload_limit ot s)

  -- `betterFilesCollabPatch` from the document on.
  unfoldable pub patch_document :
      Patch → Text → Session ot → Member → List Output → Document ot → Session ot × List Output
  unfolding clamp_cursor
  patch_document p path s m out d =
      if not (ltb_ℤ (pos 0) (patch_limit s d))
      then (s, out ++ refused "collaboration session document memory limit reached" ∷ [])
      else elim (apply_monaco_changes ot strings.valid_text d p.changes (patch_limit s d)) [
        | err base_not_found ↦ (s, out ++ send_document ot s path d ∷ [])
        | err too_large ↦ (s, out ++ refused "collaboration document is too large" ∷ [])
        | err e ↦ (s, out ++ refused "invalid collaboration patch" ∷ [])
        | ok (d', r) ↦
            let s' : Session ot = record s { documents = put_document ot path d' s.documents } in
            if length r.changes == 0 then (s', out ++ send_document ot s' path d' ∷ []) else (
              s',
              out
                  ++ send ot s' (some m.handler_id) (
                      patched path r.changes p.version r.revision (clamp_cursor p.line)
                        (clamp_cursor p.column) m.user)
                    ∷ (if r.transformed then send_document ot s' path d' ∷ [] else []),
            )
      ]

  -- An edit, unless there is a reason to refuse it.
  abbrev pub unless :
      Option String → Session ot → Session ot × List Output → Session ot × List Output
  unless none s done = done
  unless (some why) s done = refuse s why

  -- The checks of `betterFilesCollabPatch` before the path.
  unfoldable pub patch_refusal : Patch → Session ot → Option String
  patch_refusal p s =
      if not (same_text s.mode edit_mode)
      then some "collaboration session is view-only"
      else if length p.changes == 0 || ltb 64 (length p.changes)
      then some "invalid collaboration patch size"
      else if any (is_bad strings.valid_text) p.changes
      then some "invalid collaboration patch change"
      else if ltb (payload_limit ot s) (text_bytes p.changes)
      then some "collaboration patch is too large"
      else none

  -- `betterFilesCollabPatch`
  unfoldable pub apply_patch : Patch → Session ot → Member → Session ot × List Output
  unfolding edit_document patch_document patch_refusal
  apply_patch p s m =
      unless (patch_refusal p s) s (edit_document p.version p.path s m (patch_document p))

  -- `betterFilesCollabSnapshot` from the document on.
  unfoldable pub share_document :
      Snapshot → Text → Session ot → Member → List Output → Document ot → Session ot × List Output
  unfolding clamp_cursor replace snapshot users_for_path
  share_document p path s m out d =
      let alone = d.revision == 0 && length (users_for_path ot s path m.handler_id) == 0 in
      let d' = if same_text d.content p.content then d else replace ot d p.content in
      let s' : Session ot = record s { documents = put_document ot path d' s.documents } in
      if same_text d.content p.content || alone
      then (
        s',
        out
            ++ send ot s' (some m.handler_id) (
                snapshot_of path d'.content p.version d'.revision (clamp_cursor p.line)
                  (clamp_cursor p.column) m.user)
              ∷ [],
      )
      else (s, out ++ send_document ot s path d ∷ [])

  -- The checks of a content before its path.
  unfoldable pub content_refusal : String → Text → Session ot → Option String
  content_refusal why content s =
      if not (same_text s.mode edit_mode)
      then some "collaboration session is view-only"
      else if ltb (payload_limit ot s) (utf8_len content) || not (strings.valid_text content)
      then some why
      else none

  -- `betterFilesCollabSnapshot`
  unfoldable pub share_snapshot : Snapshot → Session ot → Member → Session ot × List Output
  unfolding edit_document share_document content_refusal
  share_snapshot p s m =
      unless (content_refusal "collaboration snapshot is too large or invalid" p.content s) s
        (edit_document p.version p.path s m (share_document p))

  -- `betterFilesCollabFileSaved` from the document on.
  unfoldable pub save_document :
      Saved → Text → Session ot → Member → List Output → Document ot → Session ot × List Output
  unfolding replace
  save_document p path s m out d =
      let d' = replace ot d p.content in
      let s' : Session ot = record s { documents = put_document ot path d' s.documents } in
      (
        s',
        out
            ++ send ot s' (some m.handler_id) (saved path p.content p.version d'.revision m.user)
              ∷ [],
      )

  -- `betterFilesCollabFileSaved`
  unfoldable pub save_file : Saved → Session ot → Member → Session ot × List Output
  unfolding edit_document save_document content_refusal
  save_file p s m =
      unless (content_refusal "collaboration save payload is too large or invalid" p.content s) s
        (edit_document p.version p.path s m (save_document p))

  unfoldable pub receive : Message → Session ot → Member → Session ot × List Output
  unfolding set_file set_presence apply_patch share_snapshot save_file
  receive (open_file path) s m = set_file true path s m
  receive (close_file path) s m = set_file false path s m
  receive (move p) s m = set_presence p s m
  receive (patch p) s m = apply_patch p s m
  receive (share p) s m = share_snapshot p s m
  receive (save p) s m = save_file p s m
