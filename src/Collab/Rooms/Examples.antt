-- ===== src/Collab/Rooms/Examples.antt =====
-- Runs of the sessions of the shared editor, and the theorems at concrete inputs.
use daemon.Common.{
  ℕ, suc, ltb, ap, ◌∙◌, ◌≡◌, refl, sym, inl, inr, true, false, Option, none, some, List, [], ◌∷◌,
  length, arith, if◌then◌else◌, leb, ◌&&◌, ◌-◌, ◌==◌, map,
}
use daemon.Common.Int.{pos, ◌+ℤ◌, ◌-ℤ◌}
use daemon.Policy.Names.{codes}
use daemon.Tokens.{Denylist, is_denylisted, grants, permission_loop, has_permission}
use daemon.Collab.Text.{
  Text, same_text, utf16_units, utf16_encode, utf16_len, prefix_from, utf16_prefix, search_ints,
  rune_offset, hash_units, hex_digits, content_hash, utf8_len,
}
use daemon.Collab.Ot.{run}
use daemon.Collab.Ot.Plain.{inverse, plain, plain-Inverts}
use daemon.Collab.Edits.{
  insert_edit, sort_edits, edit_offset, edit_range, build_changes, changes_to_operation, flush,
  pend, scan_component, scan_ops, operation_to_changes,
}
use daemon.Collab.Document.{
  Document, new_document, replace, snapshot, find_base, rebuild, resolve_agreed, resolve_base,
  transform_past, push_history, commit, apply_monaco_changes,
}
use daemon.Collab.Names.{
  Strings, code_chars, has_dash, collab_code, sensitive_part, sensitive_path, cleaned_path,
  collab_path, safe_text, safe_image,
}
use daemon.Collab.Names.Code.{LeavesCodes, checked_code-cases, collab_code-collab_code}
use daemon.Collab.Session.{
  find_document, edit_mode, Session, Member, OpenFile, clamp_cursor, session_expired,
  document_bytes, accept_version, broadcast_file_users, broadcast_members, move_member,
  users_for_path, add_document, document_for, send_document, find_member,
}
use daemon.Collab.Session.Messages.{
  Message, open_file, patch, edit_document, set_file, set_presence, patch_document, patch_refusal,
  apply_patch, share_document, content_refusal, share_snapshot, save_document, save_file, receive,
}
use daemon.Collab.Session.Messages.Guarded.{find_document-receive}
use daemon.Collab.Session.Messages.Versions.{receive_again}
use daemon.Collab.Rooms.{
  Token, Client, Request, join, to_session, verified_session, new_session, get_or_create,
  remove_member, leave_codes, member_for,
}
use daemon.Collab.Rooms.Requests.{
  joined_user, enter, join_session, close_session, sessions_for_server, check_file,
  tell_external_edit, is_revoked, close_sessions, relay, handle,
}
use daemon.Collab.Rooms.Kept.{AreLimited}
use daemon.Collab.Rooms.Runs.{start, handled, Reach-AreLimited}

program : Unit {0}
unfolding new_document utf16_units utf16_encode utf16_len prefix_from utf16_prefix search_ints
    rune_offset hash_units hex_digits content_hash utf8_len run inverse insert_edit sort_edits
    edit_offset edit_range build_changes changes_to_operation flush pend scan_component scan_ops
    operation_to_changes replace snapshot find_base rebuild resolve_agreed resolve_base
    transform_past push_history commit apply_monaco_changes ◌+ℤ◌ ◌-ℤ◌ is_denylisted grants
    permission_loop has_permission collab_code sensitive_part sensitive_path cleaned_path
    collab_path safe_text safe_image clamp_cursor session_expired document_bytes accept_version
    broadcast_file_users broadcast_members move_member users_for_path add_document document_for
    send_document edit_document set_file set_presence patch_document patch_refusal apply_patch
    share_document content_refusal share_snapshot save_document save_file receive verified_session
    new_session get_or_create remove_member leave_codes member_for joined_user enter join_session
    close_session sessions_for_server check_file tell_external_edit is_revoked close_sessions relay
    handle
program = tt

-- Capital letters for the small ones, and every other text as it is.
abbrev upper : Text → Text
upper = map (λ c. if leb b'a' c && leb c b'z' then c - 32 else c)

abbrev strings : Strings
strings = record {
  trim_space = λ s. s;
  to_upper = upper;
  to_lower = λ s. s;
  clean = λ s. s;
  valid_text = λ s. true;
}

raw_code : collab_code strings (codes "ab 12cd34") ≡ codes "AB12-CD34"
unfolding program
raw_code = refl

secret_refused : collab_path strings (codes "config\\.env.local") ≡ none
unfolding program
secret_refused = refl

up_refused : collab_path strings (codes "/a/../b") ≡ none
unfolding program
up_refused = refl

path_taken : collab_path strings (codes "a.txt") ≡ some (codes "/a.txt")
unfolding program
path_taken = refl

abbrev files : Text → Option OpenFile
files path = some (record { is_dir = false; size = 2; read = λ n. some (codes "hi") })

abbrev token : Text → Text → Option Token
token mode t = some (record {
  server_uuid = "s";
  user_uuid = "u";
  enabled = true;
  code = codes "AB12-CD34";
  owner_uuid = "u";
  mode = mode;
  max_users = pos 2;
  max_file_bytes = pos 100;
  expires_at = pos 1000;
})

abbrev denylist : Denylist
denylist = record { boot = 0; jtis = []; users = [] }

abbrev client : Client
client = record {
  id = "h1";
  jwt = some (record {
    jti = "j";
    issued_at = some 5;
    user_uuid = "u";
    server_uuid = "s";
    permissions = "file.update" ∷ "file.read-content" ∷ [];
  });
}

abbrev request : Request
request = join (record {
  code = codes "ab12cd34";
  token = codes "t";
  user = record { uuid = "x"; username = codes "ann"; image = []; connection_id = codes "c" };
})

abbrev joined_rooms : Text → List (Session plain)
joined_rooms mode = (handle strings plain (token mode) files denylist 10 client request []).0

abbrev opened_rooms : Text → List (Session plain)
opened_rooms mode =
    (handle strings plain (token mode) files denylist 11 client
      (to_session (codes "AB12-CD34") (open_file (codes "a.txt"))) (joined_rooms mode)).0

one_member : map (λ s. length s.members) (joined_rooms (codes "edit")) ≡ 1 ∷ []
unfolding program
one_member = refl

abbrev edit : Message
edit = patch (record {
  path = codes "a.txt";
  changes =
      record {
        range_offset = pos 2;
        range_length = pos 0;
        text = codes "!";
        base_hash = [];
        base_length = pos 0;
      }
      ∷ [];
  version = pos 1;
  line = pos 1;
  column = pos 1;
})

abbrev edited_rooms : List (Session plain)
edited_rooms =
    (handle strings plain (token (codes "edit")) files denylist 12 client
      (to_session (codes "AB12-CD34") edit) (opened_rooms (codes "edit"))).0

edited : map (λ s. map (λ d. d.1.content) s.documents) edited_rooms ≡ (codes "hi!" ∷ []) ∷ []
unfolding program
edited = refl

upper_dash : (d : ℕ) (s t : Text) → (d == b'-') ≡ true → upper s ≡ t → upper (d ∷ s) ≡ d ∷ t
upper_dash d s t h e = ground (arith, h, e)

-- One character of a code, other than the dash.
upper_char :
    (i c : ℕ) (s : Text)
    → (i == 4) ≡ false
    → code_chars i (c ∷ s) ≡ true
    → (code_chars (suc i) s ≡ true) × ((upper s ≡ s) → upper (c ∷ s) ≡ c ∷ s)
upper_char i c s h e = (ground (arith, h, e), λ tail. ground (arith, h, e, tail))

upper_chars : (i : ℕ) (s : Text) → ltb 4 i ≡ true → code_chars i s ≡ true → upper s ≡ s
upper_chars i [] h e = refl
upper_chars i (c ∷ s) h e =
    let (rest, upper_all) = upper_char i c s (ground (arith, h)) e in
    upper_all (upper_chars (suc i) s (ground (arith, h)) rest)

upper_code : (code : Text) → has_dash code ≡ true → code_chars 0 code ≡ true → upper code ≡ code
upper_code [] h e = refl
upper_code (a ∷ []) h e = absurd cc
upper_code (a ∷ b ∷ []) h e = absurd cc
upper_code (a ∷ b ∷ c ∷ []) h e = absurd cc
upper_code (a ∷ b ∷ c ∷ d ∷ []) h e = absurd cc
upper_code (a ∷ b ∷ c ∷ d ∷ x ∷ s) h e =
    let (e1, up1) = upper_char 0 a (b ∷ c ∷ d ∷ x ∷ s) refl e in
    let (e2, up2) = upper_char 1 b (c ∷ d ∷ x ∷ s) refl e1 in
    let (e3, up3) = upper_char 2 c (d ∷ x ∷ s) refl e2 in
    let (e4, up4) = upper_char 3 d (x ∷ s) refl e3 in
    up1 (up2 (up3 (up4 (upper_dash x s s h (upper_chars 5 s refl e4)))))

strings-LeavesCodes : LeavesCodes strings
strings-LeavesCodes code e = elim (checked_code-cases code) [
  | inl empty ↦
      let none_left : code ≡ [] = sym e ∙ empty in (refl, ap upper none_left ∙ sym none_left)
  | inr (same, len, dash, chars) ↦ (refl, upper_code code dash chars)
]

collab_code-collab_code_example :
    collab_code strings (collab_code strings (codes "ab 12cd34"))
    ≡ collab_code strings (codes "ab 12cd34")
collab_code-collab_code_example =
    collab_code-collab_code strings (codes "ab 12cd34") strings-LeavesCodes

abbrev room_of : List (Session plain) → Session plain
room_of (s ∷ rooms) = s
room_of [] = record {
  code = [];
  server_uuid = "";
  owner_uuid = "";
  mode = [];
  max_users = 0;
  max_file_bytes = 0;
  expires_at = 0;
  members = [];
  documents = [];
}

abbrev member_of : Session plain → Member
member_of s = elim s.members [
  | m ∷ ms ↦ m
  | [] ↦ record {
    handler_id = "";
    user = record { uuid = ""; username = []; image = []; connection_id = [] };
    file_path = [];
    joined_at = 0;
    last_version = pos 0;
  }
]

abbrev room : Session plain
room = room_of (opened_rooms (codes "edit"))

abbrev view_room : Session plain
view_room = room_of (opened_rooms (codes "view"))

abbrev after_edit : Session plain
after_edit = (receive strings files plain edit room (member_of room)).0

member_found : find_member plain (member_of room).handler_id room.members ≡ some (member_of room)
unfolding program
member_found = refl

member_kept :
    find_member plain (member_of room).handler_id after_edit.members ≡ some (member_of after_edit)
unfolding program
member_kept = refl

receive_again_example :
    (receive strings files plain edit after_edit (member_of after_edit)).0 ≡ after_edit
receive_again_example =
    receive_again strings files plain edit room (member_of room) (member_of after_edit) refl
      member_found member_kept

is_view : same_text view_room.mode edit_mode ≡ false
unfolding program
is_view = refl

abbrev view_document : Document plain
view_document = new_document plain (codes "hi")

view_found : find_document plain (codes "/a.txt") view_room.documents ≡ some view_document
unfolding program
view_found = refl

find_document-receive_example :
    find_document plain
      (codes "/a.txt")
      (receive strings files plain edit view_room (member_of view_room)).0.documents
    ≡ some view_document
find_document-receive_example =
    find_document-receive strings files plain edit view_room (member_of view_room) (codes "/a.txt")
      view_document is_view view_found

Reach-AreLimited_example : AreLimited plain edited_rooms
Reach-AreLimited_example = Reach-AreLimited strings plain plain-Inverts edited_rooms (
    handled (token (codes "edit")) files denylist 12 client (to_session (codes "AB12-CD34") edit) (
      handled (token (codes "edit")) files denylist 11 client
        (to_session (codes "AB12-CD34") (open_file (codes "a.txt")))
        (handled (token (codes "edit")) files denylist 10 client request start)))
