-- ===== src/Collab/Session/Messages/Limits.antt =====
-- The limits of a session and the validity of its documents.
use mathlib.Core.Path.{subst}
use daemon.Common.{
  ℕ, suc, ◌≤◌, ◌≡◌, refl, sym, ap, ◌∙◌, inl, inr, ◌⊎◌, Bool, true, false, Option, some, List, [],
  ◌∷◌, ◌++◌, length, map, if◌then◌else◌, Bool-cases, arith,
}
use daemon.Common.Int.{ℤ, pos, ltb_ℤ, ◌-ℤ◌}
use daemon.Collab.Text.{Text, same_text, utf8_len}
use daemon.Collab.Ot.{Ot}
use daemon.Collab.Document.{Document, new_document}
use daemon.Collab.Names.{Strings}
use daemon.Collab.Session.{
  Session, Member, OpenFile, find_document, document_bytes, payload_limit, find_member, put_member,
  put_document, max_payload_bytes, max_documents, max_session_bytes,
}
use daemon.Collab.Session.Messages.{
  Message, open_file, close_file, move, patch, share, save, set_file, receive,
}
use daemon.Collab.Session.Messages.{needs_write, patch_limit}
use daemon.Collab.Ot.{Inverts}
use daemon.Collab.Document.{replace}
use daemon.Collab.Document.History.{
  IsValid, replace-IsValid, apply_monaco_changes-IsValid, apply_monaco_changes_fits,
}
use daemon.Collab.Session.Messages.Opened.{Opens}
use daemon.Collab.Session.Messages.Edited.{IsMoved, ids-put_member}
use daemon.Collab.Session.Messages.Guarded.{set_file-rule, set_presence-rule}
use daemon.Collab.Session.Messages.Written.{edit-rule, version_of, IsPatched, put}

length-map : {A B : Type 0} (f : A → B) (xs : List A) → length (map f xs) ≡ length xs
length-map f [] = refl
length-map f (x ∷ xs) = ap suc (length-map f xs)

module _ (ot : Ot) where
  -- Documents that are valid, of at most so many bytes each.
  abbrev pub AreFitting : ℕ → List (Text × Document ot) → Type 0
  AreFitting limit [] = Unit {0}
  AreFitting limit ((p, d) ∷ rest) =
      IsValid ot d × (utf8_len d.content ≤ limit) × AreFitting limit rest

  pub record IsLimited (s : Session ot) : Type 0 where
    pub users : (2 ≤ s.max_users) × (s.max_users ≤ 20)
    pub file_bytes : (1 ≤ s.max_file_bytes) × (s.max_file_bytes ≤ max_payload_bytes)
    pub few_members : length s.members ≤ s.max_users
    pub few_documents : length s.documents ≤ max_documents
    pub documents : AreFitting (payload_limit ot s) s.documents

module _ (strings : Strings) (files : Text → Option OpenFile) (ot : Ot) where
  AreFitting-find :
      (limit : ℕ) (path : Text) (ds : List (Text × Document ot)) (d : Document ot)
      → AreFitting ot limit ds
      → find_document ot path ds ≡ some d
      → IsValid ot d × (utf8_len d.content ≤ limit)
  AreFitting-find limit path [] d h f = absurd cc
  AreFitting-find limit path ((p, e) ∷ ds) d (v, le, h) f = elim (Bool-cases (same_text p path)) [
    | inl same ↦
        let is_d : e ≡ d = ground (arith, same, f) in
        subst (λ x. IsValid ot x × (utf8_len x.content ≤ limit)) is_d (v, le)
    | inr other ↦ AreFitting-find limit path ds d h (ground (arith, other, f))
  ]

  AreFitting-append :
      (limit : ℕ) (path : Text) (ds : List (Text × Document ot)) (d : Document ot)
      → AreFitting ot limit ds
      → IsValid ot d
      → utf8_len d.content ≤ limit
      → AreFitting ot limit (ds ++ (path, d) ∷ [])
  AreFitting-append limit path [] d h v le = (v, le, tt)
  AreFitting-append limit path ((p, e) ∷ ds) d (w, ke, h) v le =
      (w, ke, AreFitting-append limit path ds d h v le)

  AreFitting-put :
      (limit : ℕ) (path : Text) (ds : List (Text × Document ot)) (d : Document ot)
      → AreFitting ot limit ds
      → IsValid ot d
      → utf8_len d.content ≤ limit
      → AreFitting ot limit (put_document ot path d ds)
  AreFitting-put limit path [] d h v le = tt
  AreFitting-put limit path ((p, e) ∷ ds) d (w, ke, h) v le = elim (Bool-cases (same_text p path)) [
    | inl same ↦ rw same (v, le, h)
    | inr other ↦ rw other (w, ke, AreFitting-put limit path ds d h v le)
  ]

  length-put_document :
      (path : Text) (d : Document ot) (ds : List (Text × Document ot))
      → length (put_document ot path d ds) ≡ length ds
  length-put_document path d [] = refl
  length-put_document path d ((p, e) ∷ ds) = ground (arith, length-put_document path d ds)

  length_one_more : {A : Type 0} (xs : List A) (x : A) → length (xs ++ x ∷ []) ≡ suc (length xs)
  length_one_more [] x = refl
  length_one_more (y ∷ xs) x = ap suc (length_one_more xs x)

  same_ids-IsLimited :
      (s : Session ot) (ms : List Member)
      → map (λ n. n.handler_id) ms ≡ map (λ n. n.handler_id) s.members
      → IsLimited ot s
      → IsLimited ot (record s { members = ms })
  same_ids-IsLimited s ms e v =
      let same : length ms ≡ length s.members =
        sym (length-map (λ (n : Member). n.handler_id) ms)
        ∙ ap length e
        ∙ length-map (λ (n : Member). n.handler_id) s.members in
      record {
        users = v.users;
        file_bytes = v.file_bytes;
        few_members = omega (arith, same, v.few_members);
        few_documents = v.few_documents;
        documents = v.documents;
      }

  put-IsLimited :
      (path : Text) (d : Document ot) (s : Session ot)
      → IsLimited ot s
      → IsValid ot d
      → utf8_len d.content ≤ payload_limit ot s
      → IsLimited ot (put strings files ot path d s)
  put-IsLimited path d s v w le = record {
    users = v.users;
    file_bytes = v.file_bytes;
    few_members = v.few_members;
    few_documents = omega (arith, length-put_document path d s.documents, v.few_documents);
    documents = AreFitting-put (payload_limit ot s) path s.documents d v.documents w le;
  }

  new_document-IsValid : (text : Text) → IsValid ot (new_document ot text)
  unfolding new_document
  new_document-IsValid text = record { earlier = []; chain = tt; limited = omega arith }

  new_document-content : (text : Text) → (new_document ot text).content ≡ text
  unfolding new_document
  new_document-content text = refl

  Opens-IsLimited :
      (path : Text) (s s' : Session ot) (d : Document ot)
      → IsLimited ot s
      → Opens strings.valid_text files ot path s s' d
      → IsLimited ot s'
        × (payload_limit ot s' ≡ payload_limit ot s)
        × IsValid ot d
        × (utf8_len d.content ≤ payload_limit ot s)
  Opens-IsLimited path s s' d v (inl (e, found)) =
      let (w, le) = AreFitting-find (payload_limit ot s) path s.documents d v.documents found in
      (subst (IsLimited ot) (sym e) v, ap (payload_limit ot) e, w, le)
  Opens-IsLimited path s s' d v (inr a) =
      let w : IsValid ot d = subst (IsValid ot) (sym a.document) (new_document-IsValid a.text) in
      let len : utf8_len d.content ≡ utf8_len a.text =
        ap (λ (x : Document ot). utf8_len x.content) a.document
        ∙ ap utf8_len (new_document-content a.text) in
      let le : utf8_len d.content ≤ payload_limit ot s = omega (arith, len, a.small) in
      (
        subst (IsLimited ot) (sym a.session) (record {
          users = v.users;
          file_bytes = v.file_bytes;
          few_members = v.few_members;
          few_documents = omega (arith, length_one_more s.documents (path, d), a.few);
          documents = AreFitting-append (payload_limit ot s) path s.documents d v.documents w le;
        }),
        ap (payload_limit ot) a.session,
        w,
        le,
      )

  capped : (a : ℤ) (k n : ℕ) → ltb_ℤ (if ltb_ℤ a (pos k) then a else pos k) (pos n) ≡ false → n ≤ k
  capped a k n h = elim (Bool-cases (ltb_ℤ a (pos k))) [
    | inl below ↦ ground (arith, below, h)
    | inr above ↦ ground (arith, above, h)
  ]

  IsPatched-fits :
      (s : Session ot) (d d' : Document ot)
      → IsPatched strings files ot s d d'
      → utf8_len d'.content ≤ payload_limit ot s
  IsPatched-fits s d d' w =
      capped
        (pos max_session_bytes -ℤ (pos (document_bytes ot s.documents) -ℤ pos (utf8_len d.content)))
        (payload_limit ot s) (utf8_len d'.content)
        (apply_monaco_changes_fits ot strings.valid_text d d' w.changes
          (patch_limit strings files ot s d) w.result w.applied w.positive)

  replace-content : (d : Document ot) (text : Text) → (replace ot d text).content ≡ text
  unfolding replace
  replace-content d text = refl

  -- What an edit writes is valid, and fits in the session.
  written-IsValid :
      Inverts ot
      → (s s3 : Session ot) (d d' : Document ot) → payload_limit ot s3 ≡ payload_limit ot s
      → IsValid ot d
      → utf8_len d.content ≤ payload_limit ot s3
      → ((d' ≡ d)
          ⊎ ((content : Text) × (d' ≡ replace ot d content)
              × (utf8_len content ≤ payload_limit ot s))
          ⊎ IsPatched strings files ot s3 d d')
      → IsValid ot d' × (utf8_len d'.content ≤ payload_limit ot s3)
  written-IsValid inverts s s3 d d' same v le (inl e) =
      subst (λ x. IsValid ot x × (utf8_len x.content ≤ payload_limit ot s3)) (sym e) (v, le)
  written-IsValid inverts s s3 d d' same v le (inr (inl (text, e, small))) =
      subst (λ x. IsValid ot x × (utf8_len x.content ≤ payload_limit ot s3)) (sym e)
        (
          replace-IsValid ot d text,
          omega (arith, ap utf8_len (replace-content d text), same, small),
        )
  written-IsValid inverts s s3 d d' same v le (inr (inr w)) = (
    (apply_monaco_changes-IsValid ot inverts strings.valid_text d d' w.changes
        (patch_limit strings files ot s3 d) w.result w.applied v).0,
    IsPatched-fits s3 d d' w,
  )

  IsMoved-IsLimited :
      (version : ℤ) (s s2 : Session ot) (m m2 : Member)
      → IsMoved ot version s m s2 m2
      → IsLimited ot s
      → IsLimited ot s2 × (payload_limit ot s2 ≡ payload_limit ot s)
  IsMoved-IsLimited version s s2 m m2 i v = (
    subst (IsLimited ot) (sym i.session) (same_ids-IsLimited s s2.members i.same_ids v),
    ap (payload_limit ot) i.session,
  )

  edit-IsLimited :
      Inverts ot
      → (message : Message) (s : Session ot) (m : Member) → needs_write message ≡ true
      → find_member ot m.handler_id s.members ≡ some m
      → IsLimited ot s
      → IsLimited ot (receive strings files ot message s m).0
  edit-IsLimited inverts message s m edits found v =
      edit-rule strings files ot (IsLimited ot) message s m edits found v
        (λ s2 m2 i. (IsMoved-IsLimited (version_of message) s s2 m m2 i v).0)
        (λ path s2 s3 m2 d i o.
          let (v2, same2) = IsMoved-IsLimited (version_of message) s s2 m m2 i v in
          let (v3, same3, w, le) = Opens-IsLimited path s2 s3 d v2 o in
          (
            v3,
            λ d' wr.
                let (w', le') =
                  written-IsValid inverts s s3 d d' (same3 ∙ same2) w (omega (arith, same3, le))
                    wr in
                put-IsLimited path d' s3 v3 w' le',
          ))

  set_file-IsLimited :
      (opens : Bool) (raw : Text) (s : Session ot) (m : Member)
      → IsLimited ot s
      → IsLimited ot (set_file strings files ot opens raw s m).0
  set_file-IsLimited opens raw s m v =
      let moved : (file : Text)
          → IsLimited ot
              (record s { members = put_member ot (record m { file_path = file }) s.members }) =
        λ file.
          same_ids-IsLimited s (put_member ot (record m { file_path = file }) s.members)
            (ids-put_member ot (record m { file_path = file }) s.members) v in
      set_file-rule strings files ot (IsLimited ot) opens raw s m v moved (λ file path s3 d o.
        (Opens-IsLimited path
          (record s { members = put_member ot (record m { file_path = file }) s.members }) s3 d
          (moved file) o).0)

  pub receive-IsLimited :
      Inverts ot
      → (message : Message) (s : Session ot) (m : Member)
      → find_member ot m.handler_id s.members ≡ some m
      → IsLimited ot s
      → IsLimited ot (receive strings files ot message s m).0
  unfolding receive
  receive-IsLimited inverts (open_file raw) s m found v = set_file-IsLimited true raw s m v
  receive-IsLimited inverts (close_file raw) s m found v = set_file-IsLimited false raw s m v
  receive-IsLimited inverts (move p) s m found v =
      set_presence-rule strings files ot (IsLimited ot) p s m v (λ file.
        same_ids-IsLimited s (put_member ot (record m { file_path = file }) s.members)
          (ids-put_member ot (record m { file_path = file }) s.members) v)
  receive-IsLimited inverts (patch p) s m found v =
      edit-IsLimited inverts (patch p) s m refl found v
  receive-IsLimited inverts (share p) s m found v =
      edit-IsLimited inverts (share p) s m refl found v
  receive-IsLimited inverts (save p) s m found v = edit-IsLimited inverts (save p) s m refl found v
