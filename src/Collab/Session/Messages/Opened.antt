-- ===== src/Collab/Session/Messages/Opened.antt =====
-- What the handlers share: the document of a path, and the member that edits it.
use daemon.Common.{
  ◌+◌, ◌≤◌, ◌<◌, ◌≡◌, sym, ap, ◌∙◌, inl, inr, ◌⊎◌, Bool, ◌||◌, not, Option, none, some, [], ◌∷◌,
  ◌++◌, length, ltb, leb, Bool-cases, Option-cases, arith, ok,
}
use daemon.Collab.Text.{Text, utf8_len}
use daemon.Collab.Ot.{Ot}
use daemon.Collab.Document.{Document, new_document}
use daemon.Collab.Session.{
  Session, OpenFile, find_document, document_for, add_document, document_bytes, payload_limit,
  max_documents, max_session_bytes,
}

module _ (valid_text : Text → Bool) (files : Text → Option OpenFile) (ot : Ot) where
  -- A file that was not open, read within the limits of the session.
  pub record IsAdded (path : Text) (s s' : Session ot) (d : Document ot) : Type 0 where
    pub text : Text
    pub unopened : find_document ot path s.documents ≡ none
    pub few : length s.documents < max_documents
    pub small : utf8_len text ≤ payload_limit ot s
    pub fits : document_bytes ot s.documents + utf8_len text ≤ max_session_bytes
    pub document : d ≡ new_document ot text
    pub session : s' ≡ record s { documents = s.documents ++ (path, d) ∷ [] }

  -- The document was there, or is read from the file.
  abbrev pub Opens : Text → Session ot → Session ot → Document ot → Type 0
  Opens path s s' d =
      ((s' ≡ s) × (find_document ot path s.documents ≡ some d)) ⊎ IsAdded path s s' d

  add_document-IsAdded :
      (path text : Text) (s s' : Session ot) (d : Document ot)
      → find_document ot path s.documents ≡ none
      → add_document ot valid_text path text s ≡ ok (s', d)
      → IsAdded path s s' d
  unfolding add_document
  add_document-IsAdded path text s s' d unopened e =
      elim (Bool-cases (ltb (payload_limit ot s) (utf8_len text) || not (valid_text text))) [
        | inl bad ↦ absurd (ground (arith, bad, e))
        | inr good ↦ elim (Bool-cases (leb max_documents (length s.documents))) [
          | inl many ↦ absurd (ground (arith, good, many, e))
          | inr few ↦
              elim (Bool-cases
                (ltb max_session_bytes (document_bytes ot s.documents + utf8_len text))) [
                  | inl large ↦ absurd (ground (arith, good, few, large, e))
                  | inr fits ↦
                      let new : Document ot = new_document ot text in
                      let same : (record s { documents = s.documents ++ (path, new) ∷ [] }, new)
                          ≡ (s', d) =
                        ground (arith, good, few, fits, e) in
                      let is_new : new ≡ d = ap (λ (x : Session ot × Document ot). x.1) same in
                      record {
                        text = text;
                        unopened = unopened;
                        few = ground (arith, few);
                        small = ground (arith, good);
                        fits = ground (arith, fits);
                        document = sym is_new;
                        session =
                            sym (ap (λ (x : Session ot × Document ot). x.0) same)
                            ∙ ap (λ x. record s { documents = s.documents ++ (path, x) ∷ [] })
                                is_new;
                      }
                ]
        ]
      ]

  pub document_for-Opens :
      (path : Text) (s s' : Session ot) (d : Document ot)
      → document_for ot valid_text files path s ≡ ok (s', d)
      → Opens path s s' d
  unfolding document_for
  document_for-Opens path s s' d e = elim (Option-cases (find_document ot path s.documents)) [
    | inr (d0, found) ↦
        let same : (s, d0) ≡ (s', d) = ground (arith, found, e) in
        inl (
          sym (ap (λ (x : Session ot × Document ot). x.0) same),
          found ∙ ap (λ (x : Session ot × Document ot). some x.1) same,
        )
    | inl unopened ↦ elim (Option-cases (files path)) [
      | inl failed ↦ absurd (ground (arith, unopened, failed, e))
      | inr (f, found) ↦ elim (Bool-cases f.is_dir) [
        | inl dir ↦ absurd (ground (arith, unopened, found, dir, e))
        | inr file ↦ elim (Bool-cases (ltb (payload_limit ot s) f.size)) [
          | inl large ↦ absurd (ground (arith, unopened, found, file, large, e))
          | inr small ↦ elim (Option-cases (f.read (payload_limit ot s + 1))) [
            | inl failed ↦ absurd (ground (arith, unopened, found, file, small, failed, e))
            | inr (text, given) ↦ inr (
                add_document-IsAdded path text s s' d unopened
                  (ground (arith, unopened, found, file, small, given, e)))
          ]
        ]
      ]
    ]
  ]
