-- ===== src/Collab/Rooms/Kept.antt =====
-- The registry and its limits.
use mathlib.Core.Path.{subst}
use daemon.Common.{
  ◌≤◌, ◌≡◌, sym, inl, inr, Bool-cases, Option-cases, arith, All, ℕ, Bool, ◌&&◌, not, Option, some,
  List, [], ◌∷◌, length, keep, ltb,
}
use daemon.Collab.Text.{Text, same_text}
use daemon.Collab.Ot.{Ot}
use daemon.Collab.Names.{Strings, collab_code}
use daemon.Collab.Session.{Session, Member, OpenFile, session_expired}
use daemon.Collab.Rooms.{
  SessionInfo, put_session, delete_session, get_or_create, new_session, find_session,
}
use daemon.Collab.Session.Messages.Limits.{IsLimited}

module _ (ot : Ot) where
  abbrev pub AreLimited : List (Session ot) → Type 0
  AreLimited = All (IsLimited ot)

module _ (strings : Strings) (files : Text → Option OpenFile) (ot : Ot) where
  pub AreLimited-keep :
      (q : Session ot → Bool) (rooms : List (Session ot))
      → AreLimited ot rooms
      → AreLimited ot (keep q rooms)
  AreLimited-keep q [] h = tt
  AreLimited-keep q (s ∷ rooms) (v, h) = elim (Bool-cases (q s)) [
    | inl kept ↦ rw kept (v, AreLimited-keep q rooms h)
    | inr gone ↦ rw gone (AreLimited-keep q rooms h)
  ]

  pub AreLimited-put :
      (s : Session ot) (rooms : List (Session ot))
      → IsLimited ot s
      → AreLimited ot rooms
      → AreLimited ot (put_session strings ot s rooms)
  AreLimited-put s [] v h = tt
  AreLimited-put s (x ∷ rooms) v (w, h) = elim (Bool-cases (same_text x.code s.code)) [
    | inl own ↦ rw own (v, AreLimited-put s rooms v h)
    | inr other ↦ rw other (w, AreLimited-put s rooms v h)
  ]

  pub AreLimited-find :
      (code : Text) (rooms : List (Session ot)) (s : Session ot)
      → AreLimited ot rooms
      → find_session strings ot code rooms ≡ some s
      → IsLimited ot s
  AreLimited-find code [] s h f = absurd cc
  AreLimited-find code (x ∷ rooms) s (v, h) f = elim (Bool-cases (same_text x.code code)) [
    | inl own ↦ let same : x ≡ s = ground (arith, own, f) in subst (IsLimited ot) same v
    | inr other ↦ AreLimited-find code rooms s h (ground (arith, other, f))
  ]

  new_session-IsLimited :
      (code : Text) (info : SessionInfo) → IsLimited ot (new_session strings ot code info)
  unfolding new_session
  new_session-IsLimited code info = record {
    users = (ground arith, ground arith);
    file_bytes = (ground arith, ground arith);
    few_members = omega arith;
    few_documents = omega arith;
    documents = tt;
  }

  pub with_members :
      (s : Session ot) (ms : List Member)
      → IsLimited ot s
      → length ms ≤ s.max_users
      → IsLimited ot (record s { members = ms })
  with_members s ms v le = record {
    users = v.users;
    file_bytes = v.file_bytes;
    few_members = le;
    few_documents = v.few_documents;
    documents = v.documents;
  }

  with_expiry :
      (s : Session ot) (at : ℕ) → IsLimited ot s → IsLimited ot (record s { expires_at = at })
  with_expiry s at v = record {
    users = v.users;
    file_bytes = v.file_bytes;
    few_members = v.few_members;
    few_documents = v.few_documents;
    documents = v.documents;
  }

  pub get_or_create-AreLimited :
      (now : ℕ) (info : SessionInfo) (rooms : List (Session ot))
      → AreLimited ot rooms
      → AreLimited ot (get_or_create strings ot now info rooms).0
        × IsLimited ot (get_or_create strings ot now info rooms).1
  unfolding get_or_create
  get_or_create-AreLimited now info rooms h =
      let code = collab_code strings info.code in
      let fresh = new_session strings ot code info in
      let v = new_session-IsLimited code info in
      elim (Option-cases (find_session strings ot code rooms)) [
        | inl unknown ↦ arrives (fresh ∷ rooms, fresh) (ground (arith, unknown)) ((v, h), v)
        | inr (s, found) ↦
            let w = AreLimited-find code rooms s h found in
            elim (Bool-cases (session_expired ot now s)) [
              | inl old ↦
                  arrives (fresh ∷ delete_session strings ot code rooms, fresh)
                    (ground (arith, found, old))
                    ((v, AreLimited-keep (λ x. not (same_text x.code code)) rooms h), v)
              | inr live ↦
                  elim (Bool-cases (ltb 0 info.expires_at && ltb s.expires_at info.expires_at)) [
                    | inl longer ↦
                        let t : Session ot = record s { expires_at = info.expires_at } in
                        let w' = with_expiry s info.expires_at w in
                        arrives (put_session strings ot t rooms, t)
                          (ground (arith, found, live, longer)) (AreLimited-put t rooms w' h, w')
                    | inr same ↦
                        arrives (put_session strings ot s rooms, s)
                          (ground (arith, found, live, same)) (AreLimited-put s rooms w h, w)
                  ]
            ]
      ]
    where
      arrives :
          (res : List (Session ot) × Session ot)
          → get_or_create strings ot now info rooms ≡ res
          → AreLimited ot res.0 × IsLimited ot res.1
          → AreLimited ot (get_or_create strings ot now info rooms).0
            × IsLimited ot (get_or_create strings ot now info rooms).1
      arrives res e k =
          subst (λ (x : List (Session ot) × Session ot). AreLimited ot x.0 × IsLimited ot x.1)
            (sym e) k
