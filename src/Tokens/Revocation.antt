-- ===== src/Tokens/Revocation.antt =====
-- Revocation over later calls.
use daemon.Common.{
  ℕ, ◌≤◌, ◌≡◌, refl, ◌∙◌, inl, inr, true, false, some, List, [], ◌∷◌, arith, All, String, str_eq,
  str_eq_iff, Bool-cases, if◌then◌else◌,
}
use daemon.Tokens.{
  load, store, Denylist, user_key, deny_jti, deny_for_server, Payload, is_denylisted,
}

load-store :
    (key j : String) (t : ℕ) (l : List (String × ℕ))
    → load key (store j t l) ≡ (if str_eq key j then some t else load key l)
unfolding store
load-store key j t [] = refl
load-store key j t ((k, u) ∷ rest) = elim (Bool-cases (str_eq j k)) [
  | inl same ↦ ground (arith, same, (str_eq_iff j k).0 same)
  | inr apart ↦
      ground
        (arith, apart, load-store key j t rest, str_eq_iff key j, str_eq_iff key k, str_eq_iff j k)
]

-- A call of `DenyJTI` or `DenyForServer` at a time.
pub data Call : Type 0 where
  jti : String → ℕ → Call
  user : String → String → ℕ → Call

abbrev pub call : Denylist → Call → Denylist
call d (jti j now) = deny_jti d j now
call d (user s u now) = deny_for_server d s u now

abbrev pub calls : Denylist → List Call → Denylist
calls d [] = d
calls d (c ∷ cs) = calls (call d c) cs

-- The call is not before a time.
abbrev pub From : ℕ → Call → Type 0
From now (jti j t) = now ≤ t
From now (user s u t) = now ≤ t

-- The map has, for the key, a time that is not before `now`.
abbrev pub Holds : ℕ → String → Denylist → Type 0
Holds now key d = (t : ℕ) × (load key d.users ≡ some t) × (now ≤ t)

call-Holds :
    (now : ℕ) (key : String) (d : Denylist) (c : Call)
    → From now c
    → Holds now key d
    → Holds now key (call d c)
unfolding deny_jti deny_for_server
call-Holds now key d (jti j t) f h = h
call-Holds now key d (user s u t) f (x, e, le) = elim (Bool-cases (str_eq key (user_key s u))) [
  | inl same ↦ (t, load-store key (user_key s u) t d.users ∙ rw same refl, f)
  | inr apart ↦ (x, load-store key (user_key s u) t d.users ∙ rw apart e, le)
]

calls-Holds :
    (now : ℕ) (key : String) (d : Denylist) (cs : List Call)
    → All (From now) cs
    → Holds now key d
    → Holds now key (calls d cs)
calls-Holds now key d [] f h = h
calls-Holds now key d (c ∷ cs) (f, fs) h =
    calls-Holds now key (call d c) cs fs (call-Holds now key d c f h)

denied_of_Holds :
    (d : Denylist) (p : Payload) (now issued : ℕ)
    → Holds now (user_key p.server_uuid p.user_uuid) d
    → p.issued_at ≡ some issued
    → issued ≤ now
    → is_denylisted d p ≡ true
unfolding is_denylisted
denied_of_Holds d p now issued (t, e, le) i h = ground arith

deny-Holds :
    (d : Denylist) (s u : String) (now : ℕ) → Holds now (user_key s u) (deny_for_server d s u now)
unfolding deny_for_server
deny-Holds d s u now = (
  now,
  load-store (user_key s u) (user_key s u) now d.users
      ∙ rw ((str_eq_iff (user_key s u) (user_key s u)).1 refl) refl,
  omega arith,
)

-- Once a user is denied for a server, every token of that user and server that was issued up to
-- then is denied, whatever calls with no earlier time come later.
pub deny_for_server-calls :
    (d : Denylist) (cs : List Call) (p : Payload) (now issued : ℕ)
    → All (From now) cs
    → p.issued_at ≡ some issued
    → issued ≤ now
    → is_denylisted (calls (deny_for_server d p.server_uuid p.user_uuid now) cs) p ≡ true
deny_for_server-calls d cs p now issued later i h =
    denied_of_Holds (calls (deny_for_server d p.server_uuid p.user_uuid now) cs) p now issued
      (calls-Holds now (user_key p.server_uuid p.user_uuid)
        (deny_for_server d p.server_uuid p.user_uuid now) cs later
        (deny-Holds d p.server_uuid p.user_uuid now))
      i h

-- Denying one user for a server changes nothing for a token with another key of server and user.
pub is_denylisted-deny_for_server :
    (d : Denylist) (s u : String) (now : ℕ) (p : Payload)
    → str_eq (user_key p.server_uuid p.user_uuid) (user_key s u) ≡ false
    → is_denylisted (deny_for_server d s u now) p ≡ is_denylisted d p
unfolding is_denylisted deny_for_server
is_denylisted-deny_for_server d s u now p apart =
    ground
      (arith, apart, load-store (user_key p.server_uuid p.user_uuid) (user_key s u) now d.users)
