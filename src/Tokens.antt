-- ===== src/Tokens.antt =====
-- router/tokens/websocket.go: which websocket tokens are revoked, and what they permit. The global
-- maps and the time of the boot are one record; times are numbers.
pub mod Revocation
pub mod Permission
mod Examples
use Prim.Native.String.{◌++◌ as str_append}
use daemon.Common.{
  ℕ, Bool, true, false, ◌&&◌, ◌||◌, not, Option, none, some, List, [], ◌∷◌, String, str_eq, ltb,
  leb, if◌then◌else◌, ◌==◌,
}
use daemon.Policy.Names.{codes}

-- A `sync.Map` from texts to times.
abbrev pub load : String → List (String × ℕ) → Option ℕ
load key [] = none
load key ((k, t) ∷ rest) = if str_eq key k then some t else load key rest

unfoldable pub store : String → ℕ → List (String × ℕ) → List (String × ℕ)
store key t [] = (key, t) ∷ []
store key t ((k, u) ∷ rest) = if str_eq key k then (key, t) ∷ rest else (k, u) ∷ store key t rest

pub record Denylist : Type 0 where
  pub boot : ℕ
  pub jtis : List (String × ℕ)
  pub users : List (String × ℕ)

-- `strings.Join([]string{s, u}, ":")`
abbrev pub user_key : String → String → String
user_key s u = str_append s (str_append ":" u)

unfoldable pub deny_jti : Denylist → String → ℕ → Denylist
deny_jti d jti now = record d { jtis = store jti now d.jtis }

unfoldable pub deny_for_server : Denylist → String → String → ℕ → Denylist
deny_for_server d s u now = record d { users = store (user_key s u) now d.users }

-- The fields of `WebsocketPayload` that count.
pub record Payload : Type 0 where
  pub jti : String
  pub issued_at : Option ℕ
  pub user_uuid : String
  pub server_uuid : String
  pub permissions : List String

-- `!issuedAt.After(t)` for the time that a map has, if any.
abbrev pub denied_by : ℕ → Option ℕ → Bool
denied_by issued none = false
denied_by issued (some t) = leb issued t

unfoldable pub is_denylisted : Denylist → Payload → Bool
is_denylisted d p = elim p.issued_at [
  | none ↦ true
  | some issued ↦
      if str_eq p.server_uuid "" || str_eq p.user_uuid ""
      then true
      else if ltb issued d.boot
      then true
      else if denied_by issued (load p.jti d.jtis)
      then true
      else denied_by issued (load (user_key p.server_uuid p.user_uuid) d.users)
]

-- `strings.HasPrefix`
abbrev pub has_prefix : List ℕ → List ℕ → Bool
has_prefix s [] = true
has_prefix [] (c ∷ prefix) = false
has_prefix (d ∷ s) (c ∷ prefix) = d == c && has_prefix s prefix

-- The test of the loop of `HasPermission`.
unfoldable pub grants : String → String → Bool
grants permission k =
    str_eq k permission || (not (has_prefix (codes permission) (codes "admin")) && str_eq k "*")

unfoldable pub permission_loop : Denylist → Payload → String → List String → Bool
permission_loop d p permission [] = false
permission_loop d p permission (k ∷ ks) =
    if grants permission k then not (is_denylisted d p) else permission_loop d p permission ks

unfoldable pub has_permission : Denylist → Payload → String → Bool
unfolding permission_loop
has_permission d p permission = permission_loop d p permission p.permissions
