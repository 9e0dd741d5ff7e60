-- ===== src/Tokens/Examples.antt =====
-- Runs of the denylist, and the theorems at concrete inputs.
use mathlib.Core.List.{Memᴰ}
use daemon.Common.{◌≡◌, ◌⊎◌, ◌↔◌, refl, true, false, some, [], ◌∷◌, arith}
use daemon.Tokens.{
  store, Denylist, deny_jti, deny_for_server, Payload, is_denylisted, grants, permission_loop,
  has_permission,
}
use daemon.Tokens.Revocation.{
  jti, user, calls, deny_for_server-calls, is_denylisted-deny_for_server,
}
use daemon.Tokens.Permission.{Begins, has_permission_lem}
use daemon.Policy.Names.{codes}

program : Unit {0}
unfolding store deny_jti deny_for_server is_denylisted grants permission_loop has_permission
program = tt

abbrev booted : Denylist
booted = record { boot = 10; jtis = []; users = [] }

abbrev token : Payload
token = record {
  jti = "j";
  issued_at = some 20;
  user_uuid = "u";
  server_uuid = "s";
  permissions = "control.start" ∷ "*" ∷ [];
}

accepted : is_denylisted booted token ≡ false
unfolding program
accepted = refl

before_boot : is_denylisted booted (record token { issued_at = some 9 }) ≡ true
unfolding program
before_boot = refl

denied_id : has_permission (deny_jti booted "j" 20) token "control.start" ≡ false
unfolding program
denied_id = refl

star : has_permission booted token "file.read" ≡ true
unfolding program
star = refl

no_star_for_admins : has_permission booted token "admin.errors" ≡ false
unfolding program
no_star_for_admins = refl

deny_for_server-calls_example :
    is_denylisted
      (calls (deny_for_server booted "s" "u" 25) (user "s" "u" 30 ∷ jti "k" 31 ∷ []))
      token
    ≡ true
deny_for_server-calls_example =
    deny_for_server-calls booted (user "s" "u" 30 ∷ jti "k" 31 ∷ []) token 25 20
      (omega arith, (omega arith, tt)) refl (omega arith)

is_denylisted-deny_for_server_example :
    is_denylisted (deny_for_server booted "s" "v" 25) token ≡ is_denylisted booted token
is_denylisted-deny_for_server_example = is_denylisted-deny_for_server booted "s" "v" 25 token refl

has_permission_lem_example : (has_permission booted token "admin.errors" ≡ true) ↔ (
    (is_denylisted booted token ≡ false)
    × (Memᴰ "admin.errors" token.permissions
        ⊎ ((¬ Begins (codes "admin.errors") (codes "admin")) × Memᴰ "*" token.permissions)))
has_permission_lem_example = has_permission_lem booted token "admin.errors"
