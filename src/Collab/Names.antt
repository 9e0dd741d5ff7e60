-- ===== src/Collab/Names.antt =====
-- Codes, paths and names in router/websocket/betterfiles_collaboration.go. The functions of strings,
-- path and unicode/utf8 that they call are parameters.
pub mod Code
use daemon.Common.{
  ℕ, zero, suc, Bool, true, false, ◌&&◌, ◌||◌, not, Option, none, some, List, [], ◌∷◌, ◌++◌, length,
  take, drop, keep, map, any, ltb, leb, ◌==◌, if◌then◌else◌,
}
use daemon.Policy.Names.{codes}
use daemon.Collab.Text.{Text, same_text, utf8_len}

pub record Strings : Type 0 where
  pub trim_space : Text → Text
  pub to_upper : Text → Text
  pub to_lower : Text → Text
  pub clean : Text → Text
  pub valid_text : Text → Bool

abbrev pub begins_with : Text → Text → Bool
begins_with [] s = true
begins_with (c ∷ p) [] = false
begins_with (c ∷ p) (d ∷ s) = c == d && begins_with p s

-- `strings.HasSuffix`
abbrev pub ends_with : Text → Text → Bool
ends_with p [] = same_text p []
ends_with p (c ∷ s) = same_text p (c ∷ s) || ends_with p s

-- `strings.Split` at slashes: the first part, and the others.
abbrev pub split_slash : Text → Text × List Text
split_slash [] = ([], [])
split_slash (c ∷ s) =
    let (part, parts) = split_slash s in if c == b'/' then ([], part ∷ parts) else (c ∷ part, parts)

abbrev pub segments : Text → List Text
segments s = let (part, parts) = split_slash s in part ∷ parts

-- `strings.Trim` of slashes.
abbrev pub trim_left : Text → Text
trim_left [] = []
trim_left (c ∷ s) = if c == b'/' then trim_left s else c ∷ s

abbrev pub trim_right : Text → Text
trim_right [] = []
trim_right (c ∷ s) =
    let rest = trim_right s in if c == b'/' && same_text rest [] then [] else c ∷ rest

abbrev pub code_char : ℕ → Bool
code_char r = (leb b'A' r && leb r b'Z') || (leb b'0' r && leb r b'9')

-- The loop over a code, whose fifth character is the dash.
abbrev pub code_chars : ℕ → Text → Bool
code_chars i [] = true
code_chars i (r ∷ rs) =
    let rest = code_chars (suc i) rs in if i == 4 then rest else if code_char r then rest else false

abbrev pub has_dash : Text → Bool
has_dash (a ∷ b ∷ c ∷ d ∷ e ∷ s) = e == b'-'
has_dash s = false

abbrev pub with_dash : Text → Text
with_dash code = if utf8_len code == 8 then take 4 code ++ b'-' ∷ drop 4 code else code

abbrev pub checked_code : Text → Text
checked_code code =
    if not (utf8_len code == 9) || not (has_dash code)
    then []
    else if code_chars 0 code
    then code
    else []

abbrev pub max_path_bytes : ℕ
max_path_bytes = 4096

abbrev pub is_control : ℕ → Bool
is_control r = ltb r 0x20 || r == 0x7f

abbrev pub rooted : Text → Text
rooted path = if begins_with (b'/' ∷ []) path then path else b'/' ∷ path

module _ (strings : Strings) where
  -- `betterFilesCollabCode`; the empty text is no code.
  unfoldable pub collab_code : Text → Text
  collab_code code =
      checked_code
        (with_dash (keep (λ c. not (c == b' ')) (strings.to_upper (strings.trim_space code))))

  -- The loop of `betterFilesCollabSensitivePath`.
  unfoldable pub sensitive_part : Text → Bool
  sensitive_part part =
      if same_text part []
      then false
      else if same_text part (codes ".env")
          || begins_with (codes ".env.") part
          || same_text part (codes ".npmrc")
          || same_text part (codes "composer.auth.json")
      then true
      else if any (same_text part) (codes "id_rsa" ∷ codes "id_ed25519" ∷ codes "id_ecdsa" ∷ [])
      then true
      else if ends_with (codes ".pem") part
          || ends_with (codes ".key") part
          || ends_with (codes ".p12") part
          || ends_with (codes ".pfx") part
      then true
      else begins_with (codes "secret") part || begins_with (codes "credential") part

  unfoldable pub sensitive_path : Text → Bool
  sensitive_path path =
      any sensitive_part (segments (strings.to_lower (trim_right (trim_left path))))

  -- `betterFilesCollabPath` from `path.Clean` on.
  unfoldable pub cleaned_path : Text → Option Text
  cleaned_path path =
      let cleaned = rooted (strings.clean path) in
      if same_text cleaned (b'.' ∷ [])
        || same_text cleaned (b'/' ∷ [])
        || ltb max_path_bytes (utf8_len cleaned)
        || sensitive_path cleaned
      then none
      else some cleaned

  unfoldable pub collab_path : Text → Option Text
  collab_path raw =
      let path = strings.trim_space (map (λ c. if c == b'\\' then b'/' else c) raw) in
      if same_text path []
        || ltb max_path_bytes (utf8_len path)
        || any (λ c. c == 0) path
        || not (strings.valid_text path)
        || any is_control path
        || any (same_text (b'.' ∷ b'.' ∷ [])) (segments (rooted path))
      then none
      else cleaned_path (rooted path)

  -- `betterFilesCollabSafeText`
  unfoldable pub safe_text : Text → ℕ → Text
  safe_text value max =
      let trimmed = strings.trim_space value in
      if not (strings.valid_text trimmed)
      then []
      else if ltb max (utf8_len trimmed) && ltb max (length trimmed)
      then take max trimmed
      else trimmed

  unfoldable pub safe_image : Text → Text
  safe_image value =
      let safe = safe_text value 240 in
      if same_text safe [] then [] else if begins_with (codes "https://") safe then safe else []
