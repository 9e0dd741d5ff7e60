-- ===== src/Policy/Names.antt =====
-- The patterns and enumerations of internal/networkpolicy/policy.go. A text is the list of its code
-- points; the patterns accept ASCII only.
use Prim.Native.Char.{code}
use daemon.Common.{ℕ, Bool, ◌&&◌, ◌||◌, not, List, [], ◌∷◌, all, length, String, str_eq, leb, ◌==◌}

abbrev pub codes : String → List ℕ
codes String.[] = []
codes (String.◌∷◌ c s) = code c ∷ codes s

unfoldable pub is_id_char : ℕ → Bool
is_id_char c =
    (leb b'a' c && leb c b'z')
    || (leb b'A' c && leb c b'Z')
    || (leb b'0' c && leb c b'9')
    || c == b'_'
    || c == b'-'

-- `^[a-zA-Z0-9_-]{1,64}$`
unfoldable pub id_pattern : String → Bool
unfolding is_id_char
id_pattern s = leb 1 (length (codes s)) && leb (length (codes s)) 64 && all is_id_char (codes s)

unfoldable pub is_hash_char : ℕ → Bool
is_hash_char c = (leb b'0' c && leb c b'9') || (leb b'a' c && leb c b'f')

-- `^[0-9a-f]{64}$`
unfoldable pub hash_pattern : String → Bool
unfolding is_hash_char
hash_pattern s = length (codes s) == 64 && all is_hash_char (codes s)

unfoldable pub valid_protocol : String → Bool
valid_protocol v = str_eq v "tcp" || str_eq v "udp" || str_eq v "both"

unfoldable pub valid_action : String → Bool
valid_action v = str_eq v "allow" || str_eq v "drop"

unfoldable pub valid_name : String → Bool
valid_name v = not (str_eq v "") && leb (length (codes v)) 80
