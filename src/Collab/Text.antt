-- ===== src/Collab/Text.antt =====
-- Texts of router/websocket/betterfiles_collaboration_ot.go: the runes of a string, their UTF-16
-- units and the offsets in these.
pub mod Offsets
use daemon.Common.{
  ℕ, zero, suc, ◌+◌, ◌-◌, ◌*◌, ◌/◌, ◌%◌, ◌^◌, Bool, true, false, ◌&&◌, ◌||◌, Option, none, some,
  List, [], ◌∷◌, ◌++◌, length, ltb, leb, ◌==◌, if◌then◌else◌,
}

-- The code points that a string decodes to.
abbrev pub Text : Type 0
Text = List ℕ

-- `==` on strings.
abbrev pub same_text : Text → Text → Bool
same_text [] [] = true
same_text [] (d ∷ t) = false
same_text (c ∷ s) [] = false
same_text (c ∷ s) (d ∷ t) = c == d && same_text s t

-- `utf16.Encode`: one unit, a surrogate pair, or the replacement character.
unfoldable pub utf16_units : ℕ → List ℕ
utf16_units r =
    if ltb r 0xd800 || (leb 0xe000 r && ltb r 0x10000)
    then r ∷ []
    else if leb 0x10000 r && leb r 0x10ffff
    then (0xd800 + (r - 0x10000) / 1024) ∷ (0xdc00 + (r - 0x10000) % 1024) ∷ []
    else 0xfffd ∷ []

unfoldable pub utf16_encode : Text → List ℕ
utf16_encode [] = []
utf16_encode (r ∷ rs) = utf16_units r ++ utf16_encode rs

-- `betterFilesCollabUTF16Len`
unfoldable pub utf16_len : Text → ℕ
utf16_len s = length (utf16_encode s)

-- The step of the loop of `betterFilesCollabUTF16Prefix`.
abbrev pub width : ℕ → ℕ
width r = if ltb 0xffff r then 2 else 1

unfoldable pub prefix_from : ℕ → Text → List ℕ
prefix_from at [] = at ∷ []
prefix_from at (r ∷ rs) = at ∷ prefix_from (at + width r) rs

-- `betterFilesCollabUTF16Prefix`
unfoldable pub utf16_prefix : Text → List ℕ
unfolding prefix_from
utf16_prefix rs = prefix_from 0 rs

-- `sort.SearchInts`: the first index whose value is not below `x`.
unfoldable pub search_ints : List ℕ → ℕ → ℕ
search_ints [] x = 0
search_ints (a ∷ l) x = if ltb a x then suc (search_ints l x) else 0

abbrev pub holds_at : List ℕ → ℕ → ℕ → Bool
holds_at [] i x = false
holds_at (a ∷ l) zero x = a == x
holds_at (a ∷ l) (suc i) x = holds_at l i x

-- `betterFilesCollabRuneOffset`: `none` is the source's `false`.
unfoldable pub rune_offset : List ℕ → ℕ → Option ℕ
rune_offset prefix offset =
    let index = search_ints prefix offset in
    if holds_at prefix index offset then some index else none

-- The loop of `betterFilesCollabContentHash`, on uint32.
unfoldable pub hash_units : ℕ → List ℕ → ℕ
hash_units hash [] = hash
hash_units hash (u ∷ us) = hash_units ((hash * 31 + u) % 2 ^ 32) us

-- `%08x`: the digits of a number below 2 ^ 32, the highest first.
unfoldable pub hex_digits : ℕ → ℕ → Text
hex_digits zero n = []
hex_digits (suc k) n =
    hex_digits k (n / 16) ++ (if ltb (n % 16) 10 then b'0' + n % 16 else b'a' + (n % 16 - 10)) ∷ []

unfoldable pub content_hash : Text → Text
content_hash s = hex_digits 8 (hash_units 0 (utf16_encode s))

-- `len` of the string: the bytes of its UTF-8.
unfoldable pub utf8_len : Text → ℕ
utf8_len [] = 0
utf8_len (r ∷ rs) =
    (if ltb r 0x80 then 1 else if ltb r 0x800 then 2 else if ltb r 0x10000 then 3 else 4)
    + utf8_len rs
