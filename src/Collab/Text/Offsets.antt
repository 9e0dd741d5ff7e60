-- ===== src/Collab/Text/Offsets.antt =====
-- UTF-16 offsets against rune offsets.
use daemon.Common.{
  ℕ, zero, suc, ◌+◌, ◌≤◌, ◌<◌, ◌≡◌, refl, ◌↔◌, true, some, [], ◌∷◌, take, length, length-append,
  arith, All,
}
use daemon.Collab.Text.{
  Text, utf16_units, utf16_encode, utf16_len, width, prefix_from, utf16_prefix, search_ints,
  holds_at, rune_offset,
}

-- A rune that UTF-8 decoding yields: a code point that is no surrogate.
abbrev pub IsRune : ℕ → Type 0
IsRune r = (r < 0x110000) × ((0xd800 ≤ r) → 0xe000 ≤ r)

-- The width of a text by the steps of the prefix loop.
abbrev pub widths : Text → ℕ
widths [] = 0
widths (r ∷ rs) = width r + widths rs

length-utf16_units : (r : ℕ) → IsRune r → length (utf16_units r) ≡ width r
unfolding utf16_units
length-utf16_units r h = ground arith

-- The end of the prefix table is the UTF-16 length that documents are compared by.
pub utf16_len-widths : (s : Text) → All IsRune s → utf16_len s ≡ widths s
unfolding utf16_len utf16_encode
utf16_len-widths [] h = refl
utf16_len-widths (r ∷ rs) (h, hs) = omega (
  arith,
  length-append (utf16_units r) (utf16_encode rs),
  length-utf16_units r h,
  utf16_len-widths rs hs,
)

-- The search in the table, begun at `at`, finds the rune that begins at an offset.
search-prefix_from :
    (at k : ℕ) (s : Text)
    → k ≤ length s
    → search_ints (prefix_from at s) (at + widths (take k s)) ≡ k
unfolding search_ints prefix_from
search-prefix_from at zero [] h = ground arith
search-prefix_from at zero (r ∷ rs) h = ground arith
search-prefix_from at (suc k) [] h = absurd (omega arith)
search-prefix_from at (suc k) (r ∷ rs) h = ground (arith, search-prefix_from (at + width r) k rs)

holds-prefix_from :
    (at k : ℕ) (s : Text)
    → k ≤ length s
    → holds_at (prefix_from at s) k (at + widths (take k s)) ≡ true
unfolding prefix_from
holds-prefix_from at zero [] h = ground arith
holds-prefix_from at zero (r ∷ rs) h = ground arith
holds-prefix_from at (suc k) [] h = absurd (omega arith)
holds-prefix_from at (suc k) (r ∷ rs) h = ground (arith, holds-prefix_from (at + width r) k rs)

-- What the table holds at an index.
prefix_from_holds :
    (at k x : ℕ) (s : Text)
    → holds_at (prefix_from at s) k x ≡ true
    → (k ≤ length s) × (x ≡ at + widths (take k s))
unfolding prefix_from
prefix_from_holds at zero x [] h = ground arith
prefix_from_holds at zero x (r ∷ rs) h = ground arith
prefix_from_holds at (suc k) x [] h = cc
prefix_from_holds at (suc k) x (r ∷ rs) h =
    let (le, e) = prefix_from_holds (at + width r) k x rs h in (omega (arith, le), omega (arith, e))

-- An offset in UTF-16 units is accepted exactly where a rune begins or the text ends, and is then
-- the number of the runes before it: an offset inside a surrogate pair or past the end is refused.
pub rune_offset_iff :
    (s : Text) (offset k : ℕ)
    → (rune_offset (utf16_prefix s) offset ≡ some k)
      ↔ ((k ≤ length s) × (offset ≡ widths (take k s)))
unfolding rune_offset utf16_prefix
rune_offset_iff s offset k = (found, here)
  where
    found :
        rune_offset (utf16_prefix s) offset ≡ some k → (k ≤ length s) × (offset ≡ widths (take k s))
    found h = ground (arith, prefix_from_holds 0 k offset s)

    here :
        (k ≤ length s) × (offset ≡ widths (take k s)) → rune_offset (utf16_prefix s) offset ≡ some k
    here (le, e) = ground (arith, search-prefix_from 0 k s le, holds-prefix_from 0 k s le)
