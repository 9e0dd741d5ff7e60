-- ===== src/Collab/Names/Code.antt =====
-- The form of the code of a session.
use daemon.Common.{
  ℕ, suc, ◌≡◌, refl, sym, ap, ◌∙◌, inl, inr, ◌⊎◌, true, false, ◌||◌, not, [], ◌∷◌, keep, ltb, ◌==◌,
  Bool-cases, arith,
}
use daemon.Collab.Text.{Text, utf8_len}
use daemon.Collab.Names.{Strings, code_chars, has_dash, with_dash, checked_code, collab_code}

-- Trimming and upper case leave a code, or the empty text, as it is.
abbrev pub LeavesCodes : Strings → Type 0
LeavesCodes strings =
    (code : Text)
    → checked_code code ≡ code
    → (strings.trim_space code ≡ code) × (strings.to_upper code ≡ code)

abbrev no_space : Text → Text
no_space = keep (λ c. not (c == b' '))

keep_chars : (i : ℕ) (s : Text) → ltb 4 i ≡ true → code_chars i s ≡ true → no_space s ≡ s
keep_chars i [] h e = refl
keep_chars i (r ∷ rs) h e = ground (arith, h, e, keep_chars (suc i) rs)

keep_code : (code : Text) → has_dash code ≡ true → code_chars 0 code ≡ true → no_space code ≡ code
keep_code [] h e = refl
keep_code (a ∷ []) h e = absurd cc
keep_code (a ∷ b ∷ []) h e = absurd cc
keep_code (a ∷ b ∷ c ∷ []) h e = absurd cc
keep_code (a ∷ b ∷ c ∷ d ∷ []) h e = absurd cc
keep_code (a ∷ b ∷ c ∷ d ∷ x ∷ s) h e = ground (arith, h, e, keep_chars 5 s)

-- A text that is a code goes through the rest unchanged.
checked_again :
    (code : Text)
    → (utf8_len code == 9) ≡ true
    → has_dash code ≡ true
    → code_chars 0 code ≡ true
    → checked_code (with_dash (no_space code)) ≡ code
checked_again code len dash chars =
    let same : no_space code ≡ code = keep_code code dash chars in
    let other : (utf8_len code == 8) ≡ false = ground (arith, len) in
    ap (λ c. checked_code (with_dash c)) same ∙ ground (arith, len, dash, chars, other)

-- The empty text is no code, and goes through unchanged too.
checked_empty : checked_code (with_dash (no_space [])) ≡ []
unfolding utf8_len
checked_empty = refl

pub checked_code-cases :
    (x : Text)
    → (checked_code x ≡ [])
      ⊎ ((checked_code x ≡ x)
          × ((utf8_len x == 9) ≡ true)
          × (has_dash x ≡ true)
          × (code_chars 0 x ≡ true))
checked_code-cases x = elim (Bool-cases (not (utf8_len x == 9) || not (has_dash x))) [
  | inl bad ↦ inl (ground (arith, bad))
  | inr good ↦ elim (Bool-cases (code_chars 0 x)) [
    | inr odd ↦ inl (ground (arith, good, odd))
    | inl chars ↦
        inr (ground (arith, good, chars), ground (arith, good), ground (arith, good), chars)
  ]
]

checked_code-fixed :
    (x : Text) → checked_code (with_dash (no_space (checked_code x))) ≡ checked_code x
checked_code-fixed x = elim (checked_code-cases x) [
  | inl empty ↦ ap (λ c. checked_code (with_dash (no_space c))) empty ∙ checked_empty ∙ sym empty
  | inr (same, len, dash, chars) ↦
      ap (λ c. checked_code (with_dash (no_space c))) same
      ∙ checked_again x len dash chars
      ∙ sym same
]

checked_code-twice : (x : Text) → checked_code (checked_code x) ≡ checked_code x
unfolding utf8_len
checked_code-twice x = elim (checked_code-cases x) [
  | inl empty ↦ ap checked_code empty ∙ sym empty
  | inr (same, len, dash, chars) ↦ ap checked_code same
]

-- Where trimming and upper case leave a code or the empty text as it is, the form of the form of a
-- code is that form.
pub collab_code-collab_code :
    (strings : Strings) (raw : Text)
    → LeavesCodes strings
    → collab_code strings (collab_code strings raw) ≡ collab_code strings raw
unfolding collab_code
collab_code-collab_code strings raw leaves =
    let x = with_dash (no_space (strings.to_upper (strings.trim_space raw))) in
    let (trimmed, upper) = leaves (checked_code x) (checked_code-twice x) in
    ap (λ c. checked_code (with_dash (no_space (strings.to_upper c)))) trimmed
    ∙ ap (λ c. checked_code (with_dash (no_space c))) upper
    ∙ checked_code-fixed x
