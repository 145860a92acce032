-- ===== src/Text/Utf8.antt =====
-- unicode/utf8: the characters at the front of a text.
use zorin_host_agent.Prelude.{
  ℕ, ◌+◌, ◌*◌, ◌%◌, ◌≡◌, refl, Bool, ◌&&◌, Option, none, some, [], ◌∷◌, ltb, leb, ◌==◌,
  if◌then◌else◌,
}
use zorin_host_agent.Text.{Text}

-- What utf8.DecodeRuneInString gives for a byte that begins no character: U+FFFD, for one byte.
abbrev pub rune_error : ℕ
rune_error = 65533

is_within : ℕ → ℕ → ℕ → Bool
is_within lo hi c = leb lo c && leb c hi

two_bytes : ℕ → Text → Option (ℕ × Text)
unfolding is_within
two_bytes a (b ∷ s) = if is_within 128 191 b then some (a % 32 * 64 + b % 64, s) else none
two_bytes a _ = none

three_bytes : ℕ → Text → Option (ℕ × Text)
unfolding is_within
three_bytes a (b ∷ c ∷ s) =
    let low = if a == 224 then 160 else 128 in
    let high = if a == 237 then 159 else 191 in
    if is_within low high b && is_within 128 191 c
    then some (a % 16 * 4096 + b % 64 * 64 + c % 64, s)
    else none
three_bytes a _ = none

four_bytes : ℕ → Text → Option (ℕ × Text)
unfolding is_within
four_bytes a (b ∷ c ∷ d ∷ s) =
    let low = if a == 240 then 144 else 128 in
    let high = if a == 244 then 143 else 191 in
    if is_within low high b && is_within 128 191 c && is_within 128 191 d
    then some (a % 8 * 262144 + b % 64 * 4096 + c % 64 * 64 + d % 64, s)
    else none
four_bytes a _ = none

-- The character and what follows it, if the text begins with one in its shortest form.
unfoldable pub decode_rune : Text → Option (ℕ × Text)
unfolding two_bytes three_bytes four_bytes
decode_rune [] = none
decode_rune (a ∷ s) =
    if ltb a 128
    then some (a, s)
    else if ltb a 194
    then none
    else if ltb a 224
    then two_bytes a s
    else if ltb a 240
    then three_bytes a s
    else if ltb a 245
    then four_bytes a s
    else none

-- utf8.DecodeRuneInString of the text `a ∷ s`: the character and what follows it.
unfoldable pub next_rune : ℕ → Text → ℕ × Text
next_rune a s = elim (decode_rune (a ∷ s)) [ none ↦ (rune_error, s) | some r ↦ r ]

euro : next_rune 226 (130 ∷ 172 ∷ 47 ∷ []) ≡ (8364, 47 ∷ [])
unfolding next_rune decode_rune
euro = refl

surrogate : next_rune 237 (160 ∷ 128 ∷ []) ≡ (rune_error, 160 ∷ 128 ∷ [])
unfolding next_rune decode_rune
surrogate = refl
