-- ===== src/Text/Hex.antt =====
-- The package encoding/hex: lower-case digits out, either case in.
use zorin_host_agent.Prelude.{
  ℕ, ◌+◌, ◌-◌, ◌*◌, ◌/◌, ◌%◌, ◌≤◌, ◌<◌, ◌≡◌, refl, ap, true, false, ◌&&◌, Option, none, some, [],
  ◌∷◌, map, arith, ltb, leb, ◌==◌, if◌then◌else◌, All,
}
use zorin_host_agent.Text.{Text, contains_byte, equal_fold, to_lower, to_upper}

hex_digit : ℕ → ℕ
hex_digit d = if ltb d 10 then d + 48 else d + 87

unfoldable pub hex_value : ℕ → Option ℕ
hex_value c =
    if leb 48 c && leb c 57
    then some (c - 48)
    else if leb 97 c && leb c 102
    then some (c - 87)
    else if leb 65 c && leb c 70
    then some (c - 55)
    else none

-- hex.EncodeToString
unfoldable pub hex_encode : Text → Text
unfolding hex_digit
hex_encode [] = []
hex_encode (b ∷ s) = hex_digit (b / 16) ∷ hex_digit (b % 16) ∷ hex_encode s

unfoldable pub hex_pair : ℕ → ℕ → Option ℕ
hex_pair a b = elim (hex_value a) [
  | none ↦ none
  | some x ↦ elim (hex_value b) [ none ↦ none | some y ↦ some (x * 16 + y) ]
]

-- hex.DecodeString; `none` is its error, for an odd length or a byte that is no digit
unfoldable pub hex_decode : Text → Option Text
unfolding hex_pair hex_value
hex_decode [] = some []
hex_decode (a ∷ []) = none
hex_decode (a ∷ b ∷ s) =
    let rest = hex_decode s in
    elim (hex_pair a b) [ none ↦ none | some x ↦ elim rest [ none ↦ none | some t ↦ some (x ∷ t) ] ]

abbrev pub IsByte : ℕ → Type 0
IsByte b = b < 256

hex_value-digit : (d : ℕ) → d < 16 → hex_value (hex_digit d) ≡ some d
unfolding hex_value hex_digit
hex_value-digit d h = ground arith

hex_pair-byte : (b : ℕ) → b < 256 → hex_pair (hex_digit (b / 16)) (hex_digit (b % 16)) ≡ some b
unfolding hex_pair
hex_pair-byte b h =
    ground (arith, hex_value-digit (b / 16) (omega arith), hex_value-digit (b % 16) (omega arith))

hex_decode_step :
    (a b x : ℕ) (s t : Text)
    → hex_pair a b ≡ some x
    → hex_decode s ≡ some t
    → hex_decode (a ∷ b ∷ s) ≡ some (x ∷ t)
unfolding hex_decode
hex_decode_step a b x s t p q = ground arith

-- Decoding what was encoded gives the bytes back.
pub hex_decode-encode : (s : Text) → All IsByte s → hex_decode (hex_encode s) ≡ some s
unfolding hex_encode
hex_decode-encode [] h = unfold hex_decode in refl
hex_decode-encode (b ∷ s) h =
    hex_decode_step _ _ b _ s (hex_pair-byte b h.0) (hex_decode-encode s h.1)

hex_digit-le : (d : ℕ) → d < 16 → hex_digit d ≤ 102
unfolding hex_digit
hex_digit-le d h = ground arith

-- An encoded text holds no bytes but digits and the letters a to f.
pub hex_encode-plain :
    (c : ℕ) (s : Text) → All IsByte s → 102 < c → contains_byte c (hex_encode s) ≡ false
unfolding hex_encode contains_byte
hex_encode-plain c [] h lt = refl
hex_encode-plain c (b ∷ s) h lt = ground (
  arith,
  hex_digit-le (b / 16) (omega arith),
  hex_digit-le (b % 16) (omega arith),
  hex_encode-plain c s,
)

-- Two texts with one encoding are equal.
pub hex_encode-injective :
    (s t : Text) → All IsByte s → All IsByte t → hex_encode s ≡ hex_encode t → s ≡ t
hex_encode-injective s t hs ht e =
    ground (arith, hex_decode-encode s, hex_decode-encode t, ap hex_decode e)

hex_value_fold : (a b : ℕ) → (to_lower a == to_lower b) ≡ true → hex_value a ≡ hex_value b
unfolding hex_value to_lower
hex_value_fold a b h = ground arith

hex_pair_fold :
    (a b c d : ℕ)
    → hex_value a ≡ hex_value c
    → hex_value b ≡ hex_value d
    → hex_pair a b ≡ hex_pair c d
unfolding hex_pair
hex_pair_fold a b c d h k = ground arith

hex_decode_step_eq :
    (a b c d : ℕ) (s t : Text)
    → hex_pair a b ≡ hex_pair c d
    → hex_decode s ≡ hex_decode t
    → hex_decode (a ∷ b ∷ s) ≡ hex_decode (c ∷ d ∷ t)
unfolding hex_decode
hex_decode_step_eq a b c d s t h k = ground arith

fold_head :
    (a b : ℕ) (s t : Text) → equal_fold (a ∷ s) (b ∷ t) ≡ true → (to_lower a == to_lower b) ≡ true
unfolding equal_fold
fold_head a b s t h = ground arith

fold_tail : (a b : ℕ) (s t : Text) → equal_fold (a ∷ s) (b ∷ t) ≡ true → equal_fold s t ≡ true
unfolding equal_fold
fold_tail a b s t h = ground arith

-- Texts that differ in the case of letters alone decode alike.
pub hex_decode_fold : (s t : Text) → equal_fold s t ≡ true → hex_decode s ≡ hex_decode t
hex_decode_fold [] [] h = refl
hex_decode_fold [] (c ∷ t) h = unfold equal_fold in cc
hex_decode_fold (a ∷ s) [] h = unfold equal_fold in cc
hex_decode_fold (a ∷ []) (c ∷ []) h = unfold hex_decode in refl
hex_decode_fold (a ∷ []) (c ∷ d ∷ t) h = unfold equal_fold in ground arith
hex_decode_fold (a ∷ b ∷ s) (c ∷ []) h = unfold equal_fold in ground arith
hex_decode_fold (a ∷ b ∷ s) (c ∷ d ∷ t) h =
    hex_decode_step_eq a b c d s t
      (hex_pair_fold a b c d (hex_value_fold a c (fold_head a c _ _ h))
        (hex_value_fold b d (fold_head b d s t (fold_tail a c _ _ h))))
      (hex_decode_fold s t (fold_tail b d s t (fold_tail a c _ _ h)))

hex_digit-upper : (d : ℕ) → d < 16 → to_upper (hex_digit d) ≤ 70
unfolding to_upper hex_digit
hex_digit-upper d h = ground arith

-- In upper case an encoded text holds no byte above the letter F.
pub hex_encode-upper : (s : Text) → All IsByte s → All (λ c. c ≤ 70) (map to_upper (hex_encode s))
unfolding hex_encode
hex_encode-upper [] h = tt
hex_encode-upper (b ∷ s) h = (
  hex_digit-upper (b / 16) (omega arith),
  (hex_digit-upper (b % 16) (omega arith), hex_encode-upper s h.1),
)
