-- ===== src/Text/Decimal.antt =====
-- strconv.FormatInt in base 10, and its inverse on what it writes.
pub mod Small
use zorin_host_agent.Prelude.{
  ℕ, zero, suc, ◌+◌, ◌-◌, ◌*◌, ◌/◌, ◌%◌, ◌≤◌, ◌<◌, ◌≡◌, refl, sym, ap, subst, ◌∙◌, ◌≢◌, ◌⊎◌, inl,
  false, [], ◌∷◌, arith, ltb, if◌then◌else◌, length, All, ℤ, pos, negsuc,
}
use zorin_host_agent.Text.{Text, contains_byte}

-- The digits of `n`, least first. The fuel `n` is enough, since each round divides by ten.
digits_from : ℕ → ℕ → Text
digits_from zero n = []
digits_from (suc f) n =
    let rest = digits_from f (n / 10) in if ltb n 10 then (n + 48) ∷ [] else (n % 10 + 48) ∷ rest

reverse_onto : Text → Text → Text
reverse_onto [] out = out
reverse_onto (a ∷ s) out = reverse_onto s (a ∷ out)

unfoldable pub format_nat : ℕ → Text
unfolding digits_from reverse_onto
format_nat n = reverse_onto (digits_from (suc n) n) []

-- strconv.FormatInt(n, 10), strconv.Itoa(n)
unfoldable pub format_int : ℤ → Text
unfolding format_nat
format_int (pos n) = format_nat n
format_int (negsuc n) = b'-' ∷ format_nat (suc n)

value_of : Text → ℕ
value_of [] = 0
value_of (d ∷ s) = (d - 48) + 10 * value_of s

value-digits : (f n : ℕ) → n < f → value_of (digits_from f n) ≡ n
unfolding value_of digits_from
value-digits zero n h = absurd (omega arith)
value-digits (suc f) n h = ground (arith, value-digits f (n / 10))

digits-injective : (n m : ℕ) → digits_from (suc n) n ≡ digits_from (suc m) m → n ≡ m
digits-injective n m e =
    sym (value-digits (suc n) n (omega arith))
    ∙ ap value_of e
    ∙ value-digits (suc m) m (omega arith)

reverse_onto-injective-length :
    (s t u v : Text) → length s ≡ length t → reverse_onto s u ≡ reverse_onto t v → (s ≡ t) × (u ≡ v)
unfolding reverse_onto
reverse_onto-injective-length [] [] u v h e = (refl, e)
reverse_onto-injective-length [] (b ∷ t) u v h e = absurd (omega arith)
reverse_onto-injective-length (a ∷ s) [] u v h e = absurd (omega arith)
reverse_onto-injective-length (a ∷ s) (b ∷ t) u v h e =
    let (l, r) = reverse_onto-injective-length s t (a ∷ u) (b ∷ v) (omega arith) e in
    (ground arith, ground arith)

length-reverse_onto : (s u : Text) → length (reverse_onto s u) ≡ length s + length u
unfolding reverse_onto
length-reverse_onto [] u = omega arith
length-reverse_onto (a ∷ s) u = omega (arith, length-reverse_onto s (a ∷ u))

-- Two numbers that are written alike are equal.
pub format_nat-injective : (n m : ℕ) → format_nat n ≡ format_nat m → n ≡ m
unfolding format_nat
format_nat-injective n m e =
    digits-injective n m
      (reverse_onto-injective-length (digits_from (suc n) n) (digits_from (suc m) m) [] []
        (omega (
          arith,
          ap (length {A = ℕ}) e,
          length-reverse_onto (digits_from (suc n) n) [],
          length-reverse_onto (digits_from (suc m) m) [],
        ))
        e).0

-- Every digit is one of 0 to 9.
abbrev pub IsDigit : ℕ → Type 0
IsDigit c = (48 ≤ c) × (c ≤ 57)

digits-IsDigit : (f n : ℕ) → All IsDigit (digits_from f n)
unfolding digits_from
digits-IsDigit zero n = tt
digits-IsDigit (suc f) n = ground (arith, digits-IsDigit f (n / 10))

reverse_onto-IsDigit : (s u : Text) → All IsDigit s → All IsDigit u → All IsDigit (reverse_onto s u)
unfolding reverse_onto
reverse_onto-IsDigit [] u hs hu = hu
reverse_onto-IsDigit (a ∷ s) u hs hu = reverse_onto-IsDigit s (a ∷ u) hs.1 (hs.0, hu)

pub format_nat-IsDigit : (n : ℕ) → All IsDigit (format_nat n)
unfolding format_nat
format_nat-IsDigit n = reverse_onto-IsDigit _ [] (digits-IsDigit (suc n) n) tt

pub contains_byte-digits :
    (c : ℕ) (s : Text) → All IsDigit s → (57 < c) ⊎ (c < 48) → contains_byte c s ≡ false
unfolding contains_byte
contains_byte-digits c [] h lt = refl
contains_byte-digits c (a ∷ s) h lt = ground (arith, contains_byte-digits c s)

-- A written integer holds no byte above the digit 9.
pub format_int-plain : (c : ℕ) (n : ℤ) → 57 < c → contains_byte c (format_int n) ≡ false
unfolding format_int contains_byte
format_int-plain c (pos n) h = contains_byte-digits c _ (format_nat-IsDigit n) (inl h)
format_int-plain c (negsuc n) h =
    ground (arith, contains_byte-digits c (format_nat (suc n)) (format_nat-IsDigit (suc n)) (inl h))

minus_is_no_digit : (n : ℕ) (s : Text) → format_nat n ≢ b'-' ∷ s
minus_is_no_digit n s e =
    let h = subst (All IsDigit) e (format_nat-IsDigit n) in absurd (omega arith)

-- Two integers that are written alike are equal.
pub format_int-injective : (n m : ℤ) → format_int n ≡ format_int m → n ≡ m
unfolding format_int
format_int-injective (pos n) (pos m) e = ap pos (format_nat-injective n m e)
format_int-injective (pos n) (negsuc m) e = absurd (minus_is_no_digit n _ e)
format_int-injective (negsuc n) (pos m) e = absurd (minus_is_no_digit m _ (sym e))
format_int-injective (negsuc n) (negsuc m) e =
    let h : format_nat (suc n) ≡ format_nat (suc m) = cc in
    let k = format_nat-injective (suc n) (suc m) h in ap negsuc (omega arith)
