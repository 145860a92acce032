-- ===== src/Text/Laws.antt =====
-- Laws of the functions on strings.
use zorin_host_agent.Prelude.{
  ℕ, ◌≡◌, refl, ap, ◌∙◌, ◌↔◌, true, false, ◌||◌, some, [], ◌∷◌, ◌++◌, arith, ==_refl, All,
}
use zorin_host_agent.Text.{
  cut, trim_left, trim_right, Text, text_eq, equal_fold, contains_byte, is_space, trim_space,
}

pub text_eq_refl : (s : Text) → text_eq s s ≡ true
unfolding text_eq
text_eq_refl [] = refl
text_eq_refl (a ∷ s) = ground (arith, text_eq_refl s)

text_eq→eq : (s t : Text) → text_eq s t ≡ true → s ≡ t
unfolding text_eq
text_eq→eq [] [] h = refl
text_eq→eq [] (b ∷ t) h = cc
text_eq→eq (a ∷ s) [] h = cc
text_eq→eq (a ∷ s) (b ∷ t) h = ground (arith, text_eq→eq s t)

pub text_eq_iff : (s t : Text) → (text_eq s t ≡ true) ↔ (s ≡ t)
text_eq_iff s t = (text_eq→eq s t, λ e. rw e (text_eq_refl t))

pub text_eq_sym : (s t : Text) → text_eq s t ≡ text_eq t s
unfolding text_eq
text_eq_sym [] [] = refl
text_eq_sym [] (b ∷ t) = refl
text_eq_sym (a ∷ s) [] = refl
text_eq_sym (a ∷ s) (b ∷ t) = ground (arith, text_eq_sym s t)

pub text_eq-append : (d s t : Text) → text_eq (d ++ s) (d ++ t) ≡ text_eq s t
unfolding text_eq
text_eq-append [] s t = refl
text_eq-append (c ∷ d) s t = ground (arith, text_eq-append d s t, ==_refl c)

pub equal_fold_refl : (s : Text) → equal_fold s s ≡ true
unfolding equal_fold
equal_fold_refl [] = refl
equal_fold_refl (a ∷ s) = ground (arith, equal_fold_refl s)

pub equal_fold_sym : (s t : Text) → equal_fold s t ≡ equal_fold t s
unfolding equal_fold
equal_fold_sym [] [] = refl
equal_fold_sym [] (b ∷ t) = refl
equal_fold_sym (a ∷ s) [] = refl
equal_fold_sym (a ∷ s) (b ∷ t) = ground (arith, equal_fold_sym s t)

pub contains_byte-append :
    (c : ℕ) (s t : Text) → contains_byte c (s ++ t) ≡ (contains_byte c s || contains_byte c t)
unfolding contains_byte
contains_byte-append c [] t = refl
contains_byte-append c (a ∷ s) t = ground (arith, contains_byte-append c s t)

-- A text is cut at a byte that does not occur before.
pub cut-append : (c : ℕ) (s t : Text) → contains_byte c s ≡ false → cut c (s ++ c ∷ t) ≡ some (s, t)
unfolding cut contains_byte
cut-append c [] t h = ground arith
cut-append c (a ∷ s) t h = ground (arith, cut-append c s t)

pub append_byte : (c : ℕ) (s t : Text) → (s ++ c ∷ []) ++ t ≡ s ++ c ∷ t
append_byte c [] t = refl
append_byte c (a ∷ s) t = ap (λ u. a ∷ u) (append_byte c s t)

-- A byte that is no space.
abbrev pub IsInk : ℕ → Type 0
IsInk c = is_space c ≡ false

trim_right-line : (s : Text) → All IsInk s → trim_right (s ++ 10 ∷ []) ≡ s
unfolding trim_right is_space
trim_right-line [] h = refl
trim_right-line (a ∷ s) h = ground (arith, trim_right-line s h.1)

trim_left-ink : (s : Text) → All IsInk s → trim_left s ≡ s
unfolding trim_left
trim_left-ink [] h = refl
trim_left-ink (a ∷ s) h = ground arith

-- A text without spaces, with a line feed behind it, is trimmed to the text.
pub trim_space-line : (s : Text) → All IsInk s → trim_space (s ++ 10 ∷ []) ≡ s
unfolding trim_space
trim_space-line s h = ap trim_left (trim_right-line s h) ∙ trim_left-ink s h
