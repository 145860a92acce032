-- ===== src/Text/Decimal/Small.antt =====
-- How numbers of up to three digits are written.
use zorin_host_agent.Prelude.{ℕ, zero, suc, ◌+◌, ◌/◌, ◌%◌, ◌≤◌, ◌<◌, ◌≡◌, ap, ◌∙◌, [], ◌∷◌, arith}
use zorin_host_agent.Text.Decimal.{digits_from, reverse_onto, format_nat}

digits_1 : (f n : ℕ) → n < 10 → digits_from (suc f) n ≡ (n + 48) ∷ []
unfolding digits_from
digits_1 f n h = ground arith

digits_step : (f n : ℕ) → 10 ≤ n → digits_from (suc f) n ≡ (n % 10 + 48) ∷ digits_from f (n / 10)
unfolding digits_from
digits_step f n h = ground arith

digits_2 :
    (f n : ℕ) → 10 ≤ n → n < 100 → digits_from (suc (suc f)) n ≡ (n % 10 + 48) ∷ (n / 10 + 48) ∷ []
digits_2 f n l h =
    digits_step (suc f) n l ∙ ap (λ s. (n % 10 + 48) ∷ s) (digits_1 f (n / 10) (omega arith))

digits_3 :
    (f n : ℕ)
    → 100 ≤ n
    → n < 1000
    → digits_from (suc (suc (suc f))) n
      ≡ (n % 10 + 48) ∷ (n / 10 % 10 + 48) ∷ (n / 10 / 10 + 48) ∷ []
digits_3 f n l h =
    digits_step (suc (suc f)) n (omega arith)
    ∙ ap (λ s. (n % 10 + 48) ∷ s) (digits_2 f (n / 10) (omega arith) (omega arith))

pub format_nat_1 : (n : ℕ) → n < 10 → format_nat n ≡ (n + 48) ∷ []
unfolding format_nat reverse_onto
format_nat_1 n h = ap (λ s. reverse_onto s []) (digits_1 n n h)

pub format_nat_2 : (n : ℕ) → 10 ≤ n → n < 100 → format_nat n ≡ (n / 10 + 48) ∷ (n % 10 + 48) ∷ []
unfolding format_nat reverse_onto
format_nat_2 zero l h = absurd (omega arith)
format_nat_2 (suc n) l h = ap (λ s. reverse_onto s []) (digits_2 n (suc n) l h)

pub format_nat_3 :
    (n : ℕ)
    → 100 ≤ n
    → n < 1000
    → format_nat n ≡ (n / 10 / 10 + 48) ∷ (n / 10 % 10 + 48) ∷ (n % 10 + 48) ∷ []
unfolding format_nat reverse_onto
format_nat_3 zero l h = absurd (omega arith)
format_nat_3 (suc zero) l h = absurd (omega arith)
format_nat_3 (suc (suc n)) l h = ap (λ s. reverse_onto s []) (digits_3 n (suc (suc n)) l h)
