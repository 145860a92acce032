-- ===== src/Identity/Laws.antt =====
-- Fingerprints hold hexadecimal digits and colons alone, and a pair code is there for each.
use zorin_host_agent.Prelude.{
  ℕ, zero, suc, ◌≤◌, ◌<◌, ◌≡◌, refl, false, List, [], ◌∷◌, ◌++◌, arith, take, drop, All, All-append,
}
use zorin_host_agent.Text.{Text, text, join, contains_byte}
use zorin_host_agent.Text.Hex.{IsByte, hex_encode-upper}
use zorin_host_agent.Identity.{fingerprint, groups_of_4}

abbrev IsBelow : ℕ → ℕ → Type 0
IsBelow n c = c ≤ n

-- A list whose bytes are at most `n` holds no byte above.
below-plain : (n c : ℕ) (s : Text) → All (IsBelow n) s → n < c → contains_byte c s ≡ false
unfolding contains_byte
below-plain n c [] h lt = refl
below-plain n c (a ∷ s) h lt = ground (arith, below-plain n c s)

take-All : (P : ℕ → Type 0) (k : ℕ) (s : Text) → All P s → All P (take k s)
take-All P zero s h = tt
take-All P (suc k) [] h = tt
take-All P (suc k) (a ∷ s) h = (h.0, take-All P k s h.1)

drop-All : (P : ℕ → Type 0) (k : ℕ) (s : Text) → All P s → All P (drop k s)
drop-All P zero s h = h
drop-All P (suc k) [] h = tt
drop-All P (suc k) (a ∷ s) h = drop-All P k s h.1

join-All :
    (P : ℕ → Type 0) (sep : Text) (parts : List Text)
    → All P sep
    → All (All P) parts
    → All P (join sep parts)
unfolding join
join-All P sep [] k h = tt
join-All P sep (s ∷ []) k h = h.0
join-All P sep (s ∷ t ∷ rest) k h =
    All-append P (s ++ sep) _ (All-append P s sep h.0 k) (join-All P sep (t ∷ rest) k h.1)

groups-All : (P : ℕ → Type 0) (f : ℕ) (s : Text) → All P s → All (All P) (groups_of_4 f s)
unfolding groups_of_4
groups-All P zero s h = tt
groups-All P (suc f) [] h = tt
groups-All P (suc f) (a ∷ s) h =
    (take-All P 4 (a ∷ s) h, groups-All P f (drop 3 s) (drop-All P 3 s h.1))

-- A fingerprint holds no bar, so that it is one field of a signed message.
pub fingerprint-plain :
    (sha256 : Text → Text) (der : Text)
    → All IsByte (sha256 der)
    → contains_byte b'|' (fingerprint sha256 der) ≡ false
unfolding fingerprint
fingerprint-plain sha256 der h =
    below-plain 70 b'|' _
      (join-All (IsBelow 70) (text ":") _ (unfold text in (omega arith, tt)) (
        groups-All (IsBelow 70) _ _
          (hex_encode-upper (take 16 (sha256 der)) (take-All IsByte 16 (sha256 der) h))))
      (omega arith)
