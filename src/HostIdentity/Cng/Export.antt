-- ===== src/HostIdentity/Cng/Export.antt =====
-- When `exportPublicDER` panics.
use zorin_host_agent.Prelude.{
  ℕ, ◌+◌, ◌-◌, ◌*◌, ◌%◌, ◌≤◌, ◌<◌, ◌≡◌, ap, ap₂, ◌∙◌, ◌≢◌, ◌↔◌, ◌⊎◌, inl, inr, Bool, Option, none,
  some, [], ◌∷◌, arith, ltb, Bool-cases, length, take, drop, All,
}
use zorin_host_agent.Text.{Text}
use zorin_host_agent.HostIdentity.Cng.{
  export_panics, coordinate_size, word, slice, export_public_der, export_point,
}
use zorin_host_agent.Text.Hex.{IsByte}

slice-some : (b : Text) (i j : ℕ) → i ≤ j → j ≤ length b → (s : Text) × (slice b i j ≡ some s)
unfolding slice
slice-some b i j h k = (take (j - i) (drop i b), ground arith)

slice-none : (b : Text) (i j : ℕ) → j < i ⊎ length b < j → slice b i j ≡ none
unfolding slice
slice-none b i j h = ground arith

coordinate_size-lt : (b : Text) → All IsByte b → coordinate_size b < word
unfolding coordinate_size
coordinate_size-lt [] h = omega arith
coordinate_size-lt (x0 ∷ []) h = omega arith
coordinate_size-lt (x0 ∷ x1 ∷ []) h = omega arith
coordinate_size-lt (x0 ∷ x1 ∷ x2 ∷ []) h = omega arith
coordinate_size-lt (x0 ∷ x1 ∷ x2 ∷ x3 ∷ []) h = omega arith
coordinate_size-lt (x0 ∷ x1 ∷ x2 ∷ x3 ∷ c ∷ []) h = omega arith
coordinate_size-lt (x0 ∷ x1 ∷ x2 ∷ x3 ∷ c ∷ d ∷ []) h = omega arith
coordinate_size-lt (x0 ∷ x1 ∷ x2 ∷ x3 ∷ c ∷ d ∷ e ∷ []) h = omega arith
coordinate_size-lt (x0 ∷ x1 ∷ x2 ∷ x3 ∷ c ∷ d ∷ e ∷ f ∷ s) h = omega arith

module _ (on_curve : ℕ → ℕ → Bool) (marshal : ℕ → ℕ → Option Text) (b : Text) (cb : ℕ) where
  export_point-fits :
      8 + 2 * cb < word → 8 + 2 * cb ≤ length b → export_point on_curve marshal b cb ≢ export_panics
  export_point-fits h k e =
      let mid : (8 + cb) % word ≡ 8 + cb = omega arith in
      let end : (8 + 2 * cb) % word ≡ 8 + 2 * cb = omega arith in
      let (xs, x) = slice-some b 8 (8 + cb) (omega arith) (omega arith) in
      let (ys, y) = slice-some b (8 + cb) (8 + 2 * cb) (omega arith) k in
      let x' : slice b 8 ((8 + cb) % word) ≡ some xs = ap (slice b 8) mid ∙ x in
      let y' : slice b ((8 + cb) % word) ((8 + 2 * cb) % word) ≡ some ys =
        ap₂ (slice b) mid end ∙ y in
      unfold export_point in ground (arith, x', y')

  export_point-wraps :
      cb < word
      → word ≤ 8 + 2 * cb
      → length b ≤ 4096
      → export_point on_curve marshal b cb ≡ export_panics
  export_point-wraps h k l =
      let x : slice b 8 ((8 + cb) % word) ≡ none =
        slice-none b 8 ((8 + cb) % word) (elim (Bool-cases (ltb (8 + cb) word)) [
          | inl e ↦ inr (ground arith)
          | inr e ↦ inl (ground arith)
        ]) in
      unfold export_point in ground (arith, x)

-- On a blob of the size that was announced, exportPublicDER panics exactly if the size of the
-- coordinates in the blob's header makes the sum 8 + 2 * cb overflow 32 bits to a number that the
-- check of the length accepts.
pub export_public_der-panics_iff :
    (on_curve : ℕ → ℕ → Bool) (marshal : ℕ → ℕ → Option Text) (n : ℕ) (fill : ℕ → Option Text)
    (b : Text)
    → 8 ≤ n
    → n ≤ 4096
    → fill n ≡ some b
    → length b ≡ n
    → All IsByte b
    → (export_public_der on_curve marshal (some n) fill ≡ export_panics)
      ↔ ((word ≤ 8 + 2 * coordinate_size b) × ((8 + 2 * coordinate_size b) % word ≤ n))
unfolding export_public_der
export_public_der-panics_iff on_curve marshal n fill b l u e same small =
    let cb = coordinate_size b in
    let fits = export_point-fits on_curve marshal b cb in
    let wraps = export_point-wraps on_curve marshal b cb (coordinate_size-lt b small) in
    elim (Bool-cases (ltb (8 + 2 * cb) word)) [
      | inl k ↦
          let whole : (8 + 2 * cb) % word ≡ 8 + 2 * cb = ground arith in
          (ground (arith, fits), ground (arith, fits))
      | inr k ↦ (ground (arith, wraps), ground (arith, wraps))
    ]
