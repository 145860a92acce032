-- ===== src/HostIdentity/Signature.antt =====
-- identity.go: `rawECDSAToASN1`. identity_windows.go: `SignDigest`.
use zorin_host_agent.Prelude.{
  ℕ, ◌/◌, ◌%◌, ◌≤◌, ◌≡◌, refl, ap, subst, ◌∙◌, ◌⊎◌, inl, inr, Bool, true, false, not, ◌||◌, Option,
  none, some, [], ◌∷◌, arith, ltb, ◌==◌, if◌then◌else◌, Bool-cases, Option-cases, length, take,
  drop, is_empty, ℤ, pos,
}
use zorin_host_agent.Text.{Text}
use zorin_host_agent.HostIdentity.Cng.{slice, big_endian}

-- encoding/asn1 on a sequence of two integers: what is read, with the bytes that are left, and what
-- is written.
pub record Asn1 : Type 0 where
  pub unmarshal : Text → Option (ℤ × ℤ × Text)
  pub marshal : ℕ → ℕ → Option Text

-- Whether the bytes are a signature in DER, with nothing behind it.
unfoldable pub is_der_signature : Asn1 → Text → Bool
is_der_signature asn1 raw = elim (asn1.unmarshal raw) [
  | none ↦ false
  | some (r, s, rest) ↦ is_empty rest
]

-- rawECDSAToASN1
unfoldable pub raw_ecdsa_to_asn1 : Asn1 → Text → Option Text
raw_ecdsa_to_asn1 asn1 raw =
    let n = length raw / 2 in
    if is_der_signature asn1 raw
    then some raw
    else if is_empty raw || not (length raw % 2 == 0)
    then none
    else asn1.marshal (big_endian 0 (take n raw)) (big_endian 0 (drop n raw))

pub data Signed : Type 0 where
  signature : Text → Signed
  sign_failed : Signed
  sign_panics : Signed

unfoldable pub signature_of : Option Text → Signed
signature_of none = sign_failed
signature_of (some der) = signature der

-- SignDigest: `size` is what the first NCryptSignHash answers; `fill`, for a buffer of that size, is
-- the buffer after the second one and the size that it answers.
unfoldable pub sign_digest : Asn1 → Text → Option ℕ → (ℕ → Option (Text × ℕ)) → Signed
sign_digest asn1 digest none fill = sign_failed
sign_digest asn1 digest (some n) fill =
    if is_empty digest || n == 0 || ltb 512 n then sign_failed else elim (fill n) [
      | none ↦ sign_failed
      | some (out, m) ↦ elim (slice out 0 m) [
        | none ↦ sign_panics
        | some raw ↦ signature_of (raw_ecdsa_to_asn1 asn1 raw)
      ]
    ]

-- What the agent relies on in encoding/asn1: what it writes it reads back.
abbrev pub Asn1Law : Asn1 → Type 0
Asn1Law asn1 =
    (r s : ℕ) (der : Text)
    → asn1.marshal r s ≡ some der
    → asn1.unmarshal der ≡ some (pos r, pos s, [])

-- The bytes are a DER signature: of themselves, or of the two halves of `raw` as numbers.
pub record IsConverted (asn1 : Asn1) (raw der : Text) : Type 0 where
  pub r : ℤ
  pub s : ℤ
  pub reads : asn1.unmarshal der ≡ some (r, s, [])
  pub from :
      (der ≡ raw)
      ⊎ (length raw % 2 ≡ 0)
        × (r ≡ pos (big_endian 0 (take (length raw / 2) raw)))
        × (s ≡ pos (big_endian 0 (drop (length raw / 2) raw)))

empty_rest : (rest : Text) → is_empty rest ≡ true → rest ≡ []
empty_rest [] h = refl
empty_rest (c ∷ s) h = absurd (ground arith)

der_signature-IsConverted :
    (asn1 : Asn1) (raw : Text) → is_der_signature asn1 raw ≡ true → IsConverted asn1 raw raw
der_signature-IsConverted asn1 raw h = elim (Option-cases (asn1.unmarshal raw)) [
  | inl e ↦ unfold is_der_signature in absurd (ground arith)
  | inr ((r, s, rest), e) ↦
      let k : is_empty rest ≡ true = unfold is_der_signature in ground arith in
      record {
        r = r;
        s = s;
        reads = e ∙ ap (λ t. some (r, s, t)) (empty_rest rest k);
        from = inl refl;
      }
]

raw_ecdsa_to_asn1-IsConverted :
    (asn1 : Asn1) (raw der : Text)
    → Asn1Law asn1
    → raw_ecdsa_to_asn1 asn1 raw ≡ some der
    → IsConverted asn1 raw der
raw_ecdsa_to_asn1-IsConverted asn1 raw der law h = elim (Bool-cases (is_der_signature asn1 raw)) [
  | inl e ↦
      let same : raw ≡ der = unfold raw_ecdsa_to_asn1 in ground arith in
      subst (IsConverted asn1 raw) same (der_signature-IsConverted asn1 raw e)
  | inr e ↦
      let m : asn1.marshal (big_endian 0 (take (length raw / 2) raw))
            (big_endian 0 (drop (length raw / 2) raw))
          ≡ some der =
        unfold raw_ecdsa_to_asn1 in ground arith in
      record {
        r = pos (big_endian 0 (take (length raw / 2) raw));
        s = pos (big_endian 0 (drop (length raw / 2) raw));
        reads = law _ _ der m;
        from = inr (unfold raw_ecdsa_to_asn1 in ground arith, refl, refl);
      }
]

-- Where SignDigest gives a signature, it is one in DER, of the bytes that the key storage has put
-- into the buffer: those bytes themselves, or the numbers that their two halves are.
pub sign_digest-IsConverted :
    (asn1 : Asn1) (digest : Text) (size : Option ℕ) (fill : ℕ → Option (Text × ℕ)) (der : Text)
    → Asn1Law asn1
    → sign_digest asn1 digest size fill ≡ signature der
    → (n : ℕ) × (out : Text) × (m : ℕ) × (size ≡ some n)
      × (n ≤ 512)
      × (fill n ≡ some (out, m))
      × (m ≤ length out)
      × IsConverted asn1 (take m out) der
unfolding sign_digest
sign_digest-IsConverted asn1 digest none fill der law h = absurd (ground arith)
sign_digest-IsConverted asn1 digest (some n) fill der law h = elim (Option-cases (fill n)) [
  | inl e ↦ absurd (ground arith)
  | inr ((out, m), e) ↦ elim (Option-cases (slice out 0 m)) [
    | inl k ↦ absurd (ground arith)
    | inr (raw, k) ↦
        let converted : signature_of (raw_ecdsa_to_asn1 asn1 raw) ≡ signature der = ground arith in
        let d : raw_ecdsa_to_asn1 asn1 raw ≡ some der = unfold signature_of in ground arith in
        let raw_is : raw ≡ take m out = unfold slice in ground arith in
        let fits : m ≤ length out = unfold slice in ground arith in
        (
          n,
          out,
          m,
          refl,
          ground arith,
          e,
          fits,
          subst (λ x. IsConverted asn1 x der) raw_is
              (raw_ecdsa_to_asn1-IsConverted asn1 raw der law d),
        )
  ]
]
