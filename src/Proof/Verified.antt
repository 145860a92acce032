-- ===== src/Proof/Verified.antt =====
-- What an accepted owner proof shows.
use zorin_host_agent.Prelude.{
  ◌≡◌, sym, ◌∙◌, ◌↔◌, inl, inr, true, false, none, some, arith, Option-cases, All, ℤ, lt_int,
  le_int, add_nat,
}
use zorin_host_agent.Text.{Text, text, text_eq, equal_fold}
use zorin_host_agent.Text.Laws.{text_eq_iff}
use zorin_host_agent.Text.Hex.{IsByte, hex_encode, hex_decode, hex_decode_fold, hex_decode-encode}
use zorin_host_agent.Crypto.{Crypto, ecdsa}
use zorin_host_agent.Proof.{
  OwnerProof, signed_message, is_mismatch, check_signature, check_key, verify_owner_proof,
}

module _ (crypto : Crypto) where
  -- The proof is current at `now`, names the phone's key `der`, an ECDSA key, and carries a
  -- signature by that key over its own fields.
  pub record IsAccepted (now : ℤ) (p : OwnerProof) (der : Text) : Type 0 where
    pub key : Text
    pub signature : Text
    pub version : p.version ≡ text "ZOWNER/1"
    pub not_expired : le_int p.expires now ≡ false
    pub not_early : lt_int (add_nat now 30) p.issued ≡ false
    pub names_key : equal_fold (hex_encode der) p.phone_public_key_der_hex ≡ true
    pub key_is : crypto.parse_key der ≡ ecdsa key
    pub signature_is : hex_decode p.signature_der_hex ≡ some signature
    pub signed : crypto.verify key (crypto.sha256 (signed_message p)) signature ≡ true

  names→decodes :
      (der hex : Text)
      → All IsByte der
      → equal_fold (hex_encode der) hex ≡ true
      → hex_decode hex ≡ some der
  names→decodes der hex bytes h =
      sym (hex_decode_fold (hex_encode der) hex h) ∙ hex_decode-encode der bytes

  check_signature→signed :
      (key : Text) (p : OwnerProof)
      → check_signature crypto key p ≡ none
      → (s : Text) × (hex_decode p.signature_der_hex ≡ some s)
        × (crypto.verify key (crypto.sha256 (signed_message p)) s ≡ true)
  unfolding check_signature
  check_signature→signed key p h = elim (Option-cases (hex_decode p.signature_der_hex)) [
    | inl e ↦ ground arith
    | inr (s, e) ↦ (s, e, ground arith)
  ]

  check_key→ecdsa :
      (der : Text) (p : OwnerProof)
      → check_key crypto der p ≡ none
      → (key : Text) × (crypto.parse_key der ≡ ecdsa key) × (check_signature crypto key p ≡ none)
  unfolding check_key
  check_key→ecdsa der p h = ground arith

  -- The checks before the key, and the check of the key that the proof names.
  accepted_parts :
      (now : ℤ) (p : OwnerProof) (pinned : Text)
      → All IsByte pinned
      → verify_owner_proof crypto now p (some pinned) ≡ none
      → (text_eq p.version (text "ZOWNER/1") ≡ true)
        × (le_int p.expires now ≡ false)
        × (lt_int (add_nat now 30) p.issued ≡ false)
        × (equal_fold (hex_encode pinned) p.phone_public_key_der_hex ≡ true)
        × (check_key crypto pinned p ≡ none)
  unfolding verify_owner_proof is_mismatch
  accepted_parts now p pinned bytes h =
      ground (arith, names→decodes pinned p.phone_public_key_der_hex bytes)

  verify_owner_proof→accepted :
      (now : ℤ) (p : OwnerProof) (pinned : Text)
      → All IsByte pinned
      → verify_owner_proof crypto now p (some pinned) ≡ none
      → IsAccepted now p pinned
  verify_owner_proof→accepted now p pinned bytes h =
      let (v, e, i, n, c) = accepted_parts now p pinned bytes h in
      let (key, k, s) = check_key→ecdsa pinned p c in
      let (signature, d, ok) = check_signature→signed key p s in
      record {
        key = key;
        signature = signature;
        version = (text_eq_iff _ _).0 v;
        not_expired = e;
        not_early = i;
        names_key = n;
        key_is = k;
        signature_is = d;
        signed = ok;
      }

  accepted→verify_owner_proof :
      (now : ℤ) (p : OwnerProof) (pinned : Text)
      → All IsByte pinned
      → IsAccepted now p pinned
      → verify_owner_proof crypto now p (some pinned) ≡ none
  unfolding verify_owner_proof is_mismatch check_key check_signature
  accepted→verify_owner_proof now p pinned bytes a =
      let d = names→decodes pinned p.phone_public_key_der_hex bytes a.names_key in
      ground (arith, text_eq_iff p.version (text "ZOWNER/1"))

  -- With a pinned key a proof is accepted exactly if it has the version ZOWNER/1, has not expired and
  -- is not issued more than 30 seconds ahead, names the pinned key, which is an ECDSA key, and
  -- carries a signature by that key over its own fields.
  pub verify_owner_proof_iff :
      (now : ℤ) (p : OwnerProof) (pinned : Text)
      → All IsByte pinned
      → (verify_owner_proof crypto now p (some pinned) ≡ none) ↔ IsAccepted now p pinned
  verify_owner_proof_iff now p pinned bytes = (
    verify_owner_proof→accepted now p pinned bytes,
    accepted→verify_owner_proof now p pinned bytes,
  )
