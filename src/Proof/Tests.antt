-- ===== src/Proof/Tests.antt =====
-- The theorems on proofs, at one proof of a toy cryptography.
use zorin_host_agent.Prelude.{◌≡◌, refl, ◌↔◌, none, some, [], arith, pos}
use zorin_host_agent.Text.{Text, text, text_eq, to_lower, equal_fold, contains_byte}
use zorin_host_agent.Text.Hex.{hex_encode, hex_decode}
use zorin_host_agent.Text.Decimal.{format_nat, format_int}
use zorin_host_agent.Proof.{
  OwnerProof, expired, protocol_name, owner_proof_message, signed_message, is_mismatch,
  check_signature, check_key, verify_owner_proof,
}
use zorin_host_agent.Proof.Verified.{IsAccepted, verify_owner_proof_iff}
use zorin_host_agent.Proof.Messages.{IsPlainProof, signed_message-injective}
use zorin_host_agent.Samples.{toy_crypto, phone_der}

abbrev sample_proof : Text → OwnerProof
sample_proof signature = record {
  version = text "ZOWNER/1";
  action = text "ops.terminal";
  resource = text "vps:1";
  host_fingerprint = text "H0";
  phone_fingerprint = text "P0";
  phone_public_key_der_hex = text "0A0b";
  nonce = text "77";
  issued = pos 100;
  expires = pos 145;
  signature_der_hex = signature;
}

abbrev signed_proof : OwnerProof
signed_proof = sample_proof (text "0a0b49")

verified : verify_owner_proof toy_crypto (pos 110) signed_proof (some phone_der) ≡ none
unfolding verify_owner_proof is_mismatch check_key check_signature signed_message
    owner_proof_message protocol_name text text_eq equal_fold to_lower hex_encode hex_decode
    format_int format_nat
verified = refl

-- A proof is not accepted when it has expired.
expired_proof : verify_owner_proof toy_crypto (pos 145) signed_proof (some phone_der) ≡ some expired
unfolding verify_owner_proof text text_eq
expired_proof = refl

verify_owner_proof_iff_example :
    (verify_owner_proof toy_crypto (pos 110) signed_proof (some phone_der) ≡ none)
    ↔ IsAccepted toy_crypto (pos 110) signed_proof phone_der
verify_owner_proof_iff_example =
    verify_owner_proof_iff toy_crypto (pos 110) signed_proof phone_der
      (omega arith, (omega arith, tt))

accepted : IsAccepted toy_crypto (pos 110) signed_proof phone_der
accepted = verify_owner_proof_iff_example.0 verified

plain : (signature : Text) → IsPlainProof (sample_proof signature)
unfolding text contains_byte
plain signature = record {
  host = refl;
  phone = refl;
  nonce = refl;
  action = ground arith;
  resource = ground arith;
}

signed_message-injective_example :
    (signed_proof.host_fingerprint ≡ signed_proof.host_fingerprint)
    × (signed_proof.phone_fingerprint ≡ signed_proof.phone_fingerprint)
    × (signed_proof.action ≡ (sample_proof []).action)
    × (signed_proof.resource ≡ (sample_proof []).resource)
    × (signed_proof.nonce ≡ (sample_proof []).nonce)
    × (signed_proof.issued ≡ (sample_proof []).issued)
    × (signed_proof.expires ≡ (sample_proof []).expires)
signed_message-injective_example =
    signed_message-injective signed_proof (sample_proof []) (plain signed_proof.signature_der_hex)
      (plain []) (unfold signed_message in refl)
