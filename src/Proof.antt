-- ===== src/Proof.antt =====
-- proof.go: the owner proof, the message that the phone signs, and `verifyOwnerProof`.
pub mod Messages
pub mod Verified
mod Tests
use zorin_host_agent.Prelude.{
  ℕ, Bool, false, not, Option, none, some, ◌∷◌, ◌++◌, if◌then◌else◌, ℤ, lt_int, le_int, add_nat,
}
use zorin_host_agent.Text.{Text, text, text_eq, equal_fold}
use zorin_host_agent.Text.Hex.{hex_encode, hex_decode}
use zorin_host_agent.Text.Decimal.{format_int}
use zorin_host_agent.Crypto.{Crypto, unreadable, ecdsa, other_kind}

pub record OwnerProof : Type 0 where
  pub version : Text
  pub action : Text
  pub resource : Text
  pub host_fingerprint : Text
  pub phone_fingerprint : Text
  pub phone_public_key_der_hex : Text
  pub nonce : Text
  pub issued : ℤ
  pub expires : ℤ
  pub signature_der_hex : Text

-- The errors of `verifyOwnerProof`; `library` holds the text of an error of Go's library.
pub data ProofError : Type 0 where
  unsupported_version expired issued_in_future key_mismatch not_ecdsa bad_signature : ProofError
  library : Text → ProofError

unfoldable pub protocol_name : Text
protocol_name = text "ZTRUST/2"

abbrev pub bar : ℕ
bar = b'|'

unfoldable pub owner_proof_message : Text → Text → Text → Text → Text → ℤ → ℤ → Text
owner_proof_message host_fp phone_fp action_hex resource_hex nonce issued expires =
    protocol_name
    ++ (text "|OWNER_PROOF|"
        ++ (host_fp
            ++ bar
              ∷ (phone_fp
                  ++ bar
                    ∷ (action_hex
                        ++ bar
                          ∷ (resource_hex
                              ++ bar
                                ∷ (nonce
                                    ++ bar ∷ (format_int issued ++ bar ∷ format_int expires)))))))

-- The message that a proof is to be signed over.
unfoldable pub signed_message : OwnerProof → Text
signed_message p =
    owner_proof_message p.host_fingerprint p.phone_fingerprint (hex_encode p.action)
      (hex_encode p.resource) p.nonce p.issued p.expires

-- `expectedPhoneDER != nil && !strings.EqualFold(hex.EncodeToString(expectedPhoneDER), …)`
unfoldable pub is_mismatch : Option Text → Text → Bool
is_mismatch none der_hex = false
is_mismatch (some der) der_hex = not (equal_fold (hex_encode der) der_hex)

module _ (crypto : Crypto) where
  -- The part behind the key's type check.
  unfoldable pub check_signature : Text → OwnerProof → Option ProofError
  check_signature key p = elim (hex_decode p.signature_der_hex) [
    | none ↦ some (library (crypto.hex_error p.signature_der_hex))
    | some sig ↦
        if crypto.verify key (crypto.sha256 (signed_message p)) sig
        then none
        else some bad_signature
  ]

  unfoldable pub check_key : Text → OwnerProof → Option ProofError
  check_key der p = elim (crypto.parse_key der) [
    | unreadable e ↦ some (library e)
    | other_kind ↦ some not_ecdsa
    | ecdsa key ↦ check_signature key p
  ]

  -- At the Unix time `now`; `none` is a proof that is accepted.
  unfoldable pub verify_owner_proof : ℤ → OwnerProof → Option Text → Option ProofError
  verify_owner_proof now p expected =
      if not (text_eq p.version (text "ZOWNER/1"))
      then some unsupported_version
      else if le_int p.expires now
      then some expired
      else if lt_int (add_nat now 30) p.issued
      then some issued_in_future
      else elim (hex_decode p.phone_public_key_der_hex) [
        | none ↦ some (library (crypto.hex_error p.phone_public_key_der_hex))
        | some der ↦
            if is_mismatch expected p.phone_public_key_der_hex
            then some key_mismatch
            else check_key der p
      ]
