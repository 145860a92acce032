-- ===== src/HostIdentity/Tests.antt =====
-- The host's identities on concrete data.
use zorin_host_agent.Prelude.{
  ℕ, ◌≡◌, refl, sym, true, none, some, [], ◌∷◌, arith, ◌==◌, if◌then◌else◌, pos,
}
use zorin_host_agent.Text.{text, Text, text_eq}
use zorin_host_agent.HostIdentity.{
  KeyLibrary, MetaCodec, HostIdentity, cng, cng_tpm_provider, read_identity_meta,
}
use zorin_host_agent.HostIdentity.Legacy.{KeyLaws}
use zorin_host_agent.HostIdentity.Windows.{
  cng_software_provider, cng_meta, cng_key_name, Machine, named_identity, new_identity,
  load_host_identity,
}
use zorin_host_agent.Dict.{lookup}
use zorin_host_agent.Files.{Files, read_file}
use zorin_host_agent.HostIdentity.Cng.{slice, big_endian}
use zorin_host_agent.HostIdentity.Windows.Stable.{load_host_identity_stable}
use zorin_host_agent.HostIdentity.Signature.{
  Asn1, is_der_signature, raw_ecdsa_to_asn1, signature, signature_of, sign_digest, Asn1Law,
}

abbrev toy_keys : KeyLibrary
toy_keys = record {
  parse_private = λ s. some s;
  marshal_private = λ s. some s;
  public_of = λ s. some s;
  pem_decode = λ s. some s;
  pem_encode = λ s. s;
}

abbrev toy_laws : KeyLaws toy_keys
toy_laws = record { decode-encode = λ block. refl; parse-marshal = λ key private h. sym h }

-- The JSON text of identity.json is its provider here.
abbrev toy_meta : MetaCodec
toy_meta = record { marshal = λ m. m.provider; unmarshal = λ bytes. some (cng_meta bytes) }

abbrev disk : Files
disk = record { contents = []; writable = λ path. true }

-- A machine without a TPM, whose software storage makes the key at the first start.
abbrev machine : Machine
machine = record {
  open_cng = λ provider name create.
      if text_eq provider cng_tpm_provider then none else some (cng provider name (1 ∷ 2 ∷ []));
  generated = none;
}

abbrev first_identity : HostIdentity
first_identity = cng cng_software_provider cng_key_name (1 ∷ 2 ∷ [])

first_start : (load_host_identity toy_keys toy_meta (text "d") machine disk).1 ≡ some first_identity
unfolding load_host_identity named_identity new_identity read_identity_meta read_file lookup text_eq
    text
first_start = refl

load_host_identity_stable_example :
    load_host_identity toy_keys toy_meta
      (text "d")
      machine
      (load_host_identity toy_keys toy_meta (text "d") machine disk).0
    ≡ ((load_host_identity toy_keys toy_meta (text "d") machine disk).0, some first_identity)
load_host_identity_stable_example =
    load_host_identity_stable toy_keys toy_meta (text "d") machine machine disk first_identity
      toy_laws (record { made = λ provider name id h. h; kept = λ provider name id h. h })
      (refl, refl) refl first_start

-- A signature of two numbers of one byte, as DER writes them where they are small.
abbrev toy_asn1 : Asn1
toy_asn1 = record {
  unmarshal = λ der. elim der [
    | tag ∷ r ∷ s ∷ rest ↦ if tag == 48 then some (pos r, pos s, rest) else none
    | _ ↦ none
  ];
  marshal = λ r s. some (48 ∷ r ∷ s ∷ []);
}

abbrev filled : Text × ℕ
filled = (5 ∷ 6 ∷ [], 2)

toy_asn1_law : Asn1Law toy_asn1
toy_asn1_law r s der h = ground arith

converted : sign_digest toy_asn1 (1 ∷ []) (some 2) (λ n. some filled) ≡ signature (48 ∷ 5 ∷ 6 ∷ [])
unfolding sign_digest slice signature_of raw_ecdsa_to_asn1 is_der_signature big_endian
converted = refl
