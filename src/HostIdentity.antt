-- ===== src/HostIdentity.antt =====
-- identity.go: the identities of the host, `newEphemeralIdentity`, `loadOrCreateLegacyIdentity`,
-- `readIdentityMeta`, `writeIdentityMeta` and `rawECDSAToASN1`. identity_other.go.
pub mod Legacy
pub mod Windows
pub mod Cng
pub mod Signature
mod Tests
use zorin_host_agent.Prelude.{Bool, Option, none, some, if◌then◌else◌}
use zorin_host_agent.Text.{Text, text, text_eq}
use zorin_host_agent.Files.{Files, join_path, read_file, write_file}

-- The implementations of HostIdentity: where the key is, and the DER form of its public key.
pub data HostIdentity : Type 0 where
  legacy : Text → HostIdentity
  ephemeral : Text → HostIdentity
  cng : Text → Text → Text → HostIdentity

abbrev pub cng_tpm_provider : Text
cng_tpm_provider = text "Microsoft Platform Crypto Provider"

-- PublicDER()
unfoldable pub public_der : HostIdentity → Text
public_der (legacy der) = der
public_der (ephemeral der) = der
public_der (cng provider key der) = der

-- Provider()
unfoldable pub provider_of : HostIdentity → Text
provider_of (legacy der) = text "legacy-pem/software"
provider_of (ephemeral der) = text "portable/ephemeral"
provider_of (cng provider key der) =
    if text_eq provider cng_tpm_provider
    then text "windows-cng/tpm"
    else text "windows-cng/software"

-- The packages crypto and encoding/pem, as the agent uses them. A private key is its EC form in DER.
pub record KeyLibrary : Type 0 where
  -- x509.ParseECPrivateKey, and x509.MarshalECPrivateKey of what it gives
  pub parse_private : Text → Option Text
  pub marshal_private : Text → Option Text
  -- x509.MarshalPKIXPublicKey of the public key
  pub public_of : Text → Option Text
  pub pem_decode : Text → Option Text
  pub pem_encode : Text → Text

module _ (keys : KeyLibrary) where
  -- newEphemeralIdentity: `generated` is what ecdsa.GenerateKey gives.
  unfoldable pub new_ephemeral_identity : Option Text → Option HostIdentity
  new_ephemeral_identity none = none
  new_ephemeral_identity (some key) = elim (keys.public_of key) [
    | none ↦ none
    | some der ↦ some (ephemeral der)
  ]

  -- The legacy identity of a key.
  unfoldable pub legacy_of : Text → Option HostIdentity
  legacy_of key = elim (keys.public_of key) [ none ↦ none | some der ↦ some (legacy der) ]

  -- The identity in a file that is there.
  unfoldable pub read_legacy : Text → Option HostIdentity
  read_legacy bytes = elim (keys.pem_decode bytes) [
    | none ↦ none
    | some block ↦ elim (keys.parse_private block) [ none ↦ none | some key ↦ legacy_of key ]
  ]

  -- The identity of a new key, written to the file.
  unfoldable pub create_legacy : Text → Option Text → Files → Files × Option HostIdentity
  create_legacy path none fs = (fs, none)
  create_legacy path (some key) fs = elim (keys.marshal_private key) [
    | none ↦ (fs, none)
    | some private ↦
        let (fs', ok) = write_file path (keys.pem_encode private) fs in
        (fs', if ok then legacy_of key else none)
  ]

  -- loadOrCreateLegacyIdentity: `none` is an error.
  unfoldable pub load_or_create_legacy : Text → Option Text → Files → Files × Option HostIdentity
  load_or_create_legacy path generated fs = elim (read_file path fs) [
    | some bytes ↦ (fs, read_legacy bytes)
    | none ↦ create_legacy path generated fs
  ]

unfoldable pub legacy_path : Text → Text
legacy_path dir = join_path dir (text "host-identity.pem")

-- The contents of identity.json.
pub record IdentityMeta : Type 0 where
  pub kind : Text
  pub provider : Text
  pub key_name : Text

-- encoding/json on identity.json
pub record MetaCodec : Type 0 where
  pub marshal : IdentityMeta → Text
  pub unmarshal : Text → Option IdentityMeta

unfoldable pub meta_path : Text → Text
meta_path dir = join_path dir (text "identity.json")

-- readIdentityMeta
unfoldable pub read_identity_meta : MetaCodec → Text → Files → Option IdentityMeta
read_identity_meta codec dir fs = elim (read_file (meta_path dir) fs) [
  | none ↦ none
  | some bytes ↦ codec.unmarshal bytes
]

-- writeIdentityMeta
unfoldable pub write_identity_meta : MetaCodec → Text → IdentityMeta → Files → Files × Bool
write_identity_meta codec dir m fs = write_file (meta_path dir) (codec.marshal m) fs
