-- ===== src/HostIdentity/Windows.antt =====
-- identity_windows.go: `loadHostIdentity` and `migrateHostIdentityToTPM`.
pub mod Stable
use zorin_host_agent.Prelude.{Bool, true, false, Option, none, some, if◌then◌else◌, is_empty}
use zorin_host_agent.Text.{Text, text, text_eq}
use zorin_host_agent.Files.{Files, read_file}
use zorin_host_agent.HostIdentity.{
  HostIdentity, cng_tpm_provider, KeyLibrary, load_or_create_legacy, legacy_path, IdentityMeta,
  MetaCodec, read_identity_meta, write_identity_meta,
}

abbrev pub cng_software_provider : Text
cng_software_provider = text "Microsoft Software Key Storage Provider"

abbrev pub cng_key_name : Text
cng_key_name = text "ZorinTrustHostIdentityV2"

abbrev pub cng_meta : Text → IdentityMeta
cng_meta provider = record { kind = text "cng"; provider = provider; key_name = cng_key_name }

unfoldable pub or_else : Text → Text → Text
or_else s t = if is_empty s then t else s

-- What the machine gives at a start: openCNGIdentity on a provider and a key name, with the flag
-- that lets it make the key, and what ecdsa.GenerateKey gives.
pub record Machine : Type 0 where
  pub open_cng : Text → Text → Bool → Option HostIdentity
  pub generated : Option Text

module _ (keys : KeyLibrary) (codec : MetaCodec) (dir : Text) where
  -- The identity that identity.json names, if it names one.
  unfoldable pub named_identity : Machine → Option IdentityMeta → Option (Option HostIdentity)
  named_identity machine none = none
  named_identity machine (some m) =
      if text_eq m.kind (text "cng")
      then some (
          machine.open_cng (or_else m.provider cng_tpm_provider) (or_else m.key_name cng_key_name)
            false)
      else none

  -- The files with the provider written down; that the write fails is ignored.
  unfoldable pub note_provider : Text → Files → Files
  note_provider provider fs = (write_identity_meta codec dir (cng_meta provider) fs).0

  -- The host's first identity.
  unfoldable pub new_identity : Machine → Files → Files × Option HostIdentity
  new_identity machine fs = elim (machine.open_cng cng_tpm_provider cng_key_name true) [
    | some id ↦ (note_provider cng_tpm_provider fs, some id)
    | none ↦ elim (machine.open_cng cng_software_provider cng_key_name true) [
      | some id ↦ (note_provider cng_software_provider fs, some id)
      | none ↦ load_or_create_legacy keys (legacy_path dir) machine.generated fs
    ]
  ]

  -- loadHostIdentity: `none` is an error.
  unfoldable pub load_host_identity : Machine → Files → Files × Option HostIdentity
  load_host_identity machine fs = elim (named_identity machine (read_identity_meta codec dir fs)) [
    | some opened ↦ (fs, opened)
    | none ↦ elim (read_file (legacy_path dir) fs) [
      | some bytes ↦ load_or_create_legacy keys (legacy_path dir) machine.generated fs
      | none ↦ new_identity machine fs
    ]
  ]

  -- migrateHostIdentityToTPM
  unfoldable pub migrate_to_tpm : Machine → Files → Files × Option HostIdentity
  migrate_to_tpm machine fs = elim (machine.open_cng cng_tpm_provider cng_key_name true) [
    | none ↦ (fs, none)
    | some id ↦
        let (fs', ok) = write_identity_meta codec dir (cng_meta cng_tpm_provider) fs in
        (fs', if ok then some id else none)
  ]

-- identity_other.go: loadHostIdentity and migrateHostIdentityToTPM
unfoldable pub load_other_identity :
    KeyLibrary → Text → Option Text → Files → Files × Option HostIdentity
load_other_identity keys dir generated fs =
    load_or_create_legacy keys (legacy_path dir) generated fs
