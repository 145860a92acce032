-- ===== src/HostIdentity/Windows/Stable.antt =====
-- The identity of a host stays the same from start to start.
use zorin_host_agent.Prelude.{
  ◌≡◌, refl, sym, ap, subst, ◌∙◌, inl, inr, true, false, Option, none, some, arith, Option-cases,
  is_empty,
}
use zorin_host_agent.Text.{Text, text, text_eq}
use zorin_host_agent.Files.{Files, read_file, write_file, read-write, write-elsewhere}
use zorin_host_agent.HostIdentity.{
  HostIdentity, KeyLibrary, read_legacy, load_or_create_legacy, legacy_path, meta_path,
  create_legacy, IdentityMeta, MetaCodec, cng_tpm_provider, read_identity_meta, write_identity_meta,
}
use zorin_host_agent.HostIdentity.Windows.{
  Machine, load_host_identity, cng_key_name, cng_meta, or_else, named_identity, note_provider,
  new_identity, cng_software_provider,
}
use zorin_host_agent.HostIdentity.Legacy.{
  KeyLaws, load_legacy_there, create_legacy-written, paths_apart,
}

-- encoding/json reads what it has written of the two contents that the agent writes.
abbrev pub KeepsMeta : MetaCodec → Type 0
KeepsMeta codec =
    (codec.unmarshal (codec.marshal (cng_meta cng_tpm_provider)) ≡ some (cng_meta cng_tpm_provider))
    × (codec.unmarshal (codec.marshal (cng_meta cng_software_provider))
        ≡ some (cng_meta cng_software_provider))

-- A later start finds the keys that an earlier one has opened or made.
pub record KeepsKeys (earlier later : Machine) : Type 0 where
  pub made :
      (provider name : Text) (id : HostIdentity)
      → earlier.open_cng provider name true ≡ some id
      → later.open_cng provider name false ≡ some id
  pub kept :
      (provider name : Text) (id : HostIdentity)
      → earlier.open_cng provider name false ≡ some id
      → later.open_cng provider name false ≡ some id

module _ (keys : KeyLibrary) (codec : MetaCodec) (dir : Text) where
  load_named :
      (machine : Machine) (fs : Files) (opened : Option HostIdentity)
      → named_identity keys codec dir machine (read_identity_meta codec dir fs) ≡ some opened
      → load_host_identity keys codec dir machine fs ≡ (fs, opened)
  unfolding load_host_identity
  load_named machine fs opened h = ground arith

  load_there :
      (machine : Machine) (fs : Files) (bytes : Text)
      → named_identity keys codec dir machine (read_identity_meta codec dir fs) ≡ none
      → read_file (legacy_path dir) fs ≡ some bytes
      → load_host_identity keys codec dir machine fs ≡ (fs, read_legacy keys bytes)
  unfolding load_host_identity
  load_there machine fs bytes h k =
      ground (arith, load_legacy_there keys (legacy_path dir) bytes machine.generated fs k)

  load_new :
      (machine : Machine) (fs : Files)
      → named_identity keys codec dir machine (read_identity_meta codec dir fs) ≡ none
      → read_file (legacy_path dir) fs ≡ none
      → load_host_identity keys codec dir machine fs ≡ new_identity keys codec dir machine fs
  unfolding load_host_identity
  load_new machine fs h k = ground arith

  -- What identity.json names does not depend on the machine.
  unnamed :
      (earlier later : Machine) (m : Option IdentityMeta)
      → named_identity keys codec dir earlier m ≡ none
      → named_identity keys codec dir later m ≡ none
  unfolding named_identity
  unnamed earlier later none h = refl
  unnamed earlier later (some m) h = ground arith

  named_kept :
      (earlier later : Machine) (m : Option IdentityMeta) (id : HostIdentity)
      → KeepsKeys earlier later
      → named_identity keys codec dir earlier m ≡ some (some id)
      → named_identity keys codec dir later m ≡ some (some id)
  unfolding named_identity
  named_kept earlier later none id keeps h = absurd (ground arith)
  named_kept earlier later (some m) id keeps h =
      ground (
        arith,
        keeps.kept (or_else m.provider cng_tpm_provider) (or_else m.key_name cng_key_name) id,
      )

  -- A provider that is written down is the one that is opened.
  named-note_provider :
      (machine : Machine) (provider : Text) (fs : Files)
      → codec.unmarshal (codec.marshal (cng_meta provider)) ≡ some (cng_meta provider)
      → fs.writable (meta_path dir) ≡ true
      → is_empty provider ≡ false
      → named_identity keys codec dir machine
          (read_identity_meta codec dir (note_provider keys codec dir provider fs))
        ≡ some (machine.open_cng provider cng_key_name false)
  unfolding named_identity read_identity_meta note_provider write_identity_meta or_else text text_eq
  named-note_provider machine provider fs back writable given =
      let ok : (write_file (meta_path dir) (codec.marshal (cng_meta provider)) fs).1 ≡ true =
        unfold write_file in ground arith in
      let r = read-write (meta_path dir) (codec.marshal (cng_meta provider)) fs ok in
      ground (arith, r, back)

  create_legacy-meta :
      (generated : Option Text) (fs : Files)
      → read_identity_meta codec dir (create_legacy keys (legacy_path dir) generated fs).0
        ≡ read_identity_meta codec dir fs
  unfolding create_legacy read_identity_meta
  create_legacy-meta none fs = refl
  create_legacy-meta (some key) fs = elim (Option-cases (keys.marshal_private key)) [
    | inl e ↦ ground arith
    | inr (private, e) ↦ ground (
      arith,
      write-elsewhere (legacy_path dir) (meta_path dir) (keys.pem_encode private) fs
          (paths_apart dir),
    )
  ]

  stable_if_noted :
      (later : Machine) (provider : Text) (fs : Files) (id : HostIdentity)
      (got : Files × Option HostIdentity)
      → codec.unmarshal (codec.marshal (cng_meta provider)) ≡ some (cng_meta provider)
      → fs.writable (meta_path dir) ≡ true
      → is_empty provider ≡ false
      → later.open_cng provider cng_key_name false ≡ some id
      → got ≡ (note_provider keys codec dir provider fs, some id)
      → load_host_identity keys codec dir later got.0 ≡ (got.0, some id)
  stable_if_noted later provider fs id got back writable given opened new =
      let named = named-note_provider later provider fs back writable given ∙ ap some opened in
      subst (λ x. load_host_identity keys codec dir later x ≡ (x, some id))
        (sym (ap (λ x. x.0) new))
        (load_named later (note_provider keys codec dir provider fs) (some id) named)

  new_identity_stable :
      (earlier later : Machine) (fs : Files) (id : HostIdentity)
      → KeyLaws keys
      → KeepsKeys earlier later
      → KeepsMeta codec
      → fs.writable (meta_path dir) ≡ true
      → named_identity keys codec dir earlier (read_identity_meta codec dir fs) ≡ none
      → read_file (legacy_path dir) fs ≡ none
      → (new_identity keys codec dir earlier fs).1 ≡ some id
      → load_host_identity keys codec dir later (new_identity keys codec dir earlier fs).0
        ≡ ((new_identity keys codec dir earlier fs).0, some id)
  new_identity_stable earlier later fs id laws keeps back writable e k h =
      elim (Option-cases (earlier.open_cng cng_tpm_provider cng_key_name true)) [
        | inr (made, t) ↦
            let new : new_identity keys codec dir earlier fs
                ≡ (note_provider keys codec dir cng_tpm_provider fs, some made) =
              unfold new_identity in ground arith in
            let same : made ≡ id = ground (arith, new) in
            stable_if_noted later cng_tpm_provider fs id _ back.0 writable (unfold text in refl)
              (keeps.made cng_tpm_provider cng_key_name id (t ∙ ap some same))
              (new ∙ ap (λ x. (note_provider keys codec dir cng_tpm_provider fs, some x)) same)
        | inl t ↦ elim (Option-cases (earlier.open_cng cng_software_provider cng_key_name true)) [
          | inr (made, u) ↦
              let new : new_identity keys codec dir earlier fs
                  ≡ (note_provider keys codec dir cng_software_provider fs, some made) =
                unfold new_identity in ground arith in
              let same : made ≡ id = ground (arith, new) in
              stable_if_noted later cng_software_provider fs id _ back.1 writable
                (unfold text in refl)
                (keeps.made cng_software_provider cng_key_name id (u ∙ ap some same))
                (new
                  ∙ ap (λ x. (note_provider keys codec dir cng_software_provider fs, some x)) same)
          | inl u ↦
              let made = create_legacy keys (legacy_path dir) earlier.generated fs in
              let new : new_identity keys codec dir earlier fs ≡ made =
                unfold new_identity load_or_create_legacy in ground arith in
              let (bytes, r, is_id) =
                create_legacy-written keys laws (legacy_path dir) earlier.generated fs id
                  (ap (λ x. x.1) (sym new) ∙ h) in
              let away : named_identity keys codec dir later (read_identity_meta codec dir made.0)
                  ≡ none =
                ap (named_identity keys codec dir later) (create_legacy-meta earlier.generated fs)
                ∙ unnamed earlier later _ e in
              subst (λ x. load_host_identity keys codec dir later x ≡ (x, some id))
                (sym (ap (λ x. x.0) new))
                (load_there later made.0 bytes away r ∙ ap (λ x. (made.0, x)) is_id)
        ]
      ]

  -- The identity is the same at a later start, which finds the keys of the earlier one and changes
  -- no file: identity.json can be written and is read back, and the key library reads what it has
  -- written. This holds whether the key was named there, read from the PEM file, or made, with the
  -- TPM, in software or as a PEM file.
  pub load_host_identity_stable :
      (earlier later : Machine) (fs : Files) (id : HostIdentity)
      → KeyLaws keys
      → KeepsKeys earlier later
      → KeepsMeta codec
      → fs.writable (meta_path dir) ≡ true
      → (load_host_identity keys codec dir earlier fs).1 ≡ some id
      → load_host_identity keys codec dir later (load_host_identity keys codec dir earlier fs).0
        ≡ ((load_host_identity keys codec dir earlier fs).0, some id)
  load_host_identity_stable earlier later fs id laws keeps back writable h =
      elim (Option-cases
        (named_identity keys codec dir earlier (read_identity_meta codec dir fs))) [
          | inr (opened, e) ↦
              let first = load_named earlier fs opened e in
              let is_id : opened ≡ some id = ap (λ x. x.1) (sym first) ∙ h in
              let again =
                load_named later fs (some id)
                  (named_kept earlier later _ id keeps (e ∙ ap some is_id)) in
              subst (λ x. load_host_identity keys codec dir later x ≡ (x, some id))
                (sym (ap (λ x. x.0) first)) again
          | inl e ↦ elim (Option-cases (read_file (legacy_path dir) fs)) [
            | inr (bytes, k) ↦
                let first = load_there earlier fs bytes e k in
                let is_id : read_legacy keys bytes ≡ some id = ap (λ x. x.1) (sym first) ∙ h in
                let again = load_there later fs bytes (unnamed earlier later _ e) k in
                subst (λ x. load_host_identity keys codec dir later x ≡ (x, some id))
                  (sym (ap (λ x. x.0) first)) (again ∙ ap (λ x. (fs, x)) is_id)
            | inl k ↦
                let first = load_new earlier fs e k in
                subst (λ x. load_host_identity keys codec dir later x ≡ (x, some id))
                  (sym (ap (λ x. x.0) first))
                  (new_identity_stable earlier later fs id laws keeps back writable e k
                    (ap (λ x. x.1) (sym first) ∙ h))
          ]
        ]
