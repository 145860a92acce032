-- ===== src/Policy/Store/Laws.antt =====
-- The policy file after `ensurePolicy` and `loadPolicy`.
use zorin_host_agent.Prelude.{
  ◌≡◌, refl, sym, ap, ◌∙◌, ◌⊎◌, inl, inr, true, false, none, some, arith, Bool-cases, Option-cases,
  lt_int, pos,
}
use zorin_host_agent.Text.{Text}
use zorin_host_agent.Files.{Files, read_file, read-write}
use zorin_host_agent.Policy.{PolicyConfig}
use zorin_host_agent.Policy.Defaults.{default_policy, policy_version}
use zorin_host_agent.Policy.Migrate.{migrate_policy}
use zorin_host_agent.Policy.Migration.Version.{migrate_policy-older, migrate_policy-current}
use zorin_host_agent.Policy.Store.{
  policy_texts, PolicyCodec, policy_path, write_policy, write_then, stored_policy, migrate_stored,
  ensure_policy, load_policy,
}
use zorin_host_agent.Policy.Store.Texts.{migrate_policy-texts, default_policy-texts}

module _ (codec : PolicyCodec) where
  -- The file holds this policy, and it is of the current version or a newer one.
  abbrev pub IsStored : Text → PolicyConfig → Files → Type 0
  IsStored path cfg fs =
      (stored_policy codec path fs ≡ some cfg) × (lt_int cfg.version (pos policy_version) ≡ false)

  write_then-stored :
      (path : Text) (cfg cfg' : PolicyConfig) (fs fs' : Files)
      → policy_texts codec.is_valid cfg ≡ true
      → lt_int (pos 0) cfg.version ≡ true
      → write_then codec path cfg fs ≡ (fs', some cfg')
      → (cfg' ≡ cfg) × (stored_policy codec path fs' ≡ some cfg)
  unfolding write_then write_policy stored_policy
  write_then-stored path cfg cfg' fs fs' valid positive h =
      elim (Option-cases (codec.marshal cfg)) [
        | inl e ↦ ground arith
        | inr (raw, e) ↦ ground (arith, codec.round_trip cfg raw, read-write path raw fs)
      ]

  stored-valid :
      (path : Text) (cfg : PolicyConfig) (fs : Files)
      → stored_policy codec path fs ≡ some cfg
      → policy_texts codec.is_valid cfg ≡ true
  unfolding stored_policy
  stored-valid path cfg fs h = elim (Option-cases (read_file path fs)) [
    | inl e ↦ ground arith
    | inr (raw, e) ↦ ground (arith, codec.decodes_valid raw cfg)
  ]

  stored-positive :
      (path : Text) (cfg : PolicyConfig) (fs : Files)
      → stored_policy codec path fs ≡ some cfg
      → lt_int (pos 0) cfg.version ≡ true
  unfolding stored_policy
  stored-positive path cfg fs h = ground arith

  migrate_stored-IsStored :
      (path : Text) (cfg cfg' : PolicyConfig) (fs fs' : Files)
      → stored_policy codec path fs ≡ some cfg
      → migrate_stored codec path cfg fs ≡ (fs', some cfg')
      → IsStored path cfg' fs'
  unfolding migrate_stored
  migrate_stored-IsStored path cfg cfg' fs fs' s h =
      elim (Bool-cases (lt_int cfg.version (pos policy_version))) [
        | inl old ↦
            let (current, changed) = migrate_policy-older cfg old in
            let w : write_then codec path (migrate_policy cfg).0 fs ≡ (fs', some cfg') =
              ground arith in
            let valid =
              migrate_policy-texts codec.is_valid codec.ascii_is_valid cfg
                (stored-valid path cfg fs s) in
            let (same, held) =
              write_then-stored path (migrate_policy cfg).0 cfg' fs fs' valid (rw current) w in
            (held ∙ ap some (sym same), rw (same, current))
        | inr new ↦ let e = migrate_policy-current cfg new in ground arith
      ]

  default_policy-version : default_policy.version ≡ pos policy_version
  unfolding default_policy
  default_policy-version = refl

  -- Where `ensurePolicy` returns a policy, the file holds that policy then, in the current version
  -- or a newer one.
  pub ensure_policy-IsStored :
      (dir : Text) (fs fs' : Files) (cfg : PolicyConfig)
      → ensure_policy codec dir fs ≡ (fs', some cfg)
      → IsStored (policy_path dir) cfg fs'
  unfolding ensure_policy
  ensure_policy-IsStored dir fs fs' cfg h =
      elim (Option-cases (stored_policy codec (policy_path dir) fs)) [
        | inl e ↦
            let w : write_then codec (policy_path dir) default_policy fs ≡ (fs', some cfg) =
              ground arith in
            ground (
              arith,
              write_then-stored (policy_path dir) default_policy cfg fs fs'
                  (default_policy-texts codec.is_valid codec.ascii_is_valid)
                  (rw default_policy-version) w,
              default_policy-version,
            )
        | inr (old, e) ↦ migrate_stored-IsStored (policy_path dir) old cfg fs fs' e (ground arith)
      ]

  -- Where `ensurePolicy` returns a policy, a second call returns the same policy and writes
  -- nothing.
  pub ensure_policy_idem :
      (dir : Text) (fs fs' : Files) (cfg : PolicyConfig)
      → ensure_policy codec dir fs ≡ (fs', some cfg)
      → ensure_policy codec dir fs' ≡ (fs', some cfg)
  ensure_policy_idem dir fs fs' cfg h =
      let (held, current) = ensure_policy-IsStored dir fs fs' cfg h in
      let same = migrate_policy-current cfg current in
      unfold ensure_policy migrate_stored in ground arith

  -- There is a policy to be written, the default or the migrated one, and it cannot be written.
  abbrev pub WriteFails : Text → Files → Type 0
  WriteFails dir fs =
      (cfg : PolicyConfig) × ((write_policy codec (policy_path dir) cfg fs).1 ≡ false)
      × (((cfg ≡ default_policy) × (stored_policy codec (policy_path dir) fs ≡ none))
          ⊎ (old : PolicyConfig) × (stored_policy codec (policy_path dir) fs ≡ some old)
            × (migrate_policy old ≡ (cfg, true)))

  ensure_policy-fails :
      (dir : Text) (fs : Files) → (ensure_policy codec dir fs).1 ≡ none → WriteFails dir fs
  unfolding ensure_policy write_then migrate_stored
  ensure_policy-fails dir fs h = elim (Option-cases (stored_policy codec (policy_path dir) fs)) [
    | inl e ↦ (default_policy, ground arith, inl (refl, e))
    | inr (old, e) ↦ ((migrate_policy old).0, ground arith, inr (old, e, ground arith))
  ]

  -- `loadPolicy` gives the policy that the file then holds, or the default policy; the latter only
  -- where a policy was to be written, the default one for a file without a policy or the migrated
  -- one for an old policy, and this write failed.
  pub load_policy-cases :
      (dir : Text) (fs : Files)
      → IsStored (policy_path dir) (load_policy codec dir fs).1 (load_policy codec dir fs).0
        ⊎ WriteFails dir fs × ((load_policy codec dir fs).1 ≡ default_policy)
  unfolding load_policy
  load_policy-cases dir fs = elim (Option-cases (ensure_policy codec dir fs).1) [
    | inl e ↦ inr (ensure_policy-fails dir fs e, ground arith)
    | inr (cfg, e) ↦
        let (held, current) =
          ensure_policy-IsStored dir fs (ensure_policy codec dir fs).0 cfg
            (ap (λ r. ((ensure_policy codec dir fs).0, r)) e) in
        inl (ground arith, ground arith)
  ]
