-- ===== src/Policy/Store.antt =====
-- policy.go: `ensurePolicy`, `loadPolicy` and `writePolicy`, the policy in the file policy.json.
pub mod Texts
pub mod Laws
mod Tests
use zorin_host_agent.Prelude.{
  ℕ, ◌≡◌, Bool, true, false, ◌&&◌, Option, none, some, List, [], ◌∷◌, ℤ, pos, lt_int, ltb, all,
  if◌then◌else◌,
}
use zorin_host_agent.Text.{Text, text}
use zorin_host_agent.Files.{Files, read_file, write_file, join_path}
use zorin_host_agent.Policy.{PolicyRule, PolicyConfig}
use zorin_host_agent.Policy.Defaults.{default_policy}
use zorin_host_agent.Policy.Migrate.{migrate_policy}

unfoldable pub rule_texts : (Text → Bool) → PolicyRule → Bool
rule_texts valid rule = valid rule.action && valid rule.resource && valid rule.effect

-- Every text of the policy has the property.
unfoldable pub policy_texts : (Text → Bool) → PolicyConfig → Bool
unfolding rule_texts
policy_texts valid cfg = valid cfg.default_effect && all (rule_texts valid) cfg.rules

unfoldable pub is_ascii : Text → Bool
is_ascii s = all (λ c. ltb c 128) s

-- What the agent relies on in encoding/json. `is_valid` tells the texts that are valid UTF-8, which
-- are those that JSON keeps.
pub record PolicyCodec : Type 0 where
  pub is_valid : Text → Bool
  pub marshal : PolicyConfig → Option Text
  pub unmarshal : Text → Option PolicyConfig
  pub ascii_is_valid : (s : Text) → is_ascii s ≡ true → is_valid s ≡ true
  pub decodes_valid :
      (raw : Text) (cfg : PolicyConfig)
      → unmarshal raw ≡ some cfg
      → policy_texts is_valid cfg ≡ true
  pub round_trip :
      (cfg : PolicyConfig) (raw : Text)
      → policy_texts is_valid cfg ≡ true
      → marshal cfg ≡ some raw
      → unmarshal raw ≡ some cfg

unfoldable pub policy_path : Text → Text
policy_path dir = join_path dir (text "policy.json")

module _ (codec : PolicyCodec) where
  -- The files, and whether there was no error.
  unfoldable pub write_policy : Text → PolicyConfig → Files → Files × Bool
  write_policy path cfg fs = elim (codec.marshal cfg) [
    | none ↦ (fs, false)
    | some raw ↦ write_file path raw fs
  ]

  -- The policy `cfg` is to be returned, once it is written.
  unfoldable pub write_then : Text → PolicyConfig → Files → Files × Option PolicyConfig
  write_then path cfg fs =
      let (fs', ok) = write_policy path cfg fs in (fs', if ok then some cfg else none)

  -- The policy that the file holds, if it decodes and has a positive version.
  unfoldable pub stored_policy : Text → Files → Option PolicyConfig
  stored_policy path fs = elim (read_file path fs) [
    | none ↦ none
    | some raw ↦ elim (codec.unmarshal raw) [
      | none ↦ none
      | some cfg ↦ if lt_int (pos 0) cfg.version then some cfg else none
    ]
  ]

  unfoldable pub migrate_stored : Text → PolicyConfig → Files → Files × Option PolicyConfig
  migrate_stored path cfg fs =
      let (cfg', changed) = migrate_policy cfg in
      if changed then write_then path cfg' fs else (fs, some cfg')

  -- `none` is an error.
  unfoldable pub ensure_policy : Text → Files → Files × Option PolicyConfig
  ensure_policy dir fs = elim (stored_policy (policy_path dir) fs) [
    | none ↦ write_then (policy_path dir) default_policy fs
    | some cfg ↦ migrate_stored (policy_path dir) cfg fs
  ]

  unfoldable pub load_policy : Text → Files → Files × PolicyConfig
  load_policy dir fs =
      let (fs', r) = ensure_policy dir fs in
      (fs', elim r [ none ↦ default_policy | some cfg ↦ cfg ])
