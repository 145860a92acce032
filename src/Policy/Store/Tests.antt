-- ===== src/Policy/Store/Tests.antt =====
-- The policy file at a concrete codec, which keeps the default policy alone.
use native.Mathlib.Decide.{ℕ_discrete}
use zorin_host_agent.Prelude.{
  ◌≡◌, refl, ◌⊎◌, true, Option, none, some, [], ◌∷◌, arith, if◌then◌else◌, ℤ,
}
use zorin_host_agent.Text.{Text, text, text_eq}
use zorin_host_agent.Text.Laws.{text_eq_refl}
use zorin_host_agent.Files.{Files, read_file, write_file}
use zorin_host_agent.Dict.{lookup, insert}
use zorin_host_agent.Policy.{PolicyConfig}
use zorin_host_agent.Policy.Defaults.{default_policy}
use zorin_host_agent.Policy.Store.{
  PolicyCodec, policy_path, ensure_policy, load_policy, stored_policy, write_then, write_policy,
}
use zorin_host_agent.Policy.Store.Texts.{default_policy-texts}
use zorin_host_agent.Policy.Store.Laws.{
  IsStored, ensure_policy-IsStored, WriteFails, load_policy-cases,
}

ℤ-discrete : Discrete ℤ
ℤ-discrete = hlevel ℕ_discrete

PolicyConfig-discrete : Discrete PolicyConfig
PolicyConfig-discrete = hlevel (ℕ_discrete, ℤ-discrete)

abbrev marshal_default : PolicyConfig → Option Text
marshal_default cfg = elim (PolicyConfig-discrete cfg default_policy) [
  | yes _ ↦ some (text "policy")
  | no _ ↦ none
]

abbrev unmarshal_default : Text → Option PolicyConfig
unmarshal_default raw = if text_eq raw (text "policy") then some default_policy else none

keeps_at :
    (cfg : PolicyConfig) (raw : Text) (d : Dec (cfg ≡ default_policy))
    → (elim d [ yes _ ↦ some (text "policy") | no _ ↦ none ]) ≡ some raw
    → unmarshal_default raw ≡ some cfg
keeps_at cfg raw (yes e) h = ground (arith, text_eq_refl (text "policy"))
keeps_at cfg raw (no n) h = cc

keeps_default :
    (cfg : PolicyConfig) (raw : Text)
    → marshal_default cfg ≡ some raw
    → unmarshal_default raw ≡ some cfg
keeps_default cfg raw h = keeps_at cfg raw (PolicyConfig-discrete cfg default_policy) h

decoded_default :
    (raw : Text) (cfg : PolicyConfig) → unmarshal_default raw ≡ some cfg → cfg ≡ default_policy
decoded_default raw cfg h = ground arith

abbrev codec : PolicyCodec
codec = record {
  is_valid = λ s. true;
  marshal = marshal_default;
  unmarshal = unmarshal_default;
  ascii_is_valid = λ s h. refl;
  decodes_valid =
      λ raw cfg h. rw (decoded_default raw cfg h) (default_policy-texts (λ s. true) (λ s h. refl));
  round_trip = λ cfg raw _ h. keeps_default cfg raw h;
}

marshal_at :
    (d : Dec (default_policy ≡ default_policy))
    → (elim d [ yes _ ↦ some (text "policy") | no _ ↦ none ]) ≡ some (text "policy")
marshal_at (yes e) = refl
marshal_at (no n) = absurd (n refl)

-- An empty directory, and the same with the policy written.
abbrev no_files : Files
no_files = record { contents = []; writable = λ path. true }

abbrev policy_written : Files
policy_written = record {
  contents = (policy_path (text "state"), text "policy") ∷ [];
  writable = λ path. true;
}

first_run : ensure_policy codec (text "state") no_files ≡ (policy_written, some default_policy)
unfolding ensure_policy stored_policy write_then write_policy read_file write_file lookup insert
first_run = ground (arith, marshal_at (PolicyConfig-discrete default_policy default_policy))

ensure_policy-IsStored_example :
    IsStored codec (policy_path (text "state")) default_policy policy_written
ensure_policy-IsStored_example =
    ensure_policy-IsStored codec (text "state") no_files policy_written default_policy first_run

load_policy-cases_example :
    IsStored codec
      (policy_path (text "state"))
      (load_policy codec (text "state") no_files).1
      (load_policy codec (text "state") no_files).0
    ⊎ WriteFails codec (text "state") no_files
      × ((load_policy codec (text "state") no_files).1 ≡ default_policy)
load_policy-cases_example = load_policy-cases codec (text "state") no_files
