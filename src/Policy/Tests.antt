-- ===== src/Policy/Tests.antt =====
-- Runs of the policy, after policy_test.go, and the theorems at concrete inputs.
use zorin_host_agent.Prelude.{String, ◌≡◌, refl, ◌⊎◌, Bool, true, false, [], ◌∷◌, ◌++◌, pos}
use zorin_host_agent.Text.{text, text_eq, equal_fold, contains_byte}
use zorin_host_agent.Text.Utf8.{next_rune, decode_rune}
use zorin_host_agent.Glob.{path_match}
use zorin_host_agent.Policy.{
  PolicyRule, PolicyConfig, PolicyContext, match_policy, rule_matches, decide_rule, evaluate_rules,
  evaluate_policy,
}
use zorin_host_agent.Policy.Defaults.{default_policy, rule_of}
use zorin_host_agent.Policy.Migrate.{
  migrate_policy, migrate_to_6, upgrade, tighten, mark_all_explicit, mark_all_presence,
  mark_explicit, mark_presence, explicit_if_named, presence_if_named, names_rule, explicit_targets,
  presence_targets, rules_of_7, rules_of_8,
}
use zorin_host_agent.Policy.Decision.{IsFirst, IsGranted, evaluate_policy_sound}
use zorin_host_agent.Policy.DefaultDecisions.{
  default_policy-safe, default_policy-denies, default_policy-os_scopes, explicitly, os_rule,
  trusted_phone,
}
use zorin_host_agent.Policy.Migration.Priority.{IsLockedGrant, migrate_policy-no_silent_grant}

-- The pattern `a?` matches a letter behind the `a`, of one byte or of two, and no slash.
one_character :
    (path_match (text "a?") (text "ab") ≡ true)
    × (path_match (text "a?") (97 ∷ 195 ∷ 164 ∷ []) ≡ true)
    × (path_match (text "a?") (text "a/") ≡ false)
unfolding path_match text next_rune decode_rune
one_character = (refl, refl, refl)

-- The policy of TestPolicyMigrationToV7.
abbrev old_policy : PolicyConfig
old_policy = record {
  version = pos 6;
  default_effect = text "deny";
  rules =
      rule_of "authority.ssh.issue" "sshcert:*" "allow" true false false 60
      ∷ rule_of "ops.terminal" "vps:*" "allow" true false false 45
      ∷ [];
}

abbrev present : PolicyContext
present = record { trusted = true; owner_present = true }

abbrev locked : PolicyContext
locked = record { trusted = true; owner_present = false }

abbrev offline : PolicyContext
offline = record { trusted = false; owner_present = false }

abbrev allowed_by : PolicyConfig → String → String → PolicyContext → Bool
allowed_by cfg action resource ctx = (evaluate_policy cfg (text action) (text resource) ctx).allowed

-- TestDefaultPolicy
console_present : allowed_by default_policy "owner.console" "local:demo" present ≡ true
unfolding default_policy rule_of evaluate_policy evaluate_rules rule_matches match_policy path_match
    equal_fold text text_eq decide_rule
console_present = refl

console_locked : allowed_by default_policy "owner.console" "local:demo" locked ≡ false
unfolding default_policy rule_of evaluate_policy evaluate_rules rule_matches match_policy path_match
    equal_fold text text_eq decide_rule
console_locked = refl

ssh_denied : allowed_by default_policy "credential.ssh" "server:prod" present ≡ false
unfolding default_policy rule_of evaluate_policy evaluate_rules rule_matches match_policy path_match
    equal_fold text text_eq decide_rule
ssh_denied = refl

docker_container :
    allowed_by default_policy "ops.docker.restart" "vps:prod/container:web" locked ≡ true
unfolding default_policy rule_of evaluate_policy evaluate_rules rule_matches match_policy path_match
    equal_fold text text_eq decide_rule
docker_container = refl

evaluate_policy_sound_example :
    (rule : PolicyRule) × IsFirst default_policy.rules
      (text "owner.console")
      (text "local:demo")
      rule
    × IsGranted rule present
        (evaluate_policy default_policy (text "owner.console") (text "local:demo") present)
evaluate_policy_sound_example =
    evaluate_policy_sound default_policy (text "owner.console") (text "local:demo") present
      default_policy-denies console_present

default_policy-safe_example :
    (present.trusted ≡ true)
    × (((evaluate_policy default_policy
            (text "owner.console")
            (text "local:demo")
            present).require_explicit
          ≡ true)
        ⊎ (present.owner_present ≡ true))
default_policy-safe_example =
    default_policy-safe (text "owner.console") (text "local:demo") present console_present

no_slash : contains_byte b'/' (text "ivan") ≡ false
unfolding contains_byte text
no_slash = refl

default_policy-os_scopes_example :
    (evaluate_policy default_policy
        (text "os.pam.authenticate")
        (text "user:" ++ text "ivan")
        (trusted_phone false)
      ≡ explicitly (os_rule "os.pam.authenticate" "user:*"))
    × (evaluate_policy default_policy
          (text "os.sudo.authorize")
          (text "user:" ++ text "ivan")
          (trusted_phone false)
        ≡ explicitly (os_rule "os.sudo.authorize" "user:*"))
    × (evaluate_policy default_policy
          (text "os.windows.sensitive")
          (text "local:" ++ text "ivan")
          (trusted_phone false)
        ≡ explicitly (os_rule "os.windows.sensitive" "local:*"))
default_policy-os_scopes_example = default_policy-os_scopes (text "ivan") false no_slash

-- The second stored rule is the first that matches a terminal.
terminal-IsFirst :
    IsFirst old_policy.rules
      (text "ops.terminal")
      (text "vps:prod")
      (rule_of "ops.terminal" "vps:*" "allow" true false false 45)
unfolding rule_of rule_matches match_policy path_match equal_fold text text_eq
terminal-IsFirst = record {
  before = rule_of "authority.ssh.issue" "sshcert:*" "allow" true false false 60 ∷ [];
  after = [];
  split = refl;
  passes = (refl, tt);
  hit = refl;
}

terminal_after : allowed_by (migrate_policy old_policy).0 "ops.terminal" "vps:prod" present ≡ true
unfolding migrate_policy migrate_to_6 upgrade tighten mark_all_explicit mark_all_presence
    mark_explicit mark_presence explicit_if_named presence_if_named names_rule explicit_targets
    presence_targets rules_of_7 rules_of_8 evaluate_policy evaluate_rules rule_matches match_policy
    path_match equal_fold text text_eq decide_rule
terminal_after = refl

migrate_policy-no_silent_grant_example :
    ((evaluate_policy old_policy (text "ops.terminal") (text "vps:prod") present).allowed ≡ true)
    ⊎ IsLockedGrant (rule_of "ops.terminal" "vps:*" "allow" true false false 45) present
      × ((evaluate_policy
            (migrate_policy old_policy).0
            (text "ops.terminal")
            (text "vps:prod")
            present).require_explicit
          ≡ true)
migrate_policy-no_silent_grant_example =
    migrate_policy-no_silent_grant old_policy (text "ops.terminal") (text "vps:prod") present _
      terminal-IsFirst terminal_after
