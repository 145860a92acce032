-- ===== src/Policy/Migrate.antt =====
-- policy.go: `migratePolicy`, which brings a stored policy to the current version step by step,
-- and the two functions that tighten rules in place.
use zorin_host_agent.Prelude.{
  ℕ, Bool, true, false, ◌&&◌, List, [], ◌∷◌, ◌++◌, map, pos, lt_int, if◌then◌else◌,
}
use zorin_host_agent.Text.{Text, text, text_eq}
use zorin_host_agent.Policy.{PolicyRule, PolicyConfig}
use zorin_host_agent.Policy.Defaults.{rule_of, policy_version}

unfoldable pub names_rule : Text → Text → PolicyRule → Bool
names_rule action resource rule = text_eq rule.action action && text_eq rule.resource resource

-- The body of the loop of `markExplicit`.
unfoldable pub explicit_if_named : Text → Text → PolicyRule → PolicyRule
explicit_if_named action resource rule =
    if names_rule action resource rule then record rule { require_explicit = true } else rule

unfoldable pub presence_if_named : Text → Text → PolicyRule → PolicyRule
presence_if_named action resource rule =
    if names_rule action resource rule then record rule { require_presence = true } else rule

unfoldable pub mark_explicit : Text → Text → List PolicyRule → List PolicyRule
mark_explicit action resource rules = map (explicit_if_named action resource) rules

unfoldable pub mark_presence : Text → Text → List PolicyRule → List PolicyRule
mark_presence action resource rules = map (presence_if_named action resource) rules

unfoldable pub rules_of_2 : List PolicyRule
unfolding rule_of
rules_of_2 =
    rule_of "authority.authorize" "project:*" "allow" true false false 60
    ∷ rule_of "ops.terminal" "vps:*" "allow" true false false 45
    ∷ rule_of "ops.docker.*" "vps:*" "allow" true false false 45
    ∷ []

unfoldable pub rules_of_3 : List PolicyRule
unfolding rule_of
rules_of_3 = rule_of "authority.authorize" "zauth:*" "allow" true false false 60 ∷ []

unfoldable pub rules_of_4 : List PolicyRule
unfolding rule_of
rules_of_4 = rule_of "ops.docker.*" "vps:*/container:*" "allow" true false false 45 ∷ []

unfoldable pub rules_of_5 : List PolicyRule
unfolding rule_of
rules_of_5 = rule_of "authority.project.manage" "project:*" "allow" true false false 60 ∷ []

unfoldable pub rules_of_6 : List PolicyRule
unfolding rule_of
rules_of_6 =
    rule_of "authority.ssh.issue" "sshcert:*" "allow" true false false 60
    ∷ rule_of "ops.ssh-ca.enroll" "vps:*" "allow" true false false 60
    ∷ rule_of "ops.node.install" "vps:*" "allow" true false false 60
    ∷ []

unfoldable pub rules_of_7 : List PolicyRule
unfolding rule_of
rules_of_7 =
    rule_of "os.pam.authenticate" "user:*" "allow" true false true 45
    ∷ rule_of "os.sudo.authorize" "user:*" "allow" true false true 45
    ∷ rule_of "os.windows.sensitive" "local:*" "allow" true false true 45
    ∷ []

unfoldable pub rules_of_8 : List PolicyRule
unfolding rule_of
rules_of_8 = rule_of "portable.session" "host:*" "allow" true false true 60 ∷ []

-- One argument list of `markExplicit` or `markPresence`.
abbrev pub Target : Type 0
Target = Text × Text

unfoldable pub explicit_targets : List Target
explicit_targets =
    (text "credential.owner-proof", text "*")
    ∷ (text "authority.authorize", text "project:*")
    ∷ (text "authority.authorize", text "zauth:*")
    ∷ (text "authority.project.manage", text "project:*")
    ∷ (text "authority.ssh.issue", text "sshcert:*")
    ∷ (text "ops.ssh-ca.enroll", text "vps:*")
    ∷ (text "ops.node.install", text "vps:*")
    ∷ (text "ops.docker.*", text "vps:*")
    ∷ (text "ops.docker.*", text "vps:*/container:*")
    ∷ []

unfoldable pub presence_targets : List Target
presence_targets =
    (text "owner.session", text "*")
    ∷ (text "owner.console", text "local:*")
    ∷ (text "ops.terminal", text "vps:*")
    ∷ []

-- A run of calls of `markExplicit`.
unfoldable pub mark_all_explicit : List Target → List PolicyRule → List PolicyRule
mark_all_explicit [] rules = rules
mark_all_explicit ((action, resource) ∷ targets) rules =
    mark_all_explicit targets (mark_explicit action resource rules)

unfoldable pub mark_all_presence : List Target → List PolicyRule → List PolicyRule
mark_all_presence [] rules = rules
mark_all_presence ((action, resource) ∷ targets) rules =
    mark_all_presence targets (mark_presence action resource rules)

unfoldable pub tighten : List PolicyRule → List PolicyRule
tighten rules = mark_all_presence presence_targets (mark_all_explicit explicit_targets rules)

-- `if cfg.Version < n { …; cfg.Version = n; changed = true }`, on the policy and `changed`.
unfoldable pub upgrade :
    ℕ → (List PolicyRule → List PolicyRule) → PolicyConfig × Bool → PolicyConfig × Bool
upgrade n change (cfg, changed) =
    if lt_int cfg.version (pos n)
    then (record cfg { rules = change cfg.rules; version = pos n }, true)
    else (cfg, changed)

-- The steps up to version 6 only append rules.
unfoldable pub migrate_to_6 : PolicyConfig × Bool → PolicyConfig × Bool
migrate_to_6 s =
    upgrade 6 (λ rules. rules ++ rules_of_6)
      (upgrade 5 (λ rules. rules ++ rules_of_5)
        (upgrade 4 (λ rules. rules ++ rules_of_4)
          (upgrade 3 (λ rules. rules ++ rules_of_3) (upgrade 2 (λ rules. rules ++ rules_of_2) s))))

-- The policy after the migration, and whether it has changed.
unfoldable pub migrate_policy : PolicyConfig → PolicyConfig × Bool
migrate_policy cfg =
    upgrade policy_version (λ rules. rules ++ rules_of_8)
      (upgrade 7 (λ rules. tighten rules ++ rules_of_7) (migrate_to_6 (cfg, false)))
