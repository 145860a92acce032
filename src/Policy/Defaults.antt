-- ===== src/Policy/Defaults.antt =====
-- policy.go: `policyVersion` and `defaultPolicy`.
use zorin_host_agent.Prelude.{ℕ, String, Bool, true, false, List, [], ◌∷◌, pos}
use zorin_host_agent.Text.{text}
use zorin_host_agent.Policy.{PolicyRule, PolicyConfig}

abbrev pub policy_version : ℕ
policy_version = 8

-- A literal `PolicyRule{…}`: action, resource, effect, trust, presence, explicit approval, TTL.
unfoldable pub rule_of : String → String → String → Bool → Bool → Bool → ℕ → PolicyRule
rule_of action resource effect trust presence explicit ttl = record {
  action = text action;
  resource = text resource;
  effect = text effect;
  require_trust = trust;
  require_presence = presence;
  require_explicit = explicit;
  proof_ttl_seconds = pos ttl;
}

unfoldable pub default_rules : List PolicyRule
unfolding rule_of
default_rules =
    rule_of "owner.session" "*" "allow" true true false 30
    ∷ rule_of "owner.console" "local:*" "allow" true true false 30
    ∷ rule_of "credential.owner-proof" "*" "allow" true false true 60
    ∷ rule_of "portable.session" "host:*" "allow" true false true 60
    ∷ rule_of "authority.authorize" "project:*" "allow" true false true 60
    ∷ rule_of "authority.authorize" "zauth:*" "allow" true false true 60
    ∷ rule_of "authority.project.manage" "project:*" "allow" true false true 60
    ∷ rule_of "authority.ssh.issue" "sshcert:*" "allow" true false true 60
    ∷ rule_of "ops.ssh-ca.enroll" "vps:*" "allow" true false true 60
    ∷ rule_of "ops.node.install" "vps:*" "allow" true false true 60
    ∷ rule_of "ops.terminal" "vps:*" "allow" true true false 45
    ∷ rule_of "ops.docker.*" "vps:*" "allow" true false true 45
    ∷ rule_of "ops.docker.*" "vps:*/container:*" "allow" true false true 45
    ∷ rule_of "os.pam.authenticate" "user:*" "allow" true false true 45
    ∷ rule_of "os.sudo.authorize" "user:*" "allow" true false true 45
    ∷ rule_of "os.windows.sensitive" "local:*" "allow" true false true 45
    ∷ rule_of "credential.ssh" "server:*" "deny" true false false 60
    ∷ []

unfoldable pub default_policy : PolicyConfig
unfolding default_rules
default_policy = record {
  version = pos policy_version;
  default_effect = text "deny";
  rules = default_rules;
}
