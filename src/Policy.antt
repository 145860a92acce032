-- ===== src/Policy.antt =====
-- policy.go: the rules, and `evaluatePolicy`, which finds the first rule that matches a request.
pub mod Defaults
pub mod Migrate
pub mod Decision
pub mod DefaultDecisions
pub mod Migration
pub mod Store
mod Tests
use zorin_host_agent.Prelude.{
  ℕ, ◌≡◌, Bool, true, false, not, ◌&&◌, ◌||◌, Option, none, some, List, [], ◌∷◌, ◌++◌, ℤ,
  if◌then◌else◌,
}
use zorin_host_agent.Text.{Text, text, text_eq, equal_fold}
use zorin_host_agent.Glob.{path_match}

pub record PolicyRule : Type 0 where
  pub action : Text
  pub resource : Text
  pub effect : Text
  pub require_trust : Bool
  pub require_presence : Bool
  pub require_explicit : Bool
  pub proof_ttl_seconds : ℤ

pub record PolicyConfig : Type 0 where
  pub version : ℤ
  pub default_effect : Text
  pub rules : List PolicyRule

pub record PolicyContext : Type 0 where
  pub trusted : Bool
  pub owner_present : Bool

pub record PolicyDecision : Type 0 where
  pub allowed : Bool
  pub reason : Text
  pub require_explicit : Bool
  pub rule : Option PolicyRule

unfoldable pub match_policy : Text → Text → Bool
match_policy pattern value =
    if text_eq pattern (text "*")
    then true
    else if path_match pattern value
    then true
    else equal_fold pattern value

-- The condition on which the loop does not go on to the next rule.
unfoldable pub rule_matches : PolicyRule → Text → Text → Bool
rule_matches rule action resource =
    match_policy rule.action action && match_policy rule.resource resource

-- The rest of the loop's body, for the rule that matches.
unfoldable pub decide_rule : PolicyRule → PolicyContext → PolicyDecision
decide_rule rule context =
    if rule.require_trust && not context.trusted
    then record {
      allowed = false;
      reason = text "trusted owner session required";
      require_explicit = false;
      rule = some rule;
    }
    else if rule.require_presence && not rule.require_explicit && not context.owner_present
    then record {
      allowed = false;
      reason = text "owner presence required: phone is locked";
      require_explicit = false;
      rule = some rule;
    }
    else record {
      allowed = equal_fold rule.effect (text "allow");
      reason = text "matched policy rule: " ++ rule.effect;
      require_explicit = rule.require_explicit;
      rule = some rule;
    }

-- The decision where no rule matches.
unfoldable pub decide_default : Text → PolicyDecision
decide_default default_effect = record {
  allowed = equal_fold default_effect (text "allow");
  reason = text "default policy: " ++ default_effect;
  require_explicit = false;
  rule = none;
}

unfoldable pub evaluate_rules :
    Text → List PolicyRule → Text → Text → PolicyContext → PolicyDecision
evaluate_rules default_effect [] action resource context = decide_default default_effect
evaluate_rules default_effect (rule ∷ rules) action resource context =
    if rule_matches rule action resource
    then decide_rule rule context
    else evaluate_rules default_effect rules action resource context

unfoldable pub evaluate_policy : PolicyConfig → Text → Text → PolicyContext → PolicyDecision
evaluate_policy cfg action resource context =
    evaluate_rules cfg.default_effect cfg.rules action resource context
