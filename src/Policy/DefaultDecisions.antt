-- ===== src/Policy/DefaultDecisions.antt =====
-- What the policy of `defaultPolicy` decides.
use zorin_host_agent.Prelude.{
  ℕ, suc, String, ◌≡◌, refl, subst, ◌∙◌, ◌⊎◌, inl, inr, Bool, true, false, not, ◌&&◌, ◌||◌, some,
  List, [], ◌∷◌, ◌++◌, arith, Bool-cases, take, drop, all, All,
}
use zorin_host_agent.Text.{Text, text, text_eq, equal_fold, contains_byte}
use zorin_host_agent.Glob.{slash, path_match}
use zorin_host_agent.Glob.Laws.{all_plain, path_match-prefix}
use zorin_host_agent.Policy.{
  PolicyRule, PolicyConfig, PolicyContext, PolicyDecision, rule_matches, match_policy, decide_rule,
  evaluate_policy,
}
use zorin_host_agent.Policy.Defaults.{default_policy, rule_of}
use zorin_host_agent.Policy.Decision.{
  Passes, IsGranted, evaluate_policy_sound, evaluate_policy-first,
}

-- A rule that allows nothing, or that asks for trust and for an approval or presence.
is_guarded : PolicyRule → Bool
is_guarded rule =
    not (equal_fold rule.effect (text "allow"))
    || rule.require_trust && (rule.require_explicit || rule.require_presence)

unfoldable pub all_guarded : List PolicyRule → Bool
unfolding is_guarded
all_guarded rules = all is_guarded rules

all-split :
    (p : PolicyRule → Bool) (before after : List PolicyRule) (rule : PolicyRule)
    → all p (before ++ rule ∷ after) ≡ true
    → p rule ≡ true
all-split p [] after rule h = ground arith
all-split p (r ∷ before) after rule h = all-split p before after rule (ground arith)

guarded_needs :
    (rule : PolicyRule) (ctx : PolicyContext) (d : PolicyDecision)
    → is_guarded rule ≡ true
    → IsGranted rule ctx d
    → (ctx.trusted ≡ true) × ((d.require_explicit ≡ true) ⊎ (ctx.owner_present ≡ true))
unfolding is_guarded
guarded_needs rule ctx d h g = (
  ground arith,
  elim (Bool-cases rule.require_explicit) [
    | inl explicit ↦ inl (g.explicit ∙ explicit)
    | inr silent ↦ inr (ground arith)
  ],
)

-- Under a policy of guarded rules that denies by default, whatever is allowed is allowed to a
-- trusted phone, and with an explicit approval to come or with the owner present.
pub evaluate_policy-guarded :
    (cfg : PolicyConfig) (action resource : Text) (ctx : PolicyContext)
    → equal_fold cfg.default_effect (text "allow") ≡ false
    → all_guarded cfg.rules ≡ true
    → (evaluate_policy cfg action resource ctx).allowed ≡ true
    → (ctx.trusted ≡ true)
      × (((evaluate_policy cfg action resource ctx).require_explicit ≡ true)
          ⊎ (ctx.owner_present ≡ true))
unfolding all_guarded
evaluate_policy-guarded cfg action resource ctx deny guarded h =
    let (rule, f, g) = evaluate_policy_sound cfg action resource ctx deny h in
    guarded_needs rule ctx _
      (all-split is_guarded f.before f.after rule
        (subst (λ rs. all is_guarded rs ≡ true) f.split guarded))
      g

pub default_policy-guarded : all_guarded default_policy.rules ≡ true
unfolding default_policy all_guarded equal_fold text
default_policy-guarded = refl

pub default_policy-denies : equal_fold default_policy.default_effect (text "allow") ≡ false
unfolding default_policy equal_fold text
default_policy-denies = refl

-- The default policy allows no request whatever without a trusted phone, and none without the
-- owner's presence or an explicit approval.
pub default_policy-safe :
    (action resource : Text) (ctx : PolicyContext)
    → (evaluate_policy default_policy action resource ctx).allowed ≡ true
    → (ctx.trusted ≡ true)
      × (((evaluate_policy default_policy action resource ctx).require_explicit ≡ true)
          ⊎ (ctx.owner_present ≡ true))
default_policy-safe action resource ctx h =
    evaluate_policy-guarded default_policy action resource ctx default_policy-denies
      default_policy-guarded h

prefix_matches :
    (s t : Text)
    → contains_byte slash t ≡ false
    → all_plain s ≡ true
    → match_policy (s ++ b'*' ∷ []) (s ++ t) ≡ true
unfolding match_policy
prefix_matches s t h plain = ground (arith, path_match-prefix s t plain)

-- No rule of the list is for this action.
ignores : Text → List PolicyRule → Bool
ignores action rules = all (λ rule. not (match_policy rule.action action)) rules

ignores-Passes :
    (action resource : Text) (rules : List PolicyRule)
    → ignores action rules ≡ true
    → All (Passes action resource) rules
unfolding ignores rule_matches
ignores-Passes action resource [] h = tt
ignores-Passes action resource (rule ∷ rules) h =
    (ground arith, ignores-Passes action resource rules (ground arith))

-- The place of the first rule for an action decides its requests.
decided_at :
    (n : ℕ) (action scope rest : Text) (rule : PolicyRule) (ctx : PolicyContext)
    → contains_byte slash rest ≡ false
    → all_plain scope ≡ true
    → rule.resource ≡ scope ++ b'*' ∷ []
    → match_policy rule.action action ≡ true
    → ignores action (take n default_policy.rules) ≡ true
    → default_policy.rules ≡ take n default_policy.rules ++ rule ∷ drop (suc n) default_policy.rules
    → evaluate_policy default_policy action (scope ++ rest) ctx ≡ decide_rule rule ctx
decided_at n action scope rest rule ctx no_slash plain is_scope hit ignored split =
    evaluate_policy-first default_policy action (scope ++ rest) ctx rule (record {
      before = take n default_policy.rules;
      after = drop (suc n) default_policy.rules;
      split = split;
      passes = ignores-Passes action (scope ++ rest) _ ignored;
      hit = unfold rule_matches in rw (hit, is_scope) (prefix_matches scope rest no_slash plain);
    })

-- The decision to allow by this rule, with an explicit approval to come.
abbrev pub explicitly : PolicyRule → PolicyDecision
explicitly rule = record {
  allowed = true;
  reason = text "matched policy rule: allow";
  require_explicit = true;
  rule = some rule;
}

abbrev pub trusted_phone : Bool → PolicyContext
trusted_phone present = record { trusted = true; owner_present = present }

abbrev pub os_rule : String → String → PolicyRule
os_rule action resource = rule_of action resource "allow" true false true 45

-- PAM and sudo for any user name, and a sensitive action of Windows on any local resource, where
-- the name holds no slash, are allowed to a trusted phone, locked or not, always with an explicit
-- approval and by a rule with a proof of 45 seconds.
pub default_policy-os_scopes :
    (name : Text) (present : Bool)
    → contains_byte slash name ≡ false
    → (evaluate_policy default_policy
          (text "os.pam.authenticate")
          (text "user:" ++ name)
          (trusted_phone present)
        ≡ explicitly (os_rule "os.pam.authenticate" "user:*"))
      × (evaluate_policy default_policy
            (text "os.sudo.authorize")
            (text "user:" ++ name)
            (trusted_phone present)
          ≡ explicitly (os_rule "os.sudo.authorize" "user:*"))
      × (evaluate_policy default_policy
            (text "os.windows.sensitive")
            (text "local:" ++ name)
            (trusted_phone present)
          ≡ explicitly (os_rule "os.windows.sensitive" "local:*"))
unfolding default_policy rule_of ignores match_policy path_match equal_fold text text_eq all_plain
    decide_rule
default_policy-os_scopes name present h = (
  decided_at 13 (text "os.pam.authenticate") (text "user:") name
      (os_rule "os.pam.authenticate" "user:*") (trusted_phone present) h refl refl refl refl refl,
  decided_at 14 (text "os.sudo.authorize") (text "user:") name
      (os_rule "os.sudo.authorize" "user:*") (trusted_phone present) h refl refl refl refl refl,
  decided_at 15 (text "os.windows.sensitive") (text "local:") name
      (os_rule "os.windows.sensitive" "local:*") (trusted_phone present) h refl refl refl refl refl,
)
