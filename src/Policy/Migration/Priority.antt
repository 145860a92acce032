-- ===== src/Policy/Migration/Priority.antt =====
-- After `migratePolicy` a stored rule decides the requests that it decided before.
use zorin_host_agent.Prelude.{
  ◌≡◌, refl, ap, subst, ◌∙◌, ◌⊎◌, true, false, List, [], ◌∷◌, ◌++◌, arith, All,
}
use zorin_host_agent.Text.{Text, text, equal_fold}
use zorin_host_agent.Policy.{
  PolicyRule, PolicyConfig, PolicyContext, rule_matches, decide_rule, evaluate_policy,
}
use zorin_host_agent.Policy.Migrate.{migrate_policy}
use zorin_host_agent.Policy.Decision.{Passes, IsFirst, evaluate_policy-first}
use zorin_host_agent.Policy.Migration.{Tightened, Extends, migrate_policy-Extends}

Tightened-matches :
    (r s : PolicyRule) (action resource : Text)
    → Tightened r s
    → rule_matches s action resource ≡ rule_matches r action resource
unfolding rule_matches
Tightened-matches r s action resource h = rw (h.action, h.resource)

-- The first match of the old list, seen in the new one.
IsFirst-in :
    (before after new : List PolicyRule) (rule : PolicyRule) (action resource : Text)
    → Extends (before ++ rule ∷ after) new
    → All (Passes action resource) before
    → rule_matches rule action resource ≡ true
    → (rule' : PolicyRule) × IsFirst new action resource rule' × Tightened rule rule'
IsFirst-in [] after [] rule action resource h p hit = absurd h
IsFirst-in [] after (s ∷ new) rule action resource h p hit = (
  s,
  record {
    before = [];
    after = new;
    split = refl;
    passes = tt;
    hit = Tightened-matches rule s action resource h.0 ∙ hit;
  },
  h.0,
)
IsFirst-in (r ∷ before) after [] rule action resource h p hit = absurd h
IsFirst-in (r ∷ before) after (s ∷ new) rule action resource h p hit =
    let (rule', f, t) = IsFirst-in before after new rule action resource h.1 p.1 hit in
    (
      rule',
      record {
        before = s ∷ f.before;
        after = f.after;
        split = ap (λ rs. s ∷ rs) f.split;
        passes = (Tightened-matches r s action resource h.0 ∙ p.0, f.passes);
        hit = f.hit;
      },
      t,
    )

-- A request that some stored rule decides is decided after the migration by that same rule,
-- tightened at most.
pub migrate_policy-priority :
    (cfg : PolicyConfig) (action resource : Text) (rule : PolicyRule)
    → IsFirst cfg.rules action resource rule
    → (rule' : PolicyRule) × IsFirst (migrate_policy cfg).0.rules action resource rule'
      × Tightened rule rule'
migrate_policy-priority cfg action resource rule f =
    IsFirst-in f.before f.after _ rule action resource
      (subst (λ rs. Extends rs (migrate_policy cfg).0.rules) f.split (migrate_policy-Extends cfg))
      f.passes f.hit

-- The rule allows the action, and what it misses is the unlocked phone alone.
abbrev pub IsLockedGrant : PolicyRule → PolicyContext → Type 0
IsLockedGrant rule ctx =
    (equal_fold rule.effect (text "allow") ≡ true)
    × ((rule.require_trust ≡ false) ⊎ (ctx.trusted ≡ true))
    × (rule.require_presence ≡ true)
    × (ctx.owner_present ≡ false)

Tightened-decision :
    (r s : PolicyRule) (ctx : PolicyContext)
    → Tightened r s
    → (decide_rule s ctx).allowed ≡ true
    → ((decide_rule r ctx).allowed ≡ true)
      ⊎ IsLockedGrant r ctx × ((decide_rule s ctx).require_explicit ≡ true)
unfolding decide_rule
Tightened-decision r s ctx h e = ground arith

-- Where a stored rule decides, what is allowed after the migration was allowed before, but for one
-- case: the rule allows the action to an unlocked phone, the phone is locked, and the migration has
-- put an explicit approval, which the request then demands, in place of the presence.
pub migrate_policy-no_silent_grant :
    (cfg : PolicyConfig) (action resource : Text) (ctx : PolicyContext) (rule : PolicyRule)
    → IsFirst cfg.rules action resource rule
    → (evaluate_policy (migrate_policy cfg).0 action resource ctx).allowed ≡ true
    → ((evaluate_policy cfg action resource ctx).allowed ≡ true)
      ⊎ IsLockedGrant rule ctx
        × ((evaluate_policy (migrate_policy cfg).0 action resource ctx).require_explicit ≡ true)
migrate_policy-no_silent_grant cfg action resource ctx rule f h =
    let (rule', f', t) = migrate_policy-priority cfg action resource rule f in
    let old = evaluate_policy-first cfg action resource ctx rule f in
    let new = evaluate_policy-first (migrate_policy cfg).0 action resource ctx rule' f' in
    rw (old, new) (Tightened-decision rule rule' ctx t (rw new at h))
