-- ===== src/Policy/Decision.antt =====
-- What `evaluatePolicy` decides, for every policy.
use zorin_host_agent.Prelude.{
  ◌≡◌, refl, sym, ap, ◌∙◌, ◌⊎◌, inl, inr, true, false, some, List, [], ◌∷◌, ◌++◌, arith, All,
  Bool-cases,
}
use mathlib.Core.Bool.{false≢true}
use zorin_host_agent.Text.{Text, text, equal_fold}
use zorin_host_agent.Policy.{
  PolicyRule, PolicyConfig, PolicyContext, PolicyDecision, rule_matches, decide_rule,
  decide_default, evaluate_rules, evaluate_policy,
}

abbrev pub Passes : Text → Text → PolicyRule → Type 0
Passes action resource rule = rule_matches rule action resource ≡ false

-- `rule` is the first of `rules` that matches the request.
pub record IsFirst (rules : List PolicyRule) (action resource : Text) (rule : PolicyRule)
    : Type 0 where
  pub before : List PolicyRule
  pub after : List PolicyRule
  pub split : rules ≡ before ++ rule ∷ after
  pub passes : All (Passes action resource) before
  pub hit : rule_matches rule action resource ≡ true

evaluate_rules-Passes :
    (d : Text) (before rules : List PolicyRule) (action resource : Text) (ctx : PolicyContext)
    → All (Passes action resource) before
    → evaluate_rules d (before ++ rules) action resource ctx
      ≡ evaluate_rules d rules action resource ctx
unfolding evaluate_rules
evaluate_rules-Passes d [] rules action resource ctx h = refl
evaluate_rules-Passes d (r ∷ before) rules action resource ctx h =
    rw h.0 (evaluate_rules-Passes d before rules action resource ctx h.1)

evaluate_rules-hit :
    (d : Text) (rule : PolicyRule) (rules : List PolicyRule) (action resource : Text)
    (ctx : PolicyContext)
    → rule_matches rule action resource ≡ true
    → evaluate_rules d (rule ∷ rules) action resource ctx ≡ decide_rule rule ctx
unfolding evaluate_rules
evaluate_rules-hit d rule rules action resource ctx h = rw h

-- The first rule that matches decides, whatever stands behind it.
pub evaluate_policy-first :
    (cfg : PolicyConfig) (action resource : Text) (ctx : PolicyContext) (rule : PolicyRule)
    → IsFirst cfg.rules action resource rule
    → evaluate_policy cfg action resource ctx ≡ decide_rule rule ctx
unfolding evaluate_policy
evaluate_policy-first cfg action resource ctx rule f =
    ap (λ rs. evaluate_rules cfg.default_effect rs action resource ctx) f.split
    ∙ evaluate_rules-Passes cfg.default_effect f.before _ action resource ctx f.passes
    ∙ evaluate_rules-hit _ rule f.after action resource ctx f.hit

pub find-IsFirst :
    (rules : List PolicyRule) (action resource : Text)
    → All (Passes action resource) rules
      ⊎ ((rule : PolicyRule) × IsFirst rules action resource rule)
find-IsFirst [] action resource = inl tt
find-IsFirst (r ∷ rules) action resource = elim (Bool-cases (rule_matches r action resource)) [
  | inl hit ↦ inr (r, record { before = []; after = rules; split = refl; passes = tt; hit = hit })
  | inr pass ↦ elim (find-IsFirst rules action resource) [
    | inl none_hit ↦ inl (pass, none_hit)
    | inr (rule, f) ↦ inr (
      rule,
      record {
        before = r ∷ f.before;
        after = f.after;
        split = ap (λ rs. r ∷ rs) f.split;
        passes = (pass, f.passes);
        hit = f.hit;
      },
    )
  ]
]

evaluate_rules-none :
    (d : Text) (rules : List PolicyRule) (action resource : Text) (ctx : PolicyContext)
    → All (Passes action resource) rules
    → evaluate_rules d rules action resource ctx ≡ decide_default d
unfolding evaluate_rules
evaluate_rules-none d [] action resource ctx h = refl
evaluate_rules-none d (r ∷ rules) action resource ctx h =
    rw h.0 (evaluate_rules-none d rules action resource ctx h.1)

-- The decision is that of the first rule of the policy that matches the request, whatever stands
-- behind it; where no rule matches, it is the default.
pub evaluate_policy_cases :
    (cfg : PolicyConfig) (action resource : Text) (ctx : PolicyContext)
    → (All (Passes action resource) cfg.rules
        × (evaluate_policy cfg action resource ctx ≡ decide_default cfg.default_effect))
      ⊎ ((rule : PolicyRule) × IsFirst cfg.rules action resource rule
          × (evaluate_policy cfg action resource ctx ≡ decide_rule rule ctx))
evaluate_policy_cases cfg action resource ctx = elim (find-IsFirst cfg.rules action resource) [
  | inl h ↦ inl (
    h,
    unfold evaluate_policy in
        evaluate_rules-none cfg.default_effect cfg.rules action resource ctx h,
  )
  | inr (rule, f) ↦ inr (rule, f, evaluate_policy-first cfg action resource ctx rule f)
]

-- What an allowing decision rests on.
pub record IsGranted (rule : PolicyRule) (ctx : PolicyContext) (d : PolicyDecision) : Type 0 where
  pub effect : equal_fold rule.effect (text "allow") ≡ true
  pub trust : (rule.require_trust ≡ false) ⊎ (ctx.trusted ≡ true)
  pub presence :
      (rule.require_presence ≡ false) ⊎ (d.require_explicit ≡ true) ⊎ (ctx.owner_present ≡ true)
  pub explicit : d.require_explicit ≡ rule.require_explicit
  pub rule_is : d.rule ≡ some rule

pub decide_rule-IsGranted :
    (rule : PolicyRule) (ctx : PolicyContext)
    → (decide_rule rule ctx).allowed ≡ true
    → IsGranted rule ctx (decide_rule rule ctx)
unfolding decide_rule
decide_rule-IsGranted rule ctx h = ground arith

decide_rule_mono :
    (rule : PolicyRule) (ctx ctx' : PolicyContext)
    → (ctx.trusted ≡ true → ctx'.trusted ≡ true)
    → (ctx.owner_present ≡ true → ctx'.owner_present ≡ true)
    → (decide_rule rule ctx).allowed ≡ true
    → decide_rule rule ctx' ≡ decide_rule rule ctx
unfolding decide_rule
decide_rule_mono rule ctx ctx' ht hp h = ground arith

-- Where the policy's default effect is not to allow, a request is allowed only by the first rule
-- that matches it: that rule's effect is allow, trust is there if it requires trust, and the owner
-- is present if it requires presence, unless it demands an explicit approval.
pub evaluate_policy_sound :
    (cfg : PolicyConfig) (action resource : Text) (ctx : PolicyContext)
    → equal_fold cfg.default_effect (text "allow") ≡ false
    → (evaluate_policy cfg action resource ctx).allowed ≡ true
    → (rule : PolicyRule) × IsFirst cfg.rules action resource rule
      × IsGranted rule ctx (evaluate_policy cfg action resource ctx)
evaluate_policy_sound cfg action resource ctx deny h =
    elim (evaluate_policy_cases cfg action resource ctx) [
      | inl (_, e) ↦ absurd (false≢true (sym deny ∙ unfold decide_default in (rw e at h)))
      | inr (rule, f, e) ↦ (rule, f, rw e (decide_rule-IsGranted rule ctx (rw e at h)))
    ]

-- A request that is allowed stays allowed, by the same decision, when trust or presence is gained.
pub evaluate_policy_mono :
    (cfg : PolicyConfig) (action resource : Text) (ctx ctx' : PolicyContext)
    → (ctx.trusted ≡ true → ctx'.trusted ≡ true)
    → (ctx.owner_present ≡ true → ctx'.owner_present ≡ true)
    → (evaluate_policy cfg action resource ctx).allowed ≡ true
    → evaluate_policy cfg action resource ctx' ≡ evaluate_policy cfg action resource ctx
evaluate_policy_mono cfg action resource ctx ctx' ht hp h =
    elim (find-IsFirst cfg.rules action resource) [
      | inl n ↦
          let p = λ (c : PolicyContext).
            evaluate_rules-none cfg.default_effect cfg.rules action resource c n in
          unfold evaluate_policy in (p ctx' ∙ sym (p ctx))
      | inr (rule, f) ↦
          let p = λ (c : PolicyContext). evaluate_policy-first cfg action resource c rule f in
          p ctx' ∙ decide_rule_mono rule ctx ctx' ht hp (rw (p ctx) at h) ∙ sym (p ctx)
    ]
