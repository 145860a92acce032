-- ===== src/Policy/Migration.antt =====
-- What `migratePolicy` keeps and what it enforces, for every stored policy.
pub mod Marked
pub mod Forced
pub mod Priority
pub mod Version
use zorin_host_agent.Prelude.{
  ℕ, ◌≡◌, refl, sym, subst, ap, ◌∙◌, ◌↔◌, ◌⊎◌, inl, inr, Bool, true, false, not, ◌&&◌, ◌||◌, Option,
  none, some, List, [], ◌∷◌, ◌++◌, map, arith, if◌then◌else◌, all, All, Bool-cases, ℤ, pos, negsuc,
  lt_int,
}
use zorin_host_agent.Text.{Text, text, text_eq, equal_fold}
use zorin_host_agent.Policy.{
  PolicyRule, PolicyConfig, PolicyContext, PolicyDecision, rule_matches, decide_rule,
  evaluate_policy,
}
use zorin_host_agent.Policy.Defaults.{policy_version}
use zorin_host_agent.Policy.Migrate.{
  names_rule, explicit_if_named, presence_if_named, mark_explicit, mark_presence, Target,
  mark_all_explicit, mark_all_presence, explicit_targets, presence_targets, tighten, upgrade,
  migrate_to_6, migrate_policy, rules_of_2, rules_of_3, rules_of_4, rules_of_5, rules_of_6,
  rules_of_7, rules_of_8,
}
use zorin_host_agent.Policy.Decision.{Passes, IsFirst, evaluate_policy-first}

-- The same rule, with at most its two flags raised.
pub record Tightened (old new : PolicyRule) : Type 0 where
  pub action : new.action ≡ old.action
  pub resource : new.resource ≡ old.resource
  pub effect : new.effect ≡ old.effect
  pub trust : new.require_trust ≡ old.require_trust
  pub ttl : new.proof_ttl_seconds ≡ old.proof_ttl_seconds
  pub explicit : (old.require_explicit ≡ false) ⊎ (new.require_explicit ≡ true)
  pub presence : (old.require_presence ≡ false) ⊎ (new.require_presence ≡ true)

-- The old rules stand in their order in front of the new list, tightened at most.
abbrev pub Extends : List PolicyRule → List PolicyRule → Type 0
Extends [] new = Unit
Extends (r ∷ old) [] = ⊥
Extends (r ∷ old) (s ∷ new) = Tightened r s × Extends old new

Bool-flag : (b : Bool) → (b ≡ false) ⊎ (b ≡ true)
Bool-flag true = inr refl
Bool-flag false = inl refl

Tightened-refl : (r : PolicyRule) → Tightened r r
Tightened-refl r = record {
  action = refl;
  resource = refl;
  effect = refl;
  trust = refl;
  ttl = refl;
  explicit = Bool-flag r.require_explicit;
  presence = Bool-flag r.require_presence;
}

Tightened-trans : (r s t : PolicyRule) → Tightened r s → Tightened s t → Tightened r t
Tightened-trans r s t h k = record {
  action = k.action ∙ h.action;
  resource = k.resource ∙ h.resource;
  effect = k.effect ∙ h.effect;
  trust = k.trust ∙ h.trust;
  ttl = k.ttl ∙ h.ttl;
  explicit = ground arith;
  presence = ground arith;
}

Extends-refl : (rules : List PolicyRule) → Extends rules rules
Extends-refl [] = tt
Extends-refl (r ∷ rules) = (Tightened-refl r, Extends-refl rules)

Extends-trans : (a b c : List PolicyRule) → Extends a b → Extends b c → Extends a c
Extends-trans [] b c h k = tt
Extends-trans (r ∷ a) [] c h k = absurd h
Extends-trans (r ∷ a) (s ∷ b) [] h k = absurd k
Extends-trans (r ∷ a) (s ∷ b) (t ∷ c) h k =
    (Tightened-trans r s t h.0 k.0, Extends-trans a b c h.1 k.1)

Extends-append : (rules more : List PolicyRule) → Extends rules (rules ++ more)
Extends-append [] more = tt
Extends-append (r ∷ rules) more = (Tightened-refl r, Extends-append rules more)

Extends-map :
    (f : PolicyRule → PolicyRule) (rules : List PolicyRule)
    → ((r : PolicyRule) → Tightened r (f r))
    → Extends rules (map f rules)
Extends-map f [] h = tt
Extends-map f (r ∷ rules) h = (h r, Extends-map f rules h)

pub explicit_if_named-Tightened :
    (action resource : Text) (r : PolicyRule) → Tightened r (explicit_if_named action resource r)
unfolding explicit_if_named
explicit_if_named-Tightened action resource r = ground arith

pub presence_if_named-Tightened :
    (action resource : Text) (r : PolicyRule) → Tightened r (presence_if_named action resource r)
unfolding presence_if_named
presence_if_named-Tightened action resource r = ground arith

mark_all_explicit-Extends :
    (targets : List Target) (rules : List PolicyRule)
    → Extends rules (mark_all_explicit targets rules)
unfolding mark_all_explicit mark_explicit
mark_all_explicit-Extends [] rules = Extends-refl rules
mark_all_explicit-Extends ((a, r) ∷ targets) rules =
    Extends-trans rules (mark_explicit a r rules) _
      (Extends-map _ rules (explicit_if_named-Tightened a r))
      (mark_all_explicit-Extends targets (mark_explicit a r rules))

mark_all_presence-Extends :
    (targets : List Target) (rules : List PolicyRule)
    → Extends rules (mark_all_presence targets rules)
unfolding mark_all_presence mark_presence
mark_all_presence-Extends [] rules = Extends-refl rules
mark_all_presence-Extends ((a, r) ∷ targets) rules =
    Extends-trans rules (mark_presence a r rules) _
      (Extends-map _ rules (presence_if_named-Tightened a r))
      (mark_all_presence-Extends targets (mark_presence a r rules))

tighten-Extends : (rules : List PolicyRule) → Extends rules (tighten rules)
unfolding tighten
tighten-Extends rules =
    Extends-trans rules (mark_all_explicit explicit_targets rules) _
      (mark_all_explicit-Extends explicit_targets rules)
      (mark_all_presence-Extends presence_targets _)

upgrade-Extends :
    (n : ℕ) (change : List PolicyRule → List PolicyRule) (s : PolicyConfig × Bool)
    → ((rules : List PolicyRule) → Extends rules (change rules))
    → Extends s.0.rules (upgrade n change s).0.rules
unfolding upgrade
upgrade-Extends n change (cfg, changed) h = elim (Bool-cases (lt_int cfg.version (pos n))) [
  | inl older ↦ rw older (h cfg.rules)
  | inr newer ↦ rw newer (Extends-refl cfg.rules)
]

-- One more step keeps what the steps before it kept.
then_upgrade :
    (rules : List PolicyRule) (n : ℕ) (change : List PolicyRule → List PolicyRule)
    (s : PolicyConfig × Bool)
    → ((l : List PolicyRule) → Extends l (change l))
    → Extends rules s.0.rules
    → Extends rules (upgrade n change s).0.rules
then_upgrade rules n change s h k = Extends-trans rules s.0.rules _ k (upgrade-Extends n change s h)

append-Extends : (more rules : List PolicyRule) → Extends rules (rules ++ more)
append-Extends more rules = Extends-append rules more

-- The migration keeps every stored rule, in its order and in front of the rules that it adds, with
-- its action, resource, effect, trust and TTL; it raises flags at most.
pub migrate_policy-Extends : (cfg : PolicyConfig) → Extends cfg.rules (migrate_policy cfg).0.rules
unfolding migrate_policy migrate_to_6
migrate_policy-Extends cfg = then_upgrade cfg.rules _ _ _ (append-Extends rules_of_8) (
    then_upgrade cfg.rules 7 _ _
      (λ l. Extends-trans l (tighten l) _ (tighten-Extends l) (append-Extends rules_of_7 _))
      (then_upgrade cfg.rules 6 _ _ (append-Extends rules_of_6) (
        then_upgrade cfg.rules 5 _ _ (append-Extends rules_of_5) (
          then_upgrade cfg.rules 4 _ _ (append-Extends rules_of_4) (
            then_upgrade cfg.rules 3 _ _ (append-Extends rules_of_3) (
              then_upgrade cfg.rules 2 _ (cfg, false) (append-Extends rules_of_2)
                (Extends-refl cfg.rules)))))))
