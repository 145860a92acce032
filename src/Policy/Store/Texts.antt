-- ===== src/Policy/Store/Texts.antt =====
-- `migratePolicy` adds ASCII texts alone, so a policy that JSON keeps stays one.
use zorin_host_agent.Prelude.{
  ℕ, ◌≡◌, refl, Bool, true, false, &&_iff, List, [], ◌∷◌, ◌++◌, map, arith, all,
}
use zorin_host_agent.Text.{Text, text}
use zorin_host_agent.Policy.{PolicyRule, PolicyConfig}
use zorin_host_agent.Policy.Defaults.{default_policy, default_rules}
use zorin_host_agent.Policy.Migrate.{
  explicit_if_named, presence_if_named, mark_explicit, mark_presence, Target, mark_all_explicit,
  mark_all_presence, explicit_targets, presence_targets, tighten, upgrade, migrate_to_6,
  migrate_policy, rules_of_2, rules_of_3, rules_of_4, rules_of_5, rules_of_6, rules_of_7,
  rules_of_8,
}
use zorin_host_agent.Policy.Store.{rule_texts, policy_texts, is_ascii}

abbrev IsAsciiRules : List PolicyRule → Type 0
IsAsciiRules rules = all (rule_texts is_ascii) rules ≡ true

ascii_2 : IsAsciiRules rules_of_2
unfolding rules_of_2 rule_texts is_ascii text
ascii_2 = refl

ascii_3 : IsAsciiRules rules_of_3
unfolding rules_of_3 rule_texts is_ascii text
ascii_3 = refl

ascii_4 : IsAsciiRules rules_of_4
unfolding rules_of_4 rule_texts is_ascii text
ascii_4 = refl

ascii_5 : IsAsciiRules rules_of_5
unfolding rules_of_5 rule_texts is_ascii text
ascii_5 = refl

ascii_6 : IsAsciiRules rules_of_6
unfolding rules_of_6 rule_texts is_ascii text
ascii_6 = refl

ascii_7 : IsAsciiRules rules_of_7
unfolding rules_of_7 rule_texts is_ascii text
ascii_7 = refl

ascii_8 : IsAsciiRules rules_of_8
unfolding rules_of_8 rule_texts is_ascii text
ascii_8 = refl

ascii_defaults : IsAsciiRules default_rules
unfolding default_rules rule_texts is_ascii text
ascii_defaults = refl

-- The texts of a policy keep a property that every ASCII text has.
module _ (valid : Text → Bool) (ascii : (s : Text) → is_ascii s ≡ true → valid s ≡ true) where
  all-append :
      (xs ys : List PolicyRule)
      → all (rule_texts valid) xs ≡ true
      → all (rule_texts valid) ys ≡ true
      → all (rule_texts valid) (xs ++ ys) ≡ true
  all-append [] ys h k = k
  all-append (x ∷ xs) ys h k = ground (arith, all-append xs ys)

  all-mark :
      (f : PolicyRule → PolicyRule) (rules : List PolicyRule)
      → ((x : PolicyRule) → rule_texts valid (f x) ≡ rule_texts valid x)
      → all (rule_texts valid) rules ≡ true
      → all (rule_texts valid) (map f rules) ≡ true
  all-mark f [] same h = refl
  all-mark f (x ∷ rules) same h = ground (arith, same x, all-mark f rules same)

  ascii_rules :
      (rules : List PolicyRule)
      → all (rule_texts is_ascii) rules ≡ true
      → all (rule_texts valid) rules ≡ true
  unfolding rule_texts
  ascii_rules [] h = refl
  ascii_rules (x ∷ rules) h =
      ground (arith, ascii x.action, ascii x.resource, ascii x.effect, ascii_rules rules)

  mark_all_explicit-texts :
      (targets : List Target) (rules : List PolicyRule)
      → all (rule_texts valid) rules ≡ true
      → all (rule_texts valid) (mark_all_explicit targets rules) ≡ true
  unfolding mark_all_explicit mark_explicit
  mark_all_explicit-texts [] rules h = h
  mark_all_explicit-texts ((a, r) ∷ targets) rules h = mark_all_explicit-texts targets _ (
      all-mark (explicit_if_named a r) rules
        (λ x. unfold rule_texts explicit_if_named in ground arith) h)

  mark_all_presence-texts :
      (targets : List Target) (rules : List PolicyRule)
      → all (rule_texts valid) rules ≡ true
      → all (rule_texts valid) (mark_all_presence targets rules) ≡ true
  unfolding mark_all_presence mark_presence
  mark_all_presence-texts [] rules h = h
  mark_all_presence-texts ((a, r) ∷ targets) rules h = mark_all_presence-texts targets _ (
      all-mark (presence_if_named a r) rules
        (λ x. unfold rule_texts presence_if_named in ground arith) h)

  upgrade-texts :
      (n : ℕ) (f : List PolicyRule → List PolicyRule) (s : PolicyConfig × Bool)
      → ((l : List PolicyRule)
          → all (rule_texts valid) l ≡ true
          → all (rule_texts valid) (f l) ≡ true)
      → policy_texts valid s.0 ≡ true
      → policy_texts valid (upgrade n f s).0 ≡ true
  unfolding upgrade policy_texts
  upgrade-texts n f (cfg, c) h k = ground (arith, h cfg.rules)

  append-texts :
      (more : List PolicyRule)
      → all (rule_texts is_ascii) more ≡ true
      → (l : List PolicyRule) → all (rule_texts valid) l ≡ true
      → all (rule_texts valid) (l ++ more) ≡ true
  append-texts more h l k = all-append l more k (ascii_rules more h)

  tighten-texts :
      (rules : List PolicyRule)
      → all (rule_texts valid) rules ≡ true
      → all (rule_texts valid) (tighten rules) ≡ true
  unfolding tighten
  tighten-texts rules h =
      mark_all_presence-texts presence_targets _ (mark_all_explicit-texts explicit_targets rules h)

  pub migrate_policy-texts :
      (cfg : PolicyConfig)
      → policy_texts valid cfg ≡ true
      → policy_texts valid (migrate_policy cfg).0 ≡ true
  unfolding migrate_policy migrate_to_6
  migrate_policy-texts cfg h = upgrade-texts 8 _ _ (append-texts rules_of_8 ascii_8) (
      upgrade-texts 7 _ _ (λ l k. append-texts rules_of_7 ascii_7 (tighten l) (tighten-texts l k))
        (upgrade-texts 6 _ _ (append-texts rules_of_6 ascii_6) (
          upgrade-texts 5 _ _ (append-texts rules_of_5 ascii_5) (
            upgrade-texts 4 _ _ (append-texts rules_of_4 ascii_4) (
              upgrade-texts 3 _ _ (append-texts rules_of_3 ascii_3)
                (upgrade-texts 2 _ (cfg, false) (append-texts rules_of_2 ascii_2) h))))))

  pub default_policy-texts : policy_texts valid default_policy ≡ true
  unfolding policy_texts default_policy
  default_policy-texts =
      (&&_iff _ _).1 (
        ascii (text "deny") (unfold is_ascii text in refl),
        ascii_rules default_rules ascii_defaults,
      )
