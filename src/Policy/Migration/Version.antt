-- ===== src/Policy/Migration/Version.antt =====
-- The version after `migratePolicy`, and when it changes a policy.
use zorin_host_agent.Prelude.{
  ℕ, suc, ◌≤◌, ◌≡◌, refl, ap, ◌∙◌, ◌⊎◌, inl, inr, Bool, true, false, List, arith, Bool-cases, ℤ,
  lt_int, pos, negsuc,
}
use zorin_host_agent.Policy.{PolicyRule, PolicyConfig}
use zorin_host_agent.Policy.Defaults.{policy_version}
use zorin_host_agent.Policy.Migrate.{upgrade, migrate_to_6, migrate_policy}

-- A step runs if the version is below its own.
pub upgrade_older :
    (n : ℕ) (f : List PolicyRule → List PolicyRule) (s : PolicyConfig × Bool)
    → lt_int s.0.version (pos n) ≡ true
    → ((upgrade n f s).0.version ≡ pos n) × ((upgrade n f s).1 ≡ true)
unfolding upgrade
upgrade_older n f (cfg, c) h = rw h (refl, refl)

pub upgrade_rules :
    (n : ℕ) (f : List PolicyRule → List PolicyRule) (s : PolicyConfig × Bool)
    → lt_int s.0.version (pos n) ≡ true
    → (upgrade n f s).0.rules ≡ f s.0.rules
unfolding upgrade
upgrade_rules n f (cfg, c) h = rw h

upgrade_current :
    (n : ℕ) (f : List PolicyRule → List PolicyRule) (s : PolicyConfig × Bool)
    → lt_int s.0.version (pos n) ≡ false
    → upgrade n f s ≡ s
unfolding upgrade
upgrade_current n f (cfg, c) h = rw h

lt_int_below : (v : ℤ) (n m : ℕ) → n ≤ m → lt_int v (pos m) ≡ false → lt_int v (pos n) ≡ false
lt_int_below (pos a) n m le h = ground arith
lt_int_below (negsuc a) n m le h = cc

-- A step up to the version n leaves a version below n + 1 below it.
upgrade_stays_below :
    (n m : ℕ) (f : List PolicyRule → List PolicyRule) (s : PolicyConfig × Bool)
    → suc n ≤ m
    → lt_int s.0.version (pos m) ≡ true
    → lt_int (upgrade n f s).0.version (pos m) ≡ true
unfolding upgrade
upgrade_stays_below n m f (cfg, c) le h = ground arith

upgrade_still :
    (n : ℕ) (f : List PolicyRule → List PolicyRule) (s : PolicyConfig × Bool) (cfg : PolicyConfig)
    → n ≤ 8
    → lt_int cfg.version (pos 8) ≡ false
    → s ≡ (cfg, false)
    → upgrade n f s ≡ (cfg, false)
upgrade_still n f s cfg le h e =
    ap (upgrade n f) e ∙ upgrade_current n f (cfg, false) (lt_int_below cfg.version n 8 le h)

pub migrate_to_6-below :
    (m : ℕ) (cfg : PolicyConfig)
    → 7 ≤ m
    → lt_int cfg.version (pos m) ≡ true
    → lt_int (migrate_to_6 (cfg, false)).0.version (pos m) ≡ true
unfolding migrate_to_6
migrate_to_6-below m cfg le old = upgrade_stays_below 6 m _ _ (omega arith) (
    upgrade_stays_below 5 m _ _ (omega arith) (
      upgrade_stays_below 4 m _ _ (omega arith) (
        upgrade_stays_below 3 m _ _ (omega arith)
          (upgrade_stays_below 2 m _ (cfg, false) (omega arith) old))))

pub migrate_policy-older :
    (cfg : PolicyConfig)
    → lt_int cfg.version (pos policy_version) ≡ true
    → ((migrate_policy cfg).0.version ≡ pos policy_version) × ((migrate_policy cfg).1 ≡ true)
unfolding migrate_policy
migrate_policy-older cfg old =
    upgrade_older 8 _ _
      (upgrade_stays_below 7 8 _ _ (omega arith) (migrate_to_6-below 8 cfg (omega arith) old))

pub migrate_policy-current :
    (cfg : PolicyConfig)
    → lt_int cfg.version (pos policy_version) ≡ false
    → migrate_policy cfg ≡ (cfg, false)
unfolding migrate_policy migrate_to_6
migrate_policy-current cfg new =
    let still =
      λ (n : ℕ) (le : n ≤ 8) (f : List PolicyRule → List PolicyRule) (s : PolicyConfig × Bool)
          (e : s ≡ (cfg, false)).
        upgrade_still n f s cfg le new e in
    still 8 (omega arith) _ _ (
      still 7 (omega arith) _ _ (
        still 6 (omega arith) _ _ (
          still 5 (omega arith) _ _ (
            still 4 (omega arith) _ _
              (still 3 (omega arith) _ _ (still 2 (omega arith) _ _ refl))))))

-- A policy of an older version is brought to the current one and reported as changed; any other is
-- left as it is and reported as unchanged. A second migration changes nothing.
pub migrate_policy-version :
    (cfg : PolicyConfig)
    → ((lt_int cfg.version (pos policy_version) ≡ true)
        × ((migrate_policy cfg).0.version ≡ pos policy_version)
        × ((migrate_policy cfg).1 ≡ true)
        × (migrate_policy (migrate_policy cfg).0 ≡ ((migrate_policy cfg).0, false)))
      ⊎ ((lt_int cfg.version (pos policy_version) ≡ false) × (migrate_policy cfg ≡ (cfg, false)))
migrate_policy-version cfg = elim (Bool-cases (lt_int cfg.version (pos policy_version))) [
  | inl old ↦
      let (current, changed) = migrate_policy-older cfg old in
      inl (old, current, changed, migrate_policy-current (migrate_policy cfg).0 (rw current))
  | inr new ↦ inr (new, migrate_policy-current cfg new)
]
