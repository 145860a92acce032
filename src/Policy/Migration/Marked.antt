-- ===== src/Policy/Migration/Marked.antt =====
-- What `markExplicit` and `markPresence` force, and that later calls of them keep it.
use zorin_host_agent.Prelude.{◌≡◌, ◌⊎◌, Bool, true, false, List, [], ◌∷◌, map, arith, All}
use zorin_host_agent.Text.{Text}
use zorin_host_agent.Policy.{PolicyRule}
use zorin_host_agent.Policy.Migrate.{
  names_rule, explicit_if_named, presence_if_named, mark_explicit, mark_presence, Target,
  mark_all_explicit, mark_all_presence,
}
use zorin_host_agent.Policy.Migration.{
  Tightened, explicit_if_named-Tightened, presence_if_named-Tightened,
}

-- Every rule for the target has the flag.
abbrev pub IsForced : (PolicyRule → Bool) → List PolicyRule → Target → Type 0
IsForced flag rules (action, resource) =
    All (λ rule. (names_rule action resource rule ≡ false) ⊎ (flag rule ≡ true)) rules

abbrev pub explicit_flag : PolicyRule → Bool
explicit_flag rule = rule.require_explicit

abbrev pub presence_flag : PolicyRule → Bool
presence_flag rule = rule.require_presence

pub explicit_kept :
    (x y : PolicyRule) → Tightened x y → explicit_flag x ≡ true → explicit_flag y ≡ true
explicit_kept x y h e = ground arith

pub presence_kept :
    (x y : PolicyRule) → Tightened x y → presence_flag x ≡ true → presence_flag y ≡ true
presence_kept x y h e = ground arith

names-Tightened :
    (a r : Text) (x y : PolicyRule) → Tightened x y → names_rule a r y ≡ names_rule a r x
unfolding names_rule
names-Tightened a r x y h = rw (h.action, h.resource)

module _ (flag : PolicyRule → Bool)
    (keeps : (x y : PolicyRule) → Tightened x y → flag x ≡ true → flag y ≡ true) where
  map-IsForced :
      (f : PolicyRule → PolicyRule) (t : Target) (rules : List PolicyRule)
      → ((x : PolicyRule) → Tightened x (f x))
      → IsForced flag rules t
      → IsForced flag (map f rules) t
  map-IsForced f t [] tight h = tt
  map-IsForced f (a, r) (x ∷ rules) tight h = (
    ground (arith, names-Tightened a r x (f x) (tight x), keeps x (f x) (tight x)),
    map-IsForced f (a, r) rules tight h.1,
  )

  pub mark_all_explicit-keeps :
      (targets : List Target) (t : Target) (rules : List PolicyRule)
      → IsForced flag rules t
      → IsForced flag (mark_all_explicit targets rules) t
  unfolding mark_all_explicit mark_explicit
  mark_all_explicit-keeps [] t rules h = h
  mark_all_explicit-keeps ((a, r) ∷ targets) t rules h =
      mark_all_explicit-keeps targets t (mark_explicit a r rules)
        (map-IsForced _ t rules (explicit_if_named-Tightened a r) h)

  pub mark_all_presence-keeps :
      (targets : List Target) (t : Target) (rules : List PolicyRule)
      → IsForced flag rules t
      → IsForced flag (mark_all_presence targets rules) t
  unfolding mark_all_presence mark_presence
  mark_all_presence-keeps [] t rules h = h
  mark_all_presence-keeps ((a, r) ∷ targets) t rules h =
      mark_all_presence-keeps targets t (mark_presence a r rules)
        (map-IsForced _ t rules (presence_if_named-Tightened a r) h)

mark_explicit-forces :
    (a r : Text) (rules : List PolicyRule) → IsForced explicit_flag (mark_explicit a r rules) (a, r)
unfolding mark_explicit explicit_if_named names_rule
mark_explicit-forces a r [] = tt
mark_explicit-forces a r (x ∷ rules) = (ground arith, mark_explicit-forces a r rules)

mark_presence-forces :
    (a r : Text) (rules : List PolicyRule) → IsForced presence_flag (mark_presence a r rules) (a, r)
unfolding mark_presence presence_if_named names_rule
mark_presence-forces a r [] = tt
mark_presence-forces a r (x ∷ rules) = (ground arith, mark_presence-forces a r rules)

pub mark_all_explicit-forces :
    (targets : List Target) (rules : List PolicyRule)
    → All (IsForced explicit_flag (mark_all_explicit targets rules)) targets
unfolding mark_all_explicit
mark_all_explicit-forces [] rules = tt
mark_all_explicit-forces ((a, r) ∷ targets) rules = (
  mark_all_explicit-keeps explicit_flag explicit_kept targets (a, r) (mark_explicit a r rules)
      (mark_explicit-forces a r rules),
  mark_all_explicit-forces targets (mark_explicit a r rules),
)

pub mark_all_presence-forces :
    (targets : List Target) (rules : List PolicyRule)
    → All (IsForced presence_flag (mark_all_presence targets rules)) targets
unfolding mark_all_presence
mark_all_presence-forces [] rules = tt
mark_all_presence-forces ((a, r) ∷ targets) rules = (
  mark_all_presence-keeps presence_flag presence_kept targets (a, r) (mark_presence a r rules)
      (mark_presence-forces a r rules),
  mark_all_presence-forces targets (mark_presence a r rules),
)
