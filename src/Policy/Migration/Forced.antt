-- ===== src/Policy/Migration/Forced.antt =====
-- The rules for which `migratePolicy` enforces an explicit approval or the owner's presence.
use zorin_host_agent.Prelude.{◌≡◌, ◌⊎◌, Bool, true, false, not, ◌&&◌, ◌||◌, List, [], ◌∷◌}
use zorin_host_agent.Text.{Text, text, text_eq, has_prefix}
use zorin_host_agent.Policy.{PolicyRule}
use zorin_host_agent.Policy.Migrate.{
  Target, explicit_targets, presence_targets, rules_of_7, rules_of_8,
}
use zorin_host_agent.Policy.Migration.Marked.{IsForced, explicit_flag, presence_flag}

abbrev AddedForced : (PolicyRule → Bool) → Target → Type 0
AddedForced flag t = IsForced flag rules_of_7 t × IsForced flag rules_of_8 t

-- Whether the target is among these.
has_target : Text → Text → List Target → Bool
has_target action resource [] = false
has_target action resource ((a, r) ∷ targets) =
    (text_eq a action && text_eq r resource) || has_target action resource targets

-- The actions that versions 7 and 8 have brought, for which an older policy has no rule of its own.
abbrev pub is_introduced : PolicyRule → Bool
is_introduced rule =
    has_prefix rule.action (text "os.") || text_eq rule.action (text "portable.session")

-- The rules demand for this target whatever the given rule demands for it.
abbrev pub IsAsStrict : List PolicyRule → PolicyRule → Type 0
IsAsStrict rules rule =
    ((rule.require_explicit ≡ false)
      ⊎ (is_introduced rule ≡ true)
      ⊎ IsForced explicit_flag rules (rule.action, rule.resource))
    × ((rule.require_presence ≡ false) ⊎ IsForced presence_flag rules (rule.action, rule.resource))

is_covered : PolicyRule → Bool
is_covered rule =
    (not rule.require_explicit
      || is_introduced rule
      || has_target rule.action rule.resource explicit_targets)
    && (not rule.require_presence || has_target rule.action rule.resource presence_targets)
