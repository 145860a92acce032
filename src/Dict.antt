-- ===== src/Dict.antt =====
-- Go's maps from strings, as association lists. The order of the entries stands for the order in
-- which one `range` over the map visits them, which Go leaves open.
pub mod Laws
use zorin_host_agent.Prelude.{
  ◌≡◌, Bool, Option, none, some, List, [], ◌∷◌, if◌then◌else◌, ◌||◌, false, map,
}
use zorin_host_agent.Text.{Text, text_eq}

abbrev pub Dict {ℓ} : Type ℓ → Type ℓ
Dict V = List (Text × V)

module _ {ℓ} {V : Type ℓ} where
  -- v, ok := m[k]
  unfoldable pub lookup : Text → Dict V → Option V
  lookup k [] = none
  lookup k ((j, v) ∷ m) = if text_eq j k then some v else lookup k m

  -- m[k] = v
  unfoldable pub insert : Text → V → Dict V → Dict V
  insert k v [] = (k, v) ∷ []
  insert k v ((j, w) ∷ m) = if text_eq j k then (k, v) ∷ m else (j, w) ∷ insert k v m

  -- delete(m, k)
  unfoldable pub delete : Text → Dict V → Dict V
  delete k [] = []
  delete k ((j, v) ∷ m) = let rest = delete k m in if text_eq j k then rest else (j, v) ∷ rest

  -- Whether a `range` over the map meets a value with the property `p`.
  unfoldable pub any_value : (V → Bool) → Dict V → Bool
  any_value p [] = false
  any_value p ((k, v) ∷ m) = p v || any_value p m

  -- The values in the order of a `range`.
  unfoldable pub values : Dict V → List V
  values [] = []
  values ((k, v) ∷ m) = v ∷ values m

  -- Every key stands once, as in any map of Go.
  abbrev pub IsMap : Dict V → Type ℓ
  IsMap [] = Unit
  IsMap ((k, v) ∷ m) = (lookup k m ≡ none) × IsMap m

-- m[k] of a map of strings, where a missing key reads as the empty string
unfoldable pub get_text : Text → Dict Text → Text
get_text k m = elim (lookup k m) [ none ↦ [] | some v ↦ v ]
