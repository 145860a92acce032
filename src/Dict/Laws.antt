-- ===== src/Dict/Laws.antt =====
-- The laws of maps from strings.
use zorin_host_agent.Prelude.{
  ◌≡◌, refl, inl, inr, Bool, true, false, none, some, [], ◌∷◌, arith, if◌then◌else◌, Bool-cases,
  is_empty, All,
}
use zorin_host_agent.Text.{Text, text_eq}
use zorin_host_agent.Text.Laws.{text_eq_iff, text_eq_refl}
use zorin_host_agent.Dict.{Dict, lookup, insert, delete, any_value, values, IsMap}

module _ {ℓ} {V : Type ℓ} where
  pub lookup-insert :
      (k j : Text) (v : V) (m : Dict V)
      → lookup j (insert k v m) ≡ (if text_eq k j then some v else lookup j m)
  unfolding lookup insert
  lookup-insert k j v [] = refl
  lookup-insert k j v ((i, w) ∷ m) =
      ground (arith, text_eq_iff k j, text_eq_iff i k, text_eq_iff i j, lookup-insert k j v m)

  pub lookup-delete :
      (k j : Text) (m : Dict V) → lookup j (delete k m) ≡ (if text_eq k j then none else lookup j m)
  unfolding lookup delete
  lookup-delete k j [] = ground arith
  lookup-delete k j ((i, w) ∷ m) =
      ground (arith, text_eq_iff k j, text_eq_iff i k, text_eq_iff i j, lookup-delete k j m)

  pub lookup-insert_self : (k : Text) (v : V) (m : Dict V) → lookup k (insert k v m) ≡ some v
  lookup-insert_self k v m = rw (lookup-insert, text_eq_refl)

  pub lookup-delete_self : (k : Text) (m : Dict V) → lookup k (delete k m) ≡ none
  lookup-delete_self k m = rw (lookup-delete, text_eq_refl)

  pub insert-IsMap : (k : Text) (v : V) (m : Dict V) → IsMap m → IsMap (insert k v m)
  unfolding insert lookup
  insert-IsMap k v [] h = (refl, tt)
  insert-IsMap k v ((j, w) ∷ m) h =
      ground (arith, lookup-insert k j v m, insert-IsMap k v m, text_eq_iff j k, text_eq_iff k j)

  pub delete-IsMap : (k : Text) (m : Dict V) → IsMap m → IsMap (delete k m)
  unfolding delete lookup
  delete-IsMap k [] h = tt
  delete-IsMap k ((j, w) ∷ m) h =
      ground (arith, lookup-delete k j m, delete-IsMap k m, text_eq_iff k j)

  -- A range over a map meets a value with the property exactly if some key holds such a value.
  pub any_value→lookup :
      (p : V → Bool) (m : Dict V)
      → IsMap m
      → any_value p m ≡ true
      → (k : Text) × (v : V) × (lookup k m ≡ some v) × (p v ≡ true)
  unfolding any_value lookup
  any_value→lookup p [] h e = cc
  any_value→lookup p ((j, w) ∷ m) h e = elim (Bool-cases (p w)) [
    | inl here ↦ (j, w, rw text_eq_refl, here)
    | inr not_here ↦
        let (k, v, found, holds) = any_value→lookup p m h.1 (ground arith) in
        (k, v, ground (arith, text_eq_iff j k), holds)
  ]

  pub lookup→any_value :
      (p : V → Bool) (m : Dict V) (k : Text) (v : V)
      → lookup k m ≡ some v
      → p v ≡ true
      → any_value p m ≡ true
  unfolding any_value lookup
  lookup→any_value p [] k v e h = cc
  lookup→any_value p ((j, w) ∷ m) k v e h = ground (arith, lookup→any_value p m k v)

  pub lookup→not_empty : (k : Text) (m : Dict V) {v : V} → lookup k m ≡ some v → is_empty m ≡ false
  unfolding lookup
  lookup→not_empty k [] e = cc
  lookup→not_empty k (e ∷ m) h = refl

module _ {ℓ κ} {V : Type ℓ} (P : V → Type κ) where
  -- What holds of each value that some key finds holds of the values of a range.
  pub values-All :
      (m : Dict V) → IsMap m → ((k : Text) (v : V) → lookup k m ≡ some v → P v) → All P (values m)
  unfolding values lookup
  values-All [] h f = tt
  values-All ((k, v) ∷ m) h f =
      (f k v (rw text_eq_refl), values-All m h.1 (λ j w e. f j w (ground (arith, text_eq_iff k j))))

pub ruleset dict_laws =
    (lookup-insert, lookup-delete, lookup-insert_self, lookup-delete_self, text_eq_refl)
