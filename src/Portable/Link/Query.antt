-- ===== src/Portable/Link/Query.antt =====
-- Reading a query, as `url.ParseQuery` does, and that the phone reads what the host has written.
pub mod Parsed
use zorin_host_agent.Prelude.{
  ℕ, ◌/◌, ◌%◌, ◌≤◌, ◌<◌, ◌≡◌, refl, ap, ap₂, ◌∙◌, inl, inr, false, Option, none, some, List, [],
  ◌∷◌, arith, ◌==◌, if◌then◌else◌, Bool-cases, All,
}
use zorin_host_agent.Text.{Text, contains_byte, cut}
use zorin_host_agent.Text.Hex.{hex_value, hex_pair, IsByte}
use zorin_host_agent.Portable.Link.{is_unreserved, upper_digit, query_escape}

-- A byte that stands for itself, or a plus for a space, before a text that is read.
put_plain : ℕ → Option Text → Option Text
put_plain c none = none
put_plain c (some s) = some ((if c == b'+' then 32 else c) ∷ s)

put_hex : Option ℕ → Option Text → Option Text
put_hex (some c) (some s) = some (c ∷ s)
put_hex _ _ = none

-- url.QueryUnescape
query_unescape : Text → Option Text
query_unescape [] = some []
query_unescape (c ∷ []) = if c == b'%' then none else put_plain c (some [])
query_unescape (c ∷ a ∷ []) =
    let next = query_unescape (a ∷ []) in if c == b'%' then none else put_plain c next
query_unescape (c ∷ a ∷ b ∷ s) =
    let next = query_unescape (a ∷ b ∷ s) in
    let behind = query_unescape s in
    if c == b'%' then put_hex (hex_pair a b) behind else put_plain c next

unescape_plain :
    (c : ℕ) (s : Text)
    → (c == b'%') ≡ false
    → query_unescape (c ∷ s) ≡ put_plain c (query_unescape s)
unfolding query_unescape
unescape_plain c [] h = ground arith
unescape_plain c (a ∷ []) h = rw h refl
unescape_plain c (a ∷ b ∷ s) h = rw h refl

hex_pair-upper_digit :
    (c : ℕ) → IsByte c → hex_pair (upper_digit (c / 16)) (upper_digit (c % 16)) ≡ some c
hex_pair-upper_digit c h =
    let value : (d : ℕ) → d < 16 → hex_value (upper_digit d) ≡ some d =
      unfold hex_value upper_digit in λ d k. ground arith in
    let x = value (c / 16) (omega arith) in
    let y = value (c % 16) (omega arith) in unfold hex_pair in ground (arith, x, y)

unescape_hex :
    (a b : ℕ) (s : Text)
    → query_unescape (b'%' ∷ a ∷ b ∷ s) ≡ put_hex (hex_pair a b) (query_unescape s)
unfolding query_unescape
unescape_hex a b s = refl

-- What is escaped is read back.
query_unescape-query_escape : (s : Text) → All IsByte s → query_unescape (query_escape s) ≡ some s
unfolding query_escape
query_unescape-query_escape [] h = unfold query_unescape in refl
query_unescape-query_escape (c ∷ s) h =
    let rest = query_unescape-query_escape s h.1 in
    elim (Bool-cases (is_unreserved c)) [
      | inl e ↦
          let k : (c == b'%') ≡ false = unfold is_unreserved in ground arith in
          let p : (c == b'+') ≡ false = unfold is_unreserved in ground arith in
          rw e (
            unescape_plain c (query_escape s) k
            ∙ ap (put_plain c) rest
            ∙ unfold put_plain in rw p refl)
      | inr e ↦ elim (Bool-cases (c == 32)) [
        | inl k ↦
            let q : c ≡ 32 = ground arith in
            rw (e, k)
              (unescape_plain b'+' (query_escape s) refl
                ∙ ap (put_plain b'+') rest
                ∙ unfold put_plain in ground arith)
        | inr k ↦
            rw (e, k)
              (unescape_hex _ _ (query_escape s)
                ∙ ap₂ put_hex (hex_pair-upper_digit c h.0) rest
                ∙ unfold put_hex in refl)
      ]
    ]

-- An escaped text holds neither & nor =.
upper_digit-ge : (d : ℕ) → d < 16 → (48 ≤ upper_digit d) × ((upper_digit d == b'=') ≡ false)
unfolding upper_digit
upper_digit-ge d h = ground arith

query_escape-plain :
    (s : Text)
    → All IsByte s
    → (contains_byte b'&' (query_escape s) ≡ false) × (contains_byte b'=' (query_escape s) ≡ false)
unfolding query_escape contains_byte
query_escape-plain [] h = (refl, refl)
query_escape-plain (c ∷ s) h =
    let (x, y) = query_escape-plain s h.1 in
    let u = upper_digit-ge (c / 16) (omega arith) in
    let v = upper_digit-ge (c % 16) (omega arith) in
    unfold is_unreserved in (ground arith, ground arith)

-- strings.Split on one byte
split_byte : ℕ → Text → List Text
split_byte c [] = [] ∷ []
split_byte c (a ∷ s) = elim (split_byte c s) [
  | [] ↦ []
  | part ∷ parts ↦ if a == c then [] ∷ part ∷ parts else (a ∷ part) ∷ parts
]

-- A part of a query: its key and its value, read.
parse_pair : Text → Option (Text × Text)
parse_pair s = elim (cut b'=' s) [
  | none ↦ none
  | some (k, v) ↦ elim (query_unescape k) [
    | none ↦ none
    | some key ↦ elim (query_unescape v) [ none ↦ none | some value ↦ some (key, value) ]
  ]
]

parse_pairs : List Text → Option (List (Text × Text))
parse_pairs [] = some []
parse_pairs (p ∷ ps) = elim (parse_pair p) [
  | none ↦ none
  | some pair ↦ elim (parse_pairs ps) [ none ↦ none | some rest ↦ some (pair ∷ rest) ]
]

-- The pairs of a query, in their order; every part must have a value.
pub parse_query : Text → Option (List (Text × Text))
parse_query s = parse_pairs (split_byte b'&' s)
