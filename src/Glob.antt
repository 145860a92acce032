-- ===== src/Glob.antt =====
-- The function Match of Go's package path, as its documentation states it: `*` matches any sequence
-- without `/`, `?` one character but `/`, `[lo-hi]` and `[^lo-hi]` one character of a class, `\c` the
-- character c, and the whole text has to match. A malformed pattern matches nothing. A byte of the
-- text that begins no character counts as the character U+FFFD; in a class it is malformed.
pub mod Laws
use zorin_host_agent.Prelude.{
  ℕ, zero, suc, Bool, true, false, not, ◌&&◌, ◌||◌, Option, none, some, List, [], ◌∷◌, ◌++◌, leb,
  ◌==◌, if◌then◌else◌, length,
}
use zorin_host_agent.Text.{Text}
use zorin_host_agent.Text.Utf8.{decode_rune, next_rune}

pub data Item : Type 0 where
  star : Item
  one : Item
  literal : ℕ → Item
  class : Bool → List (ℕ × ℕ) → Item

abbrev pub slash : ℕ
slash = b'/'

abbrev pub backslash : ℕ
backslash = 92

-- One end of a range of a class.
class_rune : Text → Option (ℕ × Text)
class_rune [] = none
class_rune (a ∷ p) =
    if a == b'-' || a == b']'
    then none
    else if a == backslash
    then decode_rune p
    else decode_rune (a ∷ p)

-- The ranges up to the closing bracket. There is at least one range before it.
class_ranges : ℕ → List (ℕ × ℕ) → Text → Option (List (ℕ × ℕ) × Text)
class_ranges zero ranges p = none
class_ranges (suc f) ranges [] = none
class_ranges (suc f) [] (a ∷ p) = elim (class_rune (a ∷ p)) [
  | none ↦ none
  | some (lo, []) ↦ none
  | some (lo, d ∷ q) ↦ elim (d == b'-') [
    | true ↦ elim (class_rune q) [ none ↦ none | some (hi, r) ↦ class_ranges f ((lo, hi) ∷ []) r ]
    | false ↦ class_ranges f ((lo, lo) ∷ []) (d ∷ q)
  ]
]
class_ranges (suc f) (x ∷ ranges) (a ∷ p) = elim (a == b']') [
  | true ↦ some (x ∷ ranges, p)
  | false ↦ elim (class_rune (a ∷ p)) [
    | none ↦ none
    | some (lo, []) ↦ none
    | some (lo, d ∷ q) ↦ elim (d == b'-') [
      | true ↦ elim (class_rune q) [
        | none ↦ none
        | some (hi, r) ↦ class_ranges f ((x ∷ ranges) ++ (lo, hi) ∷ []) r
      ]
      | false ↦ class_ranges f ((x ∷ ranges) ++ (lo, lo) ∷ []) (d ∷ q)
    ]
  ]
]

-- What follows `[`.
class_item : Text → Option (Item × Text)
class_item [] = none
class_item (a ∷ p) =
    let negated = a == b'^' in
    elim (class_ranges (suc (length p)) [] (if negated then p else a ∷ p)) [
      | none ↦ none
      | some (ranges, rest) ↦ some (class negated ranges, rest)
    ]

-- The first item of a pattern that begins with `a`, and what follows it.
next_item : ℕ → Text → Option (Item × Text)
next_item a p =
    if a == b'*'
    then some (star, p)
    else if a == b'?'
    then some (one, p)
    else if a == b'['
    then class_item p
    else if a == backslash
    then elim p [ [] ↦ none | c ∷ q ↦ some (literal c, q) ]
    else some (literal a, p)

items_from : ℕ → Text → Option (List Item)
items_from f [] = some []
items_from zero (a ∷ p) = none
items_from (suc f) (a ∷ p) = elim (next_item a p) [
  | none ↦ none
  | some (item, rest) ↦ elim (items_from f rest) [ none ↦ none | some items ↦ some (item ∷ items) ]
]

-- Every item takes a byte of the pattern at least, so its length is enough fuel.
unfoldable pub items_of : Text → Option (List Item)
unfolding items_from next_item class_item class_ranges class_rune
items_of p = items_from (length p) p

in_ranges : List (ℕ × ℕ) → ℕ → Bool
in_ranges [] c = false
in_ranges ((lo, hi) ∷ ranges) c = leb lo c && leb c hi || in_ranges ranges c

accepts : Item → ℕ → Bool
accepts star c = not (c == slash)
accepts one c = not (c == slash)
accepts (literal a) c = a == c
accepts (class true ranges) c = not (in_ranges ranges c)
accepts (class false ranges) c = in_ranges ranges c

-- Whether the items that follow a star match the text behind some number of bytes but `/`.
skip : (Text → Bool) → Text → Bool
skip next [] = next []
skip next (c ∷ s) = let further = skip next s in next (c ∷ s) || not (c == slash) && further

matches : List Item → Text → Bool
matches [] [] = true
matches [] (c ∷ s) = false
matches (star ∷ items) s = skip (matches items) s
matches (one ∷ items) [] = false
matches (one ∷ items) (c ∷ s) = accepts one c && matches items (next_rune c s).1
matches (literal a ∷ items) [] = false
matches (literal a ∷ items) (c ∷ s) = accepts (literal a) c && matches items s
matches (class negated ranges ∷ items) [] = false
matches (class negated ranges ∷ items) (c ∷ s) =
    accepts (class negated ranges) (next_rune c s).0 && matches items (next_rune c s).1

-- ok, err := path.Match(pattern, name); err == nil && ok
unfoldable pub path_match : Text → Text → Bool
unfolding items_of matches skip accepts in_ranges
path_match pattern name = elim (items_of pattern) [ none ↦ false | some items ↦ matches items name ]
