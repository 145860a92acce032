-- ===== src/Text.antt =====
-- Go's strings, as lists of bytes, with the functions of the package strings that the agent
-- uses. Letters fold and spaces are trimmed as in ASCII.
pub mod Laws
pub mod Hex
pub mod Utf8
pub mod Decimal
use Prim.Native.Char.{code}
use zorin_host_agent.Prelude.{
  ℕ, ◌+◌, ◌-◌, String, Bool, true, false, ◌&&◌, ◌||◌, Option, none, some, List, [], ◌∷◌, ◌++◌, leb,
  ◌==◌, if◌then◌else◌, is_empty,
}

abbrev pub Text : Type 0
Text = List ℕ

abbrev codes : String → Text
codes String.[] = []
codes (String.◌∷◌ c s) = code c ∷ codes s

-- The bytes of a literal, which are its code points: all literals here are ASCII. It is shut, so
-- that a proof that does not look into a literal does not walk it.
unfoldable pub text : String → Text
text s = codes s

-- s == t
unfoldable pub text_eq : Text → Text → Bool
text_eq [] [] = true
text_eq (a ∷ s) (b ∷ t) = a == b && text_eq s t
text_eq _ _ = false

unfoldable pub to_lower : ℕ → ℕ
to_lower c = if leb b'A' c && leb c b'Z' then c + 32 else c

unfoldable pub to_upper : ℕ → ℕ
to_upper c = if leb b'a' c && leb c b'z' then c - 32 else c

-- strings.EqualFold
unfoldable pub equal_fold : Text → Text → Bool
unfolding to_lower
equal_fold [] [] = true
equal_fold (a ∷ s) (b ∷ t) = to_lower a == to_lower b && equal_fold s t
equal_fold _ _ = false

-- strings.HasPrefix
unfoldable pub has_prefix : Text → Text → Bool
has_prefix s [] = true
has_prefix [] (b ∷ p) = false
has_prefix (a ∷ s) (b ∷ p) = a == b && has_prefix s p

unfoldable pub contains_byte : ℕ → Text → Bool
contains_byte c [] = false
contains_byte c (a ∷ s) = a == c || contains_byte c s

-- The text before the first byte `c` and the text behind it, as strings.IndexByte and two slices
-- give them.
unfoldable pub cut : ℕ → Text → Option (Text × Text)
cut c [] = none
cut c (a ∷ s) =
    let rest = cut c s in
    if a == c then some ([], s) else elim rest [ none ↦ none | some (l, r) ↦ some (a ∷ l, r) ]

unfoldable pub is_space : ℕ → Bool
is_space c = c == 32 || leb 9 c && leb c 13

trim_left : Text → Text
trim_left [] = []
trim_left (a ∷ s) = let rest = trim_left s in if is_space a then rest else a ∷ s

trim_right : Text → Text
trim_right [] = []
trim_right (a ∷ s) = let rest = trim_right s in if is_empty rest && is_space a then [] else a ∷ rest

-- strings.TrimSpace
unfoldable pub trim_space : Text → Text
unfolding trim_left trim_right is_space
trim_space s = trim_left (trim_right s)

-- strings.Fields: `word` holds the bytes of the field that is being read.
fields_from : Text → Text → List Text
fields_from word [] = if is_empty word then [] else word ∷ []
fields_from word (a ∷ s) =
    let next = fields_from [] s in
    let more = fields_from (word ++ a ∷ []) s in
    if is_space a then (if is_empty word then next else word ∷ next) else more

unfoldable pub fields : Text → List Text
unfolding fields_from is_space
fields s = fields_from [] s

-- strings.Join
unfoldable pub join : Text → List Text → Text
join sep [] = []
join sep (s ∷ []) = s
join sep (s ∷ t ∷ rest) = s ++ sep ++ join sep (t ∷ rest)

-- strings.Contains
unfoldable pub contains : Text → Text → Bool
contains [] p = is_empty p
contains (a ∷ s) p = has_prefix (a ∷ s) p || contains s p
