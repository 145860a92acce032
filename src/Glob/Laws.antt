-- ===== src/Glob/Laws.antt =====
-- What the patterns of the policy mean: a literal pattern matches itself alone, and a literal
-- prefix with a final star matches each text behind it with no slash.
use mathlib.Core.List.{append-nil}
use zorin_host_agent.Prelude.{
  ℕ, zero, suc, ◌+◌, ◌≡◌, refl, sym, subst, ◌∙◌, Bool, true, false, not, ◌&&◌, some, List, [], ◌∷◌,
  ◌++◌, map, arith, ◌==◌, length, length-append,
}
use zorin_host_agent.Text.{Text, text_eq, contains_byte}
use zorin_host_agent.Glob.{
  Item, star, literal, slash, backslash, items_of, items_from, next_item, skip, matches, accepts,
  path_match,
}

-- A byte that stands for itself in a pattern.
is_plain : ℕ → Bool
is_plain c = not (c == b'*') && not (c == b'?') && not (c == b'[') && not (c == backslash)

unfoldable pub all_plain : Text → Bool
unfolding is_plain
all_plain [] = true
all_plain (c ∷ s) = is_plain c && all_plain s

next_item-plain : (c : ℕ) (p : Text) → is_plain c ≡ true → next_item c p ≡ some (literal c, p)
unfolding next_item is_plain
next_item-plain c p h = ground arith

items_step :
    (f c : ℕ) (p rest : Text) (item : Item) (items : List Item)
    → next_item c p ≡ some (item, rest)
    → items_from f rest ≡ some items
    → items_from (suc f) (c ∷ p) ≡ some (item ∷ items)
unfolding items_from
items_step f c p rest item items e k = ground arith

plain_head : (c : ℕ) (s : Text) → all_plain (c ∷ s) ≡ true → is_plain c ≡ true
unfolding all_plain
plain_head c s h = ground arith

plain_tail : (c : ℕ) (s : Text) → all_plain (c ∷ s) ≡ true → all_plain s ≡ true
unfolding all_plain
plain_tail c s h = ground arith

items-plain :
    (s p : Text) (f g : ℕ) (items : List Item)
    → all_plain s ≡ true
    → g ≡ length s + f
    → items_from f p ≡ some items
    → items_from g (s ++ p) ≡ some (map literal s ++ items)
items-plain [] p f g items h eq e = let k : g ≡ f = omega arith in rw k e
items-plain (c ∷ s) p f zero items h eq e = absurd (omega arith)
items-plain (c ∷ s) p f (suc g) items h eq e =
    items_step g c (s ++ p) (s ++ p) (literal c) _ (next_item-plain c (s ++ p) (plain_head c s h))
      (items-plain s p f g items (plain_tail c s h) (omega arith) e)

items_of-plain : (s : Text) → all_plain s ≡ true → items_of s ≡ some (map literal s ++ [])
unfolding items_of
items_of-plain s h =
    subst (λ (p : Text). items_from (length p) p ≡ some (map literal s ++ [])) (append-nil s)
      (items-plain s [] 0 (length (s ++ [])) [] h (omega (arith, length-append s []))
        (unfold items_from in refl))

items_of-prefix :
    (s : Text) → all_plain s ≡ true → items_of (s ++ b'*' ∷ []) ≡ some (map literal s ++ star ∷ [])
unfolding items_of
items_of-prefix s h =
    items-plain s (b'*' ∷ []) 1 _ (star ∷ []) h (omega (arith, length-append s (b'*' ∷ [])))
      (unfold items_from next_item in refl)

skip_all : (s : Text) → skip (matches []) s ≡ not (contains_byte slash s)
unfolding skip matches contains_byte
skip_all [] = refl
skip_all (c ∷ s) = ground (arith, skip_all s)

matches-literals : (s t : Text) → matches (map literal s ++ []) t ≡ text_eq s t
unfolding matches accepts text_eq
matches-literals [] [] = refl
matches-literals [] (b ∷ t) = refl
matches-literals (a ∷ s) [] = refl
matches-literals (a ∷ s) (b ∷ t) = ground (arith, matches-literals s t)

matches-prefix_self :
    (s t : Text) → matches (map literal s ++ star ∷ []) (s ++ t) ≡ not (contains_byte slash t)
unfolding matches accepts
matches-prefix_self [] t = skip_all t
matches-prefix_self (a ∷ s) t = ground (arith, matches-prefix_self s t)

matches-prefix_inv :
    (s u : Text)
    → matches (map literal s ++ star ∷ []) u ≡ true
    → (t : Text) × (u ≡ s ++ t) × (contains_byte slash t ≡ false)
unfolding matches accepts
matches-prefix_inv [] u h = (u, refl, ground (arith, skip_all u))
matches-prefix_inv (a ∷ s) [] h = cc
matches-prefix_inv (a ∷ s) (b ∷ u) h =
    let (t, e, n) = matches-prefix_inv s u (ground arith) in (t, ground arith, n)

path_match-items :
    (p s : Text) (items : List Item) → items_of p ≡ some items → path_match p s ≡ matches items s
unfolding path_match
path_match-items p s items e = ground arith

-- A pattern with no special byte matches its own text alone.
pub path_match-plain : (s t : Text) → all_plain s ≡ true → path_match s t ≡ text_eq s t
path_match-plain s t h = path_match-items s t _ (items_of-plain s h) ∙ matches-literals s t

-- A pattern `s*`, with no special byte in `s`, matches `s` followed by a text with no slash.
pub path_match-prefix :
    (s t : Text)
    → all_plain s ≡ true
    → path_match (s ++ b'*' ∷ []) (s ++ t) ≡ not (contains_byte slash t)
path_match-prefix s t h =
    path_match-items _ (s ++ t) _ (items_of-prefix s h) ∙ matches-prefix_self s t

-- And it matches nothing else.
pub path_match-prefix_inv :
    (s u : Text)
    → all_plain s ≡ true
    → path_match (s ++ b'*' ∷ []) u ≡ true
    → (t : Text) × (u ≡ s ++ t) × (contains_byte slash t ≡ false)
path_match-prefix_inv s u h e =
    matches-prefix_inv s u (sym (path_match-items _ u _ (items_of-prefix s h)) ∙ e)
