-- ===== src/Portable/Link/Query/Parsed.antt =====
-- The phone reads from the link what the host put into it.
use zorin_host_agent.Prelude.{
  ℕ, suc, ◌≡◌, refl, ap, ap₂, ◌∙◌, true, false, ◌||◌, some, List, [], ◌∷◌, ◌++◌, arith, ltb, all,
  All, ℤ, pos, negsuc,
}
use zorin_host_agent.Portable.Link.Query.{
  split_byte, parse_pair, parse_pairs, query_escape-plain, query_unescape-query_escape, parse_query,
}
use zorin_host_agent.Text.{Text, text, contains_byte, join, text_eq}
use zorin_host_agent.Text.Laws.{contains_byte-append, cut-append, append_byte}
use zorin_host_agent.Text.Hex.{IsByte}
use zorin_host_agent.Portable.Link.{
  query_escape, key_list, query_pair, query_pairs, encode_values, unix_seconds, link_values,
  link_prefix, portable_deep_link,
}
use zorin_host_agent.Text.Decimal.{format_nat, format_int, IsDigit, format_nat-IsDigit}
use zorin_host_agent.Dict.{lookup, insert, get_text}
use zorin_host_agent.Portable.Private.{text_less, insert_text, sort_texts}

split_byte_one : (c : ℕ) (s : Text) → contains_byte c s ≡ false → split_byte c s ≡ s ∷ []
unfolding split_byte contains_byte
split_byte_one c [] h = refl
split_byte_one c (a ∷ s) h = ground (arith, split_byte_one c s)

split_byte-append :
    (c : ℕ) (s t : Text) (u : Text) (us : List Text)
    → contains_byte c s ≡ false
    → split_byte c t ≡ u ∷ us
    → split_byte c (s ++ c ∷ t) ≡ s ∷ u ∷ us
unfolding split_byte contains_byte
split_byte-append c [] t u us h e = ground arith
split_byte-append c (a ∷ s) t u us h e = ground (arith, split_byte-append c s t u us)

abbrev encoded_pair : Text × Text → Text
encoded_pair (k, v) = query_escape k ++ b'=' ∷ query_escape v

abbrev encoded_pairs : List (Text × Text) → List Text
encoded_pairs [] = []
encoded_pairs (p ∷ ps) = encoded_pair p ∷ encoded_pairs ps

abbrev IsBytePair : Text × Text → Type 0
IsBytePair (k, v) = All IsByte k × All IsByte v

parse_pair-encoded_pair : (p : Text × Text) → IsBytePair p → parse_pair (encoded_pair p) ≡ some p
unfolding parse_pair
parse_pair-encoded_pair (k, v) h =
    let x = cut-append b'=' (query_escape k) (query_escape v) (query_escape-plain k h.0).1 in
    ground (arith, x, query_unescape-query_escape k h.0, query_unescape-query_escape v h.1)

encoded_pair-plain : (p : Text × Text) → IsBytePair p → contains_byte b'&' (encoded_pair p) ≡ false
encoded_pair-plain (k, v) h =
    contains_byte-append b'&' (query_escape k) (b'=' ∷ query_escape v)
    ∙ ap₂ (λ a b. a || b) (query_escape-plain k h.0).0
        (unfold contains_byte in (query_escape-plain v h.1).0)

parse_pairs-encoded_pairs :
    (ps : List (Text × Text)) → All IsBytePair ps → parse_pairs (encoded_pairs ps) ≡ some ps
unfolding parse_pairs
parse_pairs-encoded_pairs [] h = refl
parse_pairs-encoded_pairs (p ∷ ps) h =
    ground (arith, parse_pair-encoded_pair p h.0, parse_pairs-encoded_pairs ps h.1)

join_amp :
    (s t : Text) (rest : List Text)
    → join (text "&") (s ∷ t ∷ rest) ≡ s ++ b'&' ∷ join (text "&") (t ∷ rest)
unfolding text join
join_amp s t rest = append_byte b'&' s _

split_byte-join :
    (p : Text × Text) (ps : List (Text × Text))
    → All IsBytePair (p ∷ ps)
    → split_byte b'&' (join (text "&") (encoded_pairs (p ∷ ps))) ≡ encoded_pairs (p ∷ ps)
split_byte-join p [] h =
    unfold join in split_byte_one b'&' (encoded_pair p) (encoded_pair-plain p h.0)
split_byte-join p (q ∷ ps) h =
    let rest = split_byte-join q ps h.1 in
    ap (split_byte b'&') (join_amp (encoded_pair p) (encoded_pair q) (encoded_pairs ps))
    ∙ split_byte-append b'&' (encoded_pair p) _ _ _ (encoded_pair-plain p h.0) rest

parse_query-join :
    (p : Text × Text) (ps : List (Text × Text))
    → All IsBytePair (p ∷ ps)
    → parse_query (join (text "&") (encoded_pairs (p ∷ ps))) ≡ some (p ∷ ps)
unfolding parse_query
parse_query-join p ps h =
    ap parse_pairs (split_byte-join p ps h) ∙ parse_pairs-encoded_pairs (p ∷ ps) h

-- What the link carries, in the order of the keys.
abbrev pub link_pairs : Text → ℕ → ℕ → Text → List (Text × Text)
link_pairs host port expires invite =
    (text "expires", format_int (unix_seconds expires))
    ∷ (text "host", host)
    ∷ (text "invite", invite)
    ∷ (text "mode", text "portable")
    ∷ (text "port", format_nat port)
    ∷ []

encode_values-link_values :
    (host : Text) (port expires : ℕ) (invite : Text)
    → encode_values (link_values host port expires invite)
      ≡ join (text "&") (encoded_pairs (link_pairs host port expires invite))
unfolding encode_values link_values query_pairs query_pair key_list sort_texts insert_text text_less
    insert get_text lookup text_eq text
encode_values-link_values host port expires invite = refl

all-IsByte : (s : Text) → all (λ b. ltb b 256) s ≡ true → All IsByte s
all-IsByte [] h = tt
all-IsByte (b ∷ s) h = (ground arith, all-IsByte s (ground arith))

digits-IsByte : (s : Text) → All IsDigit s → All IsByte s
digits-IsByte [] h = tt
digits-IsByte (b ∷ s) h = (omega arith, digits-IsByte s h.1)

format_int-IsByte : (n : ℤ) → All IsByte (format_int n)
unfolding format_int
format_int-IsByte (pos n) = digits-IsByte _ (format_nat-IsDigit n)
format_int-IsByte (negsuc n) = (omega arith, digits-IsByte _ (format_nat-IsDigit (suc n)))

link_pairs-IsBytePair :
    (host : Text) (port expires : ℕ) (invite : Text)
    → All IsByte host
    → All IsByte invite
    → All IsBytePair (link_pairs host port expires invite)
unfolding text
link_pairs-IsBytePair host port expires invite h i = (
  (all-IsByte (text "expires") refl, format_int-IsByte (unix_seconds expires)),
  (
    (all-IsByte (text "host") refl, h),
    (
      (all-IsByte (text "invite") refl, i),
      (
        (all-IsByte (text "mode") refl, all-IsByte (text "portable") refl),
        ((all-IsByte (text "port") refl, digits-IsByte _ (format_nat-IsDigit port)), tt),
      ),
    ),
  ),
)

-- The deep link is its prefix and a query from which the phone reads back, in the order of the
-- keys, the time of expiry in Unix seconds, the host, the invite, the mode and the port, whatever
-- bytes the host and the invite hold.
pub portable_deep_link-parse_query :
    (host : Text) (port expires : ℕ) (invite : Text)
    → All IsByte host
    → All IsByte invite
    → (query : Text) × (portable_deep_link host port expires invite ≡ link_prefix ++ query)
      × (parse_query query ≡ some (link_pairs host port expires invite))
unfolding portable_deep_link
portable_deep_link-parse_query host port expires invite h i = (
  encode_values (link_values host port expires invite),
  refl,
  ap parse_query (encode_values-link_values host port expires invite)
      ∙ parse_query-join _ _ (link_pairs-IsBytePair host port expires invite h i),
)
