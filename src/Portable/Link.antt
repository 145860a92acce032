-- ===== src/Portable/Link.antt =====
-- portable.go: `portableDeepLink`, with the escaping of net/url.
pub mod Query
use zorin_host_agent.Prelude.{
  ℕ, ◌+◌, ◌-◌, ◌/◌, ◌%◌, Bool, ◌&&◌, ◌||◌, List, [], ◌∷◌, ◌++◌, ltb, leb, ◌==◌, if◌then◌else◌, ℤ,
  pos, negsuc,
}
use zorin_host_agent.Text.{Text, text, join}
use zorin_host_agent.Text.Decimal.{format_nat, format_int}
use zorin_host_agent.Dict.{Dict, insert, values, get_text}
use zorin_host_agent.Portable.Private.{sort_texts}

upper_digit : ℕ → ℕ
upper_digit d = if ltb d 10 then d + 48 else d + 55

-- The bytes that a query keeps as they are.
is_unreserved : ℕ → Bool
is_unreserved c =
    leb b'a' c && leb c b'z'
    || leb b'A' c && leb c b'Z'
    || leb b'0' c && leb c b'9'
    || c == b'-'
    || c == b'_'
    || c == b'.'
    || c == b'~'

-- url.QueryEscape
unfoldable pub query_escape : Text → Text
unfolding upper_digit is_unreserved
query_escape [] = []
query_escape (c ∷ s) =
    let rest = query_escape s in
    if is_unreserved c
    then c ∷ rest
    else if c == 32
    then b'+' ∷ rest
    else b'%' ∷ upper_digit (c / 16) ∷ upper_digit (c % 16) ∷ rest

unfoldable pub key_list : Dict Text → List Text
key_list [] = []
key_list ((k, v) ∷ d) = k ∷ key_list d

-- One key of the query with its value.
unfoldable pub query_pair : Dict Text → Text → Text
query_pair values k = query_escape k ++ b'=' ∷ query_escape (get_text k values)

unfoldable pub query_pairs : Dict Text → List Text → List Text
query_pairs values [] = []
query_pairs values (k ∷ ks) = query_pair values k ∷ query_pairs values ks

-- values.Encode(), the keys in order; every key has one value.
unfoldable pub encode_values : Dict Text → Text
encode_values values = join (text "&") (query_pairs values (sort_texts (key_list values)))

-- The seconds from the zero time of Go to the Unix epoch.
abbrev pub unix_epoch : ℕ
unix_epoch = 62_135_596_800

-- t.Unix()
unfoldable pub unix_seconds : ℕ → ℤ
unix_seconds t =
    let s = t / 1_000_000_000 in
    if leb unix_epoch s then pos (s - unix_epoch) else negsuc (unix_epoch - s - 1)

-- The values in the order in which they are set.
unfoldable pub link_values : Text → ℕ → ℕ → Text → Dict Text
link_values host port expires invite = insert (text "invite") invite (
    insert (text "mode") (text "portable") (
      insert (text "expires") (format_int (unix_seconds expires))
        (insert (text "port") (format_nat port) (insert (text "host") host []))))

abbrev pub link_prefix : Text
link_prefix = text "zorintrust://connect?"

unfoldable pub portable_deep_link : Text → ℕ → ℕ → Text → Text
portable_deep_link host port expires invite =
    link_prefix ++ encode_values (link_values host port expires invite)
