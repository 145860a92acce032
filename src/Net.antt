-- ===== src/Net.antt =====
-- The package net as the agent uses it: addresses as bytes, their texts, and host:port pairs.
pub mod Ip6
pub mod Address
pub mod Laws
pub mod RoundTrip
mod Tests
use zorin_host_agent.Prelude.{
  ℕ, ◌+◌, ◌-◌, ◌*◌, Bool, not, ◌&&◌, ◌||◌, Option, none, some, List, [], ◌∷◌, ◌++◌, leb, ◌==◌,
  if◌then◌else◌, drop, is_empty,
}
use zorin_host_agent.Text.{Text, text, has_prefix, contains_byte, cut}

-- net.IP: 4 or 16 bytes, and none where it is nil
abbrev pub Ip : Type 0
Ip = List ℕ

is_digit : ℕ → Bool
is_digit c = leb b'0' c && leb c b'9'

-- One field of an IPv4 address: no leading zero, at most 255.
unfoldable pub octet : Text → Option ℕ
unfolding is_digit
octet (a ∷ []) = if is_digit a then some (a - 48) else none
octet (a ∷ b ∷ []) =
    if is_digit a && is_digit b && not (a == 48) then some ((a - 48) * 10 + (b - 48)) else none
octet (a ∷ b ∷ c ∷ []) =
    let n = (a - 48) * 100 + (b - 48) * 10 + (c - 48) in
    if is_digit a && is_digit b && is_digit c && not (a == 48) && leb n 255 then some n else none
octet _ = none

-- The four fields of an IPv4 address.
ip4_fields : Option ℕ → Option ℕ → Option ℕ → Option ℕ → Option Ip
ip4_fields (some a) (some b) (some c) (some d) = some (a ∷ b ∷ c ∷ d ∷ [])
ip4_fields _ _ _ _ = none

unfoldable pub parse_ip4 : Text → Option Ip
unfolding ip4_fields
parse_ip4 s = elim (cut b'.' s) [
  | none ↦ none
  | some (a, t) ↦ elim (cut b'.' t) [
    | none ↦ none
    | some (b, u) ↦ elim (cut b'.' u) [
      | none ↦ none
      | some (c, d) ↦ ip4_fields (octet a) (octet b) (octet c) (octet d)
    ]
  ]
]

-- net.SplitHostPort; every error is `none`.
unfoldable pub split_host_port : Text → Option (Text × Text)
split_host_port s =
    if has_prefix s (text "[")
    then elim (cut b']' (drop 1 s)) [
      | none ↦ none
      | some (host, rest) ↦
          if has_prefix rest (text ":")
            && not (contains_byte b':' (drop 1 rest))
            && not (contains_byte b'[' (drop 1 s))
            && not (contains_byte b']' rest)
          then some (host, drop 1 rest)
          else none
    ]
    else elim (cut b':' s) [
      | none ↦ none
      | some (host, port) ↦
          if contains_byte b':' port || contains_byte b'[' s || contains_byte b']' s
          then none
          else some (host, port)
    ]

-- net.JoinHostPort
unfoldable pub join_host_port : Text → Text → Text
join_host_port host port =
    if contains_byte b':' host
    then text "[" ++ (host ++ (text "]:" ++ port))
    else host ++ (text ":" ++ port)

is_bracket : ℕ → Bool
is_bracket c = c == b'[' || c == b']'

trim_left_brackets : Text → Text
trim_left_brackets [] = []
trim_left_brackets (c ∷ s) = let rest = trim_left_brackets s in if is_bracket c then rest else c ∷ s

trim_right_brackets : Text → Text
trim_right_brackets [] = []
trim_right_brackets (c ∷ s) =
    let rest = trim_right_brackets s in if is_empty rest && is_bracket c then [] else c ∷ rest

-- strings.Trim(s, "[]")
unfoldable pub trim_brackets : Text → Text
unfolding trim_left_brackets trim_right_brackets is_bracket
trim_brackets s = trim_left_brackets (trim_right_brackets s)
