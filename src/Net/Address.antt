-- ===== src/Net/Address.antt =====
-- net.ParseIP, and what the agent asks of an address.
-- The bytes before an IPv4 address in its form of 16 bytes.
use zorin_host_agent.Prelude.{
  ℕ, Bool, not, ◌&&◌, ◌||◌, Option, none, some, [], ◌∷◌, ◌++◌, map, ◌==◌, if◌then◌else◌, length,
  take, drop,
}
use zorin_host_agent.Text.{Text, text, text_eq, contains_byte, join}
use zorin_host_agent.Text.Decimal.{format_nat}
use zorin_host_agent.Net.{Ip, parse_ip4}
use zorin_host_agent.Net.Ip6.{zeros, parse_ip6}

abbrev pub v4_prefix : Ip
v4_prefix = 0 ∷ 0 ∷ 0 ∷ 0 ∷ 0 ∷ 0 ∷ 0 ∷ 0 ∷ 0 ∷ 0 ∷ 255 ∷ 255 ∷ []

-- The first byte of a text that decides on the kind of an address.
unfoldable pub address_kind : Text → Option ℕ
address_kind [] = none
address_kind (c ∷ s) =
    let rest = address_kind s in if c == b'.' || c == b':' || c == b'%' then some c else rest

-- net.ParseIP: the address in 16 bytes; an address with a zone is refused.
unfoldable pub parse_ip : Text → Option Ip
unfolding address_kind
parse_ip s = elim (address_kind s) [
  | none ↦ none
  | some c ↦
      if c == b'.'
      then elim (parse_ip4 s) [ none ↦ none | some v4 ↦ some (v4_prefix ++ v4) ]
      else if c == b':' && not (contains_byte b'%' s)
      then parse_ip6 s
      else none
]

-- ip.To4
unfoldable pub to4 : Ip → Option Ip
to4 ip =
    if length ip == 4
    then some ip
    else if length ip == 16 && text_eq (take 12 ip) v4_prefix
    then some (drop 12 ip)
    else none

abbrev pub first_byte : Ip → ℕ
first_byte [] = 0
first_byte (a ∷ ip) = a

-- ip.IsLoopback
unfoldable pub is_loopback : Ip → Bool
is_loopback ip = elim (to4 ip) [
  | none ↦ text_eq ip (zeros 15 ++ 1 ∷ [])
  | some v4 ↦ first_byte v4 == 127
]

-- ip.String, of an address of 4 bytes
unfoldable pub format_ip4 : Ip → Text
format_ip4 ip = join (text ".") (map format_nat ip)
