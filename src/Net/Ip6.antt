-- ===== src/Net/Ip6.antt =====
-- net.ParseIP on IPv6 addresses.
use zorin_host_agent.Prelude.{
  ℕ, zero, suc, ◌+◌, ◌-◌, ◌*◌, ◌/◌, ◌%◌, not, ◌&&◌, ◌||◌, Option, none, some, [], ◌∷◌, ◌++◌, ltb,
  leb, ◌==◌, if◌then◌else◌, is_some, length, take, drop, is_empty,
}
use zorin_host_agent.Text.{Text, text, has_prefix}
use zorin_host_agent.Text.Hex.{hex_value}
use zorin_host_agent.Net.{Ip, parse_ip4}

-- `n` bytes of zero
unfoldable pub zeros : ℕ → Ip
zeros zero = []
zeros (suc n) = 0 ∷ zeros n

-- The digits at the head of a text, and what is behind them.
hex_run : Text → Text × Text
hex_run [] = ([], [])
hex_run (c ∷ s) =
    let (run, rest) = hex_run s in if is_some (hex_value c) then (c ∷ run, rest) else ([], c ∷ s)

hex_number : ℕ → Text → ℕ
hex_number acc [] = acc
hex_number acc (c ∷ s) = hex_number (acc * 16 + elim (hex_value c) [ none ↦ 0 | some d ↦ d ]) s

-- The bytes of the address with the zeros of `::` filled in at `ellipsis`.
unfoldable pub expand_ip6 : Ip → Option ℕ → Option Ip
expand_ip6 ip none = if length ip == 16 then some ip else none
expand_ip6 ip (some at) =
    if ltb (length ip) 16 then some (take at ip ++ (zeros (16 - length ip) ++ drop at ip)) else none

-- The address that ends in the IPv4 address.
end_in_ip4 : Ip → Option ℕ → Option Ip → Option Ip
end_in_ip4 ip ellipsis none = none
end_in_ip4 ip ellipsis (some v4) = expand_ip6 (ip ++ v4) ellipsis

-- The loop over the groups of an IPv6 address: `n` is the number of groups that are left, `ip` the
-- bytes so far and `ellipsis` the place of `::`.
ip6_groups : ℕ → Ip → Option ℕ → Text → Option Ip
ip6_groups zero ip ellipsis s = if is_empty s then expand_ip6 ip ellipsis else none
ip6_groups (suc n) ip ellipsis s =
    let (run, rest) = hex_run s in
    let ip' = ip ++ (hex_number 0 run / 256) ∷ (hex_number 0 run % 256) ∷ [] in
    let next = ip6_groups n ip' ellipsis (drop 1 rest) in
    let next_behind = ip6_groups n ip' (some (length ip')) (drop 2 rest) in
    let ended = expand_ip6 ip' ellipsis in
    let ended_behind = expand_ip6 ip' (some (length ip')) in
    let trailing = end_in_ip4 ip ellipsis (parse_ip4 s) in
    if is_empty run || ltb 4 (length run) then none else elim rest [
      | [] ↦ ended
      | c ∷ t ↦
          if c == b'.'
          then (if (is_some ellipsis || n == 1) && leb (length ip + 4) 16 then trailing else none)
          else if not (c == b':')
          then none
          else elim t [
            | [] ↦ none
            | d ∷ u ↦
                if not (d == b':')
                then next
                else if is_some ellipsis
                then none
                else if is_empty u
                then ended_behind
                else next_behind
          ]
    ]

unfoldable pub parse_ip6 : Text → Option Ip
unfolding ip6_groups hex_run hex_number end_in_ip4
parse_ip6 s =
    let leading = ip6_groups 8 [] (some 0) (drop 2 s) in
    let plain = ip6_groups 8 [] none s in
    if has_prefix s (text "::")
    then (if is_empty (drop 2 s) then some (zeros 16) else leading)
    else plain
