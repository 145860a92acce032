-- ===== src/Listen/Transport.antt =====
-- The name of the transport of a peer with an IPv4 address.
use zorin_host_agent.Prelude.{inl, ℕ, ◌<◌, ◌≡◌, false, some, [], ◌∷◌, arith, ◌==◌, if◌then◌else◌}
use zorin_host_agent.Text.{Text, text, contains_byte}
use zorin_host_agent.Net.{join_host_port}
use zorin_host_agent.Net.Address.{format_ip4}
use zorin_host_agent.Net.RoundTrip.{
  parse_ip-format_ip4, split_host_port-join_host_port, contains_byte-format_ip4,
  trim_brackets_plain, is_loopback-v4,
}
use zorin_host_agent.Listen.{host_part, connection_transport}

-- A port as `net.Addr` writes it: no colon and no brackets.
abbrev pub IsPort : Text → Type 0
IsPort port =
    (contains_byte b'[' port ≡ false)
    × (contains_byte b']' port ≡ false)
    × (contains_byte b':' port ≡ false)

-- A peer at an IPv4 address is named USB / ADB if the address begins with 127, and Direct LAN if
-- it does not, whatever its port.
pub connection_transport-v4 :
    (a b c d : ℕ) (port : Text)
    → a < 256
    → b < 256
    → c < 256
    → d < 256
    → IsPort port
    → connection_transport (some (join_host_port (format_ip4 (a ∷ b ∷ c ∷ d ∷ [])) port))
      ≡ (if a == 127 then text "USB / ADB" else text "Direct LAN")
connection_transport-v4 a b c d port ha hb hc hd hp =
    let host = format_ip4 (a ∷ b ∷ c ∷ d ∷ []) in
    let l = contains_byte-format_ip4 b'[' a b c d (inl (omega arith)) in
    let r = contains_byte-format_ip4 b']' a b c d (inl (omega arith)) in
    let split = split_host_port-join_host_port host port l r hp.0 hp.1 hp.2 in
    let part : host_part (join_host_port host port) ≡ host = unfold host_part in ground arith in
    let parsed = parse_ip-format_ip4 a b c d ha hb hc hd in
    let trimmed = trim_brackets_plain host l r in
    let loop = is_loopback-v4 a b c d in
    unfold connection_transport in ground (arith, part, parsed, trimmed, loop)
