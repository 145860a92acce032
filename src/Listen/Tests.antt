-- ===== src/Listen/Tests.antt =====
-- Listeners and transports on concrete addresses.
use zorin_host_agent.Prelude.{◌≡◌, refl, ◌≢◌, ◌⊎◌, true, false, none, []}
use zorin_host_agent.Text.{text, text_eq, equal_fold, has_prefix, contains_byte, cut, trim_space}
use zorin_host_agent.Text.Hex.{hex_value}
use zorin_host_agent.Net.{octet, parse_ip4, split_host_port, trim_brackets}
use zorin_host_agent.Net.Ip6.{zeros, expand_ip6, parse_ip6}
use zorin_host_agent.Net.Address.{parse_ip, to4, is_loopback}
use zorin_host_agent.Listen.{
  connection_transport, is_loopback_host, is_loopback_listener, listens, needs_allow_direct,
  daemon_listener,
}
use zorin_host_agent.Listen.Laws.{IsLocal, daemon_listener-IsLocal}

daemon_listener-IsLocal_example :
    (text "localhost:47472" ≡ trim_space (text " localhost:47472 "))
    × (text "localhost:47472" ≢ [])
    × ((false ≡ true) ⊎ IsLocal (text "localhost:47472"))
daemon_listener-IsLocal_example =
    daemon_listener-IsLocal (text " localhost:47472 ") (text "localhost:47472") false (
      unfold daemon_listener is_loopback_listener is_loopback_host split_host_port trim_space
        trim_brackets equal_fold cut has_prefix contains_byte text in
      refl)

refused : daemon_listener (text "0.0.0.0:47472") false ≡ needs_allow_direct
unfolding daemon_listener is_loopback_listener is_loopback_host is_loopback to4 parse_ip parse_ip4
    octet split_host_port trim_space trim_brackets equal_fold cut has_prefix contains_byte text
    text_eq
refused = refl

allowed_6 : daemon_listener (text "[::1]:47472") false ≡ listens (text "[::1]:47472")
unfolding daemon_listener is_loopback_listener is_loopback_host is_loopback to4 parse_ip parse_ip6
    expand_ip6 hex_value zeros octet split_host_port trim_space trim_brackets equal_fold cut
    has_prefix contains_byte text text_eq
allowed_6 = refl

unknown_peer : connection_transport none ≡ text "Unknown"
unfolding connection_transport
unknown_peer = refl
