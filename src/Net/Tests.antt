-- ===== src/Net/Tests.antt =====
-- The parsing of addresses on concrete texts.
use zorin_host_agent.Prelude.{◌≡◌, refl, none, some, [], ◌∷◌, ◌++◌}
use zorin_host_agent.Text.{text, has_prefix, contains_byte, cut}
use zorin_host_agent.Text.Hex.{hex_value}
use zorin_host_agent.Net.{octet, parse_ip4, split_host_port, trim_brackets}
use zorin_host_agent.Net.Ip6.{zeros, expand_ip6, parse_ip6}
use zorin_host_agent.Net.Address.{v4_prefix, parse_ip}

parse_1 : parse_ip (text "127.0.0.1") ≡ some (v4_prefix ++ 127 ∷ 0 ∷ 0 ∷ 1 ∷ [])
unfolding parse_ip parse_ip4 octet text cut
parse_1 = refl

parse_2 : parse_ip (text "::1") ≡ some (zeros 15 ++ 1 ∷ [])
unfolding parse_ip parse_ip6 expand_ip6 text hex_value has_prefix contains_byte zeros
parse_2 = refl

parse_3 : parse_ip (text "::ffff:1.2.3.4") ≡ some (v4_prefix ++ 1 ∷ 2 ∷ 3 ∷ 4 ∷ [])
unfolding parse_ip parse_ip6 parse_ip4 octet cut expand_ip6 text hex_value has_prefix contains_byte
    zeros
parse_3 = refl

parse_4 : parse_ip (text "fe80::1%eth0") ≡ none
unfolding parse_ip parse_ip6 parse_ip4 octet cut expand_ip6 text hex_value has_prefix contains_byte
    zeros
parse_4 = refl

parse_5 : parse_ip (text "10.0.0.01") ≡ none
unfolding parse_ip parse_ip6 parse_ip4 octet cut expand_ip6 text hex_value has_prefix contains_byte
    zeros
parse_5 = refl

parse_6 :
    parse_ip (text "fe80:0:0:0:1:2:3:abcd")
    ≡ some (254 ∷ 128 ∷ 0 ∷ 0 ∷ 0 ∷ 0 ∷ 0 ∷ 0 ∷ 0 ∷ 1 ∷ 0 ∷ 2 ∷ 0 ∷ 3 ∷ 171 ∷ 205 ∷ [])
unfolding parse_ip parse_ip6 parse_ip4 octet cut expand_ip6 text hex_value has_prefix contains_byte
    zeros
parse_6 = refl

parse_7 : parse_ip (text "1:2:3:4:5:6:7:8::") ≡ none
unfolding parse_ip parse_ip6 parse_ip4 octet cut expand_ip6 text hex_value has_prefix contains_byte
    zeros
parse_7 = refl

split_1 : split_host_port (text "[::1]:80") ≡ some (text "::1", text "80")
unfolding split_host_port text cut has_prefix contains_byte
split_1 = refl

split_2 : split_host_port (text "::1:80") ≡ none
unfolding split_host_port text cut has_prefix contains_byte
split_2 = refl

split_3 : split_host_port (text "0.0.0.0:47482") ≡ some (text "0.0.0.0", text "47482")
unfolding split_host_port text cut has_prefix contains_byte
split_3 = refl

trim_1 : trim_brackets (text "[::1]") ≡ text "::1"
unfolding trim_brackets text
trim_1 = refl
