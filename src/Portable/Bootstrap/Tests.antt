-- ===== src/Portable/Bootstrap/Tests.antt =====
-- The bootstrap server, the link and the addresses on concrete data.
use zorin_host_agent.Prelude.{
  ℕ, ◌+◌, ◌*◌, ◌≡◌, refl, true, false, none, some, List, [], ◌∷◌, ◌++◌, arith, any,
}
use zorin_host_agent.Samples.{served_host}
use zorin_host_agent.Text.{Text, text, text_eq, has_prefix, contains_byte, cut, join}
use zorin_host_agent.Text.Decimal.{format_nat}
use zorin_host_agent.Net.{Ip, octet, parse_ip4, split_host_port, trim_brackets}
use zorin_host_agent.Net.Address.{v4_prefix, parse_ip, to4, format_ip4}
use zorin_host_agent.Listen.{host_part}
use zorin_host_agent.Portable.Private.{
  is_private_v4, is_private_ipv4, Interface, v4_text, is_seen, list_addresses, iface_addresses,
  list_interfaces, insert_text, sort_texts, private_interface_ipv4,
}
use zorin_host_agent.Portable.Private.Order.{IsAscending}
use zorin_host_agent.Portable.Private.Blocks.{is_private_ipv4-blocks}
use zorin_host_agent.Portable.Private.Listing.{offers, private_interface_ipv4-IsAscending}
use zorin_host_agent.Portable.Link.{link_prefix, portable_deep_link}
use zorin_host_agent.Portable.Link.Query.{parse_query}
use zorin_host_agent.Portable.Link.Query.Parsed.{portable_deep_link-parse_query, link_pairs}
use zorin_host_agent.Portable.Bootstrap.{
  Invitation, Request, bootstrap_path, request_host_ip, bootstrap_page, serve_bootstrap, url_of,
  portable_bootstrap_urls,
}
use zorin_host_agent.Portable.Bootstrap.Browse.{request_of}
use zorin_host_agent.Portable.Bootstrap.Served.{
  IsInert, page_for, serve_bootstrap-page, portable_bootstrap_urls-page,
}

abbrev lan : Ip
lan = v4_prefix ++ 192 ∷ 168 ∷ 1 ∷ 7 ∷ []

abbrev lan_text : Text
lan_text = text "192.168.1.7"

abbrev ifaces : List Interface
ifaces =
    record { is_up = true; is_loopback_iface = true; addrs = some ((127 ∷ 0 ∷ 0 ∷ 1 ∷ []) ∷ []) }
    ∷ record {
      is_up = true;
      is_loopback_iface = false;
      addrs = some (lan ∷ (8 ∷ 8 ∷ 8 ∷ 8 ∷ []) ∷ (192 ∷ 168 ∷ 1 ∷ 7 ∷ []) ∷ []);
    }
    ∷ record { is_up = true; is_loopback_iface = false; addrs = none }
    ∷ []

listed : private_interface_ipv4 (some ifaces) ≡ lan_text ∷ []
unfolding private_interface_ipv4 list_interfaces list_addresses iface_addresses is_private_ipv4
    is_private_v4 is_seen v4_text to4 format_ip4 format_nat join sort_texts insert_text text_eq text
listed = refl

is_private_ipv4-blocks_example :
    let n = 172 * 16777216 + 31 * 65536 + 1 in
    (is_private_ipv4 (172 ∷ 31 ∷ 0 ∷ 1 ∷ []) ≡ true)
    × (is_private_ipv4 (v4_prefix ++ 172 ∷ 31 ∷ 0 ∷ 1 ∷ []) ≡ true)
is_private_ipv4-blocks_example =
    is_private_ipv4-blocks 172 31 0 1 (omega arith) (omega arith) (omega arith) (omega arith)

private_interface_ipv4-IsAscending_example :
    IsAscending (private_interface_ipv4 (some ifaces))
    × ((x : Text) → is_seen x (private_interface_ipv4 (some ifaces)) ≡ any (offers x) ifaces)
private_interface_ipv4-IsAscending_example = private_interface_ipv4-IsAscending ifaces

abbrev invitation : Invitation
invitation = record { trust_port = 47482; expires = 900_000_001_000; invite = text "abcd" }

abbrev format_toy : ℕ → Text
format_toy t = text "soon"

abbrev request : Request
request = record { path = text "/connect/abcd"; host = text "192.168.1.7:47476" }

shown :
    serve_bootstrap format_toy invitation served_host request
    ≡ page_for format_toy invitation served_host lan_text
unfolding serve_bootstrap bootstrap_page bootstrap_path request_host_ip host_part split_host_port
    trim_brackets parse_ip parse_ip4 octet is_private_ipv4 is_private_v4 to4 cut has_prefix
    contains_byte text_eq text
shown = refl

serve_bootstrap-page_example :
    (request.path ≡ bootstrap_path (text "abcd"))
    × (page_for format_toy invitation served_host lan_text
        ≡ page_for format_toy invitation served_host (request_host_ip request.host))
    × IsInert (page_for format_toy invitation served_host lan_text)
    × (ip : Ip) × (parse_ip (request_host_ip request.host) ≡ some ip)
    × (is_private_ipv4 ip ≡ true)
serve_bootstrap-page_example =
    serve_bootstrap-page format_toy invitation served_host request _ _ _ _ shown

portable_bootstrap_urls-page_example :
    (is_seen
        (url_of lan_text (text "47476") (text "abcd"))
        (portable_bootstrap_urls (some ifaces) (text "0.0.0.0:47476") (text "abcd"))
      ≡ true)
    × (r : Request) × (request_of (url_of lan_text (text "47476") (text "abcd")) ≡ some r)
    × (serve_bootstrap format_toy invitation served_host r
        ≡ page_for format_toy invitation served_host lan_text)
portable_bootstrap_urls-page_example =
    portable_bootstrap_urls-page format_toy invitation served_host ifaces (text "0.0.0.0:47476")
      (text "0.0.0.0") (text "47476") lan_text (unfold iface_addresses in ground arith)
      (unfold split_host_port cut has_prefix contains_byte text in refl)
      (unfold contains_byte text in (refl, refl, refl)) (unfold contains_byte text in refl)
      (unfold text in refl)
      (unfold is_private_ipv4 is_private_v4 v4_text to4 format_ip4 format_nat join text_eq text in
        refl)

portable_deep_link-parse_query_example :
    (query : Text) × (portable_deep_link lan_text 47482 900_000_001_000 (text "a&b")
      ≡ link_prefix ++ query)
    × (parse_query query ≡ some (link_pairs lan_text 47482 900_000_001_000 (text "a&b")))
portable_deep_link-parse_query_example =
    portable_deep_link-parse_query lan_text 47482 900_000_001_000 (text "a&b")
      (unfold text in ground arith) (unfold text in ground arith)
