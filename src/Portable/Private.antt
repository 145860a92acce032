-- ===== src/Portable/Private.antt =====
-- portable.go: `isPrivateIPv4` and `privateInterfaceIPv4`.
pub mod Blocks
pub mod Order
pub mod Listing
use zorin_host_agent.Prelude.{
  Bool, true, false, not, ◌&&◌, ◌||◌, Option, none, some, List, [], ◌∷◌, ◌++◌, ltb, leb, ◌==◌,
  if◌then◌else◌,
}
use zorin_host_agent.Text.{Text, text_eq}
use zorin_host_agent.Net.{Ip}
use zorin_host_agent.Net.Address.{to4, format_ip4}

-- Addresses of 10.0.0.0/8, 172.16.0.0/12, 192.168.0.0/16 and 169.254.0.0/16.
unfoldable pub is_private_v4 : Ip → Bool
is_private_v4 (a ∷ b ∷ rest) =
    if a == 10
    then true
    else if a == 172 && leb 16 b && leb b 31
    then true
    else if a == 192 && b == 168
    then true
    else if a == 169 && b == 254
    then true
    else false
is_private_v4 _ = false

-- isPrivateIPv4
unfoldable pub is_private_ipv4 : Ip → Bool
is_private_ipv4 ip = elim (to4 ip) [ none ↦ false | some v4 ↦ is_private_v4 v4 ]

-- What the system reports of a network interface; `addrs` is none where its addresses cannot be
-- read. An address that carries no IP is the empty list of bytes.
pub record Interface : Type 0 where
  pub is_up : Bool
  pub is_loopback_iface : Bool
  pub addrs : Option (List Ip)

-- ip.To4().String()
unfoldable pub v4_text : Ip → Text
v4_text ip = elim (to4 ip) [ none ↦ [] | some v4 ↦ format_ip4 v4 ]

unfoldable pub is_seen : Text → List Text → Bool
is_seen t [] = false
is_seen t (u ∷ seen) = text_eq u t || is_seen t seen

-- The loop over the addresses of one interface. The texts that are put out are the keys of `seen`.
unfoldable pub list_addresses : List Ip → List Text → List Text
list_addresses [] out = out
list_addresses (ip ∷ ips) out =
    let kept = list_addresses ips out in
    let added = list_addresses ips (out ++ v4_text ip ∷ []) in
    if not (is_private_ipv4 ip) || is_seen (v4_text ip) out then kept else added

-- The addresses that are looked at: none where the interface is skipped.
unfoldable pub iface_addresses : Interface → List Ip
iface_addresses iface =
    if not iface.is_up || iface.is_loopback_iface
    then []
    else elim iface.addrs [ none ↦ [] | some ips ↦ ips ]

unfoldable pub list_interfaces : List Interface → List Text → List Text
list_interfaces [] out = out
list_interfaces (iface ∷ ifaces) out =
    list_interfaces ifaces (list_addresses (iface_addresses iface) out)

-- The order of strings, by bytes.
unfoldable pub text_less : Text → Text → Bool
text_less s [] = false
text_less [] (b ∷ t) = true
text_less (a ∷ s) (b ∷ t) = ltb a b || (a == b && text_less s t)

unfoldable pub insert_text : Text → List Text → List Text
insert_text t [] = t ∷ []
insert_text t (u ∷ us) = if text_less u t then u ∷ insert_text t us else t ∷ u ∷ us

-- sort.Strings
unfoldable pub sort_texts : List Text → List Text
sort_texts [] = []
sort_texts (t ∷ ts) = insert_text t (sort_texts ts)

-- privateInterfaceIPv4: `none` is an error of the system.
unfoldable pub private_interface_ipv4 : Option (List Interface) → List Text
private_interface_ipv4 none = []
private_interface_ipv4 (some ifaces) = sort_texts (list_interfaces ifaces [])
