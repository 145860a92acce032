-- ===== src/Portable/Private/Listing.antt =====
-- Which addresses the portable host lists.
use zorin_host_agent.Prelude.{
  ◌≡◌, refl, ap, ◌∙◌, inl, inr, Bool, true, false, not, ◌&&◌, ◌||◌, none, some, List, [], ◌∷◌, ◌++◌,
  arith, Bool-cases, any,
}
use zorin_host_agent.Text.{Text, text_eq}
use zorin_host_agent.Net.{Ip}
use zorin_host_agent.Portable.Private.{
  is_private_ipv4, Interface, v4_text, is_seen, list_addresses, iface_addresses, list_interfaces,
  private_interface_ipv4,
}
use zorin_host_agent.Portable.Private.Order.{
  IsDistinct, IsAscending, is_seen-sort_texts, sort_texts-IsAscending,
}
use zorin_host_agent.Text.Laws.{text_eq_iff, text_eq_sym}

is_seen-append :
    (x : Text) (ts us : List Text) → is_seen x (ts ++ us) ≡ (is_seen x ts || is_seen x us)
unfolding is_seen
is_seen-append x [] us = refl
is_seen-append x (t ∷ ts) us = ground (arith, is_seen-append x ts us)

IsDistinct-append :
    (t : Text) (ts : List Text) → IsDistinct ts → is_seen t ts ≡ false → IsDistinct (ts ++ t ∷ [])
unfolding is_seen
IsDistinct-append t [] h k = (refl, tt)
IsDistinct-append t (u ∷ ts) h k = (
  ground (arith, is_seen-append u ts (t ∷ []), text_eq_sym t u),
  IsDistinct-append t ts h.1 (ground arith),
)

-- The address is private and has that text.
abbrev pub offers_ip : Text → Ip → Bool
offers_ip x ip = is_private_ipv4 ip && text_eq (v4_text ip) x

-- An interface that is up, is not the loopback and can be read has such an address.
abbrev pub offers : Text → Interface → Bool
offers x iface =
    iface.is_up
    && not iface.is_loopback_iface
    && elim iface.addrs [ none ↦ false | some ips ↦ any (offers_ip x) ips ]

is_seen_eq : (t x : Text) (out : List Text) → text_eq t x ≡ true → is_seen t out ≡ is_seen x out
is_seen_eq t x out h = ap (λ s. is_seen s out) ((text_eq_iff t x).0 h)

pub iface_addresses-offers :
    (x : Text) (iface : Interface) → any (offers_ip x) (iface_addresses iface) ≡ offers x iface
unfolding iface_addresses
iface_addresses-offers x iface = ground arith

list_addresses-is_seen :
    (x : Text) (ips : List Ip) (out : List Text)
    → is_seen x (list_addresses ips out) ≡ (is_seen x out || any (offers_ip x) ips)
unfolding is_seen list_addresses
list_addresses-is_seen x [] out = ground arith
list_addresses-is_seen x (ip ∷ ips) out =
    let kept = list_addresses-is_seen x ips out in
    let added = list_addresses-is_seen x ips (out ++ v4_text ip ∷ []) in
    let more = is_seen-append x out (v4_text ip ∷ []) in
    let same = is_seen_eq (v4_text ip) x out in ground (arith, kept, added, more, same)

list_addresses-IsDistinct :
    (ips : List Ip) (out : List Text) → IsDistinct out → IsDistinct (list_addresses ips out)
unfolding list_addresses
list_addresses-IsDistinct [] out h = h
list_addresses-IsDistinct (ip ∷ ips) out h =
    elim (Bool-cases (not (is_private_ipv4 ip) || is_seen (v4_text ip) out)) [
      | inl e ↦ rw e (list_addresses-IsDistinct ips out h)
      | inr e ↦ rw e (
          list_addresses-IsDistinct ips (out ++ v4_text ip ∷ [])
            (IsDistinct-append (v4_text ip) out h (ground arith)))
    ]

list_interfaces-is_seen :
    (x : Text) (ifaces : List Interface) (out : List Text)
    → is_seen x (list_interfaces ifaces out) ≡ (is_seen x out || any (offers x) ifaces)
unfolding list_interfaces
list_interfaces-is_seen x [] out = ground arith
list_interfaces-is_seen x (iface ∷ ifaces) out =
    let rest = list_interfaces-is_seen x ifaces (list_addresses (iface_addresses iface) out) in
    let here = list_addresses-is_seen x (iface_addresses iface) out in
    let used : any (offers_ip x) (iface_addresses iface) ≡ offers x iface =
      iface_addresses-offers x iface in
    ground (arith, rest, here, used)

list_interfaces-IsDistinct :
    (ifaces : List Interface) (out : List Text)
    → IsDistinct out
    → IsDistinct (list_interfaces ifaces out)
unfolding list_interfaces
list_interfaces-IsDistinct [] out h = h
list_interfaces-IsDistinct (iface ∷ ifaces) out h =
    list_interfaces-IsDistinct ifaces _ (list_addresses-IsDistinct (iface_addresses iface) out h)

-- The list ascends, so that no address stands in it twice, and a text is in it exactly if an
-- interface that is up, is not the loopback and can be read has a private address with that text.
pub private_interface_ipv4-IsAscending :
    (ifaces : List Interface)
    → IsAscending (private_interface_ipv4 (some ifaces))
      × ((x : Text) → is_seen x (private_interface_ipv4 (some ifaces)) ≡ any (offers x) ifaces)
unfolding private_interface_ipv4
private_interface_ipv4-IsAscending ifaces = (
  sort_texts-IsAscending _ (list_interfaces-IsDistinct ifaces [] tt),
  λ x.
      is_seen-sort_texts x (list_interfaces ifaces [])
      ∙ list_interfaces-is_seen x ifaces []
      ∙ unfold is_seen in refl,
)
