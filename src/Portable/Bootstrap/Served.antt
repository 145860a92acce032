-- ===== src/Portable/Bootstrap/Served.antt =====
-- Which requests the temporary server answers with the page.
use zorin_host_agent.Prelude.{
  ℕ, ◌≡◌, refl, sym, ap, subst, ◌∙◌, inl, inr, true, false, some, List, [], ◌∷◌, ◌++◌, arith,
  Bool-cases, Option-cases, length, any, All,
}
use zorin_host_agent.Text.{Text, text_eq, contains_byte}
use zorin_host_agent.Text.Hex.{IsByte}
use zorin_host_agent.Text.Laws.{text_eq_iff, text_eq_refl}
use zorin_host_agent.Net.{Ip, split_host_port, join_host_port, trim_brackets}
use zorin_host_agent.Net.Address.{v4_prefix, parse_ip, to4, format_ip4}
use zorin_host_agent.Net.Laws.{to4-cases}
use zorin_host_agent.Net.RoundTrip.{
  parse_ip-format_ip4, contains_byte-format_ip4, split_host_port-join_host_port,
  trim_brackets_plain,
}
use zorin_host_agent.Portable.Private.{
  is_private_v4, is_private_ipv4, Interface, v4_text, is_seen, iface_addresses,
  private_interface_ipv4,
}
use zorin_host_agent.Portable.Private.Listing.{
  offers_ip, offers, iface_addresses-offers, private_interface_ipv4-IsAscending,
}
use zorin_host_agent.Listen.{host_part}
use zorin_host_agent.Listen.Transport.{IsPort}
use zorin_host_agent.Agent.{Agent}
use zorin_host_agent.Identity.{pair_code}
use zorin_host_agent.Portable.Link.{portable_deep_link}
use zorin_host_agent.Portable.Bootstrap.Escape.{is_markup, html_escape-inert}
use zorin_host_agent.Portable.Bootstrap.{
  Invitation, Request, HttpResponse, page, bootstrap_path, request_host_ip, html_escape,
  serve_bootstrap, url_of, urls_of, portable_bootstrap_urls, bootstrap_page, bootstrap_status,
}
use zorin_host_agent.Portable.Bootstrap.Browse.{is_special, request_of, request_of-url_of}

-- A text that names a private address, in the form that a URL takes as it is.
record IsPrivateText (t : Text) : Type 0 where
  ip : Ip
  parsed : parse_ip t ≡ some ip
  private : is_private_ipv4 ip ≡ true
  no_open : contains_byte b'[' t ≡ false
  no_close : contains_byte b']' t ≡ false
  no_slash : contains_byte b'/' t ≡ false

private_v4-IsPrivateText :
    (v4 : Ip)
    → length v4 ≡ 4
    → All IsByte v4
    → is_private_v4 v4 ≡ true
    → IsPrivateText (format_ip4 v4)
private_v4-IsPrivateText (a ∷ b ∷ c ∷ d ∷ []) n h p = record {
  ip = v4_prefix ++ a ∷ b ∷ c ∷ d ∷ [];
  parsed = parse_ip-format_ip4 a b c d h.0 h.1.0 h.1.1.0 h.1.1.1.0;
  private = unfold is_private_ipv4 to4 text_eq in p;
  no_open = contains_byte-format_ip4 b'[' a b c d (inl (omega arith));
  no_close = contains_byte-format_ip4 b']' a b c d (inl (omega arith));
  no_slash = contains_byte-format_ip4 b'/' a b c d (inr refl);
}
private_v4-IsPrivateText [] n h p = absurd (omega arith)
private_v4-IsPrivateText (a ∷ []) n h p = absurd (omega arith)
private_v4-IsPrivateText (a ∷ b ∷ []) n h p = absurd (omega arith)
private_v4-IsPrivateText (a ∷ b ∷ c ∷ []) n h p = absurd (omega arith)
private_v4-IsPrivateText (a ∷ b ∷ c ∷ d ∷ e ∷ v) n h p = absurd (omega arith)

All-behind : (xs ys : Text) → All IsByte (xs ++ ys) → All IsByte ys
All-behind [] ys h = h
All-behind (x ∷ xs) ys h = All-behind xs ys h.1

private_ip-IsPrivateText :
    (ip : Ip) → All IsByte ip → is_private_ipv4 ip ≡ true → IsPrivateText (v4_text ip)
private_ip-IsPrivateText ip h p = elim (Option-cases (to4 ip)) [
  | inl e ↦ unfold is_private_ipv4 in absurd (ground arith)
  | inr (v4, e) ↦
      let (n, cases) = to4-cases ip v4 e in
      let bytes : All IsByte v4 = elim cases [
        | inl q ↦ subst (All IsByte) q h
        | inr q ↦ All-behind v4_prefix v4 (subst (All IsByte) q h)
      ] in
      let q : is_private_v4 v4 ≡ true = unfold is_private_ipv4 in ground arith in
      let t : v4_text ip ≡ format_ip4 v4 = unfold v4_text in ground arith in
      subst IsPrivateText (sym t) (private_v4-IsPrivateText v4 n bytes q)
]

-- The addresses of the interface that are looked at are made of bytes.
abbrev pub HasBytes : Interface → Type 0
HasBytes iface = All (λ ip. All IsByte ip) (iface_addresses iface)

any_address :
    (x : Text) (ips : List Ip)
    → All (λ ip. All IsByte ip) ips
    → any (offers_ip x) ips ≡ true
    → IsPrivateText x
any_address x [] h k = absurd (ground arith)
any_address x (ip ∷ ips) h k = elim (Bool-cases (offers_ip x ip)) [
  | inl e ↦
      let p : is_private_ipv4 ip ≡ true = ground arith in
      let same : v4_text ip ≡ x = (text_eq_iff (v4_text ip) x).0 (ground arith) in
      subst IsPrivateText same (private_ip-IsPrivateText ip h.0 p)
  | inr e ↦ any_address x ips h.1 (ground arith)
]

any_interface :
    (x : Text) (ifaces : List Interface)
    → All HasBytes ifaces
    → any (offers x) ifaces ≡ true
    → IsPrivateText x
any_interface x [] h k = absurd (ground arith)
any_interface x (iface ∷ ifaces) h k = elim (Bool-cases (offers x iface)) [
  | inl e ↦ any_address x (iface_addresses iface) h.0 (iface_addresses-offers x iface ∙ e)
  | inr e ↦ any_interface x ifaces h.1 (ground arith)
]

is_seen-urls_of :
    (x port invite : Text) (xs : List Text)
    → is_seen x xs ≡ true
    → is_seen (url_of x port invite) (urls_of port invite xs) ≡ true
unfolding is_seen urls_of
is_seen-urls_of x port invite [] h = absurd (ground arith)
is_seen-urls_of x port invite (y ∷ xs) h = elim (Bool-cases (text_eq y x)) [
  | inl e ↦
      let same : y ≡ x = (text_eq_iff y x).0 e in
      let self : text_eq (url_of y port invite) (url_of x port invite) ≡ true =
        subst (λ z. text_eq (url_of y port invite) (url_of z port invite) ≡ true) same
          (text_eq_refl (url_of y port invite)) in
      ground arith
  | inr e ↦ ground (arith, is_seen-urls_of x port invite xs)
]

request_host_ip-join_host_port :
    (ip port : Text)
    → IsPrivateText ip
    → IsPort port
    → request_host_ip (join_host_port ip port) ≡ ip
request_host_ip-join_host_port ip port p h =
    let split = split_host_port-join_host_port ip port p.no_open p.no_close h.0 h.1 h.2 in
    let part : host_part (join_host_port ip port) ≡ ip = unfold host_part in ground arith in
    unfold request_host_ip in ap trim_brackets part ∙ trim_brackets_plain ip p.no_open p.no_close

-- The texts that the template puts into the page.
abbrev pub texts_of : HttpResponse → List Text
texts_of (page code fp expires link) = code ∷ fp ∷ expires ∷ link ∷ []
texts_of _ = []

abbrev pub IsInert : HttpResponse → Type 0
IsInert r = All (λ t. any is_markup t ≡ false) (texts_of r)

module _ (format_time : ℕ → Text) (inv : Invitation) (a : Agent) where
  -- The page for a phone that comes to this address.
  abbrev pub page_for : Text → HttpResponse
  page_for ip =
      page (html_escape (pair_code a.host_fp)) (html_escape a.host_fp)
        (html_escape (format_time inv.expires))
        (html_escape (portable_deep_link ip inv.trust_port inv.expires inv.invite))

  page_for-IsInert : (ip : Text) → IsInert (page_for ip)
  page_for-IsInert ip =
      (html_escape-inert _, (html_escape-inert _, (html_escape-inert _, (html_escape-inert _, tt))))

  -- The page is shown only for the path with the invite, to a request that names a private IPv4
  -- address; its link leads to that address, and none of its texts holds a byte that HTML reads as
  -- the start of a tag or the end of an attribute.
  pub serve_bootstrap-page :
      (r : Request) (code fp expires link : Text)
      → serve_bootstrap format_time inv a r ≡ page code fp expires link
      → (r.path ≡ bootstrap_path inv.invite)
        × (page code fp expires link ≡ page_for (request_host_ip r.host))
        × IsInert (page code fp expires link)
        × (ip : Ip) × (parse_ip (request_host_ip r.host) ≡ some ip)
        × (is_private_ipv4 ip ≡ true)
  unfolding serve_bootstrap bootstrap_page bootstrap_status
  serve_bootstrap-page r code fp expires link h =
      let here : text_eq r.path (bootstrap_path inv.invite) ≡ true = ground arith in
      let path = (text_eq_iff r.path (bootstrap_path inv.invite)).0 here in
      elim (Option-cases (parse_ip (request_host_ip r.host))) [
        | inl e ↦ absurd (ground arith)
        | inr (ip, e) ↦
            let private_is : is_private_ipv4 ip ≡ true = ground arith in
            let same : page code fp expires link ≡ page_for (request_host_ip r.host) =
              ground arith in
            let inert = subst IsInert (sym same) (page_for-IsInert (request_host_ip r.host)) in
            (path, same, inert, ip, e, private_is)
      ]

  -- Every private address of the interfaces has its URL among those that are printed, and the request
  -- that a browser makes for this URL gets the page with the link to the address. The port has none of
  -- the separators of a URL in it, and the invite none of the bytes that a path does not take as they are.
  pub portable_bootstrap_urls-page :
      (ifaces : List Interface) (addr host port ip : Text)
      → All HasBytes ifaces
      → split_host_port addr ≡ some (host, port)
      → IsPort port
      → contains_byte b'/' port ≡ false
      → any is_special inv.invite ≡ false
      → any (offers ip) ifaces ≡ true
      → (is_seen (url_of ip port inv.invite) (portable_bootstrap_urls (some ifaces) addr inv.invite)
          ≡ true)
        × (r : Request) × (request_of (url_of ip port inv.invite) ≡ some r)
        × (serve_bootstrap format_time inv a r ≡ page_for ip)
  portable_bootstrap_urls-page ifaces addr host port ip bytes split good no_slash plain offered =
      let p = any_interface ip ifaces bytes offered in
      let listed = (private_interface_ipv4-IsAscending ifaces).1 ip ∙ offered in
      let put = is_seen-urls_of ip port inv.invite (private_interface_ipv4 (some ifaces)) listed in
      let asked = request_host_ip-join_host_port ip port p good in
      let path = text_eq_refl (bootstrap_path inv.invite) in
      (
        unfold portable_bootstrap_urls in ground (arith, put),
        record { path = bootstrap_path inv.invite; host = join_host_port ip port },
        request_of-url_of ip port inv.invite p.no_slash no_slash plain,
        unfold serve_bootstrap bootstrap_page in ground (arith, path, asked, p.parsed, p.private),
      )
