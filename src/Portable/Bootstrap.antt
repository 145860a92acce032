-- ===== src/Portable/Bootstrap.antt =====
-- portable.go: the HTTP server of `startPortableBootstrap`, `requestHostIP` and
-- `portableBootstrapURLs`.
pub mod Escape
pub mod Browse
pub mod Served
mod Tests
use zorin_host_agent.Prelude.{
  ℕ, Bool, not, Option, none, some, List, [], ◌∷◌, ◌++◌, ◌==◌, if◌then◌else◌,
}
use zorin_host_agent.Text.{Text, text, text_eq}
use zorin_host_agent.Net.{split_host_port, join_host_port, trim_brackets}
use zorin_host_agent.Net.Address.{parse_ip}
use zorin_host_agent.Listen.{host_part}
use zorin_host_agent.Agent.{Agent}
use zorin_host_agent.Identity.{pair_code}
use zorin_host_agent.Control.{control_status, refused}
use zorin_host_agent.Portable.Link.{portable_deep_link}
use zorin_host_agent.Portable.Private.{is_private_ipv4, Interface, private_interface_ipv4}

-- What the handlers know: the port of the trust listener, the time of expiry, and the invite.
pub record Invitation : Type 0 where
  pub trust_port : ℕ
  pub expires : ℕ
  pub invite : Text

-- The path of a request, which the multiplexer has found clean, and its Host header.
pub record Request : Type 0 where
  pub path : Text
  pub host : Text

-- The four texts that are put into the page, and the contents of the status.
pub data HttpResponse : Type 0 where
  not_found : HttpResponse
  bad_request : Text → HttpResponse
  page : Text → Text → Text → Text → HttpResponse
  status : Bool → Bool → Text → Text → ℕ → HttpResponse

unfoldable pub bootstrap_path : Text → Text
bootstrap_path invite = text "/connect/" ++ invite

-- requestHostIP
unfoldable pub request_host_ip : Text → Text
request_host_ip host = trim_brackets (host_part host)

-- html.EscapeString
unfoldable pub html_escape : Text → Text
html_escape [] = []
html_escape (c ∷ s) =
    let rest = html_escape s in
    if c == b'&'
    then text "&amp;" ++ rest
    else if c == 39
    then text "&#39;" ++ rest
    else if c == b'<'
    then text "&lt;" ++ rest
    else if c == b'>'
    then text "&gt;" ++ rest
    else if c == b'"'
    then text "&#34;" ++ rest
    else c ∷ rest

-- `format_time` is expires.Format(time.RFC3339).
module _ (format_time : ℕ → Text) where
  -- The handler of the page.
  unfoldable pub bootstrap_page : Invitation → Agent → Request → HttpResponse
  bootstrap_page inv a r =
      let host = request_host_ip r.host in
      let shown =
        page (html_escape (pair_code a.host_fp)) (html_escape a.host_fp)
          (html_escape (format_time inv.expires))
          (html_escape (portable_deep_link host inv.trust_port inv.expires inv.invite)) in
      let refused =
        bad_request
          (text "Open this page through a private IPv4 address of the portable computer.") in
      if not (text_eq r.path (bootstrap_path inv.invite)) then not_found else elim (parse_ip host) [
        | none ↦ refused
        | some ip ↦ if is_private_ipv4 ip then shown else refused
      ]

  -- The handler of /api/status.
  unfoldable pub bootstrap_status : Invitation → Agent → HttpResponse
  bootstrap_status inv a =
      status (control_status a).trusted (control_status a).owner_present a.host_fp
        (pair_code a.host_fp) inv.expires

  -- The multiplexer: the two paths, and nothing else.
  unfoldable pub serve_bootstrap : Invitation → Agent → Request → HttpResponse
  serve_bootstrap inv a r =
      if text_eq r.path (bootstrap_path inv.invite)
      then bootstrap_page inv a r
      else if text_eq r.path (text "/api/status")
      then bootstrap_status inv a
      else not_found

unfoldable pub url_of : Text → Text → Text → Text
url_of ip port invite = text "http://" ++ (join_host_port ip port ++ bootstrap_path invite)

unfoldable pub urls_of : Text → Text → List Text → List Text
urls_of port invite [] = []
urls_of port invite (ip ∷ ips) = url_of ip port invite ∷ urls_of port invite ips

-- portableBootstrapURLs
unfoldable pub portable_bootstrap_urls : Option (List Interface) → Text → Text → List Text
portable_bootstrap_urls ifaces addr invite = elim (split_host_port addr) [
  | none ↦ []
  | some (host, port) ↦ urls_of port invite (private_interface_ipv4 ifaces)
]
