-- ===== src/Portable/Bootstrap/Browse.antt =====
-- The request that a browser makes for a URL, as the phone opens the one that is printed.
use zorin_host_agent.Prelude.{
  ℕ, ◌≡◌, refl, Bool, false, not, ◌||◌, Option, none, some, [], ◌∷◌, ◌++◌, arith, ◌==◌,
  if◌then◌else◌, drop, any,
}
use zorin_host_agent.Text.{Text, text, has_prefix, contains_byte, cut}
use zorin_host_agent.Text.Laws.{contains_byte-append, cut-append}
use zorin_host_agent.Net.{join_host_port}
use zorin_host_agent.Portable.Bootstrap.{Request, bootstrap_path, url_of}

-- The bytes that do not stand for themselves in the path of a URL.
abbrev pub is_special : ℕ → Bool
is_special c = c == b'?' || c == b'#' || c == b'%'

-- The request that a browser makes for an http URL: what stands before the first slash goes into the
-- Host header, and the rest is the path. URLs with special bytes in the path are left out.
pub request_of : Text → Option Request
request_of url =
    if not (has_prefix url (text "http://")) then none else elim (cut b'/' (drop 7 url)) [
      | none ↦ some (record { path = text "/"; host = drop 7 url })
      | some (host, path) ↦
          if any is_special path then none else some (record { path = b'/' ∷ path; host = host })
    ]

any_special-append : (s t : Text) → any is_special (s ++ t) ≡ (any is_special s || any is_special t)
any_special-append [] t = refl
any_special-append (c ∷ s) t = ground (arith, any_special-append s t)

join_host_port-no_slash :
    (ip port : Text)
    → contains_byte b'/' ip ≡ false
    → contains_byte b'/' port ≡ false
    → contains_byte b'/' (join_host_port ip port) ≡ false
unfolding join_host_port contains_byte text
join_host_port-no_slash ip port h k = ground (
  arith,
  contains_byte-append b'/' ip (b':' ∷ port),
  contains_byte-append b'/' ip (b']' ∷ b':' ∷ port),
)

pub request_of-url_of :
    (ip port invite : Text)
    → contains_byte b'/' ip ≡ false
    → contains_byte b'/' port ≡ false
    → any is_special invite ≡ false
    → request_of (url_of ip port invite)
      ≡ some (record { path = bootstrap_path invite; host = join_host_port ip port })
unfolding request_of url_of bootstrap_path text has_prefix
request_of-url_of ip port invite h k plain =
    let found =
      cut-append b'/' (join_host_port ip port) (text "connect/" ++ invite)
        (join_host_port-no_slash ip port h k) in
    ground (arith, found, plain)
