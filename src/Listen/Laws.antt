-- ===== src/Listen/Laws.antt =====
-- Where the daemon listens without --allow-direct.
use zorin_host_agent.Prelude.{
  ◌≡◌, ◌≢◌, ◌⊎◌, inl, inr, Bool, true, some, [], arith, Bool-cases, Option-cases,
}
use zorin_host_agent.Text.{Text, text, equal_fold, trim_space}
use zorin_host_agent.Net.{Ip, split_host_port, trim_brackets}
use zorin_host_agent.Net.Address.{parse_ip, is_loopback}
use zorin_host_agent.Net.Laws.{IsLoopbackIp, is_loopback-IsLoopbackIp}
use zorin_host_agent.Listen.{is_loopback_host, is_loopback_listener, listens, daemon_listener}

-- The text has a port, and before it stands the name localhost or a loopback address.
pub record IsLocal (addr : Text) : Type 0 where
  pub host : Text
  pub port : Text
  pub split : split_host_port (trim_space addr) ≡ some (host, port)
  pub named :
      (equal_fold (trim_brackets host) (text "localhost") ≡ true)
      ⊎ ((ip : Ip) × (parse_ip (trim_brackets host) ≡ some ip) × IsLoopbackIp ip)

loopback_host-named :
    (host : Text)
    → is_loopback_host host ≡ true
    → (equal_fold (trim_brackets host) (text "localhost") ≡ true)
      ⊎ ((ip : Ip) × (parse_ip (trim_brackets host) ≡ some ip) × IsLoopbackIp ip)
loopback_host-named host h =
    elim (Bool-cases (equal_fold (trim_brackets host) (text "localhost"))) [
      | inl e ↦ inl e
      | inr e ↦ elim (Option-cases (parse_ip (trim_brackets host))) [
        | inl q ↦ unfold is_loopback_host in ground arith
        | inr (ip, q) ↦
            let k : is_loopback ip ≡ true = unfold is_loopback_host in ground arith in
            inr (ip, q, is_loopback-IsLoopbackIp ip k)
      ]
    ]

is_loopback_listener-IsLocal : (addr : Text) → is_loopback_listener addr ≡ true → IsLocal addr
is_loopback_listener-IsLocal addr h = elim (Option-cases (split_host_port (trim_space addr))) [
  | inl e ↦ unfold is_loopback_listener in ground arith
  | inr ((host, port), e) ↦
      let k : is_loopback_host host ≡ true = unfold is_loopback_listener in ground arith in
      record { host = host; port = port; split = e; named = loopback_host-named host k }
]

-- A daemon that runs listens where its flag says, spaces trimmed, and it does so without
-- --allow-direct only on a listener that names localhost or a loopback address before its port.
pub daemon_listener-IsLocal :
    (flag addr : Text) (allow_direct : Bool)
    → daemon_listener flag allow_direct ≡ listens addr
    → (addr ≡ trim_space flag) × (addr ≢ []) × ((allow_direct ≡ true) ⊎ IsLocal addr)
daemon_listener-IsLocal flag addr allow_direct h =
    let local : is_loopback_listener addr ≡ true → IsLocal addr =
      is_loopback_listener-IsLocal addr in
    unfold daemon_listener in ground arith
