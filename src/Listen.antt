-- ===== src/Listen.antt =====
-- main.go: `connectionTransport`, `isLoopbackListener`, and the check of the listener in `main` and
-- in `runPortable`.
pub mod Laws
pub mod Transport
mod Tests
use zorin_host_agent.Prelude.{
  Bool, true, false, not, ◌&&◌, Option, none, some, if◌then◌else◌, is_empty,
}
use zorin_host_agent.Text.{Text, text, equal_fold, trim_space}
use zorin_host_agent.Net.{split_host_port, trim_brackets}
use zorin_host_agent.Net.Address.{parse_ip, is_loopback}

-- The host, or all of the text where it has no port.
unfoldable pub host_part : Text → Text
host_part addr = elim (split_host_port addr) [ none ↦ addr | some (host, port) ↦ host ]

-- connectionTransport: the address of the peer as text, or none where it is nil
unfoldable pub connection_transport : Option Text → Text
connection_transport none = text "Unknown"
connection_transport (some addr) = elim (parse_ip (trim_brackets (host_part addr))) [
  | none ↦ text "Direct LAN"
  | some ip ↦ if is_loopback ip then text "USB / ADB" else text "Direct LAN"
]

unfoldable pub is_loopback_host : Text → Bool
is_loopback_host host =
    if equal_fold (trim_brackets host) (text "localhost")
    then true
    else elim (parse_ip (trim_brackets host)) [ none ↦ false | some ip ↦ is_loopback ip ]

-- isLoopbackListener
unfoldable pub is_loopback_listener : Text → Bool
is_loopback_listener addr = elim (split_host_port (trim_space addr)) [
  | none ↦ false
  | some (host, port) ↦ is_loopback_host host
]

-- What the daemon does with its listener: it listens, or it ends with an error.
pub data Listener : Type 0 where
  listens : Text → Listener
  empty_listener : Listener
  needs_allow_direct : Listener

-- The daemon's checks of the flags --listen and --allow-direct.
unfoldable pub daemon_listener : Text → Bool → Listener
daemon_listener flag allow_direct =
    let addr = trim_space flag in
    if is_empty addr
    then empty_listener
    else if not allow_direct && not (is_loopback_listener addr)
    then needs_allow_direct
    else listens addr
