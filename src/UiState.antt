-- ===== src/UiState.antt =====
-- main.go: `writeUIStateLocked`, the state that the Trust Center shows.
pub mod Laws
mod Tests
use zorin_host_agent.Prelude.{
  ℕ, ◌+◌, Bool, true, false, not, ◌&&◌, ◌||◌, List, [], ◌∷◌, ltb, ◌==◌, if◌then◌else◌, is_empty,
}
use zorin_host_agent.Text.{Text, text}
use zorin_host_agent.Dict.{Dict, values, any_value, get_text}
use zorin_host_agent.Identity.{pair_code}
use zorin_host_agent.Agent.{Agent, Session, DaemonHealth, zero_session}

pub record UiState : Type 0 where
  pub updated : ℕ
  pub device_attached : Bool
  pub device_trusted : Bool
  pub owner_present : Bool
  pub authority_enabled : Bool
  pub transport_online : Bool
  pub transport : Text
  pub host_fingerprint : Text
  pub identity_provider : Text
  pub phone_fingerprint : Text
  pub phone_label : Text
  pub pair_verification : Text
  pub last_seen : ℕ

unfoldable pub newest_seen : Session → List Session → Session
newest_seen newest [] = newest
newest_seen newest (s ∷ rest) =
    newest_seen (if newest.last_seen == 0 || ltb newest.last_seen s.last_seen then s else newest)
      rest

-- The state after the loop over the sessions and the assignment of `AuthorityEnabled`.
unfoldable pub ui_flags : ℕ → Agent → UiState
ui_flags now a =
    let trusted = any_value (λ s. s.trusted) a.sessions in
    let present = any_value (λ s. s.user_present) a.sessions in
    record {
      updated = now;
      device_attached = false;
      device_trusted = trusted;
      owner_present = present;
      authority_enabled = trusted && present;
      transport_online = false;
      transport = text "Offline";
      host_fingerprint = a.host_fp;
      identity_provider = a.provider;
      phone_fingerprint = [];
      phone_label = [];
      pair_verification = pair_code a.host_fp;
      last_seen = 0;
    }

unfoldable pub or_default : Text → Text → Text
or_default s d = if is_empty s then d else s

-- `if !newest.LastSeen.IsZero() { … }`
unfoldable pub ui_session : Agent → Session → UiState → UiState
ui_session a newest st = if newest.last_seen == 0 then st else record st {
  device_attached = true;
  transport_online = true;
  transport = or_default newest.transport st.transport;
  phone_fingerprint = newest.phone_fingerprint;
  last_seen = newest.last_seen;
  phone_label =
      or_default (get_text newest.phone_fingerprint a.cfg.device_labels) (text "Owner phone");
}

-- Eight seconds, in nanoseconds.
abbrev pub health_window : ℕ
health_window = 8_000_000_000

-- The last `if`: no session, and a daemon health that is fresh.
unfoldable pub ui_health : ℕ → DaemonHealth → UiState → UiState
ui_health now h st =
    if not st.transport_online && not (h.updated == 0) && ltb now (h.updated + health_window)
    then (if not (is_empty h.devices) && not (is_empty h.reverse_ok)
        then record st { device_attached = true; transport_online = true; transport = text "USB" }
        else record st {
          device_attached = not (is_empty h.devices);
          transport = if h.adb_available then text "Recovering" else st.transport;
        })
    else st

-- What is written to ui-state.json. `health` is the argument, or what daemon-health.json holds.
unfoldable pub ui_state : ℕ → DaemonHealth → Agent → UiState
ui_state now health a =
    ui_health now health
      (ui_session a (newest_seen zero_session (values a.sessions)) (ui_flags now a))
