-- ===== src/UiState/Laws.antt =====
-- What the Trust Center is shown.
use zorin_host_agent.Prelude.{ℕ, ◌≡◌, refl, ap₂, ◌∙◌, not, ◌&&◌, [], ◌∷◌, arith, is_empty, All}
use zorin_host_agent.Dict.{Dict, values, any_value}
use zorin_host_agent.Dict.Laws.{values-All}
use zorin_host_agent.Agent.{Agent, Session, DaemonHealth, is_present}
use zorin_host_agent.Session.{any_present}
use zorin_host_agent.Session.Invariant.{IsConsistent}
use zorin_host_agent.Session.Presence.{session-IsProper, IsProper}
use zorin_host_agent.UiState.{ui_state, ui_flags, ui_session, ui_health}

ui_state-flags :
    (now : ℕ) (h : DaemonHealth) (a : Agent)
    → ((ui_state now h a).device_trusted ≡ any_value (λ s. s.trusted) a.sessions)
      × ((ui_state now h a).owner_present ≡ any_value (λ s. s.user_present) a.sessions)
      × ((ui_state now h a).authority_enabled
          ≡ (any_value (λ s. s.trusted) a.sessions && any_value (λ s. s.user_present) a.sessions))
unfolding ui_state ui_health ui_session ui_flags
ui_state-flags now h a = ground arith

All-trusted :
    (m : Dict Session)
    → All IsProper (values m)
    → (any_value (λ s. s.trusted) m ≡ not (is_empty m))
      × (any_value (λ s. s.user_present) m ≡ any_value is_present m)
unfolding any_value values is_present
All-trusted [] h = (refl, refl)
All-trusted ((k, s) ∷ m) h = ground (arith, All-trusted m h.1)

empty_absent :
    (m : Dict Session) → (not (is_empty m) && any_value is_present m) ≡ any_value is_present m
unfolding any_value
empty_absent [] = refl
empty_absent (e ∷ m) = refl

-- Where sessions, connections and files agree, owner actions are shown as enabled exactly if some
-- session is trusted and its phone unlocked, and the device as trusted exactly if there is a
-- session.
pub ui_state-authority :
    (now : ℕ) (h : DaemonHealth) (a : Agent)
    → IsConsistent a
    → ((ui_state now h a).authority_enabled ≡ any_present a)
      × ((ui_state now h a).device_trusted ≡ not (is_empty a.sessions))
unfolding any_present
ui_state-authority now h a c =
    let (trusted, present) =
      All-trusted a.sessions
        (values-All IsProper a.sessions c.sessions_map (session-IsProper a c)) in
    let (t, _, e) = ui_state-flags now h a in
    (e ∙ ap₂ ◌&&◌ trusted present ∙ empty_absent a.sessions, t ∙ trusted)

-- What is shown as online is shown as attached, and what is shown as enabled is shown as both
-- trusted and present.
pub ui_state-online :
    (now : ℕ) (h : DaemonHealth) (a : Agent)
    → (((ui_state now h a).transport_online && (ui_state now h a).device_attached)
        ≡ (ui_state now h a).transport_online)
      × ((ui_state now h a).authority_enabled
          ≡ ((ui_state now h a).device_trusted && (ui_state now h a).owner_present))
unfolding ui_state ui_health ui_session ui_flags
ui_state-online now h a = ground arith
