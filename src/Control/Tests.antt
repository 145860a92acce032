-- ===== src/Control/Tests.antt =====
-- The theorems on the control API, at a host with one unlocked phone.
use zorin_host_agent.Prelude.{◌≡◌, refl, true, false, none, some, [], is_empty, All}
use zorin_host_agent.Text.{text, text_eq, to_lower, to_upper, equal_fold, join}
use zorin_host_agent.Text.Hex.{hex_encode}
use zorin_host_agent.Dict.{insert, values}
use zorin_host_agent.Identity.{fingerprint}
use zorin_host_agent.Policy.Defaults.{rule_of}
use zorin_host_agent.Policy.DefaultDecisions.{all_guarded}
use zorin_host_agent.Agent.{LiveSession}
use zorin_host_agent.Session.{write_session, write_owner_mode, put_session, session_up}
use zorin_host_agent.Control.{
  ControlRequest, choose_live, status_response, is_unauthorized, handle_control,
}
use zorin_host_agent.Control.Authorize.{IsAsked, authorize_request-IsAsked, is_served}
use zorin_host_agent.Samples.{
  live_phone, served_host, sample_request, terminal_policy, terminal_asked,
}

authorize_request-IsAsked_example :
    IsAsked terminal_policy served_host
      (text "ops.terminal")
      (text "vps:1")
      false
      live_phone
      sample_request
authorize_request-IsAsked_example =
    authorize_request-IsAsked terminal_policy served_host (text "ops.terminal") (text "vps:1")
      (text "open") (text "r1") false (text "fresh") 4 live_phone sample_request terminal_asked

closed_by_default : equal_fold terminal_policy.default_effect (text "allow") ≡ false
unfolding text equal_fold to_lower
closed_by_default = refl

guarded_rules : all_guarded terminal_policy.rules ≡ true
unfolding text equal_fold to_lower rule_of all_guarded
guarded_rules = refl

abbrev status_request : ControlRequest
status_request = record {
  token = text "secret";
  op = text "status";
  action = [];
  resource = [];
  prompt = [];
  explicit = false;
  request_id = [];
}

status_served :
    is_served
      (handle_control (text "secret") terminal_policy served_host (some status_request) [] 4).0
    ≡ true
unfolding handle_control is_unauthorized text text_eq status_response
status_served = refl

phone_named : All (λ (k : LiveSession). is_empty k.phone_fp ≡ false) (values served_host.live)
unfolding values session_up put_session write_session write_owner_mode fingerprint hex_encode join
    to_upper insert
phone_named = (refl, tt)

phone_chosen : choose_live none (values served_host.live) ≡ some live_phone
unfolding values session_up put_session write_session write_owner_mode insert choose_live
phone_chosen = refl
