-- ===== src/EventLog/Tests.antt =====
-- The theorem on the event log, at a log of one event.
use zorin_host_agent.Prelude.{◌≤◌, ◌≡◌, refl, true, [], ◌∷◌, arith, length, All}
use zorin_host_agent.Text.{text, text_eq, contains_byte}
use zorin_host_agent.Files.{Files, join_path, read_file}
use zorin_host_agent.Dict.{lookup}
use zorin_host_agent.EventLog.{log_limit, log_of, events_path, record_event}
use zorin_host_agent.EventLog.Rotation.{bytes_of, IsLine, IsKept, record_event-IsKept}

abbrev one_event : Files
one_event = record {
  contents = (events_path (text "s"), bytes_of (text "{}" ∷ [])) ∷ [];
  writable = λ path. true;
}

one_line : log_of (events_path (text "s")) one_event ≡ bytes_of (text "{}" ∷ [])
unfolding log_of read_file lookup events_path join_path text text_eq
one_line = refl

plain-IsLine : All IsLine (text "{}" ∷ [])
unfolding contains_byte text
plain-IsLine = (refl, tt)

record_event-IsKept_example :
    IsKept
      (text "{}" ∷ [])
      (text "{1}")
      (log_of (events_path (text "s")) (record_event (text "s") (text "{1}") one_event))
    × (length (log_of (events_path (text "s")) (record_event (text "s") (text "{1}") one_event))
        ≤ log_limit)
record_event-IsKept_example =
    record_event-IsKept (text "s") (text "{1}") (text "{}" ∷ []) one_event plain-IsLine one_line
      (unfold text in omega arith) (unfold text in omega arith) refl
