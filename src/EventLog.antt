-- ===== src/EventLog.antt =====
-- main.go: `recordEvent`, the log events.jsonl on the files.
pub mod Rotation
mod Tests
use zorin_host_agent.Prelude.{
  ℕ, ◌*◌, ◌/◌, none, some, [], ◌∷◌, ◌++◌, ltb, if◌then◌else◌, length, drop,
}
use zorin_host_agent.Text.{Text, text, cut}
use zorin_host_agent.Files.{Files, join_path, read_file, write_file}
use zorin_host_agent.Frame.{newline}

abbrev pub log_limit : ℕ
log_limit = 512 * 1024

-- What the log holds; a log that is missing is empty.
unfoldable pub log_of : Text → Files → Text
log_of path fs = elim (read_file path fs) [ none ↦ [] | some bytes ↦ bytes ]

-- The file opened with O_CREATE and O_APPEND, and one write.
unfoldable pub append_file : Text → Text → Files → Files
append_file path bytes fs = (write_file path (log_of path fs ++ bytes) fs).0

-- `data[start:]`
unfoldable pub rotated : Text → Text
rotated bytes =
    let half = drop (length bytes / 2) bytes in
    elim (cut newline half) [ none ↦ half | some (before, rest) ↦ rest ]

-- The log is cut where it is too long.
unfoldable pub trim_log : Text → Files → Files
trim_log path fs =
    let bytes = log_of path fs in
    if ltb log_limit (length bytes) then (write_file path (rotated bytes) fs).0 else fs

unfoldable pub events_path : Text → Text
events_path dir = join_path dir (text "events.jsonl")

-- recordEvent, for the JSON text of the event.
unfoldable pub record_event : Text → Text → Files → Files
record_event dir json fs =
    trim_log (events_path dir) (append_file (events_path dir) (json ++ newline ∷ []) fs)
