-- ===== src/Frame.antt =====
-- main.go: the line protocol, `writeLines` and `readFrame`, on the bytes of a stream.
pub mod RoundTrip
mod Tests
use zorin_host_agent.Prelude.{
  ℕ, zero, suc, Option, none, some, List, [], ◌∷◌, ◌++◌, if◌then◌else◌, length, is_empty,
}
use zorin_host_agent.Text.{Text, text, text_eq, trim_space, cut}
use zorin_host_agent.Dict.{Dict, insert}

abbrev pub newline : ℕ
newline = 10

-- r.ReadString('\n'), without the line feed, and what is left; `none` is the error at the end of
-- the stream.
unfoldable pub read_line : Text → Option (Text × Text)
read_line stream = cut newline stream

-- The bytes that `writeLines` sends, where no write fails.
unfoldable pub write_lines : List Text → Text
write_lines [] = []
write_lines (line ∷ lines) = line ++ newline ∷ write_lines lines

-- The key and the value of a line: `p := strings.IndexByte(line, ' ')`.
unfoldable pub split_line : Text → Text × Text
split_line line = elim (cut 32 line) [
  | none ↦ (line, [])
  | some ([], value) ↦ (line, [])
  | some (c ∷ key, value) ↦ (c ∷ key, value)
]

-- The loop of `readFrame` over the frame that is read so far. Every round reads a byte at least,
-- so that the length of the stream is enough fuel.
unfoldable pub frame_loop : ℕ → Dict Text → Text → Option (Dict Text × Text)
frame_loop zero out stream = none
frame_loop (suc f) out stream = elim (read_line stream) [
  | none ↦ none
  | some (raw, rest) ↦
      let line = trim_space raw in
      let skipped = frame_loop f out rest in
      let (key, value) = split_line line in
      let stored = frame_loop f (insert key value out) rest in
      if text_eq line (text "END")
      then some (out, rest)
      else if is_empty line
      then skipped
      else stored
]

-- readFrame; `none` is its error.
unfoldable pub read_frame : Text → Option (Dict Text × Text)
read_frame stream = frame_loop (suc (length stream)) [] stream
