-- ===== src/Frame/Tests.antt =====
-- A frame of two fields, sent and read.
use zorin_host_agent.Prelude.{◌≡◌, refl, some, List, [], ◌∷◌, ◌++◌, All}
use zorin_host_agent.Text.{Text, text, contains_byte, trim_space}
use zorin_host_agent.Frame.{write_lines, read_frame}
use zorin_host_agent.Frame.RoundTrip.{frame_lines, IsField, store_fields, read_frame-write_lines}

abbrev answer_fields : List (Text × Text)
answer_fields = (text "PROOF_RESULT", text "OK") ∷ (text "SIGNATURE", text "3045") ∷ []

fields_fit : All IsField answer_fields
unfolding text contains_byte trim_space
fields_fit = (
  record { key_there = refl; key_plain = refl; one_line = refl; trimmed = refl },
  (record { key_there = refl; key_plain = refl; one_line = refl; trimmed = refl }, tt),
)

read_frame-write_lines_example :
    read_frame (write_lines (frame_lines answer_fields) ++ text "PING")
    ≡ some (store_fields [] answer_fields, text "PING")
read_frame-write_lines_example = read_frame-write_lines answer_fields (text "PING") fields_fit
