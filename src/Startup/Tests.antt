-- ===== src/Startup/Tests.antt =====
-- The theorem on the control token, at a first start.
use zorin_host_agent.Prelude.{◌≡◌, refl, true, some, [], ◌∷◌, ◌++◌, arith, All}
use zorin_host_agent.Text.{Text, text, is_space}
use zorin_host_agent.Text.Laws.{IsInk}
use zorin_host_agent.Dict.{lookup}
use zorin_host_agent.Files.{Files, read_file, write_file}
use zorin_host_agent.Frame.{newline}
use zorin_host_agent.Startup.{token_path, stored_token, ensure_control_token}

abbrev no_file : Files
no_file = record { contents = []; writable = λ path. true }

abbrev drawn : Text
drawn = text "0123456789abcdef0123456789abcdef"

abbrev first_start : Files
first_start = (write_file (token_path (text "s")) (drawn ++ newline ∷ []) no_file).0

drawn-IsInk : All IsInk drawn
unfolding text is_space
drawn-IsInk = ground arith

given : ensure_control_token (text "s") drawn no_file ≡ (first_start, some drawn)
unfolding ensure_control_token stored_token read_file lookup write_file
given = refl
