-- ===== src/Startup.antt =====
-- main.go: `ensureControlToken`, the secret of the local control API in the file control.token.
pub mod Token
pub mod Load
mod Tests
use zorin_host_agent.Prelude.{ℕ, Option, none, some, [], ◌∷◌, ◌++◌, leb, if◌then◌else◌, length}
use zorin_host_agent.Text.{Text, text, trim_space}
use zorin_host_agent.Files.{Files, join_path, read_file, write_file}
use zorin_host_agent.Frame.{newline}

abbrev pub token_length : ℕ
token_length = 32

unfoldable pub token_path : Text → Text
token_path dir = join_path dir (text "control.token")

-- The token that the file holds, if it is long enough.
unfoldable pub stored_token : Text → Files → Option Text
stored_token path fs = elim (read_file path fs) [
  | none ↦ none
  | some bytes ↦
      if leb token_length (length (trim_space bytes)) then some (trim_space bytes) else none
]

-- ensureControlToken: `fresh` is `randomHex(32)`, and `none` is an error.
unfoldable pub ensure_control_token : Text → Text → Files → Files × Option Text
ensure_control_token dir fresh fs =
    let (fs', ok) = write_file (token_path dir) (fresh ++ newline ∷ []) fs in
    elim (stored_token (token_path dir) fs) [
      | some token ↦ (fs, some token)
      | none ↦ (fs', if ok then some fresh else none)
    ]
