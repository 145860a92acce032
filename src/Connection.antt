-- ===== src/Connection.antt =====
-- main.go: `handle`, a phone's connection from the greeting to its end.
pub mod Messages
pub mod Handshake
pub mod Queue
pub mod Poll
pub mod Run
pub mod Grant
mod Tests
use zorin_host_agent.Prelude.{List, [], ◌∷◌, ◌++◌}
use zorin_host_agent.Text.{Text, text}
use zorin_host_agent.Text.Hex.{hex_encode}
use zorin_host_agent.Proof.{protocol_name, bar}
use zorin_host_agent.Identity.{sanitize}
use zorin_host_agent.Agent.{Agent}

-- phoneProofMessage
unfoldable pub phone_proof_message : Text → Text → Text → Text → Text
phone_proof_message host_nonce phone_nonce host_pub_hex phone_pub_hex =
    protocol_name
    ++ (text "|PHONE|"
        ++ (host_nonce ++ bar ∷ (phone_nonce ++ bar ∷ (host_pub_hex ++ bar ∷ phone_pub_hex))))

-- hostProofMessage
unfoldable pub host_proof_message : Text → Text → Text → Text → Text
host_proof_message host_nonce phone_nonce host_pub_hex phone_pub_hex =
    protocol_name
    ++ (text "|HOST|"
        ++ (phone_nonce ++ bar ∷ (host_nonce ++ bar ∷ (phone_pub_hex ++ bar ∷ host_pub_hex))))

-- A text behind a keyword on a line.
abbrev pub field : Text → Text → Text
field key value = key ++ 32 ∷ value

-- A line of the keyword AUTH FAIL, and the end of the frame.
unfoldable pub auth_fail : Text → List Text
auth_fail reason = field (text "AUTH FAIL") reason ∷ text "END" ∷ []

-- The greeting: `host_name` is the host's name, or the name of the system where it has none.
unfoldable pub greeting : Agent → Text → Text → Text → List Text
greeting a host_name host_pub host_nonce =
    protocol_name
    ∷ field (text "HOST_NAME") (sanitize host_name)
    ∷ field (text "HOST_PUB") (hex_encode host_pub)
    ∷ field (text "HOST_NONCE") host_nonce
    ∷ field (text "HOST_IDENTITY") a.provider
    ∷ text "END"
    ∷ []
