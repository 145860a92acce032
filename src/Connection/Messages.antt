-- ===== src/Connection/Messages.antt =====
-- The three messages that are signed: none is one of another kind, and the phone's names this
-- handshake.
use zorin_host_agent.Prelude.{◌≡◌, ◌≢◌, false, arith}
use zorin_host_agent.Text.{Text, text, contains_byte}
use zorin_host_agent.Proof.{OwnerProof, protocol_name, bar, owner_proof_message, signed_message}
use zorin_host_agent.Connection.{phone_proof_message, host_proof_message}
use zorin_host_agent.Proof.Messages.{cut_at_bar, append_left}

-- No text that one key signs as a phone's part of a handshake is a host's part of one, or an owner
-- proof, and no host's part is an owner proof.
pub phone_proof_message-apart :
    (host_nonce phone_nonce host_pub phone_pub host_nonce' phone_nonce' host_pub' phone_pub' : Text)
    (p : OwnerProof)
    → (phone_proof_message host_nonce phone_nonce host_pub phone_pub
        ≢ host_proof_message host_nonce' phone_nonce' host_pub' phone_pub')
      × (phone_proof_message host_nonce phone_nonce host_pub phone_pub ≢ signed_message p)
      × (host_proof_message host_nonce phone_nonce host_pub phone_pub ≢ signed_message p)
unfolding phone_proof_message host_proof_message signed_message owner_proof_message protocol_name
    text
phone_proof_message-apart hn pn hp pp hn' pn' hp' pp' p =
    (λ e. ground (arith, e), λ e. ground (arith, e), λ e. ground (arith, e))

-- The phone's message binds the nonce of the host, whatever the phone sends: two that are equal
-- have one host nonce, where a nonce of the host holds no bar.
pub phone_proof_message-fresh :
    (host_nonce host_nonce' phone_nonce phone_nonce' host_pub host_pub' phone_pub phone_pub' : Text)
    → contains_byte bar host_nonce ≡ false
    → contains_byte bar host_nonce' ≡ false
    → phone_proof_message host_nonce phone_nonce host_pub phone_pub
      ≡ phone_proof_message host_nonce' phone_nonce' host_pub' phone_pub'
    → host_nonce ≡ host_nonce'
unfolding phone_proof_message
phone_proof_message-fresh hn hn' pn pn' hp hp' pp pp' h h' e =
    (cut_at_bar hn hn' _ _ h h'
      (append_left (text "|PHONE|") _ _ (append_left protocol_name _ _ e))).0
