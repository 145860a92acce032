-- ===== src/Crypto.antt =====
-- What the agent uses of crypto/sha256, crypto/x509, crypto/ecdsa and of the texts of library
-- errors. A public key is the bytes that identify it.
use zorin_host_agent.Prelude.{Bool}
use zorin_host_agent.Text.{Text}

pub data ParsedKey : Type 0 where
  unreadable : Text → ParsedKey
  ecdsa : Text → ParsedKey
  other_kind : ParsedKey

pub record Crypto : Type 0 where
  -- sha256.Sum256
  pub sha256 : Text → Text
  -- x509.ParsePKIXPublicKey; an error comes with its text
  pub parse_key : Text → ParsedKey
  -- ecdsa.VerifyASN1: key, digest, signature
  pub verify : Text → Text → Text → Bool
  -- the text of the error of hex.DecodeString
  pub hex_error : Text → Text
