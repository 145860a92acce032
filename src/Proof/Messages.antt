-- ===== src/Proof/Messages.antt =====
-- The signed messages of proof.go and main.go: what one message tells of its fields, and that no
-- message of one kind is one of another.
use zorin_host_agent.Prelude.{◌≡◌, refl, false, [], ◌∷◌, ◌++◌, arith, All}
use zorin_host_agent.Text.{Text, text, contains_byte}
use zorin_host_agent.Text.Hex.{IsByte, hex_encode, hex_encode-plain, hex_encode-injective}
use zorin_host_agent.Text.Decimal.{format_int, format_int-plain, format_int-injective}
use zorin_host_agent.Proof.{bar, protocol_name, OwnerProof, owner_proof_message, signed_message}

-- Two texts that are cut at their first bar.
pub cut_at_bar :
    (s t u v : Text)
    → contains_byte bar s ≡ false
    → contains_byte bar t ≡ false
    → s ++ bar ∷ u ≡ t ++ bar ∷ v
    → (s ≡ t) × (u ≡ v)
unfolding contains_byte
cut_at_bar [] [] u v hs ht e = (refl, ground arith)
cut_at_bar [] (b ∷ t) u v hs ht e = absurd (ground arith)
cut_at_bar (a ∷ s) [] u v hs ht e = absurd (ground arith)
cut_at_bar (a ∷ s) (b ∷ t) u v hs ht e =
    let (l, r) = cut_at_bar s t u v (ground arith) (ground arith) (ground arith) in
    (ground arith, r)

pub append_left : (s u v : Text) → s ++ u ≡ s ++ v → u ≡ v
append_left [] u v e = e
append_left (a ∷ s) u v e = append_left s u v (ground arith)

-- The texts that a signed message cuts at bars hold none, and those that it encodes are bytes.
pub record IsPlainProof (p : OwnerProof) : Type 0 where
  pub host : contains_byte bar p.host_fingerprint ≡ false
  pub phone : contains_byte bar p.phone_fingerprint ≡ false
  pub nonce : contains_byte bar p.nonce ≡ false
  pub action : All IsByte p.action
  pub resource : All IsByte p.resource

hex_no_bar : (s : Text) → All IsByte s → contains_byte bar (hex_encode s) ≡ false
hex_no_bar s h = hex_encode-plain bar s h (omega arith)

-- Two proofs with one signed message agree in the fingerprints, the action, the resource, the nonce
-- and both times, where no fingerprint and no nonce has a bar in it and the action and the resource
-- are made of bytes.
pub signed_message-injective :
    (p q : OwnerProof)
    → IsPlainProof p
    → IsPlainProof q
    → signed_message p ≡ signed_message q
    → (p.host_fingerprint ≡ q.host_fingerprint)
      × (p.phone_fingerprint ≡ q.phone_fingerprint)
      × (p.action ≡ q.action)
      × (p.resource ≡ q.resource)
      × (p.nonce ≡ q.nonce)
      × (p.issued ≡ q.issued)
      × (p.expires ≡ q.expires)
unfolding signed_message owner_proof_message
signed_message-injective p q hp hq e =
    let e0 = append_left (text "|OWNER_PROOF|") _ _ (append_left protocol_name _ _ e) in
    let (host, e1) = cut_at_bar p.host_fingerprint q.host_fingerprint _ _ hp.host hq.host e0 in
    let (phone, e2) = cut_at_bar p.phone_fingerprint q.phone_fingerprint _ _ hp.phone hq.phone e1 in
    let (action, e3) =
      cut_at_bar (hex_encode p.action) (hex_encode q.action) _ _ (hex_no_bar p.action hp.action)
        (hex_no_bar q.action hq.action) e2 in
    let (resource, e4) =
      cut_at_bar (hex_encode p.resource) (hex_encode q.resource) _ _
        (hex_no_bar p.resource hp.resource) (hex_no_bar q.resource hq.resource) e3 in
    let (nonce, e5) = cut_at_bar p.nonce q.nonce _ _ hp.nonce hq.nonce e4 in
    let (issued, expires) =
      cut_at_bar (format_int p.issued) (format_int q.issued) _ _
        (format_int-plain bar p.issued (omega arith)) (format_int-plain bar q.issued (omega arith))
        e5 in
    (
      host,
      phone,
      hex_encode-injective _ _ hp.action hq.action action,
      hex_encode-injective _ _ hp.resource hq.resource resource,
      nonce,
      format_int-injective _ _ issued,
      format_int-injective _ _ expires,
    )
