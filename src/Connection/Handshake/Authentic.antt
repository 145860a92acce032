-- ===== src/Connection/Handshake/Authentic.antt =====
-- What a phone has shown whose connection is taken on.
use zorin_host_agent.Prelude.{
  ℕ, ◌≤◌, ◌≡◌, sym, ap, ◌∙◌, ◌⊎◌, true, false, Option, none, some, arith, is_empty,
}
use zorin_host_agent.Text.{Text, text, trim_space}
use zorin_host_agent.Text.Laws.{text_eq_iff}
use zorin_host_agent.Text.Hex.{hex_encode, hex_decode}
use zorin_host_agent.Dict.{Dict, get_text}
use zorin_host_agent.Crypto.{ecdsa, Crypto}
use zorin_host_agent.Identity.{fingerprint}
use zorin_host_agent.Agent.{LiveSession, Agent}
use zorin_host_agent.Connection.{phone_proof_message}
use zorin_host_agent.Connection.Handshake.{
  portable_refusal, proven, check_phone_signature, check_phone_key, check_phone, is_paired,
  pair_phone, authentic, Peer, live_of, closed_with, admit, handshake,
}

-- The invite of a portable host: given, and not expired.
abbrev pub IsInvited : ℕ → Agent → Dict Text → Type 0
IsInvited now a frame =
    (a.portable ≡ false)
    ⊎ (trim_space (get_text (text "INVITE") frame) ≡ a.portable_invite)
      × (is_empty a.portable_invite ≡ false)
      × ((a.portable_expires ≡ 0) ⊎ (now ≤ a.portable_expires))

portable_refusal→invited :
    (now : ℕ) (a : Agent) (frame : Dict Text)
    → portable_refusal now a frame ≡ none
    → IsInvited now a frame
unfolding portable_refusal
portable_refusal→invited now a frame h =
    ground (arith, text_eq_iff (trim_space (get_text (text "INVITE") frame)) a.portable_invite)

module _ (crypto : Crypto) where
  -- The key of `der` has signed the message of this handshake.
  pub record IsProven (host_nonce host_pub : Text) (frame : Dict Text) (der : Text) : Type 0 where
    pub key : Text
    pub signature : Text
    pub decodes : hex_decode (get_text (text "PHONE_PUB") frame) ≡ some der
    pub key_is : crypto.parse_key der ≡ ecdsa key
    pub signature_is : hex_decode (get_text (text "PHONE_SIG") frame) ≡ some signature
    pub signed :
        crypto.verify key
          (crypto.sha256 (
            phone_proof_message host_nonce
              (get_text (text "PHONE_NONCE") frame)
              (hex_encode host_pub)
              (get_text (text "PHONE_PUB") frame)))
          signature
        ≡ true

  signature_proven :
      (message der key sig_hex der' : Text)
      → check_phone_signature crypto message der key sig_hex ≡ proven der'
      → (s : Text) × (hex_decode sig_hex ≡ some s)
        × (crypto.verify key (crypto.sha256 message) s ≡ true)
        × (der ≡ der')
  unfolding check_phone_signature
  signature_proven message der key sig_hex der' h = ground arith

  key_proven :
      (message pub_hex sig_hex der : Text)
      → check_phone_key crypto message pub_hex sig_hex ≡ proven der
      → (der' key : Text) × (hex_decode pub_hex ≡ some der')
        × (crypto.parse_key der' ≡ ecdsa key)
        × (check_phone_signature crypto message der' key sig_hex ≡ proven der)
  unfolding check_phone_key
  key_proven message pub_hex sig_hex der h = ground arith

  frame_proven :
      (host_nonce host_pub : Text) (frame : Dict Text) (der : Text)
      → check_phone crypto host_nonce host_pub frame ≡ proven der
      → check_phone_key crypto
          (phone_proof_message host_nonce
            (get_text (text "PHONE_NONCE") frame)
            (hex_encode host_pub)
            (get_text (text "PHONE_PUB") frame))
          (get_text (text "PHONE_PUB") frame)
          (get_text (text "PHONE_SIG") frame)
        ≡ proven der
  unfolding check_phone
  frame_proven host_nonce host_pub frame der h = ground arith

  pub check_phone-proven :
      (host_nonce host_pub : Text) (frame : Dict Text) (der : Text)
      → check_phone crypto host_nonce host_pub frame ≡ proven der
      → IsProven host_nonce host_pub frame der
  check_phone-proven host_nonce host_pub frame der h =
      let (der', key, d, k, c) =
        key_proven _ _ _ der (frame_proven host_nonce host_pub frame der h) in
      let (s, e, v, same) = signature_proven _ der' key _ der c in
      record {
        key = key;
        signature = s;
        decodes = d ∙ ap some same;
        key_is = ap crypto.parse_key (sym same) ∙ k;
        signature_is = e;
        signed = v;
      }

  pair_phone-admits :
      (fp pub_hex : Text) (a : Agent)
      → (pair_phone fp pub_hex a).0 ≡ true
      → (is_paired a.cfg fp pub_hex ≡ true) ⊎ (a.pair_once ≡ true)
  unfolding pair_phone
  pair_phone-admits fp pub_hex a h = ground arith

  pub admit-authentic :
      (sign : Text → Option Text) (host_pub : Text) (peer : Peer) (frame : Dict Text) (der : Text)
      (a : Agent) (l : LiveSession)
      → (admit crypto sign host_pub peer frame der a).outcome ≡ authentic l
      → (l ≡ live_of peer frame (fingerprint crypto.sha256 der) der)
        × ((pair_phone (fingerprint crypto.sha256 der) (get_text (text "PHONE_PUB") frame) a).0
            ≡ true)
  unfolding admit closed_with
  admit-authentic sign host_pub peer frame der a l h = ground arith

  pub handshake_parts :
      (sign : Text → Option Text) (host_pub : Text) (now : ℕ) (peer : Peer) (frame : Dict Text)
      (a : Agent) (l : LiveSession)
      → (handshake crypto sign host_pub now peer frame a).outcome ≡ authentic l
      → (portable_refusal now a frame ≡ none)
        × (der : Text) × (check_phone crypto peer.host_nonce host_pub frame ≡ proven der)
        × ((admit crypto sign host_pub peer frame der a).outcome ≡ authentic l)
  unfolding handshake closed_with
  handshake_parts sign host_pub now peer frame a l h = ground arith

  -- A connection is taken on only if the phone has signed the message of this handshake, with this
  -- host's nonce and key, by the ECDSA key that it sends; it is known by that key's fingerprint,
  -- which is paired with that key or is enrolled through the open window; and on a portable host the
  -- invite is given and has not expired.
  pub handshake-authentic :
      (sign : Text → Option Text) (host_pub : Text) (now : ℕ) (peer : Peer) (frame : Dict Text)
      (a : Agent) (l : LiveSession)
      → (handshake crypto sign host_pub now peer frame a).outcome ≡ authentic l
      → IsInvited now a frame
        × IsProven peer.host_nonce host_pub frame l.phone_der
        × (l.phone_fp ≡ fingerprint crypto.sha256 l.phone_der)
        × ((is_paired a.cfg l.phone_fp (get_text (text "PHONE_PUB") frame) ≡ true)
            ⊎ (a.pair_once ≡ true))
  unfolding live_of
  handshake-authentic sign host_pub now peer frame a l h =
      let (open_host, der, c, m) = handshake_parts sign host_pub now peer frame a l h in
      let (e, p) = admit-authentic sign host_pub peer frame der a l m in
      let der_is : l.phone_der ≡ der = ap (λ (k : LiveSession). k.phone_der) e in
      let fp_is : l.phone_fp ≡ fingerprint crypto.sha256 der =
        ap (λ (k : LiveSession). k.phone_fp) e in
      (
        portable_refusal→invited now a frame open_host,
        rw der_is (check_phone-proven peer.host_nonce host_pub frame der c),
        fp_is ∙ ap (fingerprint crypto.sha256) (sym der_is),
        rw fp_is (
            pair_phone-admits (fingerprint crypto.sha256 der) (get_text (text "PHONE_PUB") frame) a
              p),
      )
