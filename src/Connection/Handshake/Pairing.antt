-- ===== src/Connection/Handshake/Pairing.antt =====
-- The pairing window: what a handshake may change, and that one enrollment closes it.
use zorin_host_agent.Prelude.{
  ℕ, ◌≡◌, refl, ap, ◌∙◌, ◌⊎◌, inl, inr, true, false, Option, List, [], ◌∷◌, arith,
}
use zorin_host_agent.Text.{Text, text, text_eq}
use zorin_host_agent.Text.Laws.{equal_fold_refl}
use zorin_host_agent.Dict.{Dict, get_text}
use zorin_host_agent.Dict.Laws.{lookup-insert, lookup-insert_self}
use zorin_host_agent.Crypto.{Crypto}
use zorin_host_agent.Identity.{fingerprint}
use zorin_host_agent.Agent.{Config, Agent}
use zorin_host_agent.Connection.Handshake.{
  proven, check_phone, is_paired, enroll, pair_phone, Peer, Handled, closed_with, admit, handshake,
}
use zorin_host_agent.Connection.Handshake.Authentic.{IsProven, check_phone-proven}

pub enroll-is_paired :
    (fp pub_hex : Text) (cfg : Config) → is_paired (enroll fp pub_hex cfg) fp pub_hex ≡ true
unfolding is_paired enroll
enroll-is_paired fp pub_hex cfg =
    ground (arith, lookup-insert_self fp pub_hex cfg.paired_phones, equal_fold_refl pub_hex)

pub enroll-others :
    (fp other pub_hex hex : Text) (cfg : Config)
    → text_eq fp other ≡ false
    → is_paired (enroll fp pub_hex cfg) other hex ≡ is_paired cfg other hex
unfolding is_paired enroll
enroll-others fp other pub_hex hex cfg h =
    ground (arith, lookup-insert fp other pub_hex cfg.paired_phones)

-- The agent after an enrollment of a phone.
abbrev pub enrolled : Text → Text → Agent → Agent
enrolled fp pub_hex a = record a { cfg = enroll fp pub_hex a.cfg; pair_once = false }

pair_phone-cases :
    (fp pub_hex : Text) (a : Agent)
    → ((pair_phone fp pub_hex a).1 ≡ a) × ((pair_phone fp pub_hex a).2 ≡ [])
      ⊎ (a.pair_once ≡ true)
        × (is_paired a.cfg fp pub_hex ≡ false)
        × ((pair_phone fp pub_hex a).1 ≡ enrolled fp pub_hex a)
unfolding pair_phone
pair_phone-cases fp pub_hex a = ground arith

module _ (crypto : Crypto) (sign : Text → Option Text) (host_pub : Text) where
  pub admit-agent :
      (peer : Peer) (frame : Dict Text) (der : Text) (a : Agent)
      → ((admit crypto sign host_pub peer frame der a).agent
          ≡ (pair_phone (fingerprint crypto.sha256 der) (get_text (text "PHONE_PUB") frame) a).1)
        × ((admit crypto sign host_pub peer frame der a).effects
            ≡ (pair_phone (fingerprint crypto.sha256 der) (get_text (text "PHONE_PUB") frame) a).2)
  unfolding admit closed_with
  admit-agent peer frame der a = ground arith

  handshake-cases :
      (now : ℕ) (peer : Peer) (frame : Dict Text) (a : Agent)
      → (((handshake crypto sign host_pub now peer frame a).agent ≡ a)
          × ((handshake crypto sign host_pub now peer frame a).effects ≡ []))
        ⊎ (der : Text) × (check_phone crypto peer.host_nonce host_pub frame ≡ proven der)
          × (handshake crypto sign host_pub now peer frame a
              ≡ admit crypto sign host_pub peer frame der a)
  unfolding handshake closed_with
  handshake-cases now peer frame a = ground arith

  -- A handshake leaves the agent as it is, without an effect, or it enrolls one phone that has
  -- signed for its key and was not paired with it, through an open window, which it closes.
  pub handshake-enrolls :
      (now : ℕ) (peer : Peer) (frame : Dict Text) (a : Agent)
      → (((handshake crypto sign host_pub now peer frame a).agent ≡ a)
          × ((handshake crypto sign host_pub now peer frame a).effects ≡ []))
        ⊎ (der : Text) × IsProven crypto peer.host_nonce host_pub frame der
          × (a.pair_once ≡ true)
          × (is_paired a.cfg (fingerprint crypto.sha256 der) (get_text (text "PHONE_PUB") frame)
              ≡ false)
          × ((handshake crypto sign host_pub now peer frame a).agent
              ≡ enrolled (fingerprint crypto.sha256 der) (get_text (text "PHONE_PUB") frame) a)
  handshake-enrolls now peer frame a = elim (handshake-cases now peer frame a) [
    | inl same ↦ inl same
    | inr (der, c, e) ↦
        let (agent_is, effects_are) = admit-agent peer frame der a in
        elim (pair_phone-cases (fingerprint crypto.sha256 der) (get_text (text "PHONE_PUB") frame)
          a) [
            | inl (same, none_more) ↦ inl (
              ap (λ (h : Handled). h.agent) e ∙ agent_is ∙ same,
              ap (λ (h : Handled). h.effects) e ∙ effects_are ∙ none_more,
            )
            | inr (window, new, changed) ↦ inr (
              der,
              check_phone-proven crypto peer.host_nonce host_pub frame der c,
              window,
              new,
              ap (λ (h : Handled). h.agent) e ∙ agent_is ∙ changed,
            )
          ]
  ]

  -- The agent after a sequence of handshakes.
  abbrev pub after_handshakes : List (ℕ × Peer × Dict Text) → Agent → Agent
  after_handshakes [] a = a
  after_handshakes ((now, peer, frame) ∷ rest) a =
      after_handshakes rest (handshake crypto sign host_pub now peer frame a).agent

  pub closed-after_handshakes :
      (hs : List (ℕ × Peer × Dict Text)) (a : Agent)
      → a.pair_once ≡ false
      → after_handshakes hs a ≡ a
  closed-after_handshakes [] a h = refl
  closed-after_handshakes ((now, peer, frame) ∷ hs) a h =
      elim (handshake-enrolls now peer frame a) [
        | inl (same, _) ↦ ap (after_handshakes hs) same ∙ closed-after_handshakes hs a h
        | inr (der, _, window, _, _) ↦ absurd (ground arith)
      ]

  -- One opening of the window enrolls one phone at most, whatever phones connect, in whatever order.
  pub after_handshakes-enrolls_once :
      (hs : List (ℕ × Peer × Dict Text)) (a : Agent)
      → (after_handshakes hs a ≡ a)
        ⊎ (fp pub_hex : Text) × (after_handshakes hs a ≡ enrolled fp pub_hex a)
  after_handshakes-enrolls_once [] a = inl refl
  after_handshakes-enrolls_once ((now, peer, frame) ∷ hs) a =
      elim (handshake-enrolls now peer frame a) [
        | inl (same, _) ↦ rw same (after_handshakes-enrolls_once hs a)
        | inr (der, _, _, _, changed) ↦ inr (
          _,
          _,
          ap (after_handshakes hs) changed ∙ closed-after_handshakes hs (enrolled _ _ a) refl,
        )
      ]
