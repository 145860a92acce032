-- ===== src/Portable/Run/Admits.antt =====
-- Whom a portable host takes on over its life.
use zorin_host_agent.Prelude.{
  ℕ, ◌+◌, ◌*◌, ◌≤◌, ◌≡◌, sym, ap, subst, ◌≢◌, ◌⊎◌, inl, inr, true, Option, none, List, arith,
}
use zorin_host_agent.Text.{Text, text, trim_space}
use zorin_host_agent.Agent.{Agent, LiveSession}
use zorin_host_agent.Connection.Handshake.{
  is_paired, authentic, Peer, handshake, portable_refusal, proven, check_phone, pair_phone, live_of,
  admit,
}
use zorin_host_agent.Connection.Handshake.Pairing.{
  enrolled, after_handshakes, after_handshakes-enrolls_once, admit-agent, closed-after_handshakes,
}
use zorin_host_agent.Portable.Bootstrap.{Invitation}
use zorin_host_agent.Portable.Run.{PortableFlags, PortableSystem, started, minute, run_portable}
use zorin_host_agent.Dict.{Dict, get_text}
use zorin_host_agent.Crypto.{Crypto}
use zorin_host_agent.Identity.{fingerprint}
use zorin_host_agent.Connection.Handshake.Authentic.{
  IsInvited, IsProven, admit-authentic, handshake_parts, handshake-authentic,
}
use zorin_host_agent.Portable.Run.Opened.{
  IsOpenHost, IsTaken, enrolled-IsTaken, run_portable-IsOpenHost,
}
use zorin_host_agent.HostIdentity.{KeyLibrary}

module _ (crypto : Crypto) (sign : Text → Option Text) (host_pub : Text) where
  -- A host with an invitation, whether it has taken on a phone or not.
  IsHost : Text → ℕ → Agent → Type 0
  IsHost invite expires a =
      IsOpenHost invite expires a ⊎ ((fp : Text) × IsTaken invite expires fp a)

  after_handshakes-IsHost :
      (invite : Text) (expires : ℕ) (hs : List (ℕ × Peer × Dict Text)) (a : Agent)
      → IsOpenHost invite expires a
      → IsHost invite expires (after_handshakes crypto sign host_pub hs a)
  unfolding IsHost
  after_handshakes-IsHost invite expires hs a o =
      elim (after_handshakes-enrolls_once crypto sign host_pub hs a) [
        | inl e ↦ inl (subst (IsOpenHost invite expires) (sym e) o)
        | inr (fp, hex, e) ↦ inr (
          fp,
          subst (IsTaken invite expires fp) (sym e) (enrolled-IsTaken invite expires fp hex a o),
        )
      ]

  pair_phone-agent :
      (fp hex : Text) (a : Agent)
      → (pair_phone fp hex a).0 ≡ true
      → ((is_paired a.cfg fp hex ≡ true) × ((pair_phone fp hex a).1 ≡ a))
        ⊎ ((a.pair_once ≡ true) × ((pair_phone fp hex a).1 ≡ enrolled fp hex a))
  unfolding pair_phone
  pair_phone-agent fp hex a h = ground arith

  handshake_admits :
      (now : ℕ) (peer : Peer) (frame : Dict Text) (a : Agent) (der : Text)
      → portable_refusal now a frame ≡ none
      → check_phone crypto peer.host_nonce host_pub frame ≡ proven der
      → handshake crypto sign host_pub now peer frame a
        ≡ admit crypto sign host_pub peer frame der a
  unfolding handshake
  handshake_admits now peer frame a der h k = ground arith

  -- What a handshake that takes a phone on does to the agent.
  handshake-agent :
      (now : ℕ) (peer : Peer) (frame : Dict Text) (a : Agent) (l : LiveSession)
      → (handshake crypto sign host_pub now peer frame a).outcome ≡ authentic l
      → (hex : Text) × (((is_paired a.cfg l.phone_fp hex ≡ true)
            × ((handshake crypto sign host_pub now peer frame a).agent ≡ a))
          ⊎ ((a.pair_once ≡ true)
              × ((handshake crypto sign host_pub now peer frame a).agent
                  ≡ enrolled l.phone_fp hex a)))
  unfolding live_of
  handshake-agent now peer frame a l h =
      let (fine, der, c, m) = handshake_parts crypto sign host_pub now peer frame a l h in
      let (e, p) = admit-authentic crypto sign host_pub peer frame der a l m in
      let (agent_is, _) = admit-agent crypto sign host_pub peer frame der a in
      let fp_is : l.phone_fp ≡ fingerprint crypto.sha256 der =
        ap (λ (k : LiveSession). k.phone_fp) e in
      let whole = handshake_admits now peer frame a der fine c in
      let hex = get_text (text "PHONE_PUB") frame in
      (hex, rw (fp_is, whole, agent_is) (pair_phone-agent (fingerprint crypto.sha256 der) hex a p))

  -- A host that takes a phone on is then one that has taken on that phone.
  handshake-IsTaken :
      (invite : Text) (expires now : ℕ) (peer : Peer) (frame : Dict Text) (a : Agent)
      (l : LiveSession)
      → IsHost invite expires a
      → (handshake crypto sign host_pub now peer frame a).outcome ≡ authentic l
      → IsTaken invite expires l.phone_fp (handshake crypto sign host_pub now peer frame a).agent
  unfolding IsHost
  handshake-IsTaken invite expires now peer frame a l (inl o) k =
      let (hex, agent_is) = handshake-agent now peer frame a l k in
      elim agent_is [
        | inl (paired, same) ↦ absurd (ground (arith, o.nobody l.phone_fp hex))
        | inr (window, changed) ↦
            subst (IsTaken invite expires l.phone_fp) (sym changed)
              (enrolled-IsTaken invite expires l.phone_fp hex a o)
      ]
  handshake-IsTaken invite expires now peer frame a l (inr (fp, t)) k =
      let (hex, agent_is) = handshake-agent now peer frame a l k in
      elim agent_is [
        | inl (paired, same) ↦
            subst
              (λ x.
                IsTaken invite expires x (handshake crypto sign host_pub now peer frame a).agent)
              (sym (t.only l.phone_fp hex paired)) (subst (IsTaken invite expires fp) (sym same) t)
        | inr (window, changed) ↦ absurd (ground (arith, t.shut))
      ]

  IsTaken-phone :
      (invite : Text) (expires now : ℕ) (fp : Text) (peer : Peer) (frame : Dict Text) (a : Agent)
      (l : LiveSession)
      → IsTaken invite expires fp a
      → (handshake crypto sign host_pub now peer frame a).outcome ≡ authentic l
      → l.phone_fp ≡ fp
  IsTaken-phone invite expires now fp peer frame a l t k =
      let (hex, agent_is) = handshake-agent now peer frame a l k in
      elim agent_is [
        | inl (paired, same) ↦ t.only l.phone_fp hex paired
        | inr (window, changed) ↦ absurd (ground (arith, t.shut))
      ]

  IsHost-IsInvited :
      (invite : Text) (expires now : ℕ) (frame : Dict Text) (a : Agent)
      → IsHost invite expires a
      → IsInvited now a frame
      → expires ≢ 0
      → (trim_space (get_text (text "INVITE") frame) ≡ invite) × (now ≤ expires)
  unfolding IsHost
  IsHost-IsInvited invite expires now frame a (inl o) i n =
      ground (arith, o.portable, o.invite_is, o.expires_is)
  IsHost-IsInvited invite expires now frame a (inr (fp, t)) i n =
      ground (arith, t.portable, t.invite_is, t.expires_is)

  module _ (keys : KeyLibrary) (sys : PortableSystem) (flags : PortableFlags) (a : Agent)
      (inv : Invitation) (addr : Text)
      (run : run_portable keys crypto.sha256 sys flags ≡ started a inv addr) where
    -- After any handshakes, a portable host takes on only a phone that gives the invite of this
    -- start, within an hour of it at most, and that has signed this handshake with its key.
    pub run_portable-IsInvited :
        (hs : List (ℕ × Peer × Dict Text)) (now : ℕ) (peer : Peer) (frame : Dict Text)
        (l : LiveSession)
        → (handshake crypto sign host_pub now peer frame
            (after_handshakes crypto sign host_pub hs a)).outcome
          ≡ authentic l
        → (trim_space (get_text (text "INVITE") frame) ≡ sys.invite)
          × (now ≤ sys.now + 60 * minute)
          × IsProven crypto peer.host_nonce host_pub frame l.phone_der
    run_portable-IsInvited hs now peer frame l h =
        let (ttl, lo, hi, o) =
          run_portable-IsOpenHost keys crypto.sha256 sys flags a inv addr run in
        let b = after_handshakes crypto sign host_pub hs a in
        let (i, p, _, _) = handshake-authentic crypto sign host_pub now peer frame b l h in
        let (e, n) =
          IsHost-IsInvited sys.invite (sys.now + ttl) now frame b
            (after_handshakes-IsHost sys.invite _ hs a o) i (omega arith) in
        (e, omega arith, p)

    -- All phones that it takes on, whatever handshakes come between, are one phone.
    pub run_portable-one_phone :
        (hs hs' : List (ℕ × Peer × Dict Text)) (now now' : ℕ) (peer peer' : Peer)
        (frame frame' : Dict Text) (l l' : LiveSession)
        → let b = after_handshakes crypto sign host_pub hs a in
          (handshake crypto sign host_pub now peer frame b).outcome ≡ authentic l
          → (handshake crypto sign host_pub now' peer' frame' (
              after_handshakes crypto sign host_pub hs'
                (handshake crypto sign host_pub now peer frame b).agent)).outcome
            ≡ authentic l'
          → l'.phone_fp ≡ l.phone_fp
    run_portable-one_phone hs hs' now now' peer peer' frame frame' l l' h h' =
        let (ttl, _, _, o) = run_portable-IsOpenHost keys crypto.sha256 sys flags a inv addr run in
        let b = after_handshakes crypto sign host_pub hs a in
        let c = (handshake crypto sign host_pub now peer frame b).agent in
        let t =
          handshake-IsTaken sys.invite (sys.now + ttl) now peer frame b l
            (after_handshakes-IsHost sys.invite _ hs a o) h in
        let same = closed-after_handshakes crypto sign host_pub hs' c t.shut in
        IsTaken-phone sys.invite (sys.now + ttl) now' l.phone_fp peer' frame' _ l'
          (subst (IsTaken sys.invite (sys.now + ttl) l.phone_fp) (sym same) t) h'
