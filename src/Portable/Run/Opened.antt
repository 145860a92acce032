-- ===== src/Portable/Run/Opened.antt =====
-- The portable host as it starts, and after it has taken on a phone.
use zorin_host_agent.Prelude.{
  ℕ, ◌+◌, ◌*◌, ◌≤◌, ◌≡◌, refl, sym, subst, inl, inr, true, false, some, arith, Bool-cases,
  Option-cases, ℤ, pos, negsuc,
}
use zorin_host_agent.Text.{Text, text_eq}
use zorin_host_agent.Text.Laws.{text_eq_iff}
use zorin_host_agent.Agent.{Agent}
use zorin_host_agent.Connection.Handshake.{is_paired}
use zorin_host_agent.Connection.Handshake.Pairing.{enroll-others, enrolled}
use zorin_host_agent.Portable.Bootstrap.{Invitation}
use zorin_host_agent.Portable.Run.{
  PortableFlags, PortableSystem, started, minute, run_portable, portable_ttl, portable_agent,
  bootstrap_error, start_portable,
}
use zorin_host_agent.Dict.{lookup}
use zorin_host_agent.HostIdentity.{HostIdentity, KeyLibrary, new_ephemeral_identity}

-- A portable host as it starts: no phone, the window open, for this invite until this time.
pub record IsOpenHost (invite : Text) (expires : ℕ) (a : Agent) : Type 0 where
  pub window : a.pair_once ≡ true
  pub nobody : (fp hex : Text) → is_paired a.cfg fp hex ≡ false
  pub portable : a.portable ≡ true
  pub invite_is : a.portable_invite ≡ invite
  pub expires_is : a.portable_expires ≡ expires

-- One that has taken on the phone `fp`.
pub record IsTaken (invite : Text) (expires : ℕ) (fp : Text) (a : Agent) : Type 0 where
  pub shut : a.pair_once ≡ false
  pub only : (other hex : Text) → is_paired a.cfg other hex ≡ true → other ≡ fp
  pub portable : a.portable ≡ true
  pub invite_is : a.portable_invite ≡ invite
  pub expires_is : a.portable_expires ≡ expires

pub enrolled-IsTaken :
    (invite : Text) (expires : ℕ) (fp hex : Text) (a : Agent)
    → IsOpenHost invite expires a
    → IsTaken invite expires fp (enrolled fp hex a)
enrolled-IsTaken invite expires fp hex a o = record {
  shut = refl;
  only = λ other h k. elim (Bool-cases (text_eq fp other)) [
    | inl e ↦ sym ((text_eq_iff fp other).0 e)
    | inr e ↦ absurd (ground (arith, enroll-others fp other hex h a.cfg e, o.nobody other h))
  ];
  portable = o.portable;
  invite_is = o.invite_is;
  expires_is = o.expires_is;
}

start_portable-agent :
    (sys : PortableSystem) (flags : PortableFlags) (b a : Agent) (inv : Invitation) (addr : Text)
    → start_portable sys flags b ≡ started a inv addr
    → b ≡ a
unfolding start_portable bootstrap_error
start_portable-agent sys flags b a inv addr h = ground arith

portable_agent-IsOpenHost :
    (sha256 : Text → Text) (id : HostIdentity) (invite : Text) (expires : ℕ)
    → IsOpenHost invite expires (portable_agent sha256 id invite expires)
unfolding portable_agent is_paired lookup
portable_agent-IsOpenHost sha256 id invite expires = record {
  window = refl;
  nobody = λ other hex. refl;
  portable = refl;
  invite_is = refl;
  expires_is = refl;
}

portable_ttl-le : (ttl : ℤ) (n : ℕ) → portable_ttl ttl ≡ some n → (minute ≤ n) × (n ≤ 60 * minute)
unfolding portable_ttl
portable_ttl-le (negsuc k) n h = absurd (ground arith)
portable_ttl-le (pos k) n h = ground arith

pub run_portable-IsOpenHost :
    (keys : KeyLibrary) (sha256 : Text → Text) (sys : PortableSystem) (flags : PortableFlags)
    (a : Agent) (inv : Invitation) (addr : Text)
    → run_portable keys sha256 sys flags ≡ started a inv addr
    → (ttl : ℕ) × (minute ≤ ttl) × (ttl ≤ 60 * minute) × IsOpenHost sys.invite (sys.now + ttl) a
unfolding run_portable
run_portable-IsOpenHost keys sha256 sys flags a inv addr h =
    elim (Option-cases (portable_ttl flags.ttl)) [
      | inl e ↦ absurd (ground arith)
      | inr (ttl, e) ↦ elim (Option-cases (new_ephemeral_identity keys sys.generated)) [
        | inl k ↦ absurd (ground arith)
        | inr (id, k) ↦ elim (Option-cases sys.state_dir) [
          | inl d ↦ absurd (ground arith)
          | inr (dir, d) ↦
              let b = portable_agent sha256 id sys.invite (sys.now + ttl) in
              let run : start_portable sys flags b ≡ started a inv addr = ground arith in
              let (l, u) = portable_ttl-le flags.ttl ttl e in
              (
                ttl,
                l,
                u,
                subst (IsOpenHost sys.invite (sys.now + ttl))
                    (start_portable-agent sys flags b a inv addr run)
                    (portable_agent-IsOpenHost sha256 id sys.invite (sys.now + ttl)),
              )
        ]
      ]
    ]
