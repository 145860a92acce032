-- ===== src/Session/Interleaved.antt =====
-- The sessions over any interleaving of connections, where a phone may have several at a time and the
-- end of one takes the session of another away.
use zorin_host_agent.Prelude.{
  ℕ, ◌<◌, ◌≡◌, refl, ap, subst, ◌⊎◌, inl, inr, Bool, true, false, not, Option, none, some, arith,
  if◌then◌else◌, Bool-cases, Option-cases, is_empty,
}
use zorin_host_agent.Text.{Text, text_eq}
use zorin_host_agent.Text.Laws.{text_eq_iff}
use zorin_host_agent.Dict.{Dict, IsMap, lookup, values, any_value}
use zorin_host_agent.Dict.Laws.{
  lookup-insert, lookup-delete, insert-IsMap, delete-IsMap, any_value→lookup, lookup→any_value,
}
use zorin_host_agent.Agent.{Agent, Session, LiveSession, zero_session}
use zorin_host_agent.Session.{
  session_up, session_touch, session_down, write_session, write_owner_mode, owner_mode_of,
  put_session, put_touch, drop_session, new_session, touch_live, touched_session,
}
use zorin_host_agent.Session.Invariant.{Agree, IsConsistent, touch_live-IsMap}
use zorin_host_agent.Session.Reachable.{IsFresh}

-- A connection comes up, polls or ends, whatever other connections its phone has or had.
pub data Move : Agent → Agent → Type 0 where
  comes_up : (now : ℕ) (live : LiveSession) (a : Agent) → 0 < now → Move a (session_up now live a).0
  polls :
      (now : ℕ) (phone : Text) (present : Bool) (a : Agent)
      → Move a (session_touch now phone present a).0
  ends : (phone : Text) (a : Agent) → Move a (session_down phone a).0

pub data Moves (a : Agent) : Agent → Type 0 where
  still : Moves a a
  move : {b c : Agent} → Moves a b → Move b c → Moves a c

-- A session without a live connection is one that a poll has stored after the end of another
-- connection: it is not trusted and has no start.
abbrev pub Tracks : Text → Option Session → Option LiveSession → Type 0
Tracks fp none none = Unit
Tracks fp none (some l) = ⊥
Tracks fp (some s) none = (s.trusted ≡ false) × (s.since ≡ 0)
Tracks fp (some s) (some l) = Agree fp (some s) (some l)

pub record IsTracked (a : Agent) : Type 0 where
  pub sessions_map : IsMap a.sessions
  pub live_map : IsMap a.live
  pub tracks : (fp : Text) → Tracks fp (lookup fp a.sessions) (lookup fp a.live)
  pub session_file :
      a.session_file ≡ (if is_empty a.sessions then none else some (values a.sessions))
  pub owner_mode : a.owner_mode_file ≡ owner_mode_of a

put_session-Tracks :
    (a : Agent) (live : LiveSession) (now : ℕ) (fp : Text)
    → 0 < now
    → Tracks fp (lookup fp a.sessions) (lookup fp a.live)
    → Tracks fp
        (lookup fp (put_session a live now).sessions)
        (lookup fp (put_session a live now).live)
unfolding put_session new_session
put_session-Tracks a live now fp h c =
    rw
      (
        lookup-insert live.phone_fp fp (new_session a live now) a.sessions,
        lookup-insert live.phone_fp fp live a.live,
      )
      (elim (Bool-cases (text_eq live.phone_fp fp)) [
        | inl same ↦ rw same (refl, refl, h, (text_eq_iff _ _).0 same, (text_eq_iff _ _).0 same)
        | inr other ↦ rw other c
      ])

drop_session-Tracks :
    (a : Agent) (gone fp : Text)
    → Tracks fp (lookup fp a.sessions) (lookup fp a.live)
    → Tracks fp (lookup fp (drop_session a gone).sessions) (lookup fp (drop_session a gone).live)
unfolding drop_session
drop_session-Tracks a gone fp c =
    rw (lookup-delete gone fp a.sessions, lookup-delete gone fp a.live)
      (elim (Bool-cases (text_eq gone fp)) [ inl same ↦ rw same tt | inr other ↦ rw other c ])

-- The poll's own phone, by what the maps hold of it.
touched-Tracks :
    (fp : Text) (present : Bool) (now : ℕ) (sessions : Dict Session) (live : Dict LiveSession)
    → Tracks fp (lookup fp sessions) (lookup fp live)
    → Tracks fp
        (some (touched_session fp present now sessions))
        (lookup fp (touch_live fp present live))
unfolding touched_session touch_live zero_session
touched-Tracks fp present now sessions live c = elim (Option-cases (lookup fp live)) [
  | inl gone ↦ ground arith
  | inr (l, e) ↦
      ground
        (arith, lookup-insert fp fp (record l { user_present = present }) live, text_eq_iff fp fp)
]

lookup-touch_live :
    (phone fp : Text) (present : Bool) (live : Dict LiveSession)
    → text_eq phone fp ≡ false
    → lookup fp (touch_live phone present live) ≡ lookup fp live
unfolding touch_live
lookup-touch_live phone fp present live h = elim (Option-cases (lookup phone live)) [
  | inl gone ↦ ground arith
  | inr (l, e) ↦ ground (arith, lookup-insert phone fp (record l { user_present = present }) live)
]

put_touch-Tracks :
    (a : Agent) (phone fp : Text) (present : Bool) (now : ℕ)
    → ((x : Text) → Tracks x (lookup x a.sessions) (lookup x a.live))
    → Tracks fp
        (lookup fp (put_touch a phone present now).sessions)
        (lookup fp (put_touch a phone present now).live)
unfolding put_touch
put_touch-Tracks a phone fp present now c =
    rw (lookup-insert phone fp (touched_session phone present now a.sessions) a.sessions)
      (elim (Bool-cases (text_eq phone fp)) [
        | inl same ↦
            let e = (text_eq_iff phone fp).0 same in
            rw same (
              subst
                (λ x.
                  Tracks x (some (touched_session phone present now a.sessions))
                    (lookup x (touch_live phone present a.live)))
                e (touched-Tracks phone present now a.sessions a.live (c phone)))
        | inr other ↦ rw (other, lookup-touch_live phone fp present a.live other) (c fp)
      ])

written-IsTracked :
    (a : Agent)
    → IsMap a.sessions
    → IsMap a.live
    → ((fp : Text) → Tracks fp (lookup fp a.sessions) (lookup fp a.live))
    → IsTracked (write_owner_mode (write_session a))
unfolding write_owner_mode write_session owner_mode_of
written-IsTracked a hs hl c = record {
  sessions_map = hs;
  live_map = hl;
  tracks = c;
  session_file = refl;
  owner_mode = refl;
}

Move-IsTracked : {a b : Agent} → Move a b → IsTracked a → IsTracked b
unfolding session_up session_touch session_down put_session put_touch drop_session
Move-IsTracked (comes_up now live a h) c =
    written-IsTracked (put_session a live now)
      (insert-IsMap live.phone_fp (new_session a live now) a.sessions c.sessions_map)
      (insert-IsMap live.phone_fp live a.live c.live_map)
      (λ fp. put_session-Tracks a live now fp h (c.tracks fp))
Move-IsTracked (polls now phone present a) c =
    written-IsTracked (put_touch a phone present now)
      (insert-IsMap phone (touched_session phone present now a.sessions) a.sessions c.sessions_map)
      (touch_live-IsMap phone present a.live c.live_map)
      (λ fp. put_touch-Tracks a phone fp present now c.tracks)
Move-IsTracked (ends phone a) c =
    written-IsTracked (drop_session a phone) (delete-IsMap phone a.sessions c.sessions_map)
      (delete-IsMap phone a.live c.live_map) (λ fp. drop_session-Tracks a phone fp (c.tracks fp))

fresh-IsTracked : (a : Agent) → IsFresh a → IsTracked a
unfolding owner_mode_of lookup
fresh-IsTracked a f = record {
  sessions_map = rw f.sessions tt;
  live_map = rw f.live tt;
  tracks = λ fp. rw (f.sessions, f.live) tt;
  session_file = rw (f.sessions, f.session_file);
  owner_mode = rw (f.sessions, f.owner_mode);
}

-- In whatever order connections come up, at times that are not zero, poll and end, every live
-- connection has a trusted session with its presence, a session without one is not trusted, and both
-- files are up to date.
pub Moves-IsTracked : {a b : Agent} → IsFresh a → Moves a b → IsTracked b
Moves-IsTracked f still = fresh-IsTracked _ f
Moves-IsTracked f (move r s) = Move-IsTracked s (Moves-IsTracked f r)

-- A poll has stored a session for a phone whose connection another one's end has taken away.
abbrev pub HasLost : Agent → Type 0
HasLost b =
    (fp : Text) × (s : Session) × (lookup fp b.sessions ≡ some s)
    × (s.trusted ≡ false)
    × (lookup fp b.live ≡ none)

Tracks-Agree :
    (fp : Text) (s : Option Session) (l : Option LiveSession)
    → Tracks fp s l
    → ((x : Session) → s ≡ some x → x.trusted ≡ true)
    → Agree fp s l
Tracks-Agree fp none none h k = tt
Tracks-Agree fp none (some l) h k = absurd h
Tracks-Agree fp (some s) none h k = absurd (ground (arith, k s refl))
Tracks-Agree fp (some s) (some l) h k = h

untracked_live :
    (fp : Text) (s : Session) (l : Option LiveSession)
    → Tracks fp (some s) l
    → s.trusted ≡ false
    → l ≡ none
untracked_live fp s none h k = refl
untracked_live fp s (some l) h k = absurd (ground arith)

abbrev is_untrusted : Session → Bool
is_untrusted s = not s.trusted

-- Where no session is lost the sessions and the connections agree.
pub IsTracked-cases : (b : Agent) → IsTracked b → HasLost b ⊎ IsConsistent b
IsTracked-cases b c = elim (Bool-cases (any_value is_untrusted b.sessions)) [
  | inl lost ↦
      let (fp, s, found, holds) = any_value→lookup is_untrusted b.sessions c.sessions_map lost in
      let untrusted : s.trusted ≡ false = ground arith in
      let tracks = subst (λ x. Tracks fp x (lookup fp b.live)) found (c.tracks fp) in
      inl (fp, s, found, untrusted, untracked_live fp s _ tracks untrusted)
  | inr sound ↦
      let trusted : (fp : Text) (s : Session) → lookup fp b.sessions ≡ some s → s.trusted ≡ true =
        λ fp s e. elim (Bool-cases s.trusted) [
          | inl holds ↦ holds
          | inr fails ↦
              absurd
                (ground (arith, lookup→any_value is_untrusted b.sessions fp s e (ap not fails)))
        ] in
      inr (record {
        sessions_map = c.sessions_map;
        live_map = c.live_map;
        agree = λ fp. Tracks-Agree fp _ _ (c.tracks fp) (trusted fp);
        session_file = c.session_file;
        owner_mode = c.owner_mode;
      })
]
