-- ===== src/Session/Refinement.antt =====
-- The sessions as a map from phones to their presence, which is all that the authority depends on.
use zorin_host_agent.Prelude.{
  ◌≡◌, sym, ap, subst, ◌∙◌, inl, inr, Bool, true, Option, none, some, if◌then◌else◌, is_some, All,
}
use zorin_host_agent.Text.{Text, text_eq}
use zorin_host_agent.Dict.{lookup, values}
use zorin_host_agent.Dict.Laws.{values-All}
use zorin_host_agent.Agent.{Session, LiveSession, Agent}
use zorin_host_agent.Session.{any_present}
use zorin_host_agent.Session.Presence.{IsSettled, owner_mode_of-found}
use zorin_host_agent.Session.Interleaved.{Tracks, IsTracked}

-- What the host promises to know: the phones that are connected, and whether each is unlocked.
abbrev pub View : Type 0
View = Text → Option Bool

-- The view with this entry for the phone.
abbrev pub set_view : Text → Option Bool → View → View
set_view fp entry v other = if text_eq fp other then entry else v other

-- What may happen to it: a phone connects, a connected one reports its presence, one is gone.
pub data ViewStep : View → View → Type 0 where
  connects : (fp : Text) (present : Bool) (v : View) → ViewStep v (set_view fp (some present) v)
  reports :
      (fp : Text) (present before : Bool) (v : View)
      → v fp ≡ some before
      → ViewStep v (set_view fp (some present) v)
  leaves : (fp : Text) (v : View) → ViewStep v (set_view fp none v)

pub data ViewReach (v : View) : View → Type 0 where
  view_here : ViewReach v v
  view_next : {u w : View} → ViewReach v u → ViewStep u w → ViewReach v w

abbrev pub presence_of : Option LiveSession → Option Bool
presence_of none = none
presence_of (some l) = some l.user_present

-- The view of an agent: order, times, transports and the files are forgotten.
abbrev pub view_of : Agent → View
view_of a fp = presence_of (lookup fp a.live)

Tracks-IsSettled :
    (fp : Text) (s : Session) (l : Option LiveSession) → Tracks fp (some s) l → IsSettled s
Tracks-IsSettled fp s none h = inr h.1
Tracks-IsSettled fp s (some l) h = inl h.0

pub IsTracked-IsSettled : (b : Agent) → IsTracked b → All IsSettled (values b.sessions)
IsTracked-IsSettled b c =
    values-All IsSettled b.sessions c.sessions_map λ fp s e.
      Tracks-IsSettled fp s _ (subst (λ x. Tracks fp x (lookup fp b.live)) e (c.tracks fp))

pub tracked_owner_mode :
    (b : Agent) → IsTracked b → is_some b.owner_mode_file ≡ true → any_present b ≡ true
tracked_owner_mode b c h =
    owner_mode_of-found b (IsTracked-IsSettled b c) (sym (ap is_some c.owner_mode) ∙ h)
