-- ===== src/Control/Choice.antt =====
-- The connection that `authorizeDetailed` asks and the one that `controlStatus` names.
use zorin_host_agent.Prelude.{
  ◌≡◌, refl, sym, ap, subst, ◌∙◌, inl, inr, Bool, false, none, some, List, [], ◌∷◌, arith,
  Bool-cases, is_empty, any, All,
}
use zorin_host_agent.Text.{Text}
use zorin_host_agent.Dict.{values}
use zorin_host_agent.Agent.{Agent, LiveSession}
use zorin_host_agent.Control.{control_status, status_loop, choose_live, is_live_present}

abbrev pub unlocked : LiveSession → Bool
unlocked l = l.user_present

choose_live-after :
    (k : LiveSession) (ls : List LiveSession)
    → k.user_present ≡ false
    → is_live_present (choose_live (some k) ls) ≡ any unlocked ls
unfolding choose_live is_live_present
choose_live-after k [] h = h
choose_live-after k (l ∷ ls) h = ground (arith, choose_live-after k ls h)

-- The connection that is asked is unlocked if any is, in whatever order the map is visited.
pub choose_live-present :
    (ls : List LiveSession) → is_live_present (choose_live none ls) ≡ any unlocked ls
unfolding choose_live is_live_present
choose_live-present [] = refl
choose_live-present (l ∷ ls) = ground (arith, choose_live-after l ls)

choose_live-first :
    (k : LiveSession) (ls : List LiveSession)
    → (l : LiveSession) × (choose_live (some k) ls ≡ some l)
unfolding choose_live
choose_live-first k [] = (k, refl)
choose_live-first k (l ∷ ls) = elim (Bool-cases l.user_present) [
  | inl here ↦ (l, rw here)
  | inr away ↦ let (m, e) = choose_live-first k ls in (m, rw away e)
]

-- The chosen connection, from a given one on, is that one or one of the list.
choose_live-from :
    (P : LiveSession → Type 0) (k : LiveSession) (ls : List LiveSession) (l : LiveSession)
    → P k
    → All P ls
    → choose_live (some k) ls ≡ some l
    → P l
unfolding choose_live
choose_live-from P k [] l hk h e = subst P (ground arith) hk
choose_live-from P k (m ∷ ls) l hk h e = elim (Bool-cases m.user_present) [
  | inl here ↦ subst P (ground arith) h.0
  | inr away ↦ choose_live-from P k ls l hk h.1 (ground arith)
]

pub choose_live-member :
    (P : LiveSession → Type 0) (ls : List LiveSession) (l : LiveSession)
    → All P ls
    → choose_live none ls ≡ some l
    → P l
unfolding choose_live
choose_live-member P [] l h e = absurd (ground arith)
choose_live-member P (m ∷ ls) l h e = elim (Bool-cases m.user_present) [
  | inl here ↦ subst P (ground arith) h.0
  | inr away ↦ choose_live-from P m ls l h.0 h.1 (ground arith)
]

status_loop-from :
    (k : LiveSession) (ls : List LiveSession) (l : LiveSession)
    → is_empty k.phone_fp ≡ false
    → choose_live (some k) ls ≡ some l
    → (status_loop k.phone_fp ls).1 ≡ l.phone_fp
unfolding choose_live status_loop
status_loop-from k [] l hk e = ground arith
status_loop-from k (m ∷ ls) l hk e = ground (arith, status_loop-from k ls l hk)

status_loop-present : (fp : Text) (ls : List LiveSession) → (status_loop fp ls).0 ≡ any unlocked ls
unfolding status_loop
status_loop-present fp [] = refl
status_loop-present fp (l ∷ ls) =
    ground (arith, status_loop-present fp ls, status_loop-present l.phone_fp ls)

status_loop-chosen :
    (ls : List LiveSession) (l : LiveSession)
    → All (λ (k : LiveSession). is_empty k.phone_fp ≡ false) ls
    → choose_live none ls ≡ some l
    → (status_loop [] ls).1 ≡ l.phone_fp
unfolding choose_live status_loop
status_loop-chosen [] l h e = absurd (ground arith)
status_loop-chosen (m ∷ ls) l h e = ground (arith, status_loop-from m ls l h.0)

-- Where each connection has a fingerprint that is not empty, the status that a client is shown
-- names the phone and the presence that a request would use: the chosen phone's fingerprint, and
-- whether that phone is unlocked.
pub control_status-chosen :
    (a : Agent) (l : LiveSession)
    → All (λ (k : LiveSession). is_empty k.phone_fp ≡ false) (values a.live)
    → choose_live none (values a.live) ≡ some l
    → ((control_status a).phone_fingerprint ≡ l.phone_fp)
      × ((control_status a).owner_present ≡ l.user_present)
unfolding control_status
control_status-chosen a l h e = (
  status_loop-chosen (values a.live) l h e,
  status_loop-present [] (values a.live)
      ∙ sym (choose_live-present (values a.live))
      ∙ ap is_live_present e
      ∙ unfold is_live_present in refl,
)
