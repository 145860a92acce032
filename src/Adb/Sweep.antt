-- ===== src/Adb/Sweep.antt =====
-- What a sweep remembers, and whom it wakes.
use zorin_host_agent.Prelude.{
  ℕ, ◌+◌, ◌≤◌, ◌≡◌, refl, ap, ◌⊎◌, Bool, true, false, not, ◌&&◌, none, some, List, [], ◌∷◌, ◌++◌,
  arith, if◌then◌else◌, is_some,
}
use zorin_host_agent.Text.{Text}
use zorin_host_agent.Dict.{Dict, lookup, insert, delete}
use zorin_host_agent.Dict.Laws.{lookup-insert, lookup-delete}
use zorin_host_agent.Agent.{Effect}
use zorin_host_agent.Adb.{
  devices_of, AdbState, Probe, wake_interval, get_flag, last_wake_of, should_headless_wake, Swept,
  wake_device, note_device, wakes_device, sweep_device, sweep_devices, is_listed, forget_gone,
  adb_sweep, transport_down,
}
use zorin_host_agent.Text.Laws.{text_eq_iff}

sweep_device-seen :
    (pair_once live : Bool) (now : ℕ) (probe : Probe) (serial : Text) (s : Swept)
    → (sweep_device pair_once live now probe serial s).adb.seen ≡ insert serial true s.adb.seen
unfolding sweep_device note_device wake_device
sweep_device-seen pair_once live now probe serial s = ground arith

sweep_devices-seen :
    (pair_once live : Bool) (now : ℕ) (probe : Probe) (devices : List Text) (s : Swept) (k : Text)
    → lookup k (sweep_devices pair_once live now probe devices s).adb.seen
      ≡ (if is_listed k devices then some true else lookup k s.adb.seen)
unfolding sweep_devices is_listed
sweep_devices-seen pair_once live now probe [] s k = refl
sweep_devices-seen pair_once live now probe (serial ∷ rest) s k = ground (
  arith,
  sweep_devices-seen pair_once live now probe rest (sweep_device pair_once live now probe serial s)
      k,
  ap (lookup k) (sweep_device-seen pair_once live now probe serial s),
  lookup-insert serial k true s.adb.seen,
)

forget_gone-seen :
    (current : List Text) (entries : Dict Bool) (s : AdbState) (events : List Effect) (k : Text)
    → lookup k (forget_gone current entries (s, events)).0.seen
      ≡ (if is_some (lookup k entries) && not (is_listed k current) then none else lookup k s.seen)
unfolding forget_gone lookup
forget_gone-seen current [] s events k = ground arith
forget_gone-seen current ((serial, flag) ∷ rest) s events k = ground (
  arith,
  forget_gone-seen current rest s events k,
  forget_gone-seen current rest
      (record { seen = delete serial s.seen; last_wake = delete serial s.last_wake })
      (events ++ transport_down ∷ []) k,
  lookup-delete serial k s.seen,
  text_eq_iff serial k,
)

-- After a sweep the devices that are remembered are just those that adb lists now, so that a device
-- that comes back counts as new.
pub adb_sweep-remembers :
    (wanted : Text) (pair_once live : Bool) (now : ℕ) (probe : Probe) (out : Text) (s : Swept)
    (k : Text)
    → lookup k (adb_sweep wanted pair_once live now probe out s).adb.seen
      ≡ (if is_listed k (devices_of wanted out) then some true else none)
unfolding adb_sweep
adb_sweep-remembers wanted pair_once live now probe out s k =
    let devices = devices_of wanted out in
    let swept = sweep_devices pair_once live now probe devices s in
    ground (
      arith,
      forget_gone-seen devices swept.adb.seen swept.adb swept.events k,
      sweep_devices-seen pair_once live now probe devices s k,
    )

-- A device is woken only if it is new, or if the pairing window is shut, there is no session, and it
-- was not woken in the last thirty seconds.
pub wakes_device-cases :
    (pair_once live : Bool) (now : ℕ) (serial : Text) (s : AdbState)
    → wakes_device pair_once live now serial s ≡ true
    → (get_flag serial s.seen ≡ false)
      ⊎ (pair_once ≡ false) × (live ≡ false) × (last_wake_of serial s + wake_interval ≤ now)
unfolding wakes_device should_headless_wake
wakes_device-cases pair_once live now serial s h = ground arith
