-- ===== src/Adb.antt =====
-- main.go: `adbSweep`, the devices that adb lists, and when a phone is woken.
pub mod Sweep
pub mod Configure
pub mod Commands
mod Tests
use zorin_host_agent.Prelude.{
  ℕ, ◌+◌, Bool, true, false, not, ◌&&◌, ◌||◌, Option, none, some, List, [], ◌∷◌, ◌++◌, leb, ◌==◌,
  if◌then◌else◌, is_empty,
}
use zorin_host_agent.Text.{Text, text, text_eq, fields}
use zorin_host_agent.Dict.{Dict, lookup, insert, delete}
use zorin_host_agent.Frame.{newline}
use zorin_host_agent.Agent.{DaemonHealth, Effect, event_of}

-- strings.Split(s, "\n"): `line` holds the bytes of the line that is being read.
lines_from : Text → Text → List Text
lines_from line [] = line ∷ []
lines_from line (c ∷ s) =
    let next = lines_from [] s in
    let more = lines_from (line ++ c ∷ []) s in if c == newline then line ∷ next else more

device_in : Text → List Text → Option Text
device_in wanted (serial ∷ state ∷ rest) =
    if text_eq state (text "device") && (is_empty wanted || text_eq wanted serial)
    then some serial
    else none
device_in wanted _ = none

-- The serial of a line of `adb devices`, if it is a device that is ready and wanted.
unfoldable pub device_of : Text → Text → Option Text
unfolding device_in
device_of wanted line = device_in wanted (fields line)

collect_devices : Text → List Text → List Text
collect_devices wanted [] = []
collect_devices wanted (line ∷ lines) =
    let rest = collect_devices wanted lines in
    elim (device_of wanted line) [ none ↦ rest | some serial ↦ serial ∷ rest ]

unfoldable pub devices_of : Text → Text → List Text
unfolding lines_from collect_devices
devices_of wanted out = collect_devices wanted (lines_from [] out)

-- `seenADB` and `lastWake`.
pub record AdbState : Type 0 where
  pub seen : Dict Bool
  pub last_wake : Dict ℕ

-- The outcome of `adb reverse`: the command is not there, it succeeds, or it fails with this text.
pub data Reverse : Type 0 where
  no_command : Reverse
  reverse_set : Reverse
  reverse_failed : Text → Reverse

-- What adb answers during a sweep: for each device the outcome of `adb reverse` and the error of the
-- start of the service, and the time of a start as text.
pub record Probe : Type 0 where
  pub reverse : Text → Reverse
  pub wake_error : Text → Option Text
  pub started : Text

abbrev pub wake_interval : ℕ
wake_interval = 30_000_000_000

unfoldable pub get_flag : Text → Dict Bool → Bool
get_flag k m = elim (lookup k m) [ none ↦ false | some b ↦ b ]

unfoldable pub last_wake_of : Text → AdbState → ℕ
last_wake_of serial s = elim (lookup serial s.last_wake) [ none ↦ 0 | some t ↦ t ]

-- shouldHeadlessWake; `live` is `hasLiveSession()`.
unfoldable pub should_headless_wake : Bool → Bool → ℕ → ℕ → Bool → Bool
should_headless_wake pair_once live now last first =
    if pair_once
    then false
    else if first
    then true
    else if live
    then false
    else leb (last + wake_interval) now

is_reversed : Reverse → Bool
is_reversed reverse_set = true
is_reversed _ = false

-- The health after `adb reverse`.
unfoldable pub health_reversed : Text → Reverse → DaemonHealth → DaemonHealth
health_reversed serial no_command h = h
health_reversed serial reverse_set h = record h { reverse_ok = h.reverse_ok ++ serial ∷ [] }
health_reversed serial (reverse_failed e) h = record h { last_error = e }

unfoldable pub health_woken : Text → Option Text → DaemonHealth → DaemonHealth
health_woken started none h = record h { last_service_start = started }
health_woken started (some e) h = record h { last_service_start = started; last_error = e }

-- The sweep so far: the state, the health, the events, and the phones that were woken, visibly or
-- not.
pub record Swept : Type 0 where
  pub adb : AdbState
  pub health : DaemonHealth
  pub events : List Effect
  pub wakes : List (Text × Bool)

bool_text : Bool → Text
bool_text b = if b then text "true" else text "false"

unfoldable pub transport_up : Text → Bool → Effect
unfolding bool_text
transport_up serial reversed =
    event_of (text "transport-up") (text "info") (text "USB transport detected")
      (text "ADB device " ++ (serial ++ (text "; reverse=" ++ bool_text reversed))) [] none

unfoldable pub transport_down : Effect
transport_down =
    event_of (text "transport-down") (text "info") (text "USB transport lost")
      (text
        "ADB device disconnected; trust will require a fresh authenticated session on recovery.")
      [] none

-- wakeAndroid within the sweep.
unfoldable pub wake_device : ℕ → Probe → Text → Bool → Swept → Swept
wake_device now probe serial visible s = record {
  adb = record { seen = s.adb.seen; last_wake = insert serial now s.adb.last_wake };
  health = health_woken probe.started (probe.wake_error serial) s.health;
  events = s.events;
  wakes = s.wakes ++ (serial, visible) ∷ [];
}

-- The body of the loop over the devices up to the decision to wake.
unfoldable pub note_device : Probe → Text → Swept → Swept
unfolding is_reversed
note_device probe serial s = record {
  adb = record { seen = insert serial true s.adb.seen; last_wake = s.adb.last_wake };
  health =
      health_reversed serial (probe.reverse serial)
        (record s.health { devices = s.health.devices ++ serial ∷ [] });
  events =
      if get_flag serial s.adb.seen
      then s.events
      else s.events ++ transport_up serial (is_reversed (probe.reverse serial)) ∷ [];
  wakes = s.wakes;
}

-- Whether the phone is woken, for `first` of the sweep.
unfoldable pub wakes_device : Bool → Bool → ℕ → Text → AdbState → Bool
wakes_device pair_once live now serial s =
    let first = not (get_flag serial s.seen) in
    (pair_once && first) || should_headless_wake pair_once live now (last_wake_of serial s) first

unfoldable pub sweep_device : Bool → Bool → ℕ → Probe → Text → Swept → Swept
sweep_device pair_once live now probe serial s =
    let noted = note_device probe serial s in
    if wakes_device pair_once live now serial s.adb
    then wake_device now probe serial (pair_once && not (get_flag serial s.adb.seen)) noted
    else noted

unfoldable pub sweep_devices : Bool → Bool → ℕ → Probe → List Text → Swept → Swept
sweep_devices pair_once live now probe [] s = s
sweep_devices pair_once live now probe (serial ∷ rest) s =
    sweep_devices pair_once live now probe rest (sweep_device pair_once live now probe serial s)

unfoldable pub is_listed : Text → List Text → Bool
is_listed serial [] = false
is_listed serial (s ∷ rest) = text_eq s serial || is_listed serial rest

-- The loop that forgets the devices that are gone, over the entries of `seenADB`.
unfoldable pub forget_gone : List Text → Dict Bool → AdbState × List Effect → AdbState × List Effect
forget_gone current [] s = s
forget_gone current ((serial, flag) ∷ rest) (s, events) =
    let kept = forget_gone current rest (s, events) in
    let gone = forget_gone current rest (
      record { seen = delete serial s.seen; last_wake = delete serial s.last_wake },
      events ++ transport_down ∷ [],
    ) in
    if is_listed serial current then kept else gone

-- adbSweep behind the list of devices.
unfoldable pub adb_sweep : Text → Bool → Bool → ℕ → Probe → Text → Swept → Swept
adb_sweep wanted pair_once live now probe out s =
    let devices = devices_of wanted out in
    let s' = sweep_devices pair_once live now probe devices s in
    let (adb, events) = forget_gone devices s'.adb.seen (s'.adb, s'.events) in
    record s' { adb = adb; events = events }
