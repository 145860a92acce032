-- ===== src/Adb/Configure.antt =====
-- main.go: `configureADB`, `adbCommand`, the whole of `adbSweep` and the arguments of
-- `startTrustService` and `wakeAndroid`. control.go: `currentADBDevices`.
pub mod First
pub mod Chosen
mod Tests
use zorin_host_agent.Prelude.{
  ℕ, Bool, true, false, not, ◌||◌, Option, none, some, List, [], ◌∷◌, ◌++◌, if◌then◌else◌, is_empty,
}
use zorin_host_agent.Text.{Text, text, text_eq, trim_space}
use zorin_host_agent.Agent.{Config, DaemonHealth}
use zorin_host_agent.Adb.{devices_of, AdbState, Probe, Swept, adb_sweep}

-- The system: exec.LookPath("adb"), filepath.Abs, and whether a path is there and no directory.
pub record AdbSystem : Type 0 where
  pub look_path : Option Text
  pub absolute : Text → Option Text
  pub is_file : Text → Bool

unfoldable pub given_path : Text → List Text
given_path s = if is_empty (trim_space s) then [] else trim_space s ∷ []

unfoldable pub found : Option Text → List Text
found none = []
found (some p) = p ∷ []

-- The candidates in their order: the flag, the path in use, the path of config.json, and PATH.
unfoldable pub adb_candidates : AdbSystem → Text → Text → Config → List Text
adb_candidates sys explicit adb_path cfg =
    given_path explicit ++ (given_path adb_path ++ (given_path cfg.adb_path ++ found sys.look_path))

unfoldable pub absolute_or : AdbSystem → Text → Text
absolute_or sys c = elim (sys.absolute c) [ none ↦ c | some p ↦ p ]

unfoldable pub is_tried : Text → List Text → Bool
is_tried c [] = false
is_tried c (s ∷ seen) = text_eq s c || is_tried c seen

-- The loop over the candidates: the first that is a file, as an absolute path.
unfoldable pub choose_adb : AdbSystem → List Text → List Text → Option Text
choose_adb sys seen [] = none
choose_adb sys seen (c ∷ cs) =
    let skipped = choose_adb sys seen cs in
    let tried = choose_adb sys (c ∷ seen) cs in
    if is_empty c || is_tried c seen
    then skipped
    else if sys.is_file (absolute_or sys c)
    then some (absolute_or sys c)
    else tried

-- The path in use and the configuration, whether config.json is written, and whether adb is found.
pub record Configured : Type 0 where
  pub adb_path : Text
  pub cfg : Config
  pub saved : Bool
  pub ok : Bool

-- configureADB
unfoldable pub configure_adb : AdbSystem → Text → Text → Config → Configured
configure_adb sys explicit adb_path cfg =
    elim (choose_adb sys [] (adb_candidates sys explicit adb_path cfg)) [
      | none ↦ record { adb_path = []; cfg = cfg; saved = false; ok = false }
      | some c ↦ record {
        adb_path = c;
        cfg = if text_eq cfg.adb_path c then cfg else record cfg { adb_path = c };
        saved = not (text_eq cfg.adb_path c);
        ok = true;
      }
    ]

-- adbCommand up to the command: the state, and whether there is a command.
unfoldable pub adb_command : AdbSystem → Text → Config → Configured
adb_command sys adb_path cfg =
    if is_empty (trim_space adb_path)
    then configure_adb sys [] adb_path cfg
    else record { adb_path = adb_path; cfg = cfg; saved = false; ok = true }

-- currentADBDevices, where `out` is what `adb devices` prints, and none where it fails. The order is
-- the one of the lines.
unfoldable pub current_devices : Text → Option Text → List Text
current_devices wanted none = []
current_devices wanted (some out) = devices_of wanted out

-- What `adb devices` gives: an error of the command, or its output.
pub data Listing : Type 0 where
  listing_failed : Text → Listing
  printed : Text → Listing

-- What a sweep leaves: the configuration, the devices, the health that writeDaemonHealth writes, and
-- what `adb_sweep` did.
pub record Sweep : Type 0 where
  pub configured : Configured
  pub swept : Swept

unfoldable pub fresh_health : Text → Bool → Text → DaemonHealth
fresh_health adb_path available last_error = record {
  updated = 0;
  adb_path = adb_path;
  adb_available = available;
  devices = [];
  reverse_ok = [];
  last_service_start = [];
  last_error = last_error;
}

unfoldable pub stopped : AdbState → DaemonHealth → Swept
stopped s h = record { adb = s; health = h; events = []; wakes = [] }

-- writeDaemonHealth: the health gets its time.
unfoldable pub write_health : ℕ → Swept → Swept
write_health now s = record s { health = record s.health { updated = now } }

-- adbSweep with its early returns; `missing` is the text of configureADB's error.
unfoldable pub sweep_adb :
    AdbSystem → Text → Text → Config → Text → Bool → Bool → ℕ → Probe → Listing → AdbState → Sweep
sweep_adb sys missing adb_path cfg wanted pair_once live now probe listing s =
    let c = configure_adb sys [] adb_path cfg in
    let h = fresh_health c.adb_path true [] in
    record {
      configured = c;
      swept = write_health now (
          if not c.ok then stopped s (fresh_health adb_path false missing) else elim listing [
            | listing_failed e ↦
                stopped s (fresh_health c.adb_path true (text "adb devices: " ++ e))
            | printed out ↦ adb_sweep wanted pair_once live now probe out (stopped s h)
          ]);
    }
