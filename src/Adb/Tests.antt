-- ===== src/Adb/Tests.antt =====
-- The theorems on a sweep, at one device that adb lists.
use zorin_host_agent.Prelude.{◌≡◌, refl, true, none, [], ◌∷◌, ◌++◌}
use zorin_host_agent.Text.{Text, text, text_eq, fields}
use zorin_host_agent.Frame.{newline}
use zorin_host_agent.Adb.{device_of, devices_of, reverse_set, Probe, Swept}

abbrev listing : Text
listing =
    text "List of devices attached" ++ newline ∷ (text "S1 device" ++ newline ∷ (text "S2 offline"))

abbrev quiet_probe : Probe
quiet_probe = record {
  reverse = λ serial. reverse_set;
  wake_error = λ serial. none;
  started = text "t";
}

abbrev none_swept : Swept
none_swept = record {
  adb = record { seen = (text "S0", true) ∷ []; last_wake = [] };
  health = record {
    updated = 0;
    adb_path = text "adb";
    adb_available = true;
    devices = [];
    reverse_ok = [];
    last_service_start = [];
    last_error = [];
  };
  events = [];
  wakes = [];
}

-- The ready device alone is listed.
listed : devices_of [] listing ≡ text "S1" ∷ []
unfolding devices_of device_of fields text text_eq
listed = refl
