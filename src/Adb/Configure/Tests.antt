-- ===== src/Adb/Configure/Tests.antt =====
-- The choice of adb on concrete paths.
use zorin_host_agent.Prelude.{◌≡◌, refl, true, some, []}
use zorin_host_agent.Text.{text, text_eq, trim_space, fields}
use zorin_host_agent.Agent.{Config}
use zorin_host_agent.Adb.{device_of, devices_of}
use zorin_host_agent.Adb.Configure.{
  AdbSystem, given_path, found, adb_candidates, absolute_or, is_tried, choose_adb, configure_adb,
  current_devices,
}
use zorin_host_agent.Adb.Configure.Chosen.{IsSettled, configure_adb-IsSettled}
use zorin_host_agent.Adb.Commands.{activity_args, approval_command}

-- Only /usr/bin/adb is a file; all paths are absolute.
abbrev system : AdbSystem
system = record {
  look_path = some (text "/usr/bin/adb");
  absolute = λ p. some p;
  is_file = λ p. text_eq p (text "/usr/bin/adb");
}

abbrev old_config : Config
old_config = record { paired_phones = []; device_labels = []; adb_path = text "/old/adb" }

found_on_path : configure_adb system [] [] old_config ≡ record {
  adb_path = text "/usr/bin/adb";
  cfg = record old_config { adb_path = text "/usr/bin/adb" };
  saved = true;
  ok = true;
}
unfolding configure_adb choose_adb adb_candidates given_path found absolute_or is_tried trim_space
    text_eq text
found_on_path = refl

configure_adb-IsSettled_example :
    IsSettled system
      (adb_candidates system [] [] old_config)
      old_config
      (configure_adb system [] [] old_config)
configure_adb-IsSettled_example = configure_adb-IsSettled system [] [] old_config

approval_for_one :
    approval_command [] (some (text "S1 device"))
    ≡ some (activity_args (text "S1") (text "dev.zorin.approval"))
unfolding approval_command current_devices devices_of device_of fields text_eq text
approval_for_one = refl
