-- ===== src/Device.antt =====
-- main.go: `runDeviceCLI` and `unpair-all`, the commands on the paired phones of config.json.
pub mod Revoked
mod Tests
use zorin_host_agent.Prelude.{none, some, [], if◌then◌else◌, is_empty}
use zorin_host_agent.Text.{Text, text, text_eq, trim_space}
use zorin_host_agent.Dict.{insert, delete, lookup}
use zorin_host_agent.Agent.{Config}

-- The command fails with this text, or config.json is written anew.
pub data DeviceResult : Type 0 where
  device_error : Text → DeviceResult
  device_saved : Config → DeviceResult

-- Behind the checks that all commands share: `key` is the trimmed fingerprint.
unfoldable pub device_command : Text → Text → Text → Config → DeviceResult
device_command verb key name cfg =
    if text_eq verb (text "rename")
    then (if is_empty (trim_space name)
        then device_error (text "--name is required")
        else device_saved
            (record cfg { device_labels = insert key (trim_space name) cfg.device_labels }))
    else if text_eq verb (text "revoke")
    then device_saved (record cfg {
      paired_phones = delete key cfg.paired_phones;
      device_labels = delete key cfg.device_labels;
    })
    else device_error (text "usage: device [list|rename|revoke]")

-- runDeviceCLI, for a command that is not `list`.
unfoldable pub device_cli : Text → Text → Text → Config → DeviceResult
device_cli verb fp name cfg =
    let key = trim_space fp in
    if is_empty key
    then device_error (text "--fingerprint is required")
    else elim (lookup key cfg.paired_phones) [
      | none ↦ device_error (text "device is not paired")
      | some hex ↦ device_command verb key name cfg
    ]

-- The command unpair-all.
unfoldable pub unpair_all : Config → Config
unpair_all cfg = record cfg { paired_phones = []; device_labels = [] }
