-- ===== src/Adb/Commands.antt =====
-- main.go: the arguments of `startTrustService` and `wakeAndroid`, and the device that
-- `pulseOwnerVisual` lights up. control.go: `wakeApprovalActivity`.
pub mod Single
use zorin_host_agent.Prelude.{
  Bool, true, false, Option, none, some, List, [], ◌∷◌, ◌++◌, if◌then◌else◌, is_empty,
}
use zorin_host_agent.Text.{Text, text, trim_space}
use zorin_host_agent.Adb.Configure.{current_devices}

abbrev package_name : Text
package_name = text "dev.zorin.trustruntime"

unfoldable pub shell_am : Text → List Text → List Text
shell_am serial rest = text "-s" ∷ serial ∷ text "shell" ∷ text "am" ∷ rest

unfoldable pub flag_args : Text → List Text
flag_args name = text "--ez" ∷ name ∷ text "true" ∷ []

-- startTrustService
unfoldable pub service_args : Text → Bool → List Text
service_args serial pulse = shell_am serial (
    text "start-foreground-service"
    ∷ text "-n"
    ∷ (package_name ++ text "/dev.zorin.trustruntime.TrustService")
    ∷ (flag_args (text "dev.zorin.trust.ensure")
        ++ (if pulse then flag_args (text "dev.zorin.trust.pulse") else [])))

unfoldable pub activity_args : Text → Text → List Text
activity_args serial extra = shell_am serial (
    text "start"
    ∷ text "-n"
    ∷ (package_name ++ text "/android.app.NativeActivity")
    ∷ flag_args extra)

-- wakeAndroid: the commands in their order.
unfoldable pub wake_commands : Text → Bool → List (List Text)
wake_commands serial visible =
    service_args serial false
    ∷ (if visible then activity_args serial (text "dev.zorin.trust.autoconnect") ∷ [] else [])

-- The loop over the keys of `seenADB`.
unfoldable pub pick_single : Text → List Text → Text
pick_single serial [] = serial
pick_single serial (s ∷ rest) =
    let next = pick_single s rest in if is_empty serial then next else []

-- pulseOwnerVisual: the command, if there is one device to choose.
unfoldable pub pulse_target : Text → List Text → Text
pulse_target wanted seen =
    if is_empty (trim_space wanted) then pick_single [] seen else trim_space wanted

unfoldable pub pulse_command : Text → List Text → Option (List Text)
pulse_command wanted seen =
    let serial = pulse_target wanted seen in
    if is_empty serial then none else some (service_args serial true)

-- wakeApprovalActivity, where adb is there: the command for the only device that is listed.
unfoldable pub approval_command : Text → Option Text → Option (List Text)
approval_command wanted out = elim (current_devices wanted out) [
  | serial ∷ [] ↦ some (activity_args serial (text "dev.zorin.approval"))
  | _ ↦ none
]
