-- ===== src/Adb/Commands/Single.antt =====
-- The device that is lit up is never chosen among several.
use zorin_host_agent.Prelude.{◌≡◌, ◌⊎◌, true, false, List, [], ◌∷◌, arith, is_empty, All}
use zorin_host_agent.Text.{Text, trim_space}
use zorin_host_agent.Adb.Commands.{pick_single, pulse_target}

-- What is lit up is the device that the flag names, or the only one that is remembered.
pub pulse_target-single :
    (wanted : Text) (seen : List Text)
    → All (λ s. is_empty s ≡ false) seen
    → is_empty (pulse_target wanted seen) ≡ false
    → (pulse_target wanted seen ≡ trim_space wanted)
      ⊎ (is_empty (trim_space wanted) ≡ true) × (seen ≡ pulse_target wanted seen ∷ [])
unfolding pulse_target pick_single
pulse_target-single wanted [] h k = ground arith
pulse_target-single wanted (s ∷ []) h k = ground arith
pulse_target-single wanted (s ∷ t ∷ rest) h k = ground (arith, h.0)
