-- ===== src/Cli/Tests.antt =====
-- Commands on concrete arguments.
use zorin_host_agent.Prelude.{◌≡◌, refl, [], ◌∷◌}
use zorin_host_agent.Text.{text, text_eq, has_prefix}
use zorin_host_agent.Cli.{daemon_command, gate_command, command_named, parse_command}

flags_start_daemon :
    parse_command (text "--pair-once" ∷ []) ≡ (daemon_command, text "--pair-once" ∷ [])
unfolding parse_command has_prefix text
flags_start_daemon = refl

gate_named :
    parse_command (text "gate" ∷ text "--" ∷ text "ls" ∷ [])
    ≡ (gate_command, text "--" ∷ text "ls" ∷ [])
unfolding parse_command command_named has_prefix text text_eq
gate_named = refl
