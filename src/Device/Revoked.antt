-- ===== src/Device/Revoked.antt =====
-- What a command does to the paired phones, and that a revoked phone is turned away.
use zorin_host_agent.Prelude.{
  ℕ, ◌≡◌, ap, ◌∙◌, ◌≢◌, ◌⊎◌, inl, inr, false, Option, none, some, arith, Bool-cases, Option-cases,
  is_empty,
}
use zorin_host_agent.Text.{Text, text, text_eq, trim_space}
use zorin_host_agent.Text.Laws.{text_eq_iff}
use zorin_host_agent.Dict.{Dict, lookup, get_text}
use zorin_host_agent.Dict.Laws.{lookup-insert_self, lookup-delete_self}
use zorin_host_agent.Crypto.{Crypto}
use zorin_host_agent.Agent.{Config, LiveSession, Agent}
use zorin_host_agent.Connection.Handshake.{is_paired, authentic, Peer, handshake}
use zorin_host_agent.Connection.Handshake.Authentic.{handshake-authentic}
use zorin_host_agent.Device.{device_saved, device_command, device_cli}

-- What a command has done whose configuration is saved.
abbrev pub IsSaved : Text → Text → Text → Config → Config → Type 0
IsSaved verb key name cfg cfg' =
    ((verb ≡ text "rename")
      × (cfg'.paired_phones ≡ cfg.paired_phones)
      × (get_text key cfg'.device_labels ≡ trim_space name)
      × (is_empty (trim_space name) ≡ false))
    ⊎ (verb ≡ text "revoke")
      × (lookup key cfg'.paired_phones ≡ none)
      × (lookup key cfg'.device_labels ≡ none)

device_command-IsSaved :
    (verb key name : Text) (cfg cfg' : Config)
    → device_command verb key name cfg ≡ device_saved cfg'
    → IsSaved verb key name cfg cfg'
unfolding device_command get_text
device_command-IsSaved verb key name cfg cfg' h = elim (Bool-cases (text_eq verb (text "rename"))) [
  | inl renames ↦ inl (
    (text_eq_iff verb (text "rename")).0 renames,
    ground arith,
    ground (arith, lookup-insert_self key (trim_space name) cfg.device_labels),
    ground arith,
  )
  | inr other ↦ inr (
    ground (arith, text_eq_iff verb (text "revoke")),
    ground (arith, lookup-delete_self key cfg.paired_phones),
    ground (arith, lookup-delete_self key cfg.device_labels),
  )
]

-- Only a command for a paired phone is saved: `rename` keeps the paired phones and gives the phone
-- its new name, which is not empty, and `revoke` takes the phone and its name away.
pub device_cli-IsSaved :
    (verb fp name : Text) (cfg cfg' : Config)
    → device_cli verb fp name cfg ≡ device_saved cfg'
    → ((hex : Text) × (lookup (trim_space fp) cfg.paired_phones ≡ some hex))
      × IsSaved verb (trim_space fp) name cfg cfg'
unfolding device_cli
device_cli-IsSaved verb fp name cfg cfg' h =
    elim (Option-cases (lookup (trim_space fp) cfg.paired_phones)) [
      | inl absent ↦ absurd (ground arith)
      | inr (hex, found) ↦
          ((hex, found), device_command-IsSaved verb (trim_space fp) name cfg cfg' (ground arith))
    ]

revoked-unpaired :
    (key hex : Text) (cfg : Config)
    → lookup key cfg.paired_phones ≡ none
    → is_paired cfg key hex ≡ false
unfolding is_paired
revoked-unpaired key hex cfg h = ground arith

revoke→absent :
    (fp name : Text) (cfg cfg' : Config)
    → device_cli (text "revoke") fp name cfg ≡ device_saved cfg'
    → lookup (trim_space fp) cfg'.paired_phones ≡ none
revoke→absent fp name cfg cfg' h = elim (device_cli-IsSaved (text "revoke") fp name cfg cfg' h).1 [
  | inl (verb, _, _, _) ↦ absurd (revoke_is_not_rename verb)
  | inr (_, gone, _) ↦ gone
]
  where
    revoke_is_not_rename : text "revoke" ≡ text "rename" → ⊥
    revoke_is_not_rename e = unfold text in ground (arith, e)

-- A host that starts from a configuration in which a phone is revoked, with its window shut, takes no
-- connection of that phone on, whatever the phone sends.
pub handshake-turns_revoked_away :
    (crypto : Crypto) (sign : Text → Option Text) (host_pub : Text) (now : ℕ) (peer : Peer)
    (frame : Dict Text) (a : Agent) (l : LiveSession) (fp name : Text) (cfg : Config)
    → device_cli (text "revoke") fp name cfg ≡ device_saved a.cfg
    → a.pair_once ≡ false
    → (handshake crypto sign host_pub now peer frame a).outcome ≡ authentic l
    → l.phone_fp ≢ trim_space fp
handshake-turns_revoked_away crypto sign host_pub now peer frame a l fp name cfg revoked shut h
      same =
    let (_, _, _, paired) = handshake-authentic crypto sign host_pub now peer frame a l h in
    let absent = revoke→absent fp name cfg a.cfg revoked in
    let unpaired =
      revoked-unpaired l.phone_fp (get_text (text "PHONE_PUB") frame) a.cfg
        (ap (λ k. lookup k a.cfg.paired_phones) same ∙ absent) in
    elim paired [ inl p ↦ ground arith | inr p ↦ ground arith ]
