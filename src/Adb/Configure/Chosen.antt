-- ===== src/Adb/Configure/Chosen.antt =====
-- Which adb is chosen, and when config.json is written for it.
use zorin_host_agent.Prelude.{
  ◌≡◌, refl, sym, ap, ap₂, subst, ◌∙◌, ◌⊎◌, inl, inr, true, false, not, none, some, List, [], ◌∷◌,
  ◌++◌, arith, if◌then◌else◌, Bool-cases, Option-cases, is_empty, All,
}
use zorin_host_agent.Text.{Text, text_eq, trim_space}
use zorin_host_agent.Text.Laws.{text_eq_iff}
use zorin_host_agent.Agent.{Config}
use zorin_host_agent.Adb.Configure.{
  AdbSystem, adb_candidates, absolute_or, is_tried, choose_adb, configure_adb, Configured,
  given_path, found,
}
use zorin_host_agent.Adb.Configure.First.{
  IsPassed, IsFirstFile, choose_adb-IsFirstFile, choose_adb-none,
}

-- What is settled from these candidates and this configuration.
abbrev pub IsSettled : AdbSystem → List Text → Config → Configured → Type 0
IsSettled sys cs cfg r =
    ((r.ok ≡ true)
      × IsFirstFile sys cs r.adb_path
      × (r.cfg ≡ record cfg { adb_path = r.adb_path })
      × (r.saved ≡ not (text_eq cfg.adb_path r.adb_path)))
    ⊎ ((r.ok ≡ false) × All (IsPassed sys) cs × (r.cfg ≡ cfg) × (r.saved ≡ false))

same_path :
    (cfg : Config) (c : Text) → text_eq cfg.adb_path c ≡ true → cfg ≡ record cfg { adb_path = c }
same_path cfg c h = ap (λ p. record cfg { adb_path = p }) ((text_eq_iff cfg.adb_path c).0 h)

configure_adb-none :
    (sys : AdbSystem) (explicit adb_path : Text) (cfg : Config)
    → choose_adb sys [] (adb_candidates sys explicit adb_path cfg) ≡ none
    → configure_adb sys explicit adb_path cfg
      ≡ record { adb_path = []; cfg = cfg; saved = false; ok = false }
unfolding configure_adb
configure_adb-none sys explicit adb_path cfg h = ground arith

-- The configuration with the path.
abbrev with_path : Config → Text → Config
with_path cfg c = if text_eq cfg.adb_path c then cfg else record cfg { adb_path = c }

configure_adb-some :
    (sys : AdbSystem) (explicit adb_path : Text) (cfg : Config) (c : Text)
    → choose_adb sys [] (adb_candidates sys explicit adb_path cfg) ≡ some c
    → configure_adb sys explicit adb_path cfg ≡ record {
      adb_path = c;
      cfg = with_path cfg c;
      saved = not (text_eq cfg.adb_path c);
      ok = true;
    }
unfolding configure_adb
configure_adb-some sys explicit adb_path cfg c h = ground arith

kept_path : (cfg : Config) (c : Text) → with_path cfg c ≡ record cfg { adb_path = c }
kept_path cfg c = elim (Bool-cases (text_eq cfg.adb_path c)) [
  | inl e ↦ ground (arith, same_path cfg c e)
  | inr e ↦ ground arith
]

-- Where adb is found, it is the first candidate that is a file, as an absolute path, the
-- configuration holds it, and config.json is written only if it did not before; where it is not
-- found, no candidate is a file, and nothing is written.
pub configure_adb-IsSettled :
    (sys : AdbSystem) (explicit adb_path : Text) (cfg : Config)
    → IsSettled sys
        (adb_candidates sys explicit adb_path cfg)
        cfg
        (configure_adb sys explicit adb_path cfg)
configure_adb-IsSettled sys explicit adb_path cfg =
    let cs = adb_candidates sys explicit adb_path cfg in
    elim (Option-cases (choose_adb sys [] cs)) [
      | inl e ↦
          let r = configure_adb-none sys explicit adb_path cfg e in
          subst (IsSettled sys cs cfg) (sym r)
            (inr (refl, choose_adb-none sys [] cs tt e, refl, refl))
      | inr (c, e) ↦
          let r = configure_adb-some sys explicit adb_path cfg c e in
          subst (IsSettled sys cs cfg) (sym r)
            (inl (refl, choose_adb-IsFirstFile sys [] cs c tt e, kept_path cfg c, refl))
    ]

candidates_again :
    (sys : AdbSystem) (p : Text) (cfg : Config)
    → is_empty p ≡ false
    → trim_space p ≡ p
    → adb_candidates sys [] p cfg ≡ p ∷ (given_path cfg.adb_path ++ found sys.look_path)
candidates_again sys p cfg full trimmed =
    let own : given_path p ≡ p ∷ [] = unfold given_path in ground (arith, full, trimmed) in
    let nothing : given_path [] ≡ [] = unfold given_path trim_space in refl in
    unfold adb_candidates in
    ap₂ (λ s t. s ++ (t ++ (given_path cfg.adb_path ++ found sys.look_path))) nothing own

settled_again :
    (sys : AdbSystem) (p : Text) (cfg : Config)
    → is_empty p ≡ false
    → trim_space p ≡ p
    → absolute_or sys p ≡ p
    → sys.is_file p ≡ true
    → cfg.adb_path ≡ p
    → configure_adb sys [] p cfg ≡ record { adb_path = p; cfg = cfg; saved = false; ok = true }
settled_again sys p cfg full trimmed absolute there holds =
    let cs = candidates_again sys p cfg full trimmed in
    let here : sys.is_file (absolute_or sys p) ≡ true = ap sys.is_file absolute ∙ there in
    let chosen : choose_adb sys [] (adb_candidates sys [] p cfg) ≡ some p =
      ap (choose_adb sys []) cs
      ∙ unfold choose_adb is_tried in ground (arith, full, here, absolute) in
    let same : text_eq cfg.adb_path p ≡ true = (text_eq_iff cfg.adb_path p).1 holds in
    configure_adb-some sys [] p cfg p chosen ∙ ground (arith, same)

-- A sweep that follows on a settled adb finds the same one and does not write config.json again:
-- the path is absolute, has no spaces around it and is still a file.
pub configure_adb_idem :
    (sys : AdbSystem) (explicit adb_path : Text) (cfg : Config)
    → let r = configure_adb sys explicit adb_path cfg in
      r.ok ≡ true
      → is_empty r.adb_path ≡ false
      → trim_space r.adb_path ≡ r.adb_path
      → absolute_or sys r.adb_path ≡ r.adb_path
      → configure_adb sys [] r.adb_path r.cfg ≡ record r { saved = false }
configure_adb_idem sys explicit adb_path cfg ok full trimmed absolute =
    elim (configure_adb-IsSettled sys explicit adb_path cfg) [
      | inr (failed, _, _, _) ↦ absurd (ground arith)
      | inl (found_it, first, kept, _) ↦
          let r = configure_adb sys explicit adb_path cfg in
          let there : sys.is_file r.adb_path ≡ true = first.is_there in
          let holds : r.cfg.adb_path ≡ r.adb_path = ap (λ (c : Config). c.adb_path) kept in
          settled_again sys r.adb_path r.cfg full trimmed absolute there holds
          ∙ ap (λ b. record { adb_path = r.adb_path; cfg = r.cfg; saved = false; ok = b }) (sym ok)
    ]
