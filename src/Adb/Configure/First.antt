-- ===== src/Adb/Configure/First.antt =====
-- The first candidate for adb that is a file.
use zorin_host_agent.Prelude.{
  ◌≡◌, refl, sym, ap, subst, ◌∙◌, ◌⊎◌, inl, inr, true, false, ◌||◌, none, some, List, [], ◌∷◌, ◌++◌,
  arith, Bool-cases, is_empty, All,
}
use zorin_host_agent.Text.{Text, text_eq}
use zorin_host_agent.Text.Laws.{text_eq_iff}
use zorin_host_agent.Adb.Configure.{AdbSystem, absolute_or, is_tried, choose_adb}

-- A candidate that is not taken.
abbrev pub IsPassed : AdbSystem → Text → Type 0
IsPassed sys c = (is_empty c ≡ true) ⊎ (sys.is_file (absolute_or sys c) ≡ false)

is_tried-IsPassed :
    (sys : AdbSystem) (c : Text) (seen : List Text)
    → All (IsPassed sys) seen
    → is_tried c seen ≡ true
    → IsPassed sys c
is_tried-IsPassed sys c [] h k = unfold is_tried in absurd (ground arith)
is_tried-IsPassed sys c (s ∷ seen) h k = elim (Bool-cases (text_eq s c)) [
  | inl e ↦ subst (IsPassed sys) ((text_eq_iff s c).0 e) h.0
  | inr e ↦ is_tried-IsPassed sys c seen h.1 (unfold is_tried in ground arith)
]

-- The first candidate that is a file, with those before it passed over.
pub record IsFirstFile (sys : AdbSystem) (cs : List Text) (path : Text) : Type 0 where
  pub before : List Text
  pub candidate : Text
  pub after : List Text
  pub split : cs ≡ before ++ candidate ∷ after
  pub passed : All (IsPassed sys) before
  pub path_is : path ≡ absolute_or sys candidate
  pub is_there : sys.is_file path ≡ true

first_behind :
    (sys : AdbSystem) (c : Text) (cs : List Text) (path : Text)
    → IsPassed sys c
    → IsFirstFile sys cs path
    → IsFirstFile sys (c ∷ cs) path
first_behind sys c cs path h f = record {
  before = c ∷ f.before;
  candidate = f.candidate;
  after = f.after;
  split = ap (λ t. c ∷ t) f.split;
  passed = (h, f.passed);
  path_is = f.path_is;
  is_there = f.is_there;
}

pub choose_adb-IsFirstFile :
    (sys : AdbSystem) (seen cs : List Text) (path : Text)
    → All (IsPassed sys) seen
    → choose_adb sys seen cs ≡ some path
    → IsFirstFile sys cs path
choose_adb-IsFirstFile sys seen [] path h k = unfold choose_adb in absurd (ground arith)
choose_adb-IsFirstFile sys seen (c ∷ cs) path h k =
    elim (Bool-cases (is_empty c || is_tried c seen)) [
      | inl e ↦
          let passed : IsPassed sys c = elim (Bool-cases (is_empty c)) [
            | inl empty ↦ inl empty
            | inr full ↦ is_tried-IsPassed sys c seen h (ground arith)
          ] in
          first_behind sys c cs path passed
            (choose_adb-IsFirstFile sys seen cs path h (unfold choose_adb in ground arith))
      | inr e ↦ elim (Bool-cases (sys.is_file (absolute_or sys c))) [
        | inl there ↦
            let same : absolute_or sys c ≡ path = unfold choose_adb in ground arith in
            record {
              before = [];
              candidate = c;
              after = cs;
              split = refl;
              passed = tt;
              path_is = sym same;
              is_there = ap sys.is_file (sym same) ∙ there;
            }
        | inr away ↦ first_behind sys c cs path (inr away) (
            choose_adb-IsFirstFile sys (c ∷ seen) cs path (inr away, h)
              (unfold choose_adb in ground arith))
      ]
    ]

pub choose_adb-none :
    (sys : AdbSystem) (seen cs : List Text)
    → All (IsPassed sys) seen
    → choose_adb sys seen cs ≡ none
    → All (IsPassed sys) cs
choose_adb-none sys seen [] h k = tt
choose_adb-none sys seen (c ∷ cs) h k = elim (Bool-cases (is_empty c || is_tried c seen)) [
  | inl e ↦
      let passed : IsPassed sys c = elim (Bool-cases (is_empty c)) [
        | inl empty ↦ inl empty
        | inr full ↦ is_tried-IsPassed sys c seen h (ground arith)
      ] in
      (passed, choose_adb-none sys seen cs h (unfold choose_adb in ground arith))
  | inr e ↦ elim (Bool-cases (sys.is_file (absolute_or sys c))) [
    | inl there ↦ unfold choose_adb in absurd (ground arith)
    | inr away ↦ (
      inr away,
      choose_adb-none sys (c ∷ seen) cs (inr away, h) (unfold choose_adb in ground arith),
    )
  ]
]
