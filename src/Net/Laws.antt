-- ===== src/Net/Laws.antt =====
-- What loopback addresses are.
use zorin_host_agent.Prelude.{
  ℕ, zero, suc, ◌-◌, ◌≡◌, refl, sym, ap, ap₂, subst, ◌∙◌, ◌⊎◌, inl, inr, true, some, [], ◌∷◌, ◌++◌,
  arith, ◌==◌, Bool-cases, Option-cases, length, take, drop,
}
use zorin_host_agent.Text.{Text, text_eq}
use zorin_host_agent.Net.{Ip}
use zorin_host_agent.Net.Ip6.{zeros}
use zorin_host_agent.Net.Address.{v4_prefix, to4, is_loopback, first_byte}
use zorin_host_agent.Text.Laws.{text_eq_iff}

-- An IPv4 address of 127.0.0.0/8, as 4 bytes or as 16, or the address ::1.
pub data IsLoopbackIp : Ip → Type 0 where
  loopback_4 : {b c d : ℕ} → IsLoopbackIp (127 ∷ b ∷ c ∷ d ∷ [])
  loopback_mapped : {b c d : ℕ} → IsLoopbackIp (v4_prefix ++ 127 ∷ b ∷ c ∷ d ∷ [])
  loopback_6 : IsLoopbackIp (zeros 15 ++ 1 ∷ [])

take-append-drop : (n : ℕ) (s : Text) → take n s ++ drop n s ≡ s
take-append-drop zero s = refl
take-append-drop (suc n) [] = refl
take-append-drop (suc n) (a ∷ s) = ap (λ t. a ∷ t) (take-append-drop n s)

length-drop : (n : ℕ) (s : Text) → length (drop n s) ≡ length s - n
length-drop zero s = omega arith
length-drop (suc n) [] = omega arith
length-drop (suc n) (a ∷ s) = omega (arith, length-drop n s)

loopback_v4 :
    (v4 : Ip)
    → length v4 ≡ 4
    → (first_byte v4 == 127) ≡ true
    → IsLoopbackIp v4 × IsLoopbackIp (v4_prefix ++ v4)
loopback_v4 (a ∷ b ∷ c ∷ d ∷ []) h e =
    let q : a ≡ 127 = ground arith in
    (
      subst (λ x. IsLoopbackIp (x ∷ b ∷ c ∷ d ∷ [])) (sym q) loopback_4,
      subst (λ x. IsLoopbackIp (v4_prefix ++ x ∷ b ∷ c ∷ d ∷ [])) (sym q) loopback_mapped,
    )
loopback_v4 [] h e = absurd (omega arith)
loopback_v4 (a ∷ []) h e = absurd (omega arith)
loopback_v4 (a ∷ b ∷ []) h e = absurd (omega arith)
loopback_v4 (a ∷ b ∷ c ∷ []) h e = absurd (omega arith)
loopback_v4 (a ∷ b ∷ c ∷ d ∷ f ∷ v) h e = absurd (omega arith)

-- The 4 bytes are the address itself or its end behind the prefix.
pub to4-cases :
    (ip v4 : Ip) → to4 ip ≡ some v4 → (length v4 ≡ 4) × ((ip ≡ v4) ⊎ (ip ≡ v4_prefix ++ v4))
to4-cases ip v4 h = elim (Bool-cases (length ip == 4)) [
  | inl e ↦ unfold to4 in ground arith
  | inr e ↦
      let (mapped, is_v4) : (text_eq (take 12 ip) v4_prefix ≡ true) × (drop 12 ip ≡ v4) =
        unfold to4 in ground arith in
      let n : length ip ≡ 16 = unfold to4 in ground arith in
      let whole : ip ≡ v4_prefix ++ v4 =
        sym (take-append-drop 12 ip)
        ∙ ap₂ (λ s t. s ++ t) ((text_eq_iff (take 12 ip) v4_prefix).0 mapped) is_v4 in
      (omega (arith, length-drop 12 ip, ap (length {A = ℕ}) is_v4), inr whole)
]

-- An address is a loopback address by `IsLoopback` only if it is one of the known ones.
pub is_loopback-IsLoopbackIp : (ip : Ip) → is_loopback ip ≡ true → IsLoopbackIp ip
is_loopback-IsLoopbackIp ip h = elim (Option-cases (to4 ip)) [
  | inl e ↦
      let k : text_eq ip (zeros 15 ++ 1 ∷ []) ≡ true = unfold is_loopback in ground arith in
      subst IsLoopbackIp (sym ((text_eq_iff ip (zeros 15 ++ 1 ∷ [])).0 k)) loopback_6
  | inr (v4, e) ↦
      let k : (first_byte v4 == 127) ≡ true = unfold is_loopback in ground arith in
      let (n, cases) = to4-cases ip v4 e in
      elim cases [
        | inl q ↦ subst IsLoopbackIp (sym q) (loopback_v4 v4 n k).0
        | inr q ↦ subst IsLoopbackIp (sym q) (loopback_v4 v4 n k).1
      ]
]
