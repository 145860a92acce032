-- ===== src/Net/RoundTrip.antt =====
-- Addresses and host:port pairs that the agent writes are read back.
use zorin_host_agent.Prelude.{
  ℕ, ◌<◌, ◌≡◌, refl, sym, ap, ap₂, subst, ◌∙◌, ◌⊎◌, inl, inr, false, ◌||◌, some, [], ◌∷◌, ◌++◌,
  arith, ltb, ◌==◌, Bool-cases, All,
}
use zorin_host_agent.Text.{Text, contains_byte, text, join, has_prefix, text_eq}
use zorin_host_agent.Text.Decimal.{format_nat, IsDigit, format_nat-IsDigit, contains_byte-digits}
use zorin_host_agent.Text.Decimal.Small.{format_nat_1, format_nat_2, format_nat_3}
use zorin_host_agent.Net.{
  is_bracket, trim_right_brackets, trim_left_brackets, ip4_fields, octet, parse_ip4,
  split_host_port, join_host_port, trim_brackets,
}
use zorin_host_agent.Text.Laws.{cut-append, contains_byte-append, append_byte}
use zorin_host_agent.Net.Address.{address_kind, v4_prefix, parse_ip, format_ip4, to4, is_loopback}

octet-format_nat : (n : ℕ) → n < 256 → octet (format_nat n) ≡ some n
octet-format_nat n h = elim (Bool-cases (ltb n 10)) [
  | inl e ↦
      subst (λ s. octet s ≡ some n) (sym (format_nat_1 n (ground arith)))
        (unfold octet in ground arith)
  | inr e ↦ elim (Bool-cases (ltb n 100)) [
    | inl k ↦
        subst (λ s. octet s ≡ some n) (sym (format_nat_2 n (ground arith) (ground arith)))
          (unfold octet in ground arith)
    | inr k ↦
        subst (λ s. octet s ≡ some n) (sym (format_nat_3 n (ground arith) (ground arith)))
          (unfold octet in ground arith)
  ]
]

-- A written number has no dot.
plain : (n : ℕ) → contains_byte b'.' (format_nat n) ≡ false
plain n = contains_byte-digits b'.' (format_nat n) (format_nat-IsDigit n) (inr (omega arith))

dotted : ℕ → ℕ → ℕ → ℕ → Text
dotted a b c d =
    format_nat a ++ b'.' ∷ (format_nat b ++ b'.' ∷ (format_nat c ++ b'.' ∷ format_nat d))

dot : (s t : Text) → (s ++ text ".") ++ t ≡ s ++ b'.' ∷ t
unfolding text
dot s t = append_byte b'.' s t

format_ip4-dotted : (a b c d : ℕ) → format_ip4 (a ∷ b ∷ c ∷ d ∷ []) ≡ dotted a b c d
unfolding format_ip4 join dotted
format_ip4-dotted a b c d = ground (
  arith,
  dot (format_nat a) (format_nat b ++ b'.' ∷ (format_nat c ++ b'.' ∷ format_nat d)),
  dot (format_nat b) (format_nat c ++ b'.' ∷ format_nat d),
  dot (format_nat c) (format_nat d),
)

parse_ip4-dotted :
    (a b c d : ℕ)
    → a < 256
    → b < 256
    → c < 256
    → d < 256
    → parse_ip4 (dotted a b c d) ≡ some (a ∷ b ∷ c ∷ d ∷ [])
unfolding parse_ip4 ip4_fields dotted
parse_ip4-dotted a b c d ha hb hc hd =
    let x =
      cut-append b'.' (format_nat a) (format_nat b ++ b'.' ∷ (format_nat c ++ b'.' ∷ format_nat d))
        (plain a) in
    let y = cut-append b'.' (format_nat b) (format_nat c ++ b'.' ∷ format_nat d) (plain b) in
    let z = cut-append b'.' (format_nat c) (format_nat d) (plain c) in
    ground (
      arith,
      x,
      y,
      z,
      octet-format_nat a ha,
      octet-format_nat b hb,
      octet-format_nat c hc,
      octet-format_nat d hd,
    )

-- The text of an IPv4 address is parsed to the address.
pub parse_ip4-format_ip4 :
    (a b c d : ℕ)
    → a < 256
    → b < 256
    → c < 256
    → d < 256
    → parse_ip4 (format_ip4 (a ∷ b ∷ c ∷ d ∷ [])) ≡ some (a ∷ b ∷ c ∷ d ∷ [])
parse_ip4-format_ip4 a b c d ha hb hc hd =
    ap parse_ip4 (format_ip4-dotted a b c d) ∙ parse_ip4-dotted a b c d ha hb hc hd

address_kind-append : (s t : Text) → All IsDigit s → address_kind (s ++ b'.' ∷ t) ≡ some b'.'
unfolding address_kind
address_kind-append [] t h = refl
address_kind-append (c ∷ s) t h = ground (arith, address_kind-append s t h.1)

address_kind-dotted : (a b c d : ℕ) → address_kind (dotted a b c d) ≡ some b'.'
unfolding dotted
address_kind-dotted a b c d = address_kind-append (format_nat a) _ (format_nat-IsDigit a)

-- So is it by `ParseIP`, in its form of 16 bytes.
pub parse_ip-format_ip4 :
    (a b c d : ℕ)
    → a < 256
    → b < 256
    → c < 256
    → d < 256
    → parse_ip (format_ip4 (a ∷ b ∷ c ∷ d ∷ [])) ≡ some (v4_prefix ++ a ∷ b ∷ c ∷ d ∷ [])
unfolding parse_ip
parse_ip-format_ip4 a b c d ha hb hc hd =
    let k = ap address_kind (format_ip4-dotted a b c d) ∙ address_kind-dotted a b c d in
    ground (arith, k, parse_ip4-format_ip4 a b c d ha hb hc hd)

no_bracket :
    (host port : Text)
    → contains_byte b'[' host ≡ false
    → has_prefix (host ++ b':' ∷ port) (b'[' ∷ []) ≡ false
unfolding has_prefix contains_byte
no_bracket [] port h = refl
no_bracket (c ∷ host) port h = ground arith

split_bracketed :
    (host port : Text)
    → contains_byte b'[' host ≡ false
    → contains_byte b']' host ≡ false
    → contains_byte b'[' port ≡ false
    → contains_byte b']' port ≡ false
    → contains_byte b':' port ≡ false
    → split_host_port (b'[' ∷ (host ++ b']' ∷ b':' ∷ port)) ≡ some (host, port)
split_bracketed host port h1 h2 p1 p2 p3 =
    let x = cut-append b']' host (b':' ∷ port) h2 in
    let z : contains_byte b'[' (host ++ b']' ∷ b':' ∷ port) ≡ false =
      contains_byte-append b'[' host (b']' ∷ b':' ∷ port)
      ∙ ap₂ (λ p q. p || q) h1 (unfold contains_byte in p1) in
    let w : contains_byte b']' (b':' ∷ port) ≡ false = unfold contains_byte in p2 in
    unfold split_host_port text has_prefix in rw (x, p3, z, w) refl

split_plain :
    (host port : Text)
    → contains_byte b':' host ≡ false
    → contains_byte b'[' host ≡ false
    → contains_byte b']' host ≡ false
    → contains_byte b'[' port ≡ false
    → contains_byte b']' port ≡ false
    → contains_byte b':' port ≡ false
    → split_host_port (host ++ b':' ∷ port) ≡ some (host, port)
split_plain host port h0 h1 h2 p1 p2 p3 =
    let x = cut-append b':' host port h0 in
    let y : contains_byte b'[' (host ++ b':' ∷ port) ≡ false =
      contains_byte-append b'[' host (b':' ∷ port)
      ∙ ap₂ (λ p q. p || q) h1 (unfold contains_byte in p1) in
    let z : contains_byte b']' (host ++ b':' ∷ port) ≡ false =
      contains_byte-append b']' host (b':' ∷ port)
      ∙ ap₂ (λ p q. p || q) h2 (unfold contains_byte in p2) in
    unfold split_host_port text in rw (no_bracket host port h1, x, p3, y, z) refl

-- A pair of a host and a port that hold no brackets, and the port no colon, is split into the two.
pub split_host_port-join_host_port :
    (host port : Text)
    → contains_byte b'[' host ≡ false
    → contains_byte b']' host ≡ false
    → contains_byte b'[' port ≡ false
    → contains_byte b']' port ≡ false
    → contains_byte b':' port ≡ false
    → split_host_port (join_host_port host port) ≡ some (host, port)
split_host_port-join_host_port host port h1 h2 p1 p2 p3 =
    elim (Bool-cases (contains_byte b':' host)) [
      | inl e ↦ unfold join_host_port text in rw e (split_bracketed host port h1 h2 p1 p2 p3)
      | inr e ↦ unfold join_host_port text in rw e (split_plain host port e h1 h2 p1 p2 p3)
    ]

-- The text of an IPv4 address holds digits and dots alone.
pub contains_byte-format_ip4 :
    (x a b c d : ℕ)
    → (57 < x) ⊎ (x ≡ 47)
    → contains_byte x (format_ip4 (a ∷ b ∷ c ∷ d ∷ [])) ≡ false
contains_byte-format_ip4 x a b c d h =
    let digits : (n : ℕ) → contains_byte x (format_nat n) ≡ false = λ n.
      contains_byte-digits x (format_nat n) (format_nat-IsDigit n)
        (elim h [ inl above ↦ inl above | inr slash ↦ inr (omega arith) ]) in
    let dotted_free : (s t : Text)
        → contains_byte x s ≡ false
        → contains_byte x t ≡ false
        → contains_byte x (s ++ b'.' ∷ t) ≡ false =
      λ s t hs ht. contains_byte-append x s (b'.' ∷ t) ∙ unfold contains_byte in ground arith in
    ap (contains_byte x) (format_ip4-dotted a b c d)
    ∙ unfold dotted in
      dotted_free _ _ (digits a)
        (dotted_free _ _ (digits b) (dotted_free _ _ (digits c) (digits d)))

trim_right_brackets_plain :
    (s : Text)
    → contains_byte b'[' s ≡ false
    → contains_byte b']' s ≡ false
    → trim_right_brackets s ≡ s
unfolding trim_right_brackets is_bracket contains_byte
trim_right_brackets_plain [] h k = refl
trim_right_brackets_plain (c ∷ s) h k = ground (arith, trim_right_brackets_plain s)

trim_left_brackets_plain :
    (s : Text)
    → contains_byte b'[' s ≡ false
    → contains_byte b']' s ≡ false
    → trim_left_brackets s ≡ s
unfolding trim_left_brackets is_bracket contains_byte
trim_left_brackets_plain [] h k = refl
trim_left_brackets_plain (c ∷ s) h k = ground arith

-- A text without brackets is not trimmed.
pub trim_brackets_plain :
    (s : Text) → contains_byte b'[' s ≡ false → contains_byte b']' s ≡ false → trim_brackets s ≡ s
unfolding trim_brackets
trim_brackets_plain s h k =
    ap trim_left_brackets (trim_right_brackets_plain s h k) ∙ trim_left_brackets_plain s h k

-- The IPv4 addresses of 127.0.0.0/8 are the ones that are loopback addresses.
pub is_loopback-v4 : (a b c d : ℕ) → is_loopback (v4_prefix ++ a ∷ b ∷ c ∷ d ∷ []) ≡ (a == 127)
unfolding is_loopback to4 text_eq
is_loopback-v4 a b c d = refl
