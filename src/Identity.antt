-- ===== src/Identity.antt =====
-- identity.go: `fingerprint`. main.go: `pairCodeFromFingerprint` and `sanitize`.
pub mod Laws
use zorin_host_agent.Prelude.{
  ℕ, zero, suc, ◌+◌, ◌*◌, ◌%◌, Bool, ◌&&◌, ◌||◌, Option, none, some, List, [], ◌∷◌, ◌++◌, map, ltb,
  leb, ◌==◌, if◌then◌else◌, length, take, drop, get_elem?,
}
use zorin_host_agent.Text.{Text, text, to_upper, join}
use zorin_host_agent.Text.Hex.{hex_encode, hex_decode}
use zorin_host_agent.Text.Decimal.{format_nat}

-- The loop over the text in steps of four. The fuel is the length of the text.
groups_of_4 : ℕ → Text → List Text
groups_of_4 zero s = []
groups_of_4 (suc f) [] = []
groups_of_4 (suc f) (a ∷ s) = take 4 (a ∷ s) ∷ groups_of_4 f (drop 4 (a ∷ s))

-- The SHA-256 function is a parameter.
unfoldable pub fingerprint : (Text → Text) → Text → Text
unfolding groups_of_4
fingerprint sha256 der =
    let s = map to_upper (hex_encode (take 16 (sha256 der))) in
    join (text ":") (groups_of_4 (length s) s)

unfoldable pub is_hex_byte : ℕ → Bool
is_hex_byte c = leb b'0' c && leb c b'9' || leb b'A' c && leb c b'F' || leb b'a' c && leb c b'f'

unfoldable pub hex_only : Text → Text
hex_only [] = []
hex_only (c ∷ s) = let rest = hex_only s in if is_hex_byte c then c ∷ rest else rest

-- The words, by the four low bits of a byte.
unfoldable pub pair_words : List Text
pair_words =
    text "EMBER"
    ∷ text "FALCON"
    ∷ text "NOVA"
    ∷ text "WOLF"
    ∷ text "ORBIT"
    ∷ text "ONYX"
    ∷ text "PIXEL"
    ∷ text "RAVEN"
    ∷ text "SOLAR"
    ∷ text "TITAN"
    ∷ text "VECTOR"
    ∷ text "COMET"
    ∷ text "PULSE"
    ∷ text "ATLAS"
    ∷ text "NEXUS"
    ∷ text "VAULT"
    ∷ []

unfoldable pub pair_word : ℕ → Text
pair_word b = elim (get_elem? pair_words (b % 16)) [ none ↦ [] | some w ↦ w ]

-- %02d
two_digits : ℕ → Text
two_digits n = if ltb n 10 then b'0' ∷ format_nat n else format_nat n

code_of : Option Text → Text
code_of (some (a ∷ b ∷ c ∷ d ∷ rest)) =
    pair_word a ++ (text "-" ++ (pair_word b ++ (text " " ++ two_digits ((c * 256 + d) % 100))))
code_of _ = text "UNAVAILABLE"

unfoldable pub pair_code : Text → Text
unfolding hex_only is_hex_byte code_of two_digits
pair_code fp =
    let digits = hex_only fp in
    if ltb (length digits) 8 then text "UNAVAILABLE" else code_of (hex_decode (take 8 digits))

-- Without line feeds and carriage returns.
unfoldable pub sanitize : Text → Text
sanitize [] = []
sanitize (c ∷ s) = let rest = sanitize s in if c == 10 || c == 13 then rest else c ∷ rest
