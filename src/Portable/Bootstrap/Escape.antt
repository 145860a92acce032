-- ===== src/Portable/Bootstrap/Escape.antt =====
-- html.EscapeString: what the page shows holds no markup of its own.
use zorin_host_agent.Prelude.{ℕ, ◌≡◌, refl, Bool, false, ◌||◌, [], ◌∷◌, arith, ◌==◌, any}
use zorin_host_agent.Text.{Text, text}
use zorin_host_agent.Portable.Bootstrap.{html_escape}

-- The bytes that start a tag or end an attribute: < > " and '.
abbrev pub is_markup : ℕ → Bool
is_markup c = c == b'<' || c == b'>' || c == b'"' || c == 39

-- No byte of the escaped text is one of them, so that it ends neither the text nor the attribute in
-- which it stands.
pub html_escape-inert : (s : Text) → any is_markup (html_escape s) ≡ false
unfolding html_escape text
html_escape-inert [] = refl
html_escape-inert (c ∷ s) = ground (arith, html_escape-inert s)
