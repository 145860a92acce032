-- ===== src/Startup/Token.antt =====
-- The control token is long enough, and the same at every start.
use zorin_host_agent.Prelude.{
  ◌≤◌, ◌≡◌, sym, ap, ◌∙◌, inl, inr, true, none, some, [], ◌∷◌, ◌++◌, arith, Option-cases, length,
  All,
}
use zorin_host_agent.Text.{Text}
use zorin_host_agent.Files.{Files, write_file, read-write}
use zorin_host_agent.Frame.{newline}
use zorin_host_agent.Startup.{token_length, ensure_control_token, token_path, stored_token}
use zorin_host_agent.Text.Laws.{IsInk, trim_space-line}

stored_token-long :
    (path token : Text) (fs : Files)
    → stored_token path fs ≡ some token
    → token_length ≤ length token
unfolding stored_token
stored_token-long path token fs h = ground arith

stored_token-write :
    (path fresh : Text) (fs : Files)
    → All IsInk fresh
    → token_length ≤ length fresh
    → (write_file path (fresh ++ newline ∷ []) fs).1 ≡ true
    → stored_token path (write_file path (fresh ++ newline ∷ []) fs).0 ≡ some fresh
unfolding stored_token
stored_token-write path fresh fs h long ok =
    ground (arith, read-write path (fresh ++ newline ∷ []) fs ok, trim_space-line fresh h, long)

ensure_control_token-found :
    (dir fresh token : Text) (fs : Files)
    → stored_token (token_path dir) fs ≡ some token
    → ensure_control_token dir fresh fs ≡ (fs, some token)
unfolding ensure_control_token
ensure_control_token-found dir fresh token fs h = ground arith

ensure_control_token-written :
    (dir fresh token : Text) (fs fs' : Files)
    → stored_token (token_path dir) fs ≡ none
    → ensure_control_token dir fresh fs ≡ (fs', some token)
    → (fresh ≡ token)
      × ((write_file (token_path dir) (fresh ++ newline ∷ []) fs).1 ≡ true)
      × ((write_file (token_path dir) (fresh ++ newline ∷ []) fs).0 ≡ fs')
unfolding ensure_control_token
ensure_control_token-written dir fresh token fs fs' h e = ground arith

ensure_control_token-stores :
    (dir fresh token : Text) (fs fs' : Files)
    → All IsInk fresh
    → token_length ≤ length fresh
    → ensure_control_token dir fresh fs ≡ (fs', some token)
    → stored_token (token_path dir) fs' ≡ some token
ensure_control_token-stores dir fresh token fs fs' h long e =
    elim (Option-cases (stored_token (token_path dir) fs)) [
      | inl absent ↦
          let (same, ok, after) = ensure_control_token-written dir fresh token fs fs' absent e in
          ap (stored_token (token_path dir)) (sym after)
          ∙ stored_token-write (token_path dir) fresh fs h long ok
          ∙ ap some same
      | inr (kept, found) ↦
          let both : (fs, some kept) ≡ (fs', some token) =
            sym (ensure_control_token-found dir fresh kept fs found) ∙ e in
          ap (stored_token (token_path dir)) (sym (ap (λ p. p.0) both)) ∙ found ∙ ap (λ p. p.1) both
    ]

-- Where a call for a random text of 32 bytes or more, without spaces, gives a token, the token has 32
-- bytes at least, and each further call gives the same token and leaves the files as they are,
-- whatever random text it has drawn.
pub ensure_control_token_stable :
    (dir fresh other token : Text) (fs fs' : Files)
    → All IsInk fresh
    → token_length ≤ length fresh
    → ensure_control_token dir fresh fs ≡ (fs', some token)
    → (token_length ≤ length token) × (ensure_control_token dir other fs' ≡ (fs', some token))
ensure_control_token_stable dir fresh other token fs fs' h long e =
    let stored = ensure_control_token-stores dir fresh token fs fs' h long e in
    (
      stored_token-long (token_path dir) token fs' stored,
      ensure_control_token-found dir other token fs' stored,
    )
