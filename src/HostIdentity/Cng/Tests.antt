-- ===== src/HostIdentity/Cng/Tests.antt =====
-- The CNG identity on concrete answers.
use zorin_host_agent.Prelude.{◌+◌, ◌*◌, ◌%◌, ◌≤◌, ◌≡◌, refl, ◌↔◌, true, none, some, [], ◌∷◌, arith}
use zorin_host_agent.Text.{Text}
use zorin_host_agent.HostIdentity.Cng.{
  opened, freed, CngAnswers, free_provider, export_opened, create_key, open_cng_identity,
  export_failed, export_panics, coordinate_size, word, export_public_der,
}
use zorin_host_agent.HostIdentity.Cng.Handles.{run_calls, held_by, open_cng_identity-frees}
use zorin_host_agent.HostIdentity.Cng.Export.{export_public_der-panics_iff}

-- The TPM makes the key, whose export fails.
abbrev answers : CngAnswers
answers = record {
  names_valid = true;
  provider = some 7;
  opened_key = none;
  created_key = some 9;
  finalized = true;
  exported = export_failed;
}

freed_in_order : (open_cng_identity answers true).0 ≡ opened 7 ∷ opened 9 ∷ freed 9 ∷ freed 7 ∷ []
unfolding open_cng_identity create_key export_opened free_provider
freed_in_order = refl

open_cng_identity-frees_example :
    run_calls [] (open_cng_identity answers true).0
    ≡ some (held_by (open_cng_identity answers true).1)
open_cng_identity-frees_example = open_cng_identity-frees answers true (λ e. ground arith)

-- A blob of eight bytes whose header names 2 ^ 31 bytes for a coordinate.
abbrev blob : Text
blob = 69 ∷ 67 ∷ 83 ∷ 49 ∷ 0 ∷ 0 ∷ 0 ∷ 128 ∷ []

export_public_der-panics_iff_example :
    (export_public_der (λ x y. true) (λ x y. some []) (some 8) (λ n. some blob) ≡ export_panics)
    ↔ ((word ≤ 8 + 2 * coordinate_size blob) × ((8 + 2 * coordinate_size blob) % word ≤ 8))
export_public_der-panics_iff_example =
    export_public_der-panics_iff (λ x y. true) (λ x y. some []) 8 (λ n. some blob) blob
      (omega arith) (omega arith) refl refl (ground arith)

overflows :
    export_public_der (λ x y. true) (λ x y. some []) (some 8) (λ n. some blob) ≡ export_panics
overflows =
    (export_public_der-panics_iff (λ x y. true) (λ x y. some []) 8 (λ n. some blob) blob
        (omega arith) (omega arith) refl refl (ground arith)).1
      (unfold coordinate_size in (omega arith, omega arith))
