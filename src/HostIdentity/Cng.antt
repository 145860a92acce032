-- ===== src/HostIdentity/Cng.antt =====
-- identity_windows.go: `openCNGIdentity`, `exportPublicDER` and `SignDigest`, with the calls of
-- ncrypt.dll as answers. identity.go: `rawECDSAToASN1`.
pub mod Handles
pub mod Export
mod Tests
use zorin_host_agent.Prelude.{
  ℕ, ◌+◌, ◌-◌, ◌*◌, ◌%◌, ◌^◌, Bool, not, ◌&&◌, ◌||◌, Option, none, some, List, [], ◌∷◌, ◌++◌, ltb,
  leb, ◌==◌, if◌then◌else◌, length, take, drop,
}
use zorin_host_agent.Text.{Text}

-- A call of NCrypt that gives or takes a handle, as it changes what is open.
pub data HandleCall : Type 0 where
  opened : ℕ → HandleCall
  freed : ℕ → HandleCall

-- What ends exportPublicDER.
pub data ExportEnd : Type 0 where
  exported_der : Text → ExportEnd
  export_failed : ExportEnd
  export_panics : ExportEnd

-- What the calls answer: whether the names are valid UTF-16, the handles of the provider and of the
-- key, where they are opened or made, whether the key is finalized, and how its export ends.
pub record CngAnswers : Type 0 where
  pub names_valid : Bool
  pub provider : Option ℕ
  pub opened_key : Option ℕ
  pub created_key : Option ℕ
  pub finalized : Bool
  pub exported : ExportEnd

-- cngIdentity: the handles and the public key.
pub record CngIdentity : Type 0 where
  pub provider : ℕ
  pub key : ℕ
  pub der : Text

-- What ends openCNGIdentity: the identity, an error, or the panic of exportPublicDER, which passes
-- through it, with the handle of the key at hand.
pub data CngEnd : Type 0 where
  cng_identity : CngIdentity → CngEnd
  cng_error : CngEnd
  cng_panics : ℕ → CngEnd

-- The deferred cleanup, which frees the provider unless its handle is 0.
unfoldable pub free_provider : ℕ → List HandleCall
free_provider hp = if hp == 0 then [] else freed hp ∷ []

-- From the key's handle on. The cleanup also runs where there is a panic.
unfoldable pub export_opened : CngAnswers → ℕ → ℕ → List HandleCall → List HandleCall × CngEnd
export_opened cng hp hk calls = elim cng.exported [
  | exported_der der ↦ (calls, cng_identity (record { provider = hp; key = hk; der = der }))
  | export_failed ↦ (calls ++ freed hk ∷ free_provider hp, cng_error)
  | export_panics ↦ (calls ++ free_provider hp, cng_panics hk)
]

-- The key that is made where none was opened.
unfoldable pub create_key : CngAnswers → ℕ → List HandleCall → List HandleCall × CngEnd
create_key cng hp calls = elim cng.created_key [
  | none ↦ (calls ++ free_provider hp, cng_error)
  | some hk ↦
      if cng.finalized
      then export_opened cng hp hk (calls ++ opened hk ∷ [])
      else (calls ++ opened hk ∷ freed hk ∷ free_provider hp, cng_error)
]

-- openCNGIdentity: the calls in their order, and how it ends.
unfoldable pub open_cng_identity : CngAnswers → Bool → List HandleCall × CngEnd
open_cng_identity cng create = if not cng.names_valid then ([], cng_error) else elim cng.provider [
  | none ↦ ([], cng_error)
  | some hp ↦ elim cng.opened_key [
    | some hk ↦ export_opened cng hp hk (opened hp ∷ opened hk ∷ [])
    | none ↦
        if create
        then create_key cng hp (opened hp ∷ [])
        else (opened hp ∷ free_provider hp, cng_error)
  ]
]

-- binary.LittleEndian.Uint32 on the bytes from the fourth on
unfoldable pub coordinate_size : Text → ℕ
coordinate_size b = elim (drop 4 b) [
  | c ∷ d ∷ e ∷ f ∷ rest ↦ c + d * 256 + e * 65536 + f * 16777216
  | _ ↦ 0
]

abbrev pub word : ℕ
word = 2 ^ 32

-- b[i:j], where it does not panic
unfoldable pub slice : Text → ℕ → ℕ → Option Text
slice b i j = if leb i j && leb j (length b) then some (take (j - i) (drop i b)) else none

-- big.Int.SetBytes
unfoldable pub big_endian : ℕ → Text → ℕ
big_endian acc [] = acc
big_endian acc (c ∷ s) = big_endian (acc * 256 + c) s

-- The part behind the two sizes: `on_curve` is the curve's IsOnCurve, and `marshal`
-- x509.MarshalPKIXPublicKey. The bounds of the slices are sums of 32 bits.
unfoldable pub export_point : (ℕ → ℕ → Bool) → (ℕ → ℕ → Option Text) → Text → ℕ → ExportEnd
export_point on_curve marshal b cb = elim (slice b 8 ((8 + cb) % word)) [
  | none ↦ export_panics
  | some xs ↦ elim (slice b ((8 + cb) % word) ((8 + 2 * cb) % word)) [
    | none ↦ export_panics
    | some ys ↦
        if not (on_curve (big_endian 0 xs) (big_endian 0 ys))
        then export_failed
        else elim (marshal (big_endian 0 xs) (big_endian 0 ys)) [
          | none ↦ export_failed
          | some der ↦ exported_der der
        ]
  ]
]

-- exportPublicDER: `size` is what the first NCryptExportKey answers, and `fill` the blob of the
-- second, of that size.
unfoldable pub export_public_der :
    (ℕ → ℕ → Bool) → (ℕ → ℕ → Option Text) → Option ℕ → (ℕ → Option Text) → ExportEnd
export_public_der on_curve marshal none fill = export_failed
export_public_der on_curve marshal (some n) fill =
    if ltb n 8 || ltb 4096 n then export_failed else elim (fill n) [
      | none ↦ export_failed
      | some b ↦
          let cb = coordinate_size b in
          if cb == 0 || ltb (length b) ((8 + 2 * cb) % word)
          then export_failed
          else export_point on_curve marshal b cb
    ]
