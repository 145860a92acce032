-- ===== src/HostIdentity/Legacy.antt =====
-- The PEM file of the host's key.
use zorin_host_agent.Prelude.{
  ◌≡◌, sym, ap, ◌∙◌, inl, inr, true, false, Option, none, some, ◌++◌, arith, Option-cases,
}
use zorin_host_agent.Text.{Text, text, text_eq}
use zorin_host_agent.Files.{Files, read_file, write_file, read-write, join_path}
use zorin_host_agent.HostIdentity.{
  HostIdentity, KeyLibrary, legacy_of, read_legacy, load_or_create_legacy, create_legacy,
  legacy_path, meta_path,
}
use zorin_host_agent.Text.Laws.{text_eq-append}

-- What a key library does with what it has written.
pub record KeyLaws (keys : KeyLibrary) : Type 0 where
  pub decode-encode : (block : Text) → keys.pem_decode (keys.pem_encode block) ≡ some block
  pub parse-marshal :
      (key private : Text)
      → keys.marshal_private key ≡ some private
      → keys.parse_private private ≡ some key

pub load_legacy_there :
    (keys : KeyLibrary) (path bytes : Text) (generated : Option Text) (fs : Files)
    → read_file path fs ≡ some bytes
    → load_or_create_legacy keys path generated fs ≡ (fs, read_legacy keys bytes)
unfolding load_or_create_legacy
load_legacy_there keys path bytes generated fs h = ground arith

module _ (keys : KeyLibrary) (laws : KeyLaws keys) where
  read_legacy-created :
      (key private : Text) (id : HostIdentity)
      → keys.marshal_private key ≡ some private
      → legacy_of keys key ≡ some id
      → read_legacy keys (keys.pem_encode private) ≡ some id
  unfolding read_legacy
  read_legacy-created key private id h k =
      ground (arith, laws.decode-encode private, laws.parse-marshal key private h)

  -- What the file holds where a new identity was made.
  pub create_legacy-written :
      (path : Text) (generated : Option Text) (fs : Files) (id : HostIdentity)
      → (create_legacy keys path generated fs).1 ≡ some id
      → (bytes : Text) × (read_file path (create_legacy keys path generated fs).0 ≡ some bytes)
        × (read_legacy keys bytes ≡ some id)
  unfolding create_legacy
  create_legacy-written path none fs id h = absurd (ground arith)
  create_legacy-written path (some key) fs id h = elim (Option-cases (keys.marshal_private key)) [
    | inl e ↦ absurd (ground arith)
    | inr (private, e) ↦
        let ok : (write_file path (keys.pem_encode private) fs).1 ≡ true = ground arith in
        let made : legacy_of keys key ≡ some id = ground arith in
        let files : (create_legacy keys path (some key) fs).0
            ≡ (write_file path (keys.pem_encode private) fs).0 =
          ground arith in
        (
          keys.pem_encode private,
          ap (read_file path) files ∙ read-write path (keys.pem_encode private) fs ok,
          read_legacy-created key private id e made,
        )
  ]

  -- A key, new or not, is read back at every later start, which leaves the files alone.
  pub load_or_create_legacy_stable :
      (path : Text) (generated later : Option Text) (fs : Files) (id : HostIdentity)
      → (load_or_create_legacy keys path generated fs).1 ≡ some id
      → load_or_create_legacy keys path later (load_or_create_legacy keys path generated fs).0
        ≡ ((load_or_create_legacy keys path generated fs).0, some id)
  load_or_create_legacy_stable path generated later fs id h =
      elim (Option-cases (read_file path fs)) [
        | inr (bytes, e) ↦
            let there = load_legacy_there keys path bytes generated fs e in
            let again = load_legacy_there keys path bytes later fs e in ground (arith, there, again)
        | inl e ↦
            let fresh : load_or_create_legacy keys path generated fs
                ≡ create_legacy keys path generated fs =
              unfold load_or_create_legacy in ground arith in
            let (bytes, r, same) =
              create_legacy-written path generated fs id (ap (λ x. x.1) (sym fresh) ∙ h) in
            let again =
              load_legacy_there keys path bytes later (create_legacy keys path generated fs).0 r in
            rw fresh (again ∙ ap (λ x. ((create_legacy keys path generated fs).0, x)) same)
      ]

-- Writing the key leaves identity.json alone.
pub paths_apart : (dir : Text) → text_eq (legacy_path dir) (meta_path dir) ≡ false
unfolding legacy_path meta_path join_path text text_eq
paths_apart dir = text_eq-append (dir ++ text "/") (text "host-identity.pem") (text "identity.json")
