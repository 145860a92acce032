-- ===== src/EventLog/Rotation.antt =====
-- The log keeps whole lines, the newest one among them, and its bound.
use mathlib.Core.List.{append_assoc}
use zorin_host_agent.Prelude.{
  ℕ, zero, suc, ◌+◌, ◌-◌, ◌/◌, ◌≤◌, ◌<◌, ◌≡◌, refl, sym, ap, ◌∙◌, inl, inr, true, false, some, List,
  [], ◌∷◌, ◌++◌, arith, ltb, leb, leb→le, Bool-cases, length, drop, All, length-append,
}
use zorin_host_agent.Text.{Text, contains_byte, cut}
use zorin_host_agent.Frame.{newline}
use zorin_host_agent.EventLog.{
  log_limit, rotated, log_of, append_file, trim_log, events_path, record_event,
}
use zorin_host_agent.Files.{Files, read_file, write_file}
use zorin_host_agent.Dict.Laws.{lookup-insert_self}
use zorin_host_agent.Text.Laws.{cut-append}

-- The bytes of the lines of a log.
abbrev pub bytes_of : List Text → Text
bytes_of [] = []
bytes_of (line ∷ lines) = line ++ newline ∷ bytes_of lines

abbrev pub IsLine : Text → Type 0
IsLine line = contains_byte newline line ≡ false

drop-plain : (c k : ℕ) (s : Text) → contains_byte c s ≡ false → contains_byte c (drop k s) ≡ false
unfolding contains_byte
drop-plain c zero s h = h
drop-plain c (suc k) [] h = h
drop-plain c (suc k) (a ∷ s) h = drop-plain c k s (ground arith)

drop-append : (k : ℕ) (s t : Text) → k ≤ length s → drop k (s ++ t) ≡ drop k s ++ t
drop-append zero s t h = refl
drop-append (suc k) [] t h = absurd (omega arith)
drop-append (suc k) (a ∷ s) t h = drop-append k s t (omega arith)

drop-behind :
    (c k : ℕ) (s t : Text) → length s < k → drop k (s ++ c ∷ t) ≡ drop (k - suc (length s)) t
drop-behind c zero s t h = absurd (omega arith)
drop-behind c (suc k) [] t h = ap (λ n. drop n t) (omega arith)
drop-behind c (suc k) (a ∷ s) t h =
    drop-behind c k s t (omega arith) ∙ ap (λ n. drop n t) (omega arith)

-- From any byte of the lines on, what stands behind the next line feed are whole lines.
cut_at_line :
    (k : ℕ) (lines : List Text) (tail : Text)
    → All IsLine lines
    → k < length (bytes_of lines)
    → (pre post : List Text) × (skipped : Text) × (lines ≡ pre ++ post)
      × (cut newline (drop k (bytes_of lines ++ tail)) ≡ some (skipped, bytes_of post ++ tail))
      × (k + length (bytes_of post) < length (bytes_of lines))
cut_at_line k [] tail h lt = absurd (omega arith)
cut_at_line k (line ∷ lines) tail h lt = elim (Bool-cases (leb k (length line))) [
  | inl inside ↦ (
    line ∷ [],
    lines,
    drop k line,
    refl,
    ap (cut newline) (
          ap (drop k) (append_assoc line (newline ∷ bytes_of lines) tail)
          ∙ drop-append k line (newline ∷ (bytes_of lines ++ tail)) (leb→le k (length line) inside))
        ∙ cut-append newline (drop k line) (bytes_of lines ++ tail) (drop-plain newline k line h.0),
    omega (arith, length-append line (newline ∷ bytes_of lines), leb→le k (length line) inside),
  )
  | inr past ↦
      let behind : length line < k = ground arith in
      let (pre, post, skipped, parts, found, short) =
        cut_at_line (k - suc (length line)) lines tail h.1
          (omega (arith, length-append line (newline ∷ bytes_of lines), behind)) in
      (
        line ∷ pre,
        post,
        skipped,
        ap (λ l. line ∷ l) parts,
        ap (cut newline) (
              ap (drop k) (append_assoc line (newline ∷ bytes_of lines) tail)
              ∙ drop-behind newline k line (bytes_of lines ++ tail) behind)
            ∙ found,
        omega (arith, length-append line (newline ∷ bytes_of lines), behind, short),
      )
]

-- The log after an event `json`, over a log of these lines.
pub record IsKept (lines : List Text) (json : Text) (bytes : Text) : Type 0 where
  pub gone : List Text
  pub kept : List Text
  pub parts : lines ≡ gone ++ kept
  pub bytes_are : bytes ≡ bytes_of (kept ++ json ∷ [])

bytes_of-append :
    (lines : List Text) (json : Text)
    → bytes_of (lines ++ json ∷ []) ≡ bytes_of lines ++ (json ++ newline ∷ [])
bytes_of-append [] json = refl
bytes_of-append (line ∷ lines) json =
    ap (λ t. line ++ newline ∷ t) (bytes_of-append lines json)
    ∙ sym (append_assoc line (newline ∷ bytes_of lines) (json ++ newline ∷ []))

length-with_event :
    (old json : Text) → length (old ++ (json ++ newline ∷ [])) ≡ length old + suc (length json)
length-with_event old json =
    length-append old (json ++ newline ∷ []) ∙ omega (arith, length-append json (newline ∷ []))

rotated-found :
    (bytes skipped rest : Text)
    → cut newline (drop (length bytes / 2) bytes) ≡ some (skipped, rest)
    → rotated bytes ≡ rest
unfolding rotated
rotated-found bytes skipped rest h = ground arith

-- Of a log that is too long, with the event behind it, whole lines are kept, the event's among them,
-- and more than half of the bytes go.
rotated-IsKept :
    (lines : List Text) (json bytes : Text)
    → All IsLine lines
    → bytes ≡ bytes_of lines ++ (json ++ newline ∷ [])
    → log_limit < length bytes
    → length json < log_limit / 2
    → IsKept lines json (rotated bytes) × (length (rotated bytes) + length bytes / 2 < length bytes)
rotated-IsKept lines json bytes h is long short =
    let total : length bytes ≡ length (bytes_of lines) + suc (length json) =
      ap length is ∙ length-with_event (bytes_of lines) json in
    let (gone, kept, skipped, parts, found, smaller) =
      cut_at_line (length bytes / 2) lines (json ++ newline ∷ []) h
        (omega (arith, total, long, short)) in
    let result : rotated bytes ≡ bytes_of kept ++ (json ++ newline ∷ []) =
      rotated-found bytes skipped _
        (ap (λ b. cut newline (drop (length bytes / 2) b)) is ∙ found) in
    (
      record {
        gone = gone;
        kept = kept;
        parts = parts;
        bytes_are = result ∙ sym (bytes_of-append kept json);
      },
      omega (arith, ap length result, length-with_event (bytes_of kept) json, smaller, total),
    )

log_of-write :
    (path bytes : Text) (fs : Files)
    → fs.writable path ≡ true
    → (log_of path (write_file path bytes fs).0 ≡ bytes)
      × ((write_file path bytes fs).0.writable path ≡ true)
unfolding log_of read_file write_file
log_of-write path bytes fs ok = ground (arith, lookup-insert_self path bytes fs.contents)

trim_log-IsKept :
    (path json : Text) (lines : List Text) (fs : Files)
    → All IsLine lines
    → log_of path fs ≡ bytes_of lines ++ (json ++ newline ∷ [])
    → length (bytes_of lines) ≤ log_limit
    → length json < log_limit / 2
    → fs.writable path ≡ true
    → IsKept lines json (log_of path (trim_log path fs))
      × (length (log_of path (trim_log path fs)) ≤ log_limit)
unfolding trim_log
trim_log-IsKept path json lines fs h is fits short ok =
    elim (Bool-cases (ltb log_limit (length (log_of path fs)))) [
      | inl long ↦
          let (kept, smaller) =
            rotated-IsKept lines json (log_of path fs) h is (ground (arith, long)) short in
          let (now, _) = log_of-write path (rotated (log_of path fs)) fs ok in
          rw long (
            rw now (
              kept,
              omega (
                arith,
                smaller,
                ap length is,
                length-with_event (bytes_of lines) json,
                fits,
                short,
              ),
            ))
      | inr brief ↦ rw brief (
        record {
          gone = [];
          kept = lines;
          parts = refl;
          bytes_are = is ∙ sym (bytes_of-append lines json);
        },
        ground (arith, brief),
      )
    ]

-- Over a log of whole lines within 512 KiB, in a file that can be written, an event of less than
-- half of that is the last line of the log, the lines in front of it are the last of those before,
-- whole, and the log stays within 512 KiB.
pub record_event-IsKept :
    (dir json : Text) (lines : List Text) (fs : Files)
    → All IsLine lines
    → log_of (events_path dir) fs ≡ bytes_of lines
    → length (bytes_of lines) ≤ log_limit
    → length json < log_limit / 2
    → fs.writable (events_path dir) ≡ true
    → IsKept lines json (log_of (events_path dir) (record_event dir json fs))
      × (length (log_of (events_path dir) (record_event dir json fs)) ≤ log_limit)
unfolding record_event append_file
record_event-IsKept dir json lines fs h is fits short ok =
    let (now, still) =
      log_of-write (events_path dir) (log_of (events_path dir) fs ++ (json ++ newline ∷ [])) fs
        ok in
    trim_log-IsKept (events_path dir) json lines _ h
      (now ∙ ap (λ b. b ++ (json ++ newline ∷ [])) is) fits short still
