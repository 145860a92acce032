-- ===== src/Frame/RoundTrip.antt =====
-- A frame that `writeLines` sends is read by `readFrame` as the map of its fields.
use mathlib.Core.List.{append_assoc}
use zorin_host_agent.Prelude.{
  ℕ, zero, suc, ◌≤◌, ◌<◌, ◌≡◌, refl, ap, ◌∙◌, false, some, List, [], ◌∷◌, ◌++◌, map, arith, length,
  is_empty, All, length-append,
}
use zorin_host_agent.Text.{Text, text, text_eq, trim_space, cut, contains_byte}
use zorin_host_agent.Dict.{Dict, insert}
use zorin_host_agent.Frame.{newline, read_line, write_lines, split_line, frame_loop, read_frame}
use zorin_host_agent.Text.Laws.{cut-append}

abbrev pub field_line : Text × Text → Text
field_line (key, value) = key ++ 32 ∷ value

-- The lines of a frame with these fields.
abbrev pub frame_lines : List (Text × Text) → List Text
frame_lines fields = map field_line fields ++ text "END" ∷ []

-- A field that one line can carry: a key with no space, and no line feed or outer space in the line.
pub record IsField (field : Text × Text) : Type 0 where
  pub key_there : is_empty field.0 ≡ false
  pub key_plain : contains_byte 32 field.0 ≡ false
  pub one_line : contains_byte newline (field_line field) ≡ false
  pub trimmed : trim_space (field_line field) ≡ field_line field

-- What `readFrame` stores of the fields, the later ones over the earlier ones.
abbrev pub store_fields : Dict Text → List (Text × Text) → Dict Text
store_fields out [] = out
store_fields out ((key, value) ∷ fields) = store_fields (insert key value out) fields

split_line-field :
    (key value : Text)
    → is_empty key ≡ false
    → contains_byte 32 key ≡ false
    → split_line (field_line (key, value)) ≡ (key, value)
unfolding split_line
split_line-field [] value h k = absurd (ground arith)
split_line-field (c ∷ key) value h k = ground (arith, cut-append 32 (c ∷ key) value k)

field_not_end : (key value : Text) → text_eq (field_line (key, value)) (text "END") ≡ false
unfolding text text_eq
field_not_end [] value = refl
field_not_end (a ∷ []) value = ground arith
field_not_end (a ∷ b ∷ []) value = ground arith
field_not_end (a ∷ b ∷ c ∷ []) value = ground arith
field_not_end (a ∷ b ∷ c ∷ d ∷ key) value = ground arith

field_not_empty : (key value : Text) → is_empty (field_line (key, value)) ≡ false
field_not_empty [] value = refl
field_not_empty (a ∷ key) value = refl

loop_step :
    (f : ℕ) (out : Dict Text) (stream raw rest key value : Text)
    → read_line stream ≡ some (raw, rest)
    → text_eq (trim_space raw) (text "END") ≡ false
    → is_empty (trim_space raw) ≡ false
    → split_line (trim_space raw) ≡ (key, value)
    → frame_loop (suc f) out stream ≡ frame_loop f (insert key value out) rest
loop_step f out stream raw rest key value read not_end not_empty halves =
    unfold frame_loop in ground (arith, read, not_end, not_empty, halves)

loop_field :
    (f : ℕ) (out : Dict Text) (field : Text × Text) (rest : Text)
    → IsField field
    → frame_loop (suc f) out (field_line field ++ newline ∷ rest)
      ≡ frame_loop f (insert field.0 field.1 out) rest
loop_field f out (key, value) rest h =
    loop_step f out _ (field_line (key, value)) rest key value
      (unfold read_line in cut-append newline (field_line (key, value)) rest h.one_line)
      (rw h.trimmed (field_not_end key value)) (rw h.trimmed (field_not_empty key value))
      (rw h.trimmed (split_line-field key value h.key_there h.key_plain))

-- The bytes of the frame, field by field.
stream_of : List (Text × Text) → Text → Text
stream_of [] rest = text "END" ++ newline ∷ rest
stream_of (field ∷ fields) rest = field_line field ++ newline ∷ stream_of fields rest

write_lines-stream :
    (fields : List (Text × Text)) (rest : Text)
    → write_lines (frame_lines fields) ++ rest ≡ stream_of fields rest
unfolding write_lines stream_of
write_lines-stream [] rest = append_assoc (text "END") (newline ∷ []) rest
write_lines-stream (field ∷ fields) rest =
    append_assoc (field_line field) (newline ∷ write_lines (frame_lines fields)) rest
    ∙ ap (λ s. field_line field ++ newline ∷ s) (write_lines-stream fields rest)

loop_stream :
    (f : ℕ) (out : Dict Text) (fields : List (Text × Text)) (rest : Text)
    → length fields < f
    → All IsField fields
    → frame_loop f out (stream_of fields rest) ≡ some (store_fields out fields, rest)
unfolding stream_of
loop_stream zero out fields rest h k = absurd (omega arith)
loop_stream (suc f) out [] rest h k =
    unfold frame_loop read_line cut text text_eq trim_space in refl
loop_stream (suc f) out (field ∷ fields) rest h k =
    loop_field f out field (stream_of fields rest) k.0
    ∙ loop_stream f (insert field.0 field.1 out) fields rest (omega arith) k.1

length-stream :
    (fields : List (Text × Text)) (rest : Text) → length fields ≤ length (stream_of fields rest)
unfolding stream_of
length-stream [] rest = omega arith
length-stream (field ∷ fields) rest = omega (
  arith,
  length-append (field_line field) (newline ∷ stream_of fields rest),
  length-stream fields rest,
)

-- A frame of fields that one line each can carry is read whole, as the map of its fields, whatever
-- follows on the stream, and the bytes behind it are left.
pub read_frame-write_lines :
    (fields : List (Text × Text)) (rest : Text)
    → All IsField fields
    → read_frame (write_lines (frame_lines fields) ++ rest) ≡ some (store_fields [] fields, rest)
unfolding read_frame
read_frame-write_lines fields rest h =
    rw (write_lines-stream fields rest)
      (loop_stream _ [] fields rest (omega (arith, length-stream fields rest)) h)
