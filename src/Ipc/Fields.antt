-- ===== src/Ipc/Fields.antt =====
-- The shape that the payloads of src/ipc/wire share: `encode` writes one field after the other,
-- `decode` reads them in the same order, `!reader.u64(a) || !reader.u16(b) || …`, and answers
-- Truncated if one of them is missing. A list of fields with their values stands for such a chain of
-- calls.
pub mod Layout
pub mod Laws
pub mod Written
use glasswyrm.Prelude.{
  ℕ, List, [], ◌∷◌, ◌++◌, Option, none, some, Bool, true, false, ◌≡◌, ◌<◌, ◌^◌, ◌%◌, length,
  if◌then◌else◌, ltb,
}
use glasswyrm.Prelude.Int.{ℤ, bits_32, signed_32}
use glasswyrm.Ipc.Bytes.{
  Writer, Reader, write_u8, write_u16, write_u32, write_u64, write_bytes, read_u8, read_u16,
  read_u32, read_u64, read_bytes, ◌>>=◌,
}
use glasswyrm.Ipc.Envelope.{CodecStatus, truncated, trailing_data, invalid_value, limit_exceeded}

pub data Field : Type 0 where
  u8 u16 u32 u64 i32 : Field
  array : ℕ → Field

abbrev pub Value : Field → Type 0
Value u8 = ℕ
Value u16 = ℕ
Value u32 = ℕ
Value u64 = ℕ
Value i32 = ℤ
Value (array n) = List ℕ

-- The first value and the others.
infixr 20 ◌▸◌
pattern abbrev pub ◌▸◌ : {A B : Type 0} → A → B → A × B
first ▸ others = (first, others)

abbrev pub Values : List Field → Type 0
Values [] = Unit {0}
Values (f ∷ fs) = Value f × Values fs

unfoldable pub write_field : (f : Field) → Value f → Writer → Writer
write_field u8 v w = write_u8 v w
write_field u16 v w = write_u16 v w
write_field u32 v w = write_u32 v w
write_field u64 v w = write_u64 v w
write_field i32 v w = write_u32 (bits_32 v) w
write_field (array n) v w = write_bytes v w

unfoldable pub write_fields : (fs : List Field) → Values fs → Writer → Writer
write_fields [] vs w = w
write_fields (f ∷ fs) vs w = write_fields fs vs.1 (write_field f vs.0 w)

abbrev signed : Option (ℕ × Reader) → Option (ℤ × Reader)
signed none = none
signed (some (v, r)) = some (signed_32 v, r)

unfoldable pub read_field : (f : Field) → Reader → Option (Value f × Reader)
read_field u8 r = read_u8 r
read_field u16 r = read_u16 r
read_field u32 r = read_u32 r
read_field u64 r = read_u64 r
read_field i32 r = signed (read_u32 r)
read_field (array n) r = read_bytes n r

unfoldable pub read_fields : (fs : List Field) → Reader → Option (Values fs × Reader)
read_fields [] r = some (tt, r)
read_fields (f ∷ fs) r = do
  (v, r1) ← read_field f r
  (vs, r2) ← read_fields fs r1
  some ((v, vs), r2)

-- What `decode` makes of the bytes: the value, or the status that it returns.
pub data Decoded {ℓ} (A : Type ℓ) : Type ℓ where
  decoded : A → Decoded A
  refused : CodecStatus → Decoded A

module _ {ℓ} {A : Type ℓ} where
  -- The last part of `decode`: the test that all bytes were read, and that of the values.
  unfoldable pub finish : Option A → Reader → Decoded A
  finish checked (b ∷ r) = refused trailing_data
  finish none [] = refused invalid_value
  finish (some a) [] = decoded a

  -- A payload of fields alone. The values are checked and taken over by `check`.
  unfoldable pub decode_fixed : (fs : List Field) → (Values fs → Option A) → Reader → Decoded A
  decode_fixed fs check bytes = elim (read_fields fs bytes) [
    | none ↦ refused truncated
    | some (vs, r) ↦ finish (check vs) r
  ]

  -- A text of a size that is one of the fields, after them.
  unfoldable pub decode_text : ℕ → (List ℕ → Option A) → Reader → Decoded A
  decode_text size check r = elim (read_bytes size r) [
    | none ↦ refused truncated
    | some (text, r1) ↦ finish (check text) r1
  ]

  -- A payload of fields and a text of a limited size.
  unfoldable pub decode_with_text :
      (fs : List Field) → (Values fs → ℕ) → ℕ → (Values fs → List ℕ → Option A) → Reader → Decoded A
  decode_with_text fs size maximum check bytes = elim (read_fields fs bytes) [
    | none ↦ refused truncated
    | some (vs, r) ↦
        if ltb maximum (size vs) then refused limit_exceeded else decode_text (size vs) (check vs) r
  ]
