-- ===== src/Ipc/Fields/Layout.antt =====
-- The bytes of fields, and what a successful read of them took.
use glasswyrm.Prelude.{
  length-append, ℕ, List, [], ◌∷◌, ◌++◌, some, false, ◌≡◌, ◌<◌, ◌-◌, ◌^◌, length, refl, sym, ap,
  subst, ◌∙◌, arith, append_assoc, append-nil, ltb, Option-cases, inl, inr,
}
use glasswyrm.Prelude.Int.{ℤ, pos, negsuc, bits_32, signed_32, ◌≤ℤ◌}
use glasswyrm.Ipc.Bytes.{Writer, Reader, write_u8, write_bytes, read_u8, read_u32, read_bytes, drop}
use glasswyrm.Ipc.Bytes.Laws.{
  AreBytes, le_16, le_32, le_64, write_u16_lem, write_u32_lem, write_u64_lem, read-le_16,
  read-le_32, read-le_64, read_u16_inv, read_u32_inv, read_u64_inv, read_bytes_inv,
  take-append_length, >>=-eq-some,
}
use glasswyrm.Ipc.Fields.{Field, Value, Values, write_field, write_fields, read_field, read_fields}

abbrev pub Fits : (f : Field) → Value f → Type 0
Fits Field.u8 v = v < 2 ^ 8
Fits Field.u16 v = v < 2 ^ 16
Fits Field.u32 v = v < 2 ^ 32
Fits Field.u64 v = v < 2 ^ 64
Fits Field.i32 v = (negsuc (2 ^ 31 - 1) ≤ℤ v) × (v ≤ℤ pos (2 ^ 31 - 1))
Fits (Field.array n) v = (length v ≡ n) × AreBytes v

abbrev pub AllFit : (fs : List Field) → Values fs → Type 0
AllFit [] vs = Unit {0}
AllFit (f ∷ fs) vs = Fits f vs.0 × AllFit fs vs.1

-- The bytes of a field.
unfoldable pub bytes_of : (f : Field) → Value f → List ℕ
bytes_of Field.u8 v = v ∷ []
bytes_of Field.u16 v = le_16 v
bytes_of Field.u32 v = le_32 v
bytes_of Field.u64 v = le_64 v
bytes_of Field.i32 v = le_32 (bits_32 v)
bytes_of (Field.array n) v = v

write_field_lem : (f : Field) (v : Value f) (w : Writer) → write_field f v w ≡ w ++ bytes_of f v
unfolding write_field bytes_of write_u8 write_bytes
write_field_lem Field.u8 v w = refl
write_field_lem Field.u16 v w = write_u16_lem v w
write_field_lem Field.u32 v w = write_u32_lem v w
write_field_lem Field.u64 v w = write_u64_lem v w
write_field_lem Field.i32 v w = write_u32_lem (bits_32 v) w
write_field_lem (Field.array n) v w = refl

signed-bits : (v : ℤ) → Fits Field.i32 v → signed_32 (bits_32 v) ≡ v
signed-bits (pos n) h = ground arith
signed-bits (negsuc n) h = ground arith

bits-small : (v : ℤ) → bits_32 v < 2 ^ 32
bits-small (pos n) = ground arith
bits-small (negsuc n) = ground arith

bits-signed : (n : ℕ) → n < 2 ^ 32 → (bits_32 (signed_32 n) ≡ n) × Fits Field.i32 (signed_32 n)
bits-signed n h = ground arith

drop-append_length : (xs ys : List ℕ) → drop (length xs) (xs ++ ys) ≡ ys
unfolding drop
drop-append_length [] ys = refl
drop-append_length (x ∷ xs) ys = drop-append_length xs ys

pub read_bytes-append : (v r : List ℕ) → read_bytes (length v) (v ++ r) ≡ some (v, r)
unfolding read_bytes
read_bytes-append v r =
    let enough : ltb (length (v ++ r)) (length v) ≡ false = ground (arith, length-append v r) in
    rw (enough, take-append_length v r, drop-append_length v r) refl

read-bytes_of :
    (f : Field) (v : Value f) (r : Reader)
    → Fits f v
    → read_field f (bytes_of f v ++ r) ≡ some (v, r)
unfolding read_field bytes_of read_u8 read_bytes
read-bytes_of Field.u8 v r h = refl
read-bytes_of Field.u16 v r h = read-le_16 v r h
read-bytes_of Field.u32 v r h = read-le_32 v r h
read-bytes_of Field.u64 v r h = read-le_64 v r h
read-bytes_of Field.i32 v r h = rw (read-le_32 (bits_32 v) r (bits-small v), signed-bits v h) refl
read-bytes_of (Field.array n) v r h =
    subst (λ (k : ℕ). read_bytes k (v ++ r) ≡ some (v, r)) h.0 (read_bytes-append v r)

-- All bytes of the fields.
unfoldable pub layout : (fs : List Field) → Values fs → List ℕ
layout [] vs = []
layout (f ∷ fs) vs = bytes_of f vs.0 ++ layout fs vs.1

write_fields_lem :
    (fs : List Field) (vs : Values fs) (w : Writer) → write_fields fs vs w ≡ w ++ layout fs vs
unfolding write_fields layout
write_fields_lem [] vs w = sym (append-nil w)
write_fields_lem (f ∷ fs) vs w =
    write_fields_lem fs vs.1 (write_field f vs.0 w)
    ∙ (ap (λ (u : Writer). u ++ layout fs vs.1) (write_field_lem f vs.0 w)
        ∙ append_assoc w (bytes_of f vs.0) (layout fs vs.1))

pub write-layout : (fs : List Field) (vs : Values fs) → write_fields fs vs [] ≡ layout fs vs
write-layout fs vs = write_fields_lem fs vs []

pub read-layout :
    (fs : List Field) (vs : Values fs) (r : Reader)
    → AllFit fs vs
    → read_fields fs (layout fs vs ++ r) ≡ some (vs, r)
unfolding read_fields layout
read-layout [] vs r h = refl
read-layout (f ∷ fs) vs r h =
    rw
      (
        append_assoc (bytes_of f vs.0) (layout fs vs.1) r,
        read-bytes_of f vs.0 (layout fs vs.1 ++ r) h.0,
        read-layout fs vs.1 r h.1,
      )
      refl

read_u8_inv :
    (bs : Reader) (v : ℕ) (r : Reader)
    → AreBytes bs
    → read_u8 bs ≡ some (v, r)
    → (bs ≡ v ∷ r) × (v < 2 ^ 8) × AreBytes r
unfolding read_u8
read_u8_inv [] v r b e = cc
read_u8_inv (x ∷ bs) v r b e = ground (arith, b, e)

AreBytes-first : (xs ys : List ℕ) → AreBytes (xs ++ ys) → AreBytes xs
AreBytes-first [] ys h = tt
AreBytes-first (x ∷ xs) ys h = (h.0, AreBytes-first xs ys h.1)

read_field_inv :
    (f : Field) (bs : Reader) (v : Value f) (r : Reader)
    → AreBytes bs
    → read_field f bs ≡ some (v, r)
    → (bs ≡ bytes_of f v ++ r) × Fits f v × AreBytes r
unfolding read_field bytes_of
read_field_inv Field.u8 bs v r b e = read_u8_inv bs v r b e
read_field_inv Field.u16 bs v r b e = read_u16_inv bs v r b e
read_field_inv Field.u32 bs v r b e = read_u32_inv bs v r b e
read_field_inv Field.u64 bs v r b e = read_u64_inv bs v r b e
read_field_inv Field.i32 bs v r b e = elim (Option-cases (read_u32 bs)) [
  | inl k ↦ absurd (ground (arith, e, k))
  | inr ((n, r'), k) ↦
      let inv = read_u32_inv bs n r' b k in
      let number : signed_32 n ≡ v = ground (arith, e, k) in
      let rest : r' ≡ r = ground (arith, e, k) in
      let back = bits-signed n inv.1 in
      subst (λ (z : ℤ). (bs ≡ le_32 (bits_32 z) ++ r) × Fits Field.i32 z × AreBytes r) number
        (subst
          (λ (q : Reader).
            (bs ≡ le_32 (bits_32 (signed_32 n)) ++ q) × Fits Field.i32 (signed_32 n) × AreBytes q)
          rest (rw back.0 inv.0, back.1, inv.2))
]
read_field_inv (Field.array n) bs v r b e =
    let inv = read_bytes_inv n bs v r b e in
    (inv.0, (inv.1, AreBytes-first v r (subst AreBytes inv.0 b)), inv.2)

pub read_fields_inv :
    (fs : List Field) (bs : Reader) (vs : Values fs) (r : Reader)
    → AreBytes bs
    → read_fields fs bs ≡ some (vs, r)
    → (bs ≡ layout fs vs ++ r) × AllFit fs vs × AreBytes r
unfolding read_fields layout
read_fields_inv [] bs vs r b e = let rest : bs ≡ r = cc in (rest, tt, subst AreBytes rest b)
read_fields_inv (f ∷ fs) bs vs r b e =
    let ((v, r1), p, e') = >>=-eq-some (read_field f bs) _ e in
    let ((ws, r2), q, e'') = >>=-eq-some (read_fields fs r1) _ e' in
    let first = read_field_inv f bs v r1 b p in
    let others = read_fields_inv fs r1 ws r2 first.2 q in
    let values : (v, ws) ≡ vs = cc in
    let rest : r2 ≡ r = cc in
    subst
      (λ (xs : Values (f ∷ fs)).
        (bs ≡ (bytes_of f xs.0 ++ layout fs xs.1) ++ r) × AllFit (f ∷ fs) xs × AreBytes r)
      values
      (subst
        (λ (q : Reader).
          (bs ≡ (bytes_of f v ++ layout fs ws) ++ q) × AllFit (f ∷ fs) (v, ws) × AreBytes q)
        rest
        (
          first.0
              ∙ (ap (λ (q : Reader). bytes_of f v ++ q) others.0
                  ∙ sym (append_assoc (bytes_of f v) (layout fs ws) r2)),
          (first.1, others.1),
          others.2,
        ))
