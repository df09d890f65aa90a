-- ===== src/Ipc/Fields/Written.antt =====
-- What is written are bytes, if every field has its width.
use glasswyrm.Prelude.{ℕ, List, [], ◌∷◌, ◌++◌, ◌^◌, ◌%◌, ◌/◌, arith, sym, subst}
use glasswyrm.Prelude.Int.{bits_32}
use glasswyrm.Ipc.Bytes.Laws.{AreBytes, le_16, le_32, le_64}
use glasswyrm.Ipc.Fields.{Field, Value, Values, write_fields}
use glasswyrm.Ipc.Fields.Layout.{Fits, AllFit, bytes_of, layout, write-layout}

append-AreBytes : (xs ys : List ℕ) → AreBytes xs → AreBytes ys → AreBytes (xs ++ ys)
append-AreBytes [] ys h k = k
append-AreBytes (x ∷ xs) ys h k = (h.0, append-AreBytes xs ys h.1 k)

le_16-AreBytes : (v : ℕ) → AreBytes (le_16 v)
unfolding le_16
le_16-AreBytes v = ground arith

le_32-AreBytes : (v : ℕ) → AreBytes (le_32 v)
unfolding le_32
le_32-AreBytes v =
    append-AreBytes (le_16 (v % 2 ^ 16)) (le_16 (v / 2 ^ 16 % 2 ^ 16)) (le_16-AreBytes _)
      (le_16-AreBytes _)

le_64-AreBytes : (v : ℕ) → AreBytes (le_64 v)
unfolding le_64
le_64-AreBytes v =
    append-AreBytes (le_32 (v % 2 ^ 32)) (le_32 (v / 2 ^ 32 % 2 ^ 32)) (le_32-AreBytes _)
      (le_32-AreBytes _)

bytes_of-AreBytes : (f : Field) (v : Value f) → Fits f v → AreBytes (bytes_of f v)
unfolding bytes_of
bytes_of-AreBytes Field.u8 v h = ground (arith, h)
bytes_of-AreBytes Field.u16 v h = le_16-AreBytes v
bytes_of-AreBytes Field.u32 v h = le_32-AreBytes v
bytes_of-AreBytes Field.u64 v h = le_64-AreBytes v
bytes_of-AreBytes Field.i32 v h = le_32-AreBytes (bits_32 v)
bytes_of-AreBytes (Field.array n) v h = h.1

layout-AreBytes : (fs : List Field) (vs : Values fs) → AllFit fs vs → AreBytes (layout fs vs)
unfolding layout
layout-AreBytes [] vs h = tt
layout-AreBytes (f ∷ fs) vs h =
    append-AreBytes (bytes_of f vs.0) (layout fs vs.1) (bytes_of-AreBytes f vs.0 h.0)
      (layout-AreBytes fs vs.1 h.1)

pub write_fields-AreBytes :
    (fs : List Field) (vs : Values fs) → AllFit fs vs → AreBytes (write_fields fs vs [])
write_fields-AreBytes fs vs h = subst AreBytes (sym (write-layout fs vs)) (layout-AreBytes fs vs h)
