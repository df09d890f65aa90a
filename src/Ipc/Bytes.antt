-- ===== src/Ipc/Bytes.antt =====
-- src/ipc/wire/byte_writer.hpp and byte_reader.hpp. A writer is the list of the bytes written, a
-- reader the list of those not yet read: `remaining()` is its length, `done()` that it is empty.
pub mod Laws
use glasswyrm.Prelude.{
  ℕ, zero, suc, ◌+◌, ◌*◌, ◌/◌, ◌%◌, ◌^◌, ◌<◌, List, [], ◌∷◌, ◌++◌, Option, none, some, Bool, ltb,
  length, if◌then◌else◌,
}

abbrev pub Writer : Type 0
Writer = List ℕ

abbrev pub Reader : Type 0
Reader = List ℕ

unfoldable pub write_u8 : ℕ → Writer → Writer
write_u8 value w = w ++ value ∷ []

unfoldable pub write_u16 : ℕ → Writer → Writer
unfolding write_u8
write_u16 value w = write_u8 (value / 2 ^ 8 % 2 ^ 8) (write_u8 (value % 2 ^ 8) w)

unfoldable pub write_u32 : ℕ → Writer → Writer
unfolding write_u16
write_u32 value w = write_u16 (value / 2 ^ 16 % 2 ^ 16) (write_u16 (value % 2 ^ 16) w)

unfoldable pub write_u64 : ℕ → Writer → Writer
unfolding write_u32
write_u64 value w = write_u32 (value / 2 ^ 32 % 2 ^ 32) (write_u32 (value % 2 ^ 32) w)

unfoldable pub write_bytes : List ℕ → Writer → Writer
write_bytes value w = w ++ value

infixl 5 ◌>>=◌
abbrev pub ◌>>=◌ {ℓ κ} : {A : Type ℓ} {B : Type κ} → Option A → (A → Option B) → Option B
none >>= f = none
some a >>= f = f a

-- A failed read leaves the reader unused by its callers.
unfoldable pub read_u8 : Reader → Option (ℕ × Reader)
read_u8 [] = none
read_u8 (b ∷ r) = some (b, r)

unfoldable pub read_u16 : Reader → Option (ℕ × Reader)
unfolding read_u8
read_u16 r = do (low, r1) ← read_u8 r; (high, r2) ← read_u8 r1; some (low + high * 2 ^ 8, r2)

unfoldable pub read_u32 : Reader → Option (ℕ × Reader)
unfolding read_u16
read_u32 r = do (low, r1) ← read_u16 r; (high, r2) ← read_u16 r1; some (low + high * 2 ^ 16, r2)

unfoldable pub read_u64 : Reader → Option (ℕ × Reader)
unfolding read_u32
read_u64 r = do (low, r1) ← read_u32 r; (high, r2) ← read_u32 r1; some (low + high * 2 ^ 32, r2)

unfoldable pub take : ℕ → Reader → List ℕ
take zero r = []
take (suc n) [] = []
take (suc n) (b ∷ r) = b ∷ take n r

unfoldable pub drop : ℕ → Reader → Reader
drop zero r = r
drop (suc n) [] = []
drop (suc n) (b ∷ r) = drop n r

unfoldable pub read_bytes : ℕ → Reader → Option (List ℕ × Reader)
unfolding take drop
read_bytes n r = if ltb (length r) n then none else some (take n r, drop n r)
