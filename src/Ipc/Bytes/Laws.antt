-- ===== src/Ipc/Bytes/Laws.antt =====
-- src/ipc/wire/byte_writer.hpp and byte_reader.hpp: the readers undo the writers, and only what a
-- writer writes is read.
use glasswyrm.Prelude.{
  ℕ, zero, suc, ◌+◌, ◌*◌, ◌/◌, ◌%◌, ◌^◌, ◌≤◌, ◌<◌, List, [], ◌∷◌, ◌++◌, Option, none, some, ◌≡◌,
  refl, ap, ◌∙◌, length, All, arith, append_assoc,
}
use glasswyrm.Ipc.Bytes.{
  Writer, Reader, write_u16, write_u32, write_u64, read_u16, read_u32, read_u64, read_bytes, take,
  drop, ◌>>=◌,
}

abbrev pub IsByte : ℕ → Type 0
IsByte b = b < 256

abbrev pub AreBytes : List ℕ → Type 0
AreBytes bs = All IsByte bs

-- The bytes of a number, lowest first.
unfoldable pub le_16 : ℕ → List ℕ
le_16 v = (v % 2 ^ 8) ∷ (v / 2 ^ 8 % 2 ^ 8) ∷ []

unfoldable pub le_32 : ℕ → List ℕ
unfolding le_16
le_32 v = le_16 (v % 2 ^ 16) ++ le_16 (v / 2 ^ 16 % 2 ^ 16)

unfoldable pub le_64 : ℕ → List ℕ
unfolding le_32
le_64 v = le_32 (v % 2 ^ 32) ++ le_32 (v / 2 ^ 32 % 2 ^ 32)

pub write_u16_lem : (v : ℕ) (w : Writer) → write_u16 v w ≡ w ++ le_16 v
unfolding write_u16 le_16
write_u16_lem v w = append_assoc w _ _

pub write_u32_lem : (v : ℕ) (w : Writer) → write_u32 v w ≡ w ++ le_32 v
unfolding write_u32 le_32
write_u32_lem v w = rw (append_assoc w, append_assoc w, append_assoc w) refl

pub write_u64_lem : (v : ℕ) (w : Writer) → write_u64 v w ≡ w ++ le_64 v
unfolding write_u64 le_64
write_u64_lem v w = simp append_assoc

pub read-le_16 : (v : ℕ) (r : Reader) → v < 2 ^ 16 → read_u16 (le_16 v ++ r) ≡ some (v, r)
unfolding read_u16 le_16
read-le_16 v r h = ground arith

pub read-le_32 : (v : ℕ) (r : Reader) → v < 2 ^ 32 → read_u32 (le_32 v ++ r) ≡ some (v, r)
unfolding read_u32 le_32
read-le_32 v r h = ground arith

pub read-le_64 : (v : ℕ) (r : Reader) → v < 2 ^ 64 → read_u64 (le_64 v ++ r) ≡ some (v, r)
unfolding read_u64 le_64
read-le_64 v r h = ground arith

-- A successful read took exactly the bytes of the number that it returns.
pub read_u16_inv :
    (bs : Reader) (v : ℕ) (r : Reader)
    → AreBytes bs
    → read_u16 bs ≡ some (v, r)
    → (bs ≡ le_16 v ++ r) × (v < 2 ^ 16) × AreBytes r
unfolding read_u16 le_16
read_u16_inv [] v r b e = cc
read_u16_inv (x ∷ []) v r b e = cc
read_u16_inv (x ∷ y ∷ bs) v r b e = ground arith

pub >>=-eq-some {ℓ κ} :
    {A : Type ℓ} {B : Type κ} (m : Option A) (f : A → Option B) {b : B}
    → (m >>= f) ≡ some b
    → (a : A) × (m ≡ some a) × (f a ≡ some b)
>>=-eq-some none f h = cc
>>=-eq-some (some a) f h = (a, refl, h)

pub read_u32_inv :
    (bs : Reader) (v : ℕ) (r : Reader)
    → AreBytes bs
    → read_u32 bs ≡ some (v, r)
    → (bs ≡ le_32 v ++ r) × (v < 2 ^ 32) × AreBytes r
unfolding read_u32 le_32 le_16 read_u16
read_u32_inv [] v r b e = cc
read_u32_inv (x ∷ []) v r b e = cc
read_u32_inv (x ∷ y ∷ []) v r b e = cc
read_u32_inv (x ∷ y ∷ z ∷ []) v r b e = cc
read_u32_inv (x ∷ y ∷ z ∷ w ∷ bs) v r b e = ground arith

read_u64_split :
    (bs : Reader) (v : ℕ) (r : Reader)
    → read_u64 bs ≡ some (v, r)
    → (low : ℕ) × (mid : Reader) × (high : ℕ) × (read_u32 bs ≡ some (low, mid))
      × (read_u32 mid ≡ some (high, r))
      × (v ≡ low + high * 2 ^ 32)
unfolding read_u64
read_u64_split bs v r e =
    let ((low, mid), p, e') = >>=-eq-some (read_u32 bs) _ e in
    let ((high, r'), q, e'') = >>=-eq-some (read_u32 mid) _ e' in (low, mid, high, p, cc, cc)

pub read_u64_inv :
    (bs : Reader) (v : ℕ) (r : Reader)
    → AreBytes bs
    → read_u64 bs ≡ some (v, r)
    → (bs ≡ le_64 v ++ r) × (v < 2 ^ 64) × AreBytes r
unfolding le_64
read_u64_inv bs v r b e =
    let (low, mid, high, p, q, s) = read_u64_split bs v r e in
    let (bs_eq, low_lt, mid_b) = read_u32_inv bs low mid b p in
    let (mid_eq, high_lt, r_b) = read_u32_inv mid high r mid_b q in
    let low_eq : v % 2 ^ 32 ≡ low = omega arith in
    let high_eq : v / 2 ^ 32 % 2 ^ 32 ≡ high = omega arith in
    (rw (low_eq, high_eq) (bs_eq ∙ ap (λ m. le_32 low ++ m) mid_eq), omega arith, r_b)

pub take-append_length : (xs ys : List ℕ) → take (length xs) (xs ++ ys) ≡ xs
unfolding take
take-append_length [] ys = refl
take-append_length (x ∷ xs) ys = ap (◌∷◌ x) (take-append_length xs ys)

pub take-append-drop : (n : ℕ) (xs : List ℕ) → take n xs ++ drop n xs ≡ xs
unfolding take drop
take-append-drop zero xs = refl
take-append-drop (suc n) [] = refl
take-append-drop (suc n) (x ∷ xs) = ap (◌∷◌ x) (take-append-drop n xs)

pub take-AreBytes : (n : ℕ) (xs : List ℕ) → AreBytes xs → AreBytes (take n xs)
unfolding take
take-AreBytes zero xs b = tt
take-AreBytes (suc n) [] b = tt
take-AreBytes (suc n) (x ∷ xs) b = (b.0, take-AreBytes n xs b.1)

pub length-take : (n : ℕ) (xs : List ℕ) → n ≤ length xs → length (take n xs) ≡ n
unfolding take
length-take zero xs h = refl
length-take (suc n) [] h = absurd (omega arith)
length-take (suc n) (x ∷ xs) h = ap suc (length-take n xs (omega arith))

drop-AreBytes : (n : ℕ) (xs : List ℕ) → AreBytes xs → AreBytes (drop n xs)
unfolding drop
drop-AreBytes zero xs b = b
drop-AreBytes (suc n) [] b = tt
drop-AreBytes (suc n) (x ∷ xs) b = drop-AreBytes n xs b.1

pub read_bytes_inv :
    (n : ℕ) (bs found : List ℕ) (r : Reader)
    → AreBytes bs
    → read_bytes n bs ≡ some (found, r)
    → (bs ≡ found ++ r) × (length found ≡ n) × AreBytes r
unfolding read_bytes
read_bytes_inv n bs found r b e =
    ground (arith, take-append-drop n bs, length-take n bs, drop-AreBytes n bs b)

-- A do block that succeeds after a read: what holds of all that the read may have given.
module _ {ℓ κ} {B : Type ℓ} {P : Type κ} (f : ℕ × Reader → Option B) (bs : Reader) {b : B} where
  pub after_u16 :
      AreBytes bs
      → (read_u16 bs >>= f) ≡ some b
      → ((v : ℕ) (r : Reader) → bs ≡ le_16 v ++ r → v < 2 ^ 16 → AreBytes r → f (v, r) ≡ some b → P)
      → P
  after_u16 are e then =
      let ((v, r), p, q) = >>=-eq-some (read_u16 bs) f e in
      let (s, n, rest) = read_u16_inv bs v r are p in then v r s n rest q

  pub after_u32 :
      AreBytes bs
      → (read_u32 bs >>= f) ≡ some b
      → ((v : ℕ) (r : Reader) → bs ≡ le_32 v ++ r → v < 2 ^ 32 → AreBytes r → f (v, r) ≡ some b → P)
      → P
  after_u32 are e then =
      let ((v, r), p, q) = >>=-eq-some (read_u32 bs) f e in
      let (s, n, rest) = read_u32_inv bs v r are p in then v r s n rest q

  pub after_u64 :
      AreBytes bs
      → (read_u64 bs >>= f) ≡ some b
      → ((v : ℕ) (r : Reader) → bs ≡ le_64 v ++ r → v < 2 ^ 64 → AreBytes r → f (v, r) ≡ some b → P)
      → P
  after_u64 are e then =
      let ((v, r), p, q) = >>=-eq-some (read_u64 bs) f e in
      let (s, n, rest) = read_u64_inv bs v r are p in then v r s n rest q

module _ {ℓ κ} {B : Type ℓ} {P : Type κ} (f : List ℕ × Reader → Option B) (n : ℕ) (bs : Reader)
    {b : B} where
  pub after_bytes :
      AreBytes bs
      → (read_bytes n bs >>= f) ≡ some b
      → ((found : List ℕ) (r : Reader)
          → bs ≡ found ++ r
          → length found ≡ n
          → AreBytes r
          → f (found, r) ≡ some b
          → P)
      → P
  after_bytes are e then =
      let ((found, r), p, q) = >>=-eq-some (read_bytes n bs) f e in
      let (s, size, rest) = read_bytes_inv n bs found r are p in then found r s size rest q
