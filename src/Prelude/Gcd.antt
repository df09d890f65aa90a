-- ===== src/Prelude/Gcd.antt =====
-- std::gcd, by Euclid's remainders. The second number falls in each round, so it is fuel enough.
use Prim.Native.Nat.{ℕ, zero, suc, ◌*◌, ◌/◌, ◌%◌, ◌<◌, ◌∣◌}
use mathlib.Core.Path.{◌≡◌, subst}
use native.Mathlib.Nat.{
  dvd_refl, dvd-zero, dvd-mod_iff, dvd_of_mul-dvd-mul_right, div-mul_cancel, eq-one_of_dvd-one,
  pos_of_dvd_of_pos, mul-dvd-mul_right,
}
use native.Mathlib.Omega.{arith}

gcd_loop : ℕ → ℕ → ℕ → ℕ
gcd_loop zero a b = a
gcd_loop (suc fuel) a zero = a
gcd_loop (suc fuel) a (suc b) = gcd_loop fuel (suc b) (a % suc b)

unfoldable pub gcd : ℕ → ℕ → ℕ
unfolding gcd_loop
gcd a b = gcd_loop (suc b) a b

gcd_loop-dvd : (f a b : ℕ) → b < f → (gcd_loop f a b ∣ a) × (gcd_loop f a b ∣ b)
unfolding gcd_loop
gcd_loop-dvd zero a b h = absurd (omega arith)
gcd_loop-dvd (suc f) a zero h = (dvd_refl a, dvd-zero a)
gcd_loop-dvd (suc f) a (suc b) h =
    let (left, right) = gcd_loop-dvd f (suc b) (a % suc b) (omega arith) in
    ((dvd-mod_iff _ left).0 right, left)

pub gcd-dvd : (a b : ℕ) → (gcd a b ∣ a) × (gcd a b ∣ b)
unfolding gcd
gcd-dvd a b = gcd_loop-dvd (suc b) a b (omega arith)

dvd-gcd_loop : (f k a b : ℕ) → k ∣ a → k ∣ b → k ∣ gcd_loop f a b
unfolding gcd_loop
dvd-gcd_loop zero k a b p q = p
dvd-gcd_loop (suc f) k a zero p q = p
dvd-gcd_loop (suc f) k a (suc b) p q =
    dvd-gcd_loop f k (suc b) (a % suc b) q ((dvd-mod_iff k q).1 p)

-- Every common divisor divides the result.
pub dvd-gcd : (k a b : ℕ) → k ∣ a → k ∣ b → k ∣ gcd a b
unfolding gcd
dvd-gcd k a b = dvd-gcd_loop (suc b) k a b

pub gcd_pos : (a b : ℕ) → 0 < b → 0 < gcd a b
gcd_pos a b h = pos_of_dvd_of_pos (gcd-dvd a b).1 h

times_back : (g k a : ℕ) → g ∣ a → k ∣ a / g → k * g ∣ a
times_back g k a p q = subst (λ n. k * g ∣ n) (div-mul_cancel g p) (mul-dvd-mul_right k q g)

-- What is left after the division has no common divisor.
pub gcd-div-div : (a b : ℕ) → 0 < b → gcd (a / gcd a b) (b / gcd a b) ≡ 1
gcd-div-div a b h =
    let g : ℕ = gcd a b in
    let k : ℕ = gcd (a / g) (b / g) in
    let whole : k * g ∣ g =
      dvd-gcd (k * g) a b (times_back g k a (gcd-dvd a b).0 (gcd-dvd (a / g) (b / g)).0)
        (times_back g k b (gcd-dvd a b).1 (gcd-dvd (a / g) (b / g)).1) in
    eq-one_of_dvd-one
      (dvd_of_mul-dvd-mul_right k (gcd_pos a b h) (subst (λ n. k * g ∣ n) (omega arith) whole))
