-- ===== src/Output/Scale/Laws.antt =====
-- src/output/model/scale.cpp: what the functions compute.
use native.Mathlib.Nat.{div-mul_cancel}
use native.Mathlib.Nat.{div-add-mod}
use glasswyrm.Prelude.{
  ap, ◌%◌, ◌!=◌, if◌then◌else◌, ℕ, ◌+◌, ◌*◌, ◌/◌, ◌^◌, ◌≤◌, ◌<◌, ◌≡◌, refl, Option, none, some,
  true, false, arith, ◌≢◌, ==_iff, ◌⊎◌, ◌-◌,
}
use glasswyrm.Prelude.Gcd.{gcd, gcd-dvd, gcd-div-div}
use glasswyrm.Output.Scale.{
  RationalScale, reduce_scale, is_reduced, valid_output_scale, derive_logical_dimension,
}

quotient_pos : (n g q : ℕ) → q * g ≡ n → 0 < n → 0 < q
quotient_pos n g q e h = grind arith

-- For two numbers above 0 the reduced scale is in lowest terms and is the same fraction.
pub reduce_scale-is_reduced :
    (n d : ℕ)
    → 0 < n
    → 0 < d
    → (s : RationalScale) × (reduce_scale n d ≡ some s)
      × (is_reduced s ≡ true)
      × (n * s.denominator ≡ s.numerator * d)
unfolding reduce_scale is_reduced
reduce_scale-is_reduced n d hn hd =
    let g : ℕ = gcd n d in
    let top : n / g * g ≡ n = div-mul_cancel g (gcd-dvd n d).0 in
    let bottom : d / g * g ≡ d = div-mul_cancel g (gcd-dvd n d).1 in
    (
      record { numerator = n / g; denominator = d / g },
      ground arith,
      ground (
        arith,
        gcd-div-div n d hd,
        quotient_pos n g (n / g) top hn,
        quotient_pos d g (d / g) bottom hd,
      ),
      same n d g (n / g) (d / g) top bottom,
    )
  where
    same : (n d g a b : ℕ) → a * g ≡ n → b * g ≡ d → n * b ≡ a * d
    same n d g a b p q = omega (
      arith,
      glasswyrm.Prelude.ap (λ (t : ℕ). t * b) p,
      glasswyrm.Prelude.ap (λ (t : ℕ). a * t) q,
    )

ceiling : ℕ → ℕ → ℕ
ceiling p n = p / n + (if p % n != 0 then 1 else 0)

ceiling_covers : (p n : ℕ) → 0 < n → p ≤ ceiling p n * n
unfolding ceiling
ceiling_covers p n h = ground (arith, div-add-mod p n)

ceiling_least : (p n m : ℕ) → 0 < n → p ≤ m * n → ceiling p n ≤ m
unfolding ceiling
ceiling_least p n m h c = ground (arith, div_bound, mod_bound)
  where
    div_bound : p / n ≤ m
    div_bound = grind (arith, div-add-mod p n)

    mod_bound : p % n ≢ 0 → p / n < m
    mod_bound q = grind (arith, div-add-mod p n)

valid_output_scale_facts :
    (limit : ℕ) (s : RationalScale)
    → valid_output_scale s limit ≡ true
    → (is_reduced s ≡ true) × (0 < s.numerator) × (s.denominator ≤ s.numerator)
unfolding valid_output_scale
valid_output_scale_facts limit s v = ground arith

-- For a valid output scale and a physical extent of uint32_t the logical dimension exists; it is
-- a number of logical pixels that covers the physical extent, is at most that extent, and at
-- most any number `m` that covers it.
pub derive_logical_dimension_least :
    (extent limit m : ℕ) (s : RationalScale)
    → extent < 2 ^ 32
    → valid_output_scale s limit ≡ true
    → extent * s.denominator ≤ m * s.numerator
    → (r : ℕ) × (derive_logical_dimension extent s ≡ some r)
      × (extent * s.denominator ≤ r * s.numerator)
      × (r ≤ extent)
      × (r ≤ m)
unfolding derive_logical_dimension ceiling
derive_logical_dimension_least extent limit m s h v c =
    let (reduced, positive, wide) = valid_output_scale_facts limit s v in
    let p : ℕ = extent * s.denominator in
    let fits : ceiling p s.numerator ≤ extent =
      ceiling_least p s.numerator extent positive (grind arith) in
    (
      ceiling p s.numerator,
      ground (arith, reduced, fits),
      ceiling_covers p s.numerator positive,
      fits,
      ceiling_least p s.numerator m positive c,
    )
