-- ===== src/Output/Scale.antt =====
-- src/output/model/scale.cpp: rational scales, and logical extents from physical ones.
-- A field of a scale or an extent is a uint32_t; products are taken in 64 bits and do not wrap.
pub mod Laws
use Prim.Native.Nat.{◌∣◌}
use glasswyrm.Prelude.{
  ℕ, ◌+◌, ◌*◌, ◌/◌, ◌%◌, ◌^◌, ◌-◌, Bool, ◌&&◌, ◌||◌, Option, none, some, leb, ltb, not, ◌==◌, ◌!=◌,
  if◌then◌else◌,
}
use glasswyrm.Prelude.Gcd.{gcd}
use glasswyrm.Output.Transform.{PhysicalExtent}

pub record RationalScale : Type 0 where
  pub numerator : ℕ
  pub denominator : ℕ

pub record LogicalExtent : Type 0 where
  pub width : ℕ
  pub height : ℕ

abbrev pub maximum_scale_denominator : ℕ
maximum_scale_denominator = 120

abbrev pub uint32_max : ℕ
uint32_max = 2 ^ 32 - 1

-- The products of `compare_scales`: the left scale is at most the right one.
scale_le : RationalScale → RationalScale → Bool
scale_le left right = leb (left.numerator * right.denominator) (right.numerator * left.denominator)

pub reduce_scale : ℕ → ℕ → Option RationalScale
reduce_scale n d =
    if n == 0 || d == 0
    then none
    else some (record { numerator = n / gcd n d; denominator = d / gcd n d })

pub is_reduced : RationalScale → Bool
is_reduced s = s.numerator != 0 && s.denominator != 0 && gcd s.numerator s.denominator == 1

scale_in_range : RationalScale → RationalScale → RationalScale → Bool
unfolding scale_le
scale_in_range value minimum maximum =
    if value.numerator == 0
      || value.denominator == 0
      || minimum.numerator == 0
      || minimum.denominator == 0
      || maximum.numerator == 0
      || maximum.denominator == 0
    then Bool.false
    else scale_le minimum value && scale_le value maximum

unfoldable pub valid_output_scale : RationalScale → ℕ → Bool
unfolding is_reduced scale_in_range
valid_output_scale s denominator_limit =
    denominator_limit != 0
    && leb s.denominator denominator_limit
    && leb s.denominator maximum_scale_denominator
    && is_reduced s
    && scale_in_range s (record { numerator = 1; denominator = 1 })
        (record { numerator = 4; denominator = 1 })

pub derive_logical_dimension : ℕ → RationalScale → Option ℕ
unfolding is_reduced
derive_logical_dimension extent s =
    let product = extent * s.denominator in
    let rounded = product / s.numerator + (if product % s.numerator != 0 then 1 else 0) in
    if not (is_reduced s) then none else (if ltb uint32_max rounded then none else some rounded)

infixl 5 ◌>>=◌
abbrev ◌>>=◌ : {A B : Type 0} → Option A → (A → Option B) → Option B
none >>= f = none
some a >>= f = f a

derive_logical_extent : PhysicalExtent → RationalScale → Option LogicalExtent
unfolding derive_logical_dimension
derive_logical_extent e s = do
  width ← derive_logical_dimension e.width s
  height ← derive_logical_dimension e.height s
  some (record { width = width; height = height })
