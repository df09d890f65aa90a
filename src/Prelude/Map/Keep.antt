-- ===== src/Prelude/Map/Keep.antt =====
-- std::erase_if and a loop that erases by the value, on a map.
use Prim.Native.Nat.{ℕ, suc}
use mathlib.Core.Path.{◌≡◌, refl}
use mathlib.Core.Bool.{Bool}
use mathlib.Core.Option.{Option, none, some}
use mathlib.Core.List.{List, [], ◌∷◌}
use native.Mathlib.Omega.{arith}
use glasswyrm.Prelude.Tests.{if◌then◌else◌, ◌==◌, is_some}
use glasswyrm.Prelude.Lists.{any_of}
use glasswyrm.Prelude.Map.{NatMap, find, keys, From, IsAscending, From-mono, find_below}

module _ {ℓ} {V : Type ℓ} where
  unfoldable pub keep_values : (V → Bool) → NatMap V → NatMap V
  keep_values p [] = []
  keep_values p ((k, v) ∷ m) = if p v then (k, v) ∷ keep_values p m else keep_values p m

  abbrev pub filter_option : (V → Bool) → Option V → Option V
  filter_option p none = none
  filter_option p (some v) = if p v then some v else none

module _ {ℓ} {V : Type ℓ} where
  keep_values-From : (n : ℕ) (p : V → Bool) (m : NatMap V) → From n m → From n (keep_values p m)
  unfolding keep_values
  keep_values-From n p [] f = tt
  keep_values-From n p ((k, v) ∷ m) f =
      ground
        (arith, keep_values-From (suc k) p m f.1, From-mono {a = n} {b = suc k} (keep_values p m))

  pub keep_values-IsAscending :
      (p : V → Bool) (m : NatMap V) → IsAscending m → IsAscending (keep_values p m)
  keep_values-IsAscending p m f = keep_values-From 0 p m f

  find-keep_values-From :
      (n k : ℕ) (p : V → Bool) (m : NatMap V)
      → From n m
      → find k (keep_values p m) ≡ filter_option p (find k m)
  unfolding find keep_values
  find-keep_values-From n k p [] f = refl
  find-keep_values-From n k p ((j, v) ∷ m) f =
      ground (arith, find-keep_values-From (suc j) k p m f.1, find_below (suc j) k m f.1)

  -- A key keeps its value where that passes.
  pub find-keep_values :
      (k : ℕ) (p : V → Bool) (m : NatMap V)
      → IsAscending m
      → find k (keep_values p m) ≡ filter_option p (find k m)
  find-keep_values k p m f = find-keep_values-From 0 k p m f

-- A number is in a list of numbers.
abbrev pub has_number : ℕ → List ℕ → Bool
has_number k ks = any_of (λ j. j == k) ks

pub has_number-keys {ℓ} :
    {V : Type ℓ} (k : ℕ) (m : NatMap V) → has_number k (keys m) ≡ is_some (find k m)
unfolding keys find any_of
has_number-keys k [] = refl
has_number-keys k ((j, v) ∷ m) = ground (arith, has_number-keys k m)
