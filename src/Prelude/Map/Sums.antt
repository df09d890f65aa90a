-- ===== src/Prelude/Map/Sums.antt =====
-- A measure of the values of a map, summed up.
use Prim.Native.Nat.{ℕ, suc, ◌+◌, ◌≤◌}
use mathlib.Core.Path.{◌≡◌, subst}
use mathlib.Core.Logic.{inl, inr}
use mathlib.Core.Option.{Option, none, some}
use mathlib.Core.List.{[], ◌∷◌}
use native.Mathlib.Omega.{arith}
use glasswyrm.Prelude.Tests.{◌==◌, Bool-cases}
use glasswyrm.Prelude.Map.{NatMap, find, insert, erase, From, IsAscending, find_below}

module _ {ℓ} {V : Type ℓ} where
  unfoldable pub sum_values : (V → ℕ) → NatMap V → ℕ
  sum_values f [] = 0
  sum_values f ((k, v) ∷ m) = f v + sum_values f m

  abbrev pub measure : (V → ℕ) → Option V → ℕ
  measure f none = 0
  measure f (some v) = f v

  -- Every value has a property.
  abbrev pub AllValues {κ} : (V → Type κ) → NatMap V → Type κ
  AllValues P [] = Unit {κ}
  AllValues P ((k, v) ∷ m) = P v × AllValues P m

module _ {ℓ} {V : Type ℓ} (f : V → ℕ) where
  sum-insert-From :
      (n k : ℕ) (v : V) (m : NatMap V)
      → From n m
      → sum_values f (insert k v m) + measure f (find k m) ≡ sum_values f m + f v
  unfolding sum_values insert find
  sum-insert-From n k v [] h = omega arith
  sum-insert-From n k v ((j, w) ∷ m) h =
      ground (arith, sum-insert-From (suc j) k v m h.1, find_below (suc j) k m h.1)

  sum-erase-From :
      (n k : ℕ) (m : NatMap V)
      → From n m
      → sum_values f (erase k m) + measure f (find k m) ≡ sum_values f m
  unfolding sum_values erase find
  sum-erase-From n k [] h = omega arith
  sum-erase-From n k ((j, w) ∷ m) h =
      ground (arith, sum-erase-From (suc j) k m h.1, find_below (suc j) k m h.1)

  pub sum-insert :
      (k : ℕ) (v : V) (m : NatMap V)
      → IsAscending m
      → sum_values f (insert k v m) + measure f (find k m) ≡ sum_values f m + f v
  sum-insert k v m h = sum-insert-From 0 k v m h

  pub sum-erase :
      (k : ℕ) (m : NatMap V)
      → IsAscending m
      → sum_values f (erase k m) + measure f (find k m) ≡ sum_values f m
  sum-erase k m h = sum-erase-From 0 k m h

  pub measure-le-sum : (k : ℕ) (m : NatMap V) → measure f (find k m) ≤ sum_values f m
  unfolding find sum_values
  measure-le-sum k [] = omega arith
  measure-le-sum k ((j, w) ∷ m) = ground (arith, measure-le-sum k m)

module _ {ℓ κ} {V : Type ℓ} (P : V → Type κ) where
  pub AllValues-insert :
      (k : ℕ) (v : V) (m : NatMap V) → P v → AllValues P m → AllValues P (insert k v m)
  unfolding insert
  AllValues-insert k v [] p h = (p, tt)
  AllValues-insert k v ((j, w) ∷ m) p h = ground (arith, AllValues-insert k v m p h.1)

  pub AllValues-erase : (k : ℕ) (m : NatMap V) → AllValues P m → AllValues P (erase k m)
  unfolding erase
  AllValues-erase k [] h = tt
  AllValues-erase k ((j, w) ∷ m) h = ground (arith, AllValues-erase k m h.1)

  pub AllValues-find : (k : ℕ) (v : V) (m : NatMap V) → AllValues P m → find k m ≡ some v → P v
  unfolding find
  AllValues-find k v [] h e = absurd (ground (arith, e))
  AllValues-find k v ((j, w) ∷ m) h e = elim (Bool-cases (j == k)) [
    | inl b ↦ let same : w ≡ v = ground (arith, e, b) in subst P same h.0
    | inr b ↦ AllValues-find k v m h.1 (ground (arith, e, b))
  ]
