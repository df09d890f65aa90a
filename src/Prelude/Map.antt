-- ===== src/Prelude/Map.antt =====
-- std::map with unsigned keys: an association list in ascending order of the keys, which is the
-- order of iteration. std::unordered_map is read the same way where its order is never seen.
pub mod Keep
pub mod Sums
use Prim.Native.Nat.{ℕ, suc, ◌≤◌, ◌<◌}
use mathlib.Core.Path.{◌≡◌, refl}
use mathlib.Core.Bool.{Bool, true}
use mathlib.Core.Option.{Option, none, some}
use mathlib.Core.List.{List, [], ◌∷◌}
use native.Mathlib.Omega.{arith}
use mathlib.Core.Path.{subst}
use mathlib.Core.Logic.{inl, inr}
use glasswyrm.Prelude.Tests.{if◌then◌else◌, ◌==◌, ltb, is_some, Bool-cases, Option-cases, ==_iff}
use glasswyrm.Prelude.Lists.{length}

abbrev pub NatMap {ℓ} : Type ℓ → Type ℓ
NatMap V = List (ℕ × V)

module _ {ℓ} {V : Type ℓ} where
  unfoldable pub find : ℕ → NatMap V → Option V
  find k [] = none
  find k ((j, v) ∷ m) = if j == k then some v else find k m

  abbrev pub contains : ℕ → NatMap V → Bool
  contains k m = is_some (find k m)

  -- `m[k] = v` and insert_or_assign.
  unfoldable pub insert : ℕ → V → NatMap V → NatMap V
  insert k v [] = (k, v) ∷ []
  insert k v ((j, w) ∷ m) =
      if j == k
      then (k, v) ∷ m
      else (if ltb k j then (k, v) ∷ (j, w) ∷ m else (j, w) ∷ insert k v m)

  unfoldable pub erase : ℕ → NatMap V → NatMap V
  erase k [] = []
  erase k ((j, w) ∷ m) = if j == k then erase k m else (j, w) ∷ erase k m

  -- The keys grow along the list, from `n` on.
  abbrev pub From : ℕ → NatMap V → Type 0
  From n [] = Unit {0}
  From n ((j, w) ∷ m) = (n ≤ j) × From (suc j) m

  abbrev pub IsAscending : NatMap V → Type 0
  IsAscending m = From 0 m

module _ {ℓ} {V : Type ℓ} where
  pub find-insert :
      (k j : ℕ) (v : V) (m : NatMap V)
      → find j (insert k v m) ≡ (if k == j then some v else find j m)
  unfolding find insert
  find-insert k j v [] = refl
  find-insert k j v ((i, w) ∷ m) = ground (arith, find-insert k j v m)

  pub find-erase :
      (k j : ℕ) (m : NatMap V) → find j (erase k m) ≡ (if k == j then none else find j m)
  unfolding find erase
  find-erase k j [] = ground arith
  find-erase k j ((i, w) ∷ m) = ground (arith, find-erase k j m)

  pub From-mono : {a b : ℕ} (m : NatMap V) → a ≤ b → From b m → From a m
  From-mono [] h f = tt
  From-mono ((j, w) ∷ m) h f = (omega arith, f.1)

  insert-From : (n k : ℕ) (v : V) (m : NatMap V) → n ≤ k → From n m → From n (insert k v m)
  unfolding insert
  insert-From n k v [] h f = (h, tt)
  insert-From n k v ((j, w) ∷ m) h f = ground (arith, insert-From (suc j) k v m)

  erase-From : (n k : ℕ) (m : NatMap V) → From n m → From n (erase k m)
  unfolding erase
  erase-From n k [] f = tt
  erase-From n k ((j, w) ∷ m) f =
      ground (arith, erase-From (suc j) k m f.1, From-mono {a = n} {b = suc j} (erase k m))

  pub insert-IsAscending :
      (k : ℕ) (v : V) (m : NatMap V) → IsAscending m → IsAscending (insert k v m)
  insert-IsAscending k v m f = insert-From 0 k v m (omega arith) f

  pub erase-IsAscending : (k : ℕ) (m : NatMap V) → IsAscending m → IsAscending (erase k m)
  erase-IsAscending k m f = erase-From 0 k m f

  pub find_below : (n k : ℕ) (m : NatMap V) → From n m → k < n → find k m ≡ none
  unfolding find
  find_below n k [] f h = refl
  find_below n k ((j, w) ∷ m) f h = ground (arith, find_below (suc j) k m f.1)

  length-insert-From :
      (n k : ℕ) (v : V) (m : NatMap V)
      → From n m
      → length (insert k v m) ≡ (if contains k m then length m else suc (length m))
  unfolding find insert
  length-insert-From n k v [] f = refl
  length-insert-From n k v ((j, w) ∷ m) f =
      ground (arith, length-insert-From (suc j) k v m f.1, find_below (suc j) k m f.1)

  -- Assigning to a key that is there keeps the size.
  pub length-insert :
      (k : ℕ) (v : V) (m : NatMap V)
      → IsAscending m
      → length (insert k v m) ≡ (if contains k m then length m else suc (length m))
  length-insert k v m f = length-insert-From 0 k v m f

  pub length-erase-le : (k : ℕ) (m : NatMap V) → length (erase k m) ≤ length m
  unfolding erase
  length-erase-le k [] = omega arith
  length-erase-le k ((j, w) ∷ m) = ground (arith, length-erase-le k m)

-- `m.at(k)` changed in place; where the key is missing, and the source's `at` throws, nothing changes.
module _ {ℓ} {V : Type ℓ} where
  unfoldable pub update : ℕ → (V → V) → NatMap V → NatMap V
  update k f [] = []
  update k f ((j, w) ∷ m) = if j == k then (j, f w) ∷ m else (j, w) ∷ update k f m

  unfoldable pub keys : NatMap V → List ℕ
  keys [] = []
  keys ((j, w) ∷ m) = j ∷ keys m

module _ {ℓ κ} {V : Type ℓ} {W : Type κ} where
  -- A pass over all entries.
  unfoldable pub map_values : (ℕ → V → W) → NatMap V → NatMap W
  map_values f [] = []
  map_values f ((j, v) ∷ m) = (j, f j v) ∷ map_values f m

module _ {ℓ} {V : Type ℓ} where
  -- Erasing a key that is there makes the map smaller.
  pub length-erase-lt : (k : ℕ) (m : NatMap V) → contains k m ≡ true → length (erase k m) < length m
  unfolding find erase
  length-erase-lt k [] h = cc
  length-erase-lt k ((j, w) ∷ m) h = ground (arith, length-erase-lt k m, length-erase-le k m)

abbrev pub map_option {ℓ κ} : {A : Type ℓ} {B : Type κ} → (A → B) → Option A → Option B
map_option f none = none
map_option f (some a) = some (f a)

module _ {ℓ κ} {V : Type ℓ} {W : Type κ} where
  pub find-map_values :
      (k : ℕ) (f : ℕ → V → W) (m : NatMap V) → find k (map_values f m) ≡ map_option (f k) (find k m)
  unfolding find map_values
  find-map_values k f [] = refl
  find-map_values k f ((j, v) ∷ m) = elim (Bool-cases (j == k)) [
    | inl same ↦ rw (same, (==_iff j k).0 same) refl
    | inr differs ↦ rw differs (find-map_values k f m)
  ]

module _ {ℓ} {V : Type ℓ} where
  pub find-update :
      (k j : ℕ) (f : V → V) (m : NatMap V)
      → find j (update k f m) ≡ (if k == j then map_option f (find j m) else find j m)
  unfolding find update
  find-update k j f [] = ground arith
  find-update k j f ((i, v) ∷ m) = ground (arith, find-update k j f m)

  -- A property of every entry.
  abbrev pub Everywhere {κ} : (ℕ → V → Type κ) → NatMap V → Type (ℓ ⊔ κ)
  Everywhere P m = (k : ℕ) (v : V) → find k m ≡ some v → P k v

module _ {ℓ κ μ ν} {V : Type ℓ} {W : Type κ} (P : ℕ → V → Type μ) (Q : ℕ → W → Type ν) where
  pub map_values-Everywhere :
      (f : ℕ → V → W) (m : NatMap V)
      → ((k : ℕ) (v : V) → P k v → Q k (f k v))
      → Everywhere P m
      → Everywhere Q (map_values f m)
  map_values-Everywhere f m keep all k w e = elim (Option-cases (find k m)) [
    | inl p ↦ absurd (ground (arith, p, find-map_values k f m))
    | inr (v, p) ↦
        let same : f k v ≡ w = ground (arith, p, find-map_values k f m) in
        subst (Q k) same (keep k v (all k v p))
  ]

module _ {ℓ μ} {V : Type ℓ} (P : ℕ → V → Type μ) where
  pub update-Everywhere :
      (i : ℕ) (f : V → V) (m : NatMap V)
      → ((v : V) → P i v → P i (f v))
      → Everywhere P m
      → Everywhere P (update i f m)
  update-Everywhere i f m keep all k w e = elim (Bool-cases (i == k)) [
    | inl same ↦ found ((==_iff i k).0 same) (rw (find-update, same) at e)
    | inr differs ↦ all k w (rw (find-update, differs) at e)
  ]
    where
      found : i ≡ k → map_option f (find k m) ≡ some w → P k w
      found ik e' = elim (Option-cases (find k m)) [
        | inl p ↦ absurd (ground (arith, p))
        | inr (v, p) ↦
            let same : f v ≡ w = ground (arith, p) in
            subst (λ j. P j w) ik (subst (P i) same (keep v (all i v (rw ik p))))
      ]
