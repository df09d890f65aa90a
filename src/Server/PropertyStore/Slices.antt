-- ===== src/Server/PropertyStore/Slices.antt =====
-- Slices of the values of a property.
use glasswyrm.Prelude.{
  ℕ, zero, suc, List, [], ◌∷◌, ◌++◌, ◌≡◌, ◌+◌, ◌-◌, ◌/◌, ◌≤◌, inl, inr, arith, refl, sym, ap, ◌∙◌,
  Bool-cases, leb, min, length,
}
use glasswyrm.Server.PropertyStore.{take, drop, slice_values}

pub length-take : (n : ℕ) (vs : List ℕ) → length (take n vs) ≡ min n (length vs)
unfolding take
length-take zero vs = omega arith
length-take (suc n) [] = omega arith
length-take (suc n) (v ∷ vs) = omega (arith, length-take n vs)

length-drop : (n : ℕ) (vs : List ℕ) → length (drop n vs) ≡ length vs - n
unfolding drop
length-drop zero vs = omega arith
length-drop (suc n) [] = omega arith
length-drop (suc n) (v ∷ vs) = omega (arith, length-drop n vs)

drop_all : (n : ℕ) (vs : List ℕ) → length vs ≤ n → drop n vs ≡ []
unfolding drop
drop_all zero [] h = refl
drop_all zero (v ∷ vs) h = absurd (omega arith)
drop_all (suc n) [] h = refl
drop_all (suc n) (v ∷ vs) h = drop_all n vs (omega arith)

take_nil : (n : ℕ) → take n [] ≡ []
unfolding take
take_nil zero = refl
take_nil (suc n) = refl

take-min : (n : ℕ) (vs : List ℕ) → take (min n (length vs)) vs ≡ take n vs
unfolding take
take-min zero vs = ground arith
take-min (suc n) [] = ground arith
take-min (suc n) (v ∷ vs) =
    let e : min (suc n) (suc (length vs)) ≡ suc (min n (length vs)) = omega arith in
    rw e (ap (λ (ws : List ℕ). v ∷ ws) (take-min n vs))

pub take_all : (n : ℕ) (vs : List ℕ) → length vs ≤ n → take n vs ≡ vs
unfolding take
take_all n [] h = take_nil n
take_all zero (v ∷ vs) h = absurd (omega arith)
take_all (suc n) (v ∷ vs) h = ap (λ (ws : List ℕ). v ∷ ws) (take_all n vs (omega arith))

-- The slice as the code computes it is the one that take and drop name.
pub slice_values_lem :
    (size : ℕ) (vs : List ℕ) (o l : ℕ)
    → slice_values size vs o l ≡ take (l / size) (drop (o / size) vs)
unfolding slice_values
slice_values_lem size vs o l =
    let first = o / size in
    let count = l / size in
    elim (Bool-cases (leb (length vs) first)) [
      | inl e ↦
          rw e (sym (ap (take count) (drop_all first vs (ground (arith, e))) ∙ take_nil count))
      | inr e ↦
          let n : min (length vs) (first + count) - first ≡ min count (length (drop first vs)) =
            ground (arith, e, length-drop first vs) in
          rw (e, n) (take-min count (drop first vs))
    ]

split_here : (n m : ℕ) (vs : List ℕ) → take n vs ++ take m (drop n vs) ≡ take (n + m) vs
unfolding take drop
split_here zero m vs = let e : 0 + m ≡ m = omega arith in rw e refl
split_here (suc n) m [] = take_nil m ∙ sym (take_nil (suc n + m))
split_here (suc n) m (v ∷ vs) =
    let e : suc n + m ≡ suc (n + m) = omega arith in
    rw e (ap (λ (ws : List ℕ). v ∷ ws) (split_here n m vs))

drop-drop : (a n : ℕ) (vs : List ℕ) → drop n (drop a vs) ≡ drop (a + n) vs
unfolding drop
drop-drop zero n vs = let e : 0 + n ≡ n = omega arith in rw e refl
drop-drop (suc a) n [] = drop_all n [] (omega arith) ∙ sym (drop_all (suc a + n) [] (omega arith))
drop-drop (suc a) n (v ∷ vs) =
    let e : suc a + n ≡ suc (a + n) = omega arith in rw e (drop-drop a n vs)

pub take_split :
    (n m a : ℕ) (vs : List ℕ)
    → take n (drop a vs) ++ take m (drop (a + n) vs) ≡ take (n + m) (drop a vs)
take_split n m a vs = rw⁻¹ (drop-drop a n vs) (split_here n m (drop a vs))
