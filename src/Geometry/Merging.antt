-- ===== src/Geometry/Merging.antt =====
-- The step that the region loops share: the first element of a list with which a rectangle can be
-- merged is taken out, and the merged rectangle takes its place. It stands for the inner loops of
-- src/core/geometry/region.cpp and src/glasswyrmd/xfixes_region.cpp.
use glasswyrm.Prelude.{List, [], ◌∷◌, Option, none, some}

module _ {ℓ} {A : Type ℓ} (merge : A → A → Option A) where
  abbrev skip : A → Option (A × List A) → Option (A × List A)
  skip y none = none
  skip y (some (x', ys)) = some (x', y ∷ ys)

  unfoldable pub absorb : A → List A → Option (A × List A)
  absorb x [] = none
  absorb x (y ∷ ys) = elim (merge x y) [ some x' ↦ some (x', ys) | none ↦ skip y (absorb x ys) ]
