-- ===== src/Geometry/Rectangle.antt =====
-- src/core/geometry/rectangle.hpp and rectangle.cpp. The sums are int64_t in the code and cannot
-- overflow there; the casts back to 32 bits keep the value, since a corner of the common part is a
-- corner of an operand and its extents are at most theirs.
pub mod Pixels
pub mod Unions
use glasswyrm.Prelude.Sort.{bit}
use glasswyrm.Prelude.{
  [], ◌∷◌, ◌+◌, ℕ, Bool, List, Option, none, some, ◌&&◌, ◌||◌, if◌then◌else◌, any_of,
}
use glasswyrm.Prelude.Int.{ℤ, pos, pos_part, ◌+ℤ◌, ◌-ℤ◌, leb_ℤ, ltb_ℤ, max_ℤ, min_ℤ}

pub record Rectangle : Type 0 where
  pub x : ℤ
  pub y : ℤ
  pub width : ℕ
  pub height : ℕ

-- The edges beyond the last column and the last row.
abbrev pub right : Rectangle → ℤ
right r = r.x +ℤ pos r.width

abbrev pub bottom : Rectangle → ℤ
bottom r = r.y +ℤ pos r.height

-- b - a for a ≤ b, as a size.
abbrev pub extent : ℤ → ℤ → ℕ
extent a b = pos_part (b -ℤ a)

-- The rectangle between two corners.
abbrev pub between : ℤ → ℤ → ℤ → ℤ → Rectangle
between x1 y1 x2 y2 = record { x = x1; y = y1; width = extent x1 x2; height = extent y1 y2 }

unfoldable pub intersect : Rectangle → Rectangle → Option Rectangle
intersect l r =
    let x1 = max_ℤ l.x r.x in
    let y1 = max_ℤ l.y r.y in
    let x2 = min_ℤ (right l) (right r) in
    let y2 = min_ℤ (bottom l) (bottom r) in
    if leb_ℤ x2 x1 || leb_ℤ y2 y1 then none else some (between x1 y1 x2 y2)

-- The pixels of a rectangle and of a list of them.
unfoldable pub within : ℤ → ℤ → ℤ → Bool
within a b p = leb_ℤ a p && ltb_ℤ p b

unfoldable pub covers : Rectangle → ℤ → ℤ → Bool
covers r px py = within r.x (right r) px && within r.y (bottom r) py

abbrev pub covered : List Rectangle → ℤ → ℤ → Bool
covered rs px py = any_of (λ r. covers r px py) rs

-- How many rectangles of a list cover a pixel.
unfoldable pub layers : List Rectangle → ℤ → ℤ → ℕ
layers [] px py = 0
layers (r ∷ rs) px py = bit (covers r px py) + layers rs px py
