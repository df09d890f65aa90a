-- ===== src/Server/XfixesRegion/Unions.antt =====
-- A normalized region and a union as sets of pixels.
use glasswyrm.Prelude.{
  Bool, true, false, List, [], ◌∷◌, some, ◌≡◌, ◌≤◌, refl, sym, ap, ◌∙◌, inl, inr, Bool-cases,
  Option-cases, ◌||◌, arith, ltb, All, length, any_of,
}
use glasswyrm.Prelude.Int.{ℤ}
use glasswyrm.Prelude.Sort.{bit}
use glasswyrm.Geometry.Rectangle.{Rectangle, covers, covered, layers}
use glasswyrm.Geometry.Rectangle.Pixels.{covered-layers}
use glasswyrm.Server.XfixesRegion.{
  add_rectangle, add_rectangles, normalize_region, union_regions, maximum_xfixes_region_rectangles,
}
use glasswyrm.Server.XfixesRegion.Regular.{IsRegular, Fits}
use glasswyrm.Server.XfixesRegion.Adding.{add_rectangle_lem}

-- A region holds at most 4096 regular rectangles, and stands for a set of pixels: each pixel of the set
-- lies in exactly one of its rectangles, and no other pixel in any.
abbrev pub Represents : List Rectangle → (ℤ → ℤ → Bool) → Type 0
Represents rs set =
    All IsRegular rs
    × (length rs ≤ maximum_xfixes_region_rectangles)
    × ((px py : ℤ) → layers rs px py ≡ bit (set px py))

covered_set :
    (rs : List Rectangle) (set : ℤ → ℤ → Bool)
    → Represents rs set
    → (px py : ℤ) → covered rs px py ≡ set px py
covered_set rs set h px py = ground (arith, covered-layers rs px py, h.2 px py)

pub add_Represents :
    (rs : List Rectangle) (r : Rectangle) (set : ℤ → ℤ → Bool)
    → Represents rs set
    → Fits r
    → (add_rectangle rs r).1 ≡ true
    → Represents (add_rectangle rs r).0 (λ px py. set px py || covers r px py)
add_Represents rs r set h f s =
    let adds = add_rectangle_lem rs r h.0 h.1 f s in
    (adds.0, adds.1, λ px py. ground (arith, adds.2 px py, h.2 px py, covered_set rs set h px py))

pub respects :
    (rs : List Rectangle) (a b : ℤ → ℤ → Bool)
    → ((px py : ℤ) → a px py ≡ b px py)
    → Represents rs a
    → Represents rs b
respects rs a b e h = (h.0, h.1, λ px py. h.2 px py ∙ ap bit (e px py))

add_rectangles_lem :
    (rs result out : List Rectangle) (set : ℤ → ℤ → Bool)
    → Represents result set
    → All Fits rs
    → add_rectangles result rs ≡ some out
    → Represents out (λ px py. set px py || covered rs px py)
unfolding add_rectangles any_of
add_rectangles_lem [] result out set h f s =
    let e : result ≡ out = ground (arith, s) in
    respects out set (λ px py. set px py || false) (λ px py. ground arith) (rw (sym e) h)
add_rectangles_lem (r ∷ rs) result out set h f s = elim (Bool-cases (add_rectangle result r).1) [
  | inr e ↦ absurd (ground (arith, e, s))
  | inl e ↦
      let next = λ (px py : ℤ). set px py || covers r px py in
      respects out (λ px py. next px py || covered rs px py)
        (λ px py. set px py || (covers r px py || covered rs px py)) (λ px py. ground arith)
        (add_rectangles_lem rs (add_rectangle result r).0 out next
          (add_Represents result r set h f.0 e) f.1 (ground (arith, e, s)))
]

pub empty_Represents : Represents [] (λ px py. false)
unfolding layers
empty_Represents = (tt, omega arith, λ px py. refl)

-- A list of rectangles with coordinates of 32 bits, when it is normalized at all, becomes a region of
-- exactly the pixels that the list covers: at most 4096 rectangles, none of them empty, and no pixel in
-- two of them.
pub normalize_region_lem :
    (rs out : List Rectangle)
    → All Fits rs
    → normalize_region rs ≡ some out
    → Represents out (covered rs)
unfolding normalize_region
normalize_region_lem rs out f s =
    elim (Bool-cases (ltb maximum_xfixes_region_rectangles (length rs))) [
      | inl e ↦ absurd (ground (arith, e, s))
      | inr e ↦
          add_rectangles_lem rs [] out (λ px py. false) empty_Represents f (ground (arith, e, s))
    ]

-- The union of two lists of rectangles with coordinates of 32 bits, when there is one, is a region of
-- exactly the pixels that one of the two lists covers.
union_regions_lem :
    (l r out : List Rectangle)
    → All Fits l
    → All Fits r
    → union_regions l r ≡ some out
    → Represents out (λ px py. covered l px py || covered r px py)
unfolding union_regions
union_regions_lem l r out fl fr s = elim (Option-cases (normalize_region l)) [
  | inl e ↦ absurd (ground (arith, e, s))
  | inr (m, e) ↦
      add_rectangles_lem r m out (covered l) (normalize_region_lem l m fl e) fr
        (ground (arith, e, s))
]
