-- ===== src/Server/XfixesRegion/Adding.antt =====
-- Adding one rectangle to a region: exactly the pixels that were not covered get a layer.
use glasswyrm.Prelude.{
  ℕ, Bool, true, false, List, [], ◌∷◌, ◌++◌, none, some, ◌≡◌, ◌+◌, ◌≤◌, refl, sym, ap, ◌∙◌, inl,
  inr, Bool-cases, Option-cases, ◌&&◌, ◌||◌, not, arith, ltb, leb, ◌==◌, All, length, any_of,
  if◌then◌else◌,
}
use glasswyrm.Prelude.Int.{ℤ, pos, +ℤ_parts}
use glasswyrm.Prelude.Sort.{bit, All-sort}
use glasswyrm.Geometry.Rectangle.{Rectangle, right, bottom, covers, covered, layers}
use glasswyrm.Geometry.Rectangle.Pixels.{layers-append, layers-sort, within_nothing}
use glasswyrm.Server.XfixesRegion.{
  valid, subtract_one, split_fragments, split_by, add_rectangle, merge_all, sort_rectangles, before,
  maximum_xfixes_region_rectangles,
}
use glasswyrm.Server.XfixesRegion.Pieces.{layers-subtract_one}
use glasswyrm.Server.XfixesRegion.Regular.{
  IsRegular, Fits, All-append, subtract_one-IsRegular, valid-IsRegular,
}
use glasswyrm.Server.XfixesRegion.Merges.{merge_all-Keeps}

abbrev Splits : (Rectangle → Type 0) → List Rectangle → (ℤ → ℤ → ℕ) → Type 0
Splits P out count = All P out × ((px py : ℤ) → layers out px py ≡ count px py)

split_fragments_lem :
    (n : ℕ) (e : Rectangle) (fs next out : List Rectangle)
    → All IsRegular fs
    → All IsRegular next
    → split_fragments n e fs next ≡ some out
    → All IsRegular out
      × ((px py : ℤ)
          → layers out px py ≡ layers next px py + (if covers e px py then 0 else layers fs px py))
unfolding split_fragments layers
split_fragments_lem n e [] next out h k s = (ground (arith, s, k), λ px py. ground (arith, s))
split_fragments_lem n e (f ∷ fs) next out h k s =
    let next' = next ++ subtract_one f e in
    elim (Bool-cases (ltb maximum_xfixes_region_rectangles (length next' + n))) [
      | inl b ↦ absurd (ground (arith, b, s))
      | inr b ↦
          let ih =
            split_fragments_lem n e fs next' out h.1
              (All-append IsRegular next (subtract_one f e) k (subtract_one-IsRegular f e h.0))
              (ground (arith, b, s)) in
          (
            ih.0,
            λ px py. ground (
              arith,
              ih.1 px py,
              layers-append next (subtract_one f e) px py,
              layers-subtract_one f e px py,
            ),
          )
    ]

split_by_lem :
    (n : ℕ) (es fs out : List Rectangle)
    → All IsRegular fs
    → split_by n es fs ≡ some out
    → All IsRegular out
      × ((px py : ℤ) → layers out px py ≡ (if covered es px py then 0 else layers fs px py))
unfolding split_by layers any_of
split_by_lem n [] fs out h s = (ground (arith, s, h), λ px py. ground (arith, s))
split_by_lem n (e ∷ es) fs out h s = elim (Option-cases (split_fragments n e fs [])) [
  | inl b ↦ absurd (ground (arith, b, s))
  | inr ([], b) ↦
      let one = split_fragments_lem n e fs [] [] h tt b in
      let nothing : [] ≡ out = ground (arith, b, s) in
      rw (sym nothing) (tt, λ px py. ground (arith, one.1 px py))
  | inr (g ∷ gs, b) ↦
      let one = split_fragments_lem n e fs [] (g ∷ gs) h tt b in
      let ih = split_by_lem n es (g ∷ gs) out one.0 (ground (arith, b, s)) in
      (ih.0, λ px py. ground (arith, one.1 px py, ih.1 px py))
]

invalid_nothing :
    (r : Rectangle) (px py : ℤ) → (r.width == 0 || r.height == 0) ≡ true → covers r px py ≡ false
unfolding covers
invalid_nothing r px py h = elim (Bool-cases (r.width == 0)) [
  | inl e ↦
      ground (arith, within_nothing r.x (right r) px (ground (arith, +ℤ_parts r.x (pos r.width))))
  | inr e ↦
      ground (arith, within_nothing r.y (bottom r) py (ground (arith, +ℤ_parts r.y (pos r.height))))
]

abbrev pub Adds : List Rectangle → Rectangle → List Rectangle → Type 0
Adds rs r out =
    All IsRegular out
    × (length out ≤ maximum_xfixes_region_rectangles)
    × ((px py : ℤ)
        → layers out px py ≡ layers rs px py + bit (covers r px py && not (covered rs px py)))

abbrev merged : List Rectangle → List Rectangle → List Rectangle
merged rs fs = sort_rectangles (merge_all (rs ++ fs))

module _ (rs : List Rectangle) (r : Rectangle) where
  add_invalid : valid r ≡ false → add_rectangle rs r ≡ (rs, r.width == 0 || r.height == 0)
  unfolding add_rectangle
  add_invalid e = rw (e, add_rectangle) refl

  add_too_many :
      valid r ≡ true → split_by (length rs) rs (r ∷ []) ≡ none → add_rectangle rs r ≡ (rs, false)
  unfolding add_rectangle
  add_too_many e k = rw (e, k, add_rectangle) refl

  add_merged :
      (fs : List Rectangle)
      → valid r ≡ true
      → split_by (length rs) rs (r ∷ []) ≡ some fs
      → add_rectangle rs r
        ≡ (merged rs fs, leb (length (merged rs fs)) maximum_xfixes_region_rectangles)
  unfolding add_rectangle
  add_merged fs e k = rw (e, k, add_rectangle) refl

  merged_lem :
      (fs : List Rectangle)
      → All IsRegular rs
      → IsRegular r
      → split_by (length rs) rs (r ∷ []) ≡ some fs
      → All IsRegular (merged rs fs)
        × ((px py : ℤ)
            → layers (merged rs fs) px py
              ≡ layers rs px py + bit (covers r px py && not (covered rs px py)))
  unfolding sort_rectangles layers
  merged_lem fs h hr k =
      let parts = split_by_lem (length rs) rs (r ∷ []) fs (hr, tt) k in
      let kept = merge_all-Keeps (rs ++ fs) (All-append IsRegular rs fs h parts.0) in
      (
        All-sort before IsRegular (merge_all (rs ++ fs)) kept.0,
        λ px py. ground (
          arith,
          layers-sort before (merge_all (rs ++ fs)) px py,
          kept.1 px py,
          layers-append rs fs px py,
          parts.1 px py,
        ),
      )

pub add_rectangle_lem :
    (rs : List Rectangle) (r : Rectangle)
    → All IsRegular rs
    → length rs ≤ maximum_xfixes_region_rectangles
    → Fits r
    → (add_rectangle rs r).1 ≡ true
    → Adds rs r (add_rectangle rs r).0
add_rectangle_lem rs r h n f s = elim (Bool-cases (valid r)) [
  | inr e ↦ rw (add_invalid rs r e) (
    h,
    n,
    λ px py. ground (
      arith,
      invalid_nothing r px py
          (sym (ap (λ (a : List Rectangle × Bool). a.1) (add_invalid rs r e)) ∙ s),
    ),
  )
  | inl e ↦ elim (Option-cases (split_by (length rs) rs (r ∷ []))) [
    | inl k ↦ absurd (ground (arith, s, add_too_many rs r e k))
    | inr (fs, k) ↦
        let whole = merged_lem rs r fs h (valid-IsRegular r f e) k in
        let step = add_merged rs r fs e k in
        rw step (whole.0, ground (arith, ap (λ (a : List Rectangle × Bool). a.1) step, s), whole.1)
  ]
]
