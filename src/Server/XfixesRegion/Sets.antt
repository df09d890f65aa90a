-- ===== src/Server/XfixesRegion/Sets.antt =====
-- The region operations of XFIXES as operations on sets of pixels.
use glasswyrm.Prelude.{
  Bool, false, List, [], ◌∷◌, ◌++◌, Option, some, ◌≡◌, ◌+◌, sym, ap, inl, inr, Bool-cases,
  Option-cases, ◌&&◌, ◌||◌, not, arith, ltb, All, length, any_of, if◌then◌else◌,
}
use glasswyrm.Prelude.Int.{ℤ}
use glasswyrm.Geometry.Rectangle.{Rectangle, covers, covered, layers, intersect}
use glasswyrm.Geometry.Rectangle.Pixels.{
  layers-append, covered-layers, covered_by, covered_by-intersect,
}
use glasswyrm.Server.XfixesRegion.{
  subtract_one, add_rectangle, normalize_region, intersect_row, intersect_rows, intersect_regions,
  remove_from, remove_each, subtract_regions, maximum_xfixes_region_rectangles,
}
use glasswyrm.Server.XfixesRegion.Pieces.{intersect-Inside, layers-subtract_one}
use glasswyrm.Server.XfixesRegion.Regular.{IsRegular, Fits, All-append, subtract_one-IsRegular}
use glasswyrm.Server.XfixesRegion.Unions.{
  Represents, add_Represents, respects, empty_Represents, normalize_region_lem,
}

overlap-Fits : (l r o : Rectangle) → Fits l → intersect l r ≡ some o → Fits o
overlap-Fits l r o f e = let inside = intersect-Inside l r o e in omega arith

intersect_row_lem :
    (first : Rectangle) (r result out : List Rectangle) (set : ℤ → ℤ → Bool)
    → Fits first
    → Represents result set
    → intersect_row first r result ≡ some out
    → Represents out (λ px py. set px py || (covers first px py && covered r px py))
unfolding intersect_row any_of
intersect_row_lem first [] result out set f h s =
    let e : result ≡ out = ground (arith, s) in
    respects out set (λ px py. set px py || (covers first px py && false)) (λ px py. ground arith)
      (rw (sym e) h)
intersect_row_lem first (second ∷ r) result out set f h s =
    elim (Option-cases (intersect first second)) [
      | inl e ↦
          respects out (λ px py. set px py || (covers first px py && covered r px py))
            (λ px py. set px py || (covers first px py && (covers second px py || covered r px py)))
            (λ px py. ground (
              arith,
              covered_by-intersect first second px py,
              ap (λ (o : Option Rectangle). covered_by o px py) e,
            ))
            (intersect_row_lem first r result out set f h (ground (arith, e, s)))
      | inr (o, e) ↦ elim (Bool-cases (add_rectangle result o).1) [
        | inr b ↦ absurd (ground (arith, e, b, s))
        | inl b ↦
            let next = λ (px py : ℤ). set px py || covers o px py in
            respects out (λ px py. next px py || (covers first px py && covered r px py))
              (λ px py.
                set px py || (covers first px py && (covers second px py || covered r px py)))
              (λ px py. ground (
                arith,
                covered_by-intersect first second px py,
                ap (λ (o : Option Rectangle). covered_by o px py) e,
              ))
              (intersect_row_lem first r (add_rectangle result o).0 out next f
                (add_Represents result o set h (overlap-Fits first second o f e) b)
                (ground (arith, e, b, s)))
      ]
    ]

intersect_rows_lem :
    (l r result out : List Rectangle) (set : ℤ → ℤ → Bool)
    → All Fits l
    → Represents result set
    → intersect_rows l r result ≡ some out
    → Represents out (λ px py. set px py || (covered l px py && covered r px py))
unfolding intersect_rows any_of
intersect_rows_lem [] r result out set f h s =
    let e : result ≡ out = ground (arith, s) in
    respects out set (λ px py. set px py || false) (λ px py. ground arith) (rw (sym e) h)
intersect_rows_lem (first ∷ l) r result out set f h s =
    elim (Option-cases (intersect_row first r result)) [
      | inl e ↦ absurd (ground (arith, e, s))
      | inr (m, e) ↦
          let next = λ (px py : ℤ). set px py || (covers first px py && covered r px py) in
          respects out (λ px py. next px py || (covered l px py && covered r px py))
            (λ px py. set px py || ((covers first px py || covered l px py) && covered r px py))
            (λ px py. ground arith)
            (intersect_rows_lem l r m out next f.1 (intersect_row_lem first r result m set f.0 h e)
              (ground (arith, e, s)))
    ]

-- The intersection of two lists of rectangles, when there is one and the coordinates of the first
-- list are of 32 bits, covers exactly the pixels that both lists cover, with at most 4096
-- rectangles, none of them empty and no pixel in two of them.
pub intersect_regions_lem :
    (l r out : List Rectangle)
    → All Fits l
    → intersect_regions l r ≡ some out
    → Represents out (λ px py. covered l px py && covered r px py)
unfolding intersect_regions
intersect_regions_lem l r out f s =
    intersect_rows_lem l r [] out (λ px py. false) f empty_Represents s

remove_from_lem :
    (removed : Rectangle) (rs next out : List Rectangle)
    → All IsRegular rs
    → All IsRegular next
    → remove_from removed rs next ≡ some out
    → All IsRegular out
      × ((px py : ℤ)
          → layers out px py
            ≡ layers next px py + (if covers removed px py then 0 else layers rs px py))
unfolding remove_from layers
remove_from_lem removed [] next out h k s = (ground (arith, s, k), λ px py. ground (arith, s))
remove_from_lem removed (r ∷ rs) next out h k s =
    let next' = next ++ subtract_one r removed in
    elim (Bool-cases (ltb maximum_xfixes_region_rectangles (length next'))) [
      | inl b ↦ absurd (ground (arith, b, s))
      | inr b ↦
          let ih =
            remove_from_lem removed rs next' out h.1
              (All-append IsRegular next (subtract_one r removed) k
                (subtract_one-IsRegular r removed h.0))
              (ground (arith, b, s)) in
          (
            ih.0,
            λ px py. ground (
              arith,
              ih.1 px py,
              layers-append next (subtract_one r removed) px py,
              layers-subtract_one r removed px py,
            ),
          )
    ]

regular-Fits : (rs : List Rectangle) → All IsRegular rs → All Fits rs
regular-Fits [] h = tt
regular-Fits (r ∷ rs) h = ((h.0.0, h.0.1), regular-Fits rs h.1)

remove_each_lem :
    (r result out : List Rectangle) (set : ℤ → ℤ → Bool)
    → Represents result set
    → remove_each result r ≡ some out
    → Represents out (λ px py. set px py && not (covered r px py))
unfolding remove_each any_of layers
remove_each_lem [] result out set h s =
    let e : result ≡ out = ground (arith, s) in
    respects out set (λ px py. set px py && not false) (λ px py. ground arith) (rw (sym e) h)
remove_each_lem (removed ∷ r) result out set h s =
    elim (Option-cases (remove_from removed result [])) [
      | inl e ↦ absurd (ground (arith, e, s))
      | inr (next, e) ↦
          let cut = remove_from_lem removed result [] next h.0 tt e in
          elim (Option-cases (normalize_region next)) [
            | inl e' ↦ absurd (ground (arith, e, e', s))
            | inr (normal, e') ↦
                let less = λ (px py : ℤ). set px py && not (covers removed px py) in
                let whole = normalize_region_lem next normal (regular-Fits next cut.0) e' in
                respects out (λ px py. less px py && not (covered r px py))
                  (λ px py. set px py && not (covers removed px py || covered r px py))
                  (λ px py. ground arith)
                  (remove_each_lem r normal out less
                    (respects normal (covered next) less
                      (λ px py. ground (arith, covered-layers next px py, cut.1 px py, h.2 px py))
                      whole)
                    (ground (arith, e, e', s)))
          ]
    ]

-- The difference of two lists of rectangles, when there is one and the coordinates of the first
-- list are of 32 bits, covers exactly the pixels that the first list covers and the second does
-- not, with at most 4096 rectangles, none of them empty and no pixel in two of them.
pub subtract_regions_lem :
    (l r out : List Rectangle)
    → All Fits l
    → subtract_regions l r ≡ some out
    → Represents out (λ px py. covered l px py && not (covered r px py))
unfolding subtract_regions
subtract_regions_lem l r out f s = elim (Option-cases (normalize_region l)) [
  | inl e ↦ absurd (ground (arith, e, s))
  | inr (m, e) ↦
      remove_each_lem r m out (covered l) (normalize_region_lem l m f e) (ground (arith, e, s))
]
