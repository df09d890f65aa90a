-- ===== src/Server/XfixesRegion/Merges.antt =====
-- Merging adjacent rectangles keeps them regular and keeps the layers over each pixel, and makes them
-- fewer.
use glasswyrm.Prelude.{
  ℕ, zero, suc, true, false, List, [], ◌∷◌, none, some, ◌≡◌, ◌<◌, ◌≤◌, refl, sym, ap, ◌∙◌, inl, inr,
  Bool-cases, Option-cases, arith, All, length,
}
use glasswyrm.Prelude.Int.{ℤ}
use glasswyrm.Geometry.Rectangle.{Rectangle, layers}
use glasswyrm.Geometry.Merging.{absorb}
use glasswyrm.Server.XfixesRegion.{merge_pair, merge_from, merge_adjacent, merge_while, merge_all}
use glasswyrm.Server.XfixesRegion.Regular.{IsRegular}
use glasswyrm.Server.XfixesRegion.Pairs.{merge_pair-Merges}

-- What replaces a list without a change to the pixels.
abbrev Keeps : List Rectangle → List Rectangle → Type 0
Keeps rs qs = All IsRegular qs × ((px py : ℤ) → layers qs px py ≡ layers rs px py)

absorb_lem :
    (l : Rectangle) (rs : List Rectangle) (m : Rectangle) (qs : List Rectangle)
    → IsRegular l
    → All IsRegular rs
    → absorb merge_pair l rs ≡ some (m, qs)
    → Keeps (l ∷ rs) (m ∷ qs)
unfolding absorb layers
absorb_lem l [] m qs hl h e = absurd (ground arith)
absorb_lem l (r ∷ rs) m qs hl h e = elim (Option-cases (merge_pair l r)) [
  | inr (m', p) ↦
      let merged = merge_pair-Merges l r hl h.0 m' p in
      let em : m' ≡ m = ground (arith, e, p) in
      let eq : rs ≡ qs = ground (arith, e, p) in
      let h' = h.1 in
      rw (sym em) (rw (sym eq) ((merged.0, h'), λ px py. ground (arith, merged.1 px py)))
  | inl p ↦ elim (Option-cases (absorb merge_pair l rs)) [
    | inl q ↦ absurd (ground (arith, e, p, q))
    | inr ((m', ps), q) ↦
        let ih = absorb_lem l rs m' ps hl h.1 q in
        let em : m' ≡ m = ground (arith, e, p, q) in
        let eq : r ∷ ps ≡ qs = ground (arith, e, p, q) in
        rw (sym em) (rw (sym eq) ((ih.0.0, (h.0, ih.0.1)), λ px py. ground (arith, ih.1 px py)))
  ]
]

pub absorb-length :
    (l : Rectangle) (rs : List Rectangle) (m : Rectangle) (qs : List Rectangle)
    → absorb merge_pair l rs ≡ some (m, qs)
    → length rs ≡ suc (length qs)
unfolding absorb
absorb-length l [] m qs e = absurd (ground arith)
absorb-length l (r ∷ rs) m qs e = elim (Option-cases (merge_pair l r)) [
  | inr (m', p) ↦ ground (arith, e, p)
  | inl p ↦ elim (Option-cases (absorb merge_pair l rs)) [
    | inl q ↦ absurd (ground (arith, e, p, q))
    | inr ((m', ps), q) ↦ ground (arith, e, p, q, absorb-length l rs m' ps q)
  ]
]

merge_behind :
    (n : ℕ) (l : Rectangle) (rs : List Rectangle)
    → All IsRegular (l ∷ rs)
    → Keeps rs (merge_from n rs).0
    → Keeps (l ∷ rs) (l ∷ (merge_from n rs).0)
unfolding layers
merge_behind n l rs h k = ((h.0, k.0), λ px py. omega (arith, k.1 px py))

module _ (n : ℕ) (l : Rectangle) (rs : List Rectangle) where
  pub merge_from-none :
      absorb merge_pair l rs ≡ none
      → merge_from (suc n) (l ∷ rs) ≡ (l ∷ (merge_from n rs).0, (merge_from n rs).1)
  unfolding merge_from
  merge_from-none e = rw (e, merge_from) refl

  pub merge_from-some :
      (m : Rectangle) (qs : List Rectangle)
      → absorb merge_pair l rs ≡ some (m, qs)
      → merge_from (suc n) (l ∷ rs) ≡ ((merge_from n (m ∷ qs)).0, true)
  unfolding merge_from
  merge_from-some m qs e = rw (e, merge_from) refl

module _ (n : ℕ) (rs : List Rectangle) where
  merge_while_more :
      (merge_adjacent rs).1 ≡ true → merge_while (suc n) rs ≡ merge_while n (merge_adjacent rs).0
  unfolding merge_while
  merge_while_more e = rw (e, merge_while) refl

  merge_while_done : (merge_adjacent rs).1 ≡ false → merge_while (suc n) rs ≡ (merge_adjacent rs).0
  unfolding merge_while
  merge_while_done e = rw (e, merge_while) refl

merge_from-Keeps : (n : ℕ) (rs : List Rectangle) → All IsRegular rs → Keeps rs (merge_from n rs).0
unfolding merge_from
merge_from-Keeps zero rs h = (h, λ px py. refl)
merge_from-Keeps (suc n) [] h = (tt, λ px py. refl)
merge_from-Keeps (suc n) (l ∷ rs) h = elim (Option-cases (absorb merge_pair l rs)) [
  | inl e ↦ rw (merge_from-none n l rs e) (merge_behind n l rs h (merge_from-Keeps n rs h.1))
  | inr ((m, qs), e) ↦
      let step = absorb_lem l rs m qs h.0 h.1 e in
      let ih = merge_from-Keeps n (m ∷ qs) step.0 in
      rw (merge_from-some n l rs m qs e) (ih.0, λ px py. ih.1 px py ∙ step.1 px py)
]

merge_from_shorter :
    (n : ℕ) (rs : List Rectangle)
    → (length (merge_from n rs).0 ≤ length rs)
      × ((merge_from n rs).1 ≡ true → length (merge_from n rs).0 < length rs)
      × ((merge_from n rs).1 ≡ false → (merge_from n rs).0 ≡ rs)
unfolding merge_from
merge_from_shorter zero rs = (omega arith, λ h. cc, λ h. refl)
merge_from_shorter (suc n) [] = (omega arith, λ h. cc, λ h. refl)
merge_from_shorter (suc n) (l ∷ rs) = elim (Option-cases (absorb merge_pair l rs)) [
  | inl e ↦
      let ih = merge_from_shorter n rs in
      rw (merge_from-none n l rs e) (
        omega (arith, ih.0),
        λ h. omega (arith, ih.1 h),
        λ h. ap (λ (qs : List Rectangle). l ∷ qs) (ih.2 h),
      )
  | inr ((m, qs), e) ↦
      let ih = (merge_from_shorter n (m ∷ qs)).0 in
      let one = absorb-length l rs m qs e in
      rw (merge_from-some n l rs m qs e)
        (omega (arith, ih, one), (λ h. omega (arith, ih, one)), λ h. cc)
]

merge_while-Keeps : (n : ℕ) (rs : List Rectangle) → All IsRegular rs → Keeps rs (merge_while n rs)
unfolding merge_while merge_adjacent
merge_while-Keeps zero rs h = (h, λ px py. refl)
merge_while-Keeps (suc n) rs h =
    let once = merge_from-Keeps (length rs) rs h in
    elim (Bool-cases (merge_adjacent rs).1) [
      | inl e ↦
          let ih = merge_while-Keeps n (merge_adjacent rs).0 once.0 in
          rw (merge_while_more n rs e) (ih.0, λ px py. ih.1 px py ∙ once.1 px py)
      | inr e ↦ rw (merge_while_done n rs e) once
    ]

pub merge_while_ends :
    (n : ℕ) (rs : List Rectangle)
    → length rs < n
    → ((merge_adjacent (merge_while n rs)).1 ≡ false) × (length (merge_while n rs) ≤ length rs)
unfolding merge_while merge_adjacent
merge_while_ends zero rs h = absurd (omega arith)
merge_while_ends (suc n) rs h =
    let once = merge_from_shorter (length rs) rs in
    elim (Bool-cases (merge_adjacent rs).1) [
      | inl e ↦
          let ih = merge_while_ends n (merge_adjacent rs).0 (omega (arith, once.1 e)) in
          rw (merge_while_more n rs e) (ih.0, omega (arith, ih.1, once.0))
      | inr e ↦ rw (merge_while_done n rs e) (rw (once.2 e) (e, omega arith))
    ]

pub merge_all-Keeps : (rs : List Rectangle) → All IsRegular rs → Keeps rs (merge_all rs)
unfolding merge_all
merge_all-Keeps rs h = merge_while-Keeps (suc (length rs)) rs h
