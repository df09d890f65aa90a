-- ===== src/Geometry/Region/Covering.antt =====
-- A region covers all that was added to it, and stays inside its bounds.
use glasswyrm.Prelude.{
  ℕ, zero, suc, true, List, [], ◌∷◌, none, some, ◌≡◌, ◌<◌, ◌≤◌, ◌^◌, ◌||◌, arith, All, length,
  Option-cases, inl, inr, any_of, refl, sym, subst, ◌∙◌,
}
use glasswyrm.Prelude.Int.{ℤ, pos, ◌+ℤ◌, ◌-ℤ◌, ◌≤ℤ◌, min_ℤ, max_ℤ, bits_32, +ℤ_parts, -ℤ_parts}
use glasswyrm.Geometry.Rectangle.{Rectangle, right, bottom, extent, covers, covered}
use glasswyrm.Geometry.Rectangle.Unions.{Inner, union_of, union_of-Inner, covers-union_of}
use glasswyrm.Geometry.Merging.{absorb}
use glasswyrm.Geometry.Region.{bounds_of, merge_touching, merge_first, merge_while}

bits_32-extent :
    (a b c : ℤ) (n : ℕ)
    → c ≤ℤ a
    → a ≤ℤ b
    → b ≤ℤ (c +ℤ pos n)
    → n < 2 ^ 32
    → bits_32 (b -ℤ a) ≡ extent a b
bits_32-extent a b c n h k l m = ground (arith, -ℤ_parts b a, +ℤ_parts c (pos n))

abbrev pub Wider : List Rectangle → List Rectangle → Type 0
Wider rs qs = (px py : ℤ) → covered rs px py ≡ true → covered qs px py ≡ true

module _ (o : Rectangle) (wide : o.width < 2 ^ 32) (high : o.height < 2 ^ 32) where
  bounds_of-union_of : (l r : Rectangle) → Inner o l → Inner o r → bounds_of l r ≡ union_of l r
  unfolding bounds_of
  bounds_of-union_of l r hl hr =
      rw
        (
          bits_32-extent (min_ℤ l.x r.x) (max_ℤ (right l) (right r)) o.x o.width (ground arith)
              (ground (arith, +ℤ_parts l.x (pos l.width))) (ground arith) wide,
          bits_32-extent (min_ℤ l.y r.y) (max_ℤ (bottom l) (bottom r)) o.y o.height (ground arith)
              (ground (arith, +ℤ_parts l.y (pos l.height))) (ground arith) high,
        )
        refl

  merge_touching_lem :
      (l r m : Rectangle)
      → Inner o l
      → Inner o r
      → merge_touching l r ≡ some m
      → Inner o m
        × ((px py : ℤ) → (covers l px py || covers r px py) ≡ true → covers m px py ≡ true)
  unfolding merge_touching
  merge_touching_lem l r m hl hr e =
      let eq : bounds_of l r ≡ m = ground (arith, e) in
      subst
        (λ (q : Rectangle).
          Inner o q
          × ((px py : ℤ) → (covers l px py || covers r px py) ≡ true → covers q px py ≡ true))
        (sym (bounds_of-union_of l r hl hr) ∙ eq)
        (union_of-Inner o l r hl hr, covers-union_of o l r hl hr)

  absorb_lem :
      (l : Rectangle) (rs : List Rectangle) (found : Rectangle × List Rectangle)
      → Inner o l
      → All (Inner o) rs
      → absorb merge_touching l rs ≡ some found
      → All (Inner o) (found.0 ∷ found.1)
        × Wider (l ∷ rs) (found.0 ∷ found.1)
        × (length rs ≡ suc (length found.1))
  unfolding absorb any_of
  absorb_lem l [] found hl h e = absurd (ground arith)
  absorb_lem l (r ∷ rs) found hl h e = elim (Option-cases (merge_touching l r)) [
    | inr (m, p) ↦
        let merged = merge_touching_lem l r m hl h.0 p in
        let eq : (m, rs) ≡ found = ground (arith, e, p) in
        rw (sym eq) ((merged.0, h.1), (λ px py c. ground (arith, c, merged.1 px py)), refl)
    | inl p ↦ elim (Option-cases (absorb merge_touching l rs)) [
      | inl q ↦ absurd (ground (arith, e, p, q))
      | inr ((m, ps), q) ↦
          let ih = absorb_lem l rs (m, ps) hl h.1 q in
          let eq : (m, r ∷ ps) ≡ found = ground (arith, e, p, q) in
          rw (sym eq) (
            (ih.0.0, (h.0, ih.0.1)),
            (λ px py c. ground (arith, c, ih.1 px py)),
            omega (arith, ih.2),
          )
    ]
  ]

  merge_first_lem :
      (rs next : List Rectangle)
      → All (Inner o) rs
      → merge_first rs ≡ some next
      → All (Inner o) next × Wider rs next × (length rs ≡ suc (length next))
  unfolding merge_first any_of
  merge_first_lem [] next h e = absurd (ground arith)
  merge_first_lem (r ∷ rs) next h e = elim (Option-cases (absorb merge_touching r rs)) [
    | inr (found, p) ↦
        let step = absorb_lem r rs found h.0 h.1 p in
        let eq : found.0 ∷ found.1 ≡ next = ground (arith, e, p) in
        subst
          (λ (q : List Rectangle).
            All (Inner o) q × Wider (r ∷ rs) q × (suc (length rs) ≡ suc (length q)))
          eq (step.0, step.1, omega (arith, step.2))
    | inl p ↦ elim (Option-cases (merge_first rs)) [
      | inl q ↦ absurd (ground (arith, e, p, q))
      | inr (qs, q) ↦
          let ih = merge_first_lem rs qs h.1 q in
          let eq : r ∷ qs ≡ next = ground (arith, e, p, q) in
          rw (sym eq) ((h.0, ih.0), (λ px py c. ground (arith, c, ih.1 px py)), omega (arith, ih.2))
    ]
  ]

  abbrev pub Merged : List Rectangle → List Rectangle → Type 0
  Merged rs qs = All (Inner o) qs × Wider rs qs × (merge_first qs ≡ none) × (length qs ≤ length rs)

  pub merge_while_lem :
      (n : ℕ) (rs : List Rectangle)
      → All (Inner o) rs
      → length rs ≤ n
      → Merged rs (merge_while n rs)
  unfolding merge_while merge_first
  merge_while_lem zero [] h k = (tt, (λ px py c. c), refl, omega arith)
  merge_while_lem zero (r ∷ rs) h k = absurd (omega arith)
  merge_while_lem (suc n) rs h k = elim (Option-cases (merge_first rs)) [
    | inl e ↦ rw (e, merge_while) (h, (λ px py c. c), e, omega arith)
    | inr (next, e) ↦
        let step = merge_first_lem rs next h e in
        let ih = merge_while_lem n next step.0 (omega (arith, step.2)) in
        rw (e, merge_while)
          (ih.0, (λ px py c. ih.1 px py (step.1 px py c)), ih.2, omega (arith, ih.3, step.2))
  ]
