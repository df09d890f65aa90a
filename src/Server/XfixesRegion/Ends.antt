-- ===== src/Server/XfixesRegion/Ends.antt =====
-- The loops that merge adjacent rectangles come to an end with nothing left to merge.
use glasswyrm.Prelude.{
  ℕ, zero, suc, Bool, true, false, List, [], ◌∷◌, none, ◌≡◌, ◌⊎◌, ◌≤◌, refl, sym, ap, subst, ◌∙◌,
  inl, inr, Option-cases, arith, All, length,
}
use glasswyrm.Prelude.Int.{ℤ, pos, negsuc, eqb_ℤ}
use glasswyrm.Geometry.Rectangle.{Rectangle, right, bottom}
use glasswyrm.Geometry.Merging.{absorb}
use glasswyrm.Server.XfixesRegion.{merge_pair, merge_from, merge_adjacent, merge_all}
use glasswyrm.Server.XfixesRegion.Merges.{
  merge_from-none, merge_from-some, absorb-length, merge_while_ends,
}

-- Two rectangles that make one: beside each other in a row, or one below the other in a column.
abbrev pub Joins : Rectangle → Rectangle → Type 0
Joins l r =
    ((l.y ≡ r.y) × (l.height ≡ r.height) × (right l ≡ r.x))
    ⊎ ((l.x ≡ r.x) × (l.width ≡ r.width) × (bottom l ≡ r.y))

-- No rectangle joins a later one.
abbrev pub Unjoined : List Rectangle → Type 0
Unjoined [] = Unit {0}
Unjoined (l ∷ rs) = All (λ r. ¬ (Joins l r)) rs × Unjoined rs

eqb_refl : (a : ℤ) → eqb_ℤ a a ≡ true
eqb_refl (pos n) = ground arith
eqb_refl (negsuc n) = ground arith

eqb_of : (a b : ℤ) → a ≡ b → eqb_ℤ a b ≡ true
eqb_of a b e = subst (λ (c : ℤ). eqb_ℤ a c ≡ true) e (eqb_refl a)

merge_pair-none : (l r : Rectangle) → merge_pair l r ≡ none → ¬ (Joins l r)
unfolding merge_pair
merge_pair-none l r e (inl (y, h, x)) =
    absurd (ground (arith, e, eqb_of l.y r.y y, h, eqb_of (right l) r.x x))
merge_pair-none l r e (inr (x, w, y)) =
    absurd (ground (arith, e, eqb_of l.x r.x x, w, eqb_of (bottom l) r.y y))

absorb-none :
    (l : Rectangle) (rs : List Rectangle)
    → absorb merge_pair l rs ≡ none
    → All (λ r. ¬ (Joins l r)) rs
unfolding absorb
absorb-none l [] e = tt
absorb-none l (r ∷ rs) e = elim (Option-cases (merge_pair l r)) [
  | inr (m, p) ↦ absurd (ground (arith, e, p))
  | inl p ↦ elim (Option-cases (absorb merge_pair l rs)) [
    | inl q ↦ (merge_pair-none l r p, absorb-none l rs q)
    | inr (found, q) ↦ absurd (ground (arith, e, p, q))
  ]
]

-- The fuel of merge_adjacent is enough: with more of it the result is the same.
merge_from_enough :
    (n : ℕ) (rs : List Rectangle) → length rs ≤ n → merge_from (suc n) rs ≡ merge_from n rs
unfolding merge_from
merge_from_enough zero [] h = refl
merge_from_enough zero (l ∷ rs) h = absurd (omega arith)
merge_from_enough (suc n) [] h = refl
merge_from_enough (suc n) (l ∷ rs) h = elim (Option-cases (absorb merge_pair l rs)) [
  | inl e ↦
      let ih = merge_from_enough n rs (omega arith) in
      rw (merge_from-none (suc n) l rs e, merge_from-none n l rs e) (rw ih refl)
  | inr ((m, qs), e) ↦
      let ih = merge_from_enough n (m ∷ qs) (omega (arith, absorb-length l rs m qs e)) in
      rw (merge_from-some (suc n) l rs m qs e, merge_from-some n l rs m qs e) (rw ih refl)
]

merge_from-Unjoined :
    (n : ℕ) (rs : List Rectangle) → length rs ≤ n → (merge_from n rs).1 ≡ false → Unjoined rs
unfolding merge_from
merge_from-Unjoined zero [] h f = tt
merge_from-Unjoined zero (l ∷ rs) h f = absurd (omega arith)
merge_from-Unjoined (suc n) [] h f = tt
merge_from-Unjoined (suc n) (l ∷ rs) h f = elim (Option-cases (absorb merge_pair l rs)) [
  | inl e ↦
      let flag : (merge_from n rs).1 ≡ false =
        sym (ap (λ (r : List Rectangle × Bool). r.1) (merge_from-none n l rs e)) ∙ f in
      (absorb-none l rs e, merge_from-Unjoined n rs (omega arith) flag)
  | inr ((m, qs), e) ↦
      let flag : true ≡ false =
        sym (ap (λ (r : List Rectangle × Bool). r.1) (merge_from-some n l rs m qs e)) ∙ f in
      absurd cc
]

-- The loop that merges adjacent rectangles ends: no rectangle of its result is continued by a later
-- one, with the same height at its right edge or with the same width at its lower edge, and they are
-- not more than it began with.
pub merge_all_ends :
    (rs : List Rectangle) → Unjoined (merge_all rs) × (length (merge_all rs) ≤ length rs)
unfolding merge_all merge_adjacent
merge_all_ends rs =
    let ends = merge_while_ends (suc (length rs)) rs (omega arith) in
    (merge_from-Unjoined (length (merge_all rs)) (merge_all rs) (omega arith) ends.0, ends.1)
