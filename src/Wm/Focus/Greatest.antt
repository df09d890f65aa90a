-- ===== src/Wm/Focus/Greatest.antt =====
-- src/wm/policy_focus.cpp, select_focus: the window selected has the greatest key.
use glasswyrm.Prelude.{
  ℕ, ◌≡◌, ◌≢◌, ◌<◌, ◌≤◌, Bool, ◌!=◌, sym, any_of, refl, subst, ◌⊎◌, inl, inr, List, [], ◌∷◌, some,
  true, false, arith, All, Bool-cases,
}
use mathlib.Core.Option.{some-injective}
use glasswyrm.Prelude.Map.{NatMap}
use glasswyrm.Prelude.Sort.{lex_lt, lex_lt_trans, lex_lt_irrefl}
use glasswyrm.Wm.Types.{RawState, WindowState}
use glasswyrm.Wm.Lookup.{window_at, is_fullscreen}
use glasswyrm.Wm.Focus.{selection_key, max_element, select_focus, focus_key, focus_rank, applied_at}

-- The result of the search is its start, or has a larger key.
max_element_reach :
    (key : ℕ → List ℕ) (best : ℕ) (ids : List ℕ)
    → (max_element key best ids ≡ best)
      ⊎ (lex_lt (key best) (key (max_element key best ids)) ≡ true)
unfolding max_element
max_element_reach key best [] = inl refl
max_element_reach key best (id ∷ ids) = elim (Bool-cases (lex_lt (key best) (key id))) [
  | inl e ↦ rw e (
      inr (elim (max_element_reach key id ids) [
        | inl same ↦ rw same e
        | inr more ↦ lex_lt_trans (key best) (key id) _ e more
      ]))
  | inr e ↦ rw e (max_element_reach key best ids)
]

abbrev NotAbove : (ℕ → List ℕ) → ℕ → ℕ → Type 0
NotAbove key best id = lex_lt (key best) (key id) ≡ false

reach-NotAbove :
    (key : ℕ → List ℕ) (best id m : ℕ)
    → (m ≡ best) ⊎ (lex_lt (key best) (key m) ≡ true)
    → NotAbove key best id
    → NotAbove key m id
reach-NotAbove key best id m (inl same) n = rw same n
reach-NotAbove key best id m (inr more) n = ground (arith, lex_lt_trans (key best) (key m) (key id))

max_element-NotAbove :
    (key : ℕ → List ℕ) (best : ℕ) (ids : List ℕ)
    → All (NotAbove key (max_element key best ids)) (best ∷ ids)
unfolding max_element
max_element-NotAbove key best [] = (lex_lt_irrefl (key best), tt)
max_element-NotAbove key best (id ∷ ids) = elim (Bool-cases (lex_lt (key best) (key id))) [
  | inl e ↦
      let (top, rest) = max_element-NotAbove key id ids in
      let m : ℕ = max_element key id ids in
      let low : NotAbove key m best =
        ground (arith, lex_lt_trans (key m) (key best) (key id), e, top) in
      subst (λ k. All (NotAbove key (max_element key k ids)) (best ∷ id ∷ ids)) (rw e)
        (low, (top, rest))
  | inr e ↦
      let (top, rest) = max_element-NotAbove key best ids in
      subst (λ k. All (NotAbove key (max_element key k ids)) (best ∷ id ∷ ids)) (rw e)
        (top, (reach-NotAbove key best id _ (max_element_reach key best ids) e, rest))
]

abbrev pub IsAmong : List ℕ → ℕ → Type 0
IsAmong [] id = ⊥
IsAmong (c ∷ cs) id = (c ≡ id) ⊎ IsAmong cs id

max_element-IsAmong :
    (key : ℕ → List ℕ) (best : ℕ) (ids : List ℕ) → IsAmong (best ∷ ids) (max_element key best ids)
unfolding max_element
max_element-IsAmong key best [] = inl refl
max_element-IsAmong key best (id ∷ ids) = elim (Bool-cases (lex_lt (key best) (key id))) [
  | inl e ↦
      let same : max_element key id ids ≡ max_element key best (id ∷ ids) = rw e refl in
      subst (IsAmong (best ∷ id ∷ ids)) same (inr (max_element-IsAmong key id ids))
  | inr e ↦
      let same : max_element key best ids ≡ max_element key best (id ∷ ids) = rw e refl in
      subst (IsAmong (best ∷ id ∷ ids)) same
        (elim (max_element-IsAmong key best ids) [ inl a ↦ inl a | inr a ↦ inr (inr a) ])
]

greatest_key :
    (raw : RawState) (windows : NatMap WindowState) (candidates : List ℕ) (id : ℕ)
    → select_focus raw windows candidates ≡ some id
    → All (NotAbove (selection_key raw windows candidates) id) candidates
unfolding select_focus
greatest_key raw windows [] id e = tt
greatest_key raw windows (c ∷ cs) id e =
    subst (λ k. All (NotAbove (selection_key raw windows (c ∷ cs)) k) (c ∷ cs))
      (some-injective _ _ e) (max_element-NotAbove (selection_key raw windows (c ∷ cs)) c cs)

-- Of two windows on one level: the one mapped last, then the one created last.
abbrev MappedLater : RawState → ℕ → ℕ → Type 0
MappedLater raw id c =
    ((window_at raw c).map_serial < (window_at raw id).map_serial)
    ⊎ (((window_at raw c).map_serial ≡ (window_at raw id).map_serial)
        × (((window_at raw c).creation_serial < (window_at raw id).creation_serial)
            ⊎ (((window_at raw c).creation_serial ≡ (window_at raw id).creation_serial)
                × ((window_at raw c).window_id ≤ (window_at raw id).window_id))))

-- First the one focused last, if focus serials are in use.
abbrev Later : RawState → Bool → ℕ → ℕ → Type 0
Later raw has_explicit id c =
    ((has_explicit ≡ false) × MappedLater raw id c)
    ⊎ ((has_explicit ≡ true) × ((window_at raw c).focus_serial < (window_at raw id).focus_serial))
    ⊎ ((has_explicit ≡ true)
        × ((window_at raw c).focus_serial ≡ (window_at raw id).focus_serial)
        × MappedLater raw id c)

lex_lt_step :
    (x y : ℕ) (xs ys : List ℕ)
    → lex_lt (x ∷ xs) (y ∷ ys) ≡ false
    → (y < x) ⊎ ((y ≡ x) × (lex_lt xs ys ≡ false))
unfolding lex_lt
lex_lt_step x y xs ys h = ground (arith, h)

-- What is compared behind the rank.
abbrev serials : RawState → Bool → ℕ → List ℕ
serials raw true id =
    (window_at raw id).focus_serial
    ∷ (window_at raw id).map_serial
    ∷ (window_at raw id).creation_serial
    ∷ (window_at raw id).window_id
    ∷ []
serials raw false id =
    (window_at raw id).map_serial
    ∷ (window_at raw id).creation_serial
    ∷ (window_at raw id).window_id
    ∷ []

mapped_lem :
    (raw : RawState) (id c : ℕ)
    → lex_lt (serials raw false id) (serials raw false c) ≡ false
    → MappedLater raw id c
mapped_lem raw id c h = elim (lex_lt_step _ _ _ _ h) [
  | inl m ↦ inl m
  | inr (m, h2) ↦ elim (lex_lt_step _ _ _ _ h2) [
    | inl k ↦ inr (m, inl k)
    | inr (k, h3) ↦ elim (lex_lt_step _ _ _ _ h3) [
      | inl w ↦ inr (m, inr (k, omega (arith, w)))
      | inr (w, h4) ↦ inr (m, inr (k, omega (arith, w)))
    ]
  ]
]

serials_lem :
    (raw : RawState) (e : Bool) (id c : ℕ)
    → lex_lt (serials raw e id) (serials raw e c) ≡ false
    → Later raw e id c
serials_lem raw false id c h = inl (refl, mapped_lem raw id c h)
serials_lem raw true id c h = elim (lex_lt_step _ _ _ _ h) [
  | inl f ↦ inr (inl (refl, f))
  | inr (f, rest) ↦ inr (inr (refl, f, mapped_lem raw id c rest))
]

-- Which of two windows comes before the other, from what is known of them: whether one of the
-- candidates has a focus serial, and whether one is fullscreen.
module _ (raw : RawState) (windows : NatMap WindowState) (has_explicit has_fullscreen : Bool) where
  abbrev Dialog : ℕ → Type 0
  Dialog id = (has_fullscreen ≡ true) × ((window_at raw id).transient_for ≢ 0)

  abbrev Fullscreen : ℕ → Type 0
  Fullscreen id = is_fullscreen (applied_at windows id) ≡ true

  abbrev pub Precedes : ℕ → ℕ → Type 0
  Precedes id c =
      (Dialog id × ¬ (Dialog c))
      ⊎ (Dialog id × Dialog c × Later raw has_explicit id c)
      ⊎ (¬ (Dialog id) × ¬ (Dialog c) × Fullscreen id × ¬ (Fullscreen c))
      ⊎ (¬ (Dialog id)
          × ¬ (Dialog c)
          × (is_fullscreen (applied_at windows id) ≡ is_fullscreen (applied_at windows c))
          × Later raw has_explicit id c)

  rank_less :
      (id c : ℕ)
      → focus_rank raw windows has_fullscreen c < focus_rank raw windows has_fullscreen id
      → (Dialog id × ¬ (Dialog c))
        ⊎ (¬ (Dialog id) × ¬ (Dialog c) × Fullscreen id × ¬ (Fullscreen c))
  unfolding focus_rank
  rank_less id c h = ground (arith, h)

  rank_equal :
      (id c : ℕ)
      → focus_rank raw windows has_fullscreen c ≡ focus_rank raw windows has_fullscreen id
      → (Dialog id × Dialog c)
        ⊎ (¬ (Dialog id)
            × ¬ (Dialog c)
            × (is_fullscreen (applied_at windows id) ≡ is_fullscreen (applied_at windows c)))
  unfolding focus_rank
  rank_equal id c h = ground (arith, h)

  precedes_lem :
      (id c : ℕ)
      → lex_lt
          (focus_rank raw windows has_fullscreen id ∷ serials raw has_explicit id)
          (focus_rank raw windows has_fullscreen c ∷ serials raw has_explicit c)
        ≡ false
      → Precedes id c
  precedes_lem id c h = elim (lex_lt_step _ _ _ _ h) [
    | inl less ↦ elim (rank_less id c less) [ inl d ↦ inl d | inr f ↦ inr (inr (inl f)) ]
    | inr (same, rest) ↦
        let later = serials_lem raw has_explicit id c rest in
        elim (rank_equal id c same) [
          | inl d ↦ inr (inl (d.0, d.1, later))
          | inr f ↦ inr (inr (inr (f.0, f.1, f.2, later)))
        ]
  ]

focus_key-serials :
    (raw : RawState) (windows : NatMap WindowState) (e f : Bool) (id : ℕ)
    → focus_key raw windows e f id ≡ focus_rank raw windows f id ∷ serials raw e id
unfolding focus_key
focus_key-serials raw windows true f id = refl
focus_key-serials raw windows false f id = refl

All-Precedes :
    (raw : RawState) (windows : NatMap WindowState) (e f : Bool) (id : ℕ) (cs : List ℕ)
    → All (NotAbove (focus_key raw windows e f) id) cs
    → All (Precedes raw windows e f id) cs
All-Precedes raw windows e f id [] h = tt
All-Precedes raw windows e f id (c ∷ cs) h = (
  precedes_lem raw windows e f id c (
      rw (sym (focus_key-serials raw windows e f id), sym (focus_key-serials raw windows e f c))
        h.0),
  All-Precedes raw windows e f id cs h.1,
)

-- The window that `select_focus` selects is one of the candidates and comes before each of them: if
-- one of them is fullscreen, the windows that are transient come first, then those that are
-- fullscreen; among equals the one focused last, if one of them was ever focused, then the one mapped
-- last, the one created last, and the one with the greater number.
pub select_focus_greatest :
    (raw : RawState) (windows : NatMap WindowState) (candidates : List ℕ) (id : ℕ)
    → select_focus raw windows candidates ≡ some id
    → IsAmong candidates id
      × All
          (Precedes raw windows
            (any_of (λ c. (window_at raw c).focus_serial != 0) candidates)
            (any_of (λ c. is_fullscreen (applied_at windows c)) candidates)
            id)
          candidates
unfolding select_focus selection_key
select_focus_greatest raw windows [] id e = absurd cc
select_focus_greatest raw windows (c ∷ cs) id e = (
  subst (IsAmong (c ∷ cs)) (some-injective _ _ e)
      (max_element-IsAmong (selection_key raw windows (c ∷ cs)) c cs),
  All-Precedes raw windows (any_of (λ d. (window_at raw d).focus_serial != 0) (c ∷ cs))
      (any_of (λ d. is_fullscreen (applied_at windows d)) (c ∷ cs)) id (c ∷ cs)
      (greatest_key raw windows (c ∷ cs) id e),
)
