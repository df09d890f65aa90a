-- ===== src/Server/GrabState/Passive.antt =====
-- No two passive grabs of different clients overlap.
use glasswyrm.Prelude.{
  ℕ, ◌≢◌, ◌⊎◌, false, Bool, true, List, [], ◌∷◌, ◌++◌, none, some, ◌≡◌, inl, inr, All, All-keep_if,
  keep_if, arith, refl, subst, Bool-cases, Option-cases, ◌&&◌, ◌==◌, ◌!=◌,
}
use glasswyrm.Server.GrabState.{
  any_button, any_modifier, GrabState, GrabStatus, PassiveButtonGrab, PassiveButtonGrabRequest,
  passive_overlaps, replace_passive, add_passive,
}

abbrev pub Agrees : PassiveButtonGrabRequest → PassiveButtonGrab → Type 0
Agrees r p = passive_overlaps p.request r ≡ true → p.request.client ≡ r.client

abbrev pub NoConflict : List PassiveButtonGrab → Type 0
NoConflict [] = Unit {0}
NoConflict (p ∷ ps) = All (Agrees p.request) ps × NoConflict ps

-- What an overlap depends on.
abbrev SamePlace : PassiveButtonGrabRequest → PassiveButtonGrabRequest → Type 0
SamePlace a b =
    (a.window ≡ b.window)
    × (a.button ≡ b.button)
    × (a.modifiers ≡ b.modifiers)
    × (a.client ≡ b.client)

overlaps_sym : (a b : PassiveButtonGrabRequest) → passive_overlaps a b ≡ passive_overlaps b a
unfolding passive_overlaps
overlaps_sym a b = ground arith

module _ (a b : PassiveButtonGrabRequest) (same : SamePlace a b) where
  overlaps-same : (c : PassiveButtonGrabRequest) → passive_overlaps c a ≡ passive_overlaps c b
  unfolding passive_overlaps
  overlaps-same c = rw (same.0, same.1, same.2) refl

  Agrees-same : (p : PassiveButtonGrab) → Agrees a p → Agrees b p
  Agrees-same p h o = ground (arith, same.3, h (ground (arith, o, overlaps-same p.request)))

  All-Agrees-same : (ps : List PassiveButtonGrab) → All (Agrees a) ps → All (Agrees b) ps
  All-Agrees-same [] h = tt
  All-Agrees-same (p ∷ ps) h = (Agrees-same p h.0, All-Agrees-same ps h.1)

overlap_places :
    (p r : PassiveButtonGrabRequest)
    → passive_overlaps p r ≡ true
    → p.client ≡ r.client
    → p.button ≡ r.button
    → p.modifiers ≡ r.modifiers
    → SamePlace p r
unfolding passive_overlaps
overlap_places p r o c b m = (ground (arith, o), b, m, c)

replace_none-Agrees :
    (r : PassiveButtonGrabRequest) (ps : List PassiveButtonGrab)
    → replace_passive r ps ≡ none
    → All (Agrees r) ps
unfolding replace_passive
replace_none-Agrees r [] e = tt
replace_none-Agrees r (p ∷ ps) e = elim (Option-cases (replace_passive r ps)) [
  | inl k ↦ ((λ o. ground (arith, e, k, o)), replace_none-Agrees r ps k)
  | inr (x, k) ↦ absurd (ground (arith, e, k))
]

abbrev Kept : List PassiveButtonGrab → List PassiveButtonGrab → Type 0
Kept ps qs = (x : PassiveButtonGrabRequest) → All (Agrees x) ps → All (Agrees x) qs

replace_some-NoConflict :
    (r : PassiveButtonGrabRequest) (ps : List PassiveButtonGrab) (status : GrabStatus)
    (qs : List PassiveButtonGrab)
    → NoConflict ps
    → replace_passive r ps ≡ some (status, qs)
    → NoConflict qs × Kept ps qs
unfolding replace_passive
replace_some-NoConflict r [] status qs h e = absurd (ground (arith, e))
replace_some-NoConflict r (p ∷ ps) status qs h e =
    elim (Bool-cases (passive_overlaps p.request r && (p.request.client != r.client))) [
      | inl b ↦
          let eq : p ∷ ps ≡ qs = ground (arith, e, b) in
          subst (λ (l : List PassiveButtonGrab). NoConflict l × Kept (p ∷ ps) l) eq (h, λ x a. a)
      | inr b ↦
          elim (Bool-cases (
            passive_overlaps p.request r
            && (p.request.button == r.button && p.request.modifiers == r.modifiers))) [
              | inl c ↦
                  let eq : record p { request = r } ∷ ps ≡ qs = ground (arith, e, b, c) in
                  let same =
                    overlap_places p.request r (ground (arith, c)) (ground (arith, b, c))
                      (ground (arith, c)) (ground (arith, c)) in
                  subst (λ (l : List PassiveButtonGrab). NoConflict l × Kept (p ∷ ps) l) eq
                    (
                      (All-Agrees-same p.request r same ps h.0, h.1),
                      λ x a. (
                        (λ o. ground (
                          arith,
                          same.3,
                          a.0 (
                              ground (
                                arith,
                                o,
                                overlaps_sym p.request x,
                                overlaps_sym r x,
                                overlaps-same p.request r same x,
                              )),
                        )),
                        a.1,
                      ),
                    )
              | inr c ↦ elim (Option-cases (replace_passive r ps)) [
                | inl k ↦ absurd (ground (arith, e, b, c, k))
                | inr ((st, ls), k) ↦
                    let ih = replace_some-NoConflict r ps st ls h.1 k in
                    let eq : p ∷ ls ≡ qs = ground (arith, e, b, c, k) in
                    subst (λ (l : List PassiveButtonGrab). NoConflict l × Kept (p ∷ ps) l) eq
                      ((ih.1 p.request h.0, ih.0), λ x a. (a.0, ih.1 x a.1))
              ]
            ]
    ]

append-All :
    (x : PassiveButtonGrabRequest) (ps : List PassiveButtonGrab) (q : PassiveButtonGrab)
    → All (Agrees x) ps
    → Agrees x q
    → All (Agrees x) (ps ++ (q ∷ []))
append-All x [] q h k = (k, tt)
append-All x (p ∷ ps) q h k = (h.0, append-All x ps q h.1 k)

append-NoConflict :
    (ps : List PassiveButtonGrab) (q : PassiveButtonGrab)
    → NoConflict ps
    → All (Agrees q.request) ps
    → NoConflict (ps ++ (q ∷ []))
append-NoConflict [] q h a = (tt, tt)
append-NoConflict (p ∷ ps) q h a = (
  append-All p.request ps q h.0 (λ o. ground (
    arith,
    o,
    overlaps_sym p.request q.request,
    a.0 (ground (arith, o, overlaps_sym p.request q.request)),
  )),
  append-NoConflict ps q h.1 a.1,
)

pub add_passive-NoConflict :
    (r : PassiveButtonGrabRequest) (s : GrabState)
    → NoConflict s.passive_buttons
    → NoConflict (add_passive r s).0.passive_buttons
unfolding add_passive
add_passive-NoConflict r s h = elim (Option-cases (replace_passive r s.passive_buttons)) [
  | inl k ↦
      rw (k, add_passive)
        (append-NoConflict s.passive_buttons
          (record { request = r; serial = s.next_passive_serial }) h
          (replace_none-Agrees r s.passive_buttons k))
  | inr ((status, qs), k) ↦
      rw (k, add_passive) (replace_some-NoConflict r s.passive_buttons status qs h k).0
]

pub keep_if-NoConflict :
    (f : PassiveButtonGrab → Bool) (ps : List PassiveButtonGrab)
    → NoConflict ps
    → NoConflict (keep_if f ps)
unfolding keep_if
keep_if-NoConflict f [] h = tt
keep_if-NoConflict f (p ∷ ps) h = elim (Bool-cases (f p)) [
  | inl e ↦ rw e (All-keep_if (Agrees p.request) f ps h.0, keep_if-NoConflict f ps h.1)
  | inr e ↦ rw e (keep_if-NoConflict f ps h.1)
]

abbrev Distinct : ℕ → ℕ → ℕ → Type 0
Distinct any a b = (a ≢ any) × (b ≢ any) × (a ≢ b)

-- Two grabs that no press fits both.
abbrev pub Apart : PassiveButtonGrabRequest → PassiveButtonGrabRequest → Type 0
Apart p r =
    (p.window ≢ r.window)
    ⊎ Distinct any_button p.button r.button
    ⊎ Distinct any_modifier p.modifiers r.modifiers

abbrev pub Exclusive : List PassiveButtonGrab → Type 0
Exclusive [] = Unit {0}
Exclusive (p ∷ ps) =
    All (λ q. Apart q.request p.request ⊎ (q.request.client ≡ p.request.client)) ps × Exclusive ps

apart_lem : (p r : PassiveButtonGrabRequest) → passive_overlaps p r ≡ false → Apart p r
unfolding passive_overlaps
apart_lem p r e = ground (arith, e)

Agrees-Apart :
    (r : PassiveButtonGrabRequest) (ps : List PassiveButtonGrab)
    → All (Agrees r) ps
    → All (λ q. Apart q.request r ⊎ (q.request.client ≡ r.client)) ps
Agrees-Apart r [] h = tt
Agrees-Apart r (p ∷ ps) h = elim (Bool-cases (passive_overlaps p.request r)) [
  | inl e ↦ (inr (h.0 e), Agrees-Apart r ps h.1)
  | inr e ↦ (inl (apart_lem p.request r e), Agrees-Apart r ps h.1)
]

pub NoConflict-Exclusive : (ps : List PassiveButtonGrab) → NoConflict ps → Exclusive ps
NoConflict-Exclusive [] h = tt
NoConflict-Exclusive (p ∷ ps) h = (Agrees-Apart p.request ps h.0, NoConflict-Exclusive ps h.1)
