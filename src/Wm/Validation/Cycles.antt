-- ===== src/Wm/Validation/Cycles.antt =====
-- src/wm/policy_validation.cpp: `transient_cycle` decides whether a transient chain ends.
use glasswyrm.Prelude.{
  ℕ, zero, suc, ◌+◌, ◌<◌, ◌≡◌, ◌≢◌, ◌↔◌, refl, ap, sym, subst, ◌∙◌, ◌⊎◌, ==_iff, none, some, true,
  false, arith, ◌==◌, length, some_or, Bool-cases, inl, inr,
}
use glasswyrm.Prelude.Map
use glasswyrm.Prelude.Map.{NatMap, find-erase, length-erase-lt}
use glasswyrm.Wm.Types.{RawWindow, RawState}
use glasswyrm.Wm.Lookup.{empty_window}
use glasswyrm.Wm.Validation.{cycle_loop, transient_cycle}

abbrev parent : NatMap RawWindow → ℕ → ℕ
parent all current = (some_or (Map.find current all) empty_window).transient_for

-- The chain from a window ends after `n` steps: at 0, or at an id that is no window.
pub data Chain (all : NatMap RawWindow) : ℕ → ℕ → Type 0 where
  root : {current n : ℕ} → current ≡ 0 → n ≡ 0 → Chain all current n
  missing : {current n : ℕ} → Map.contains current all ≡ false → n ≡ 0 → Chain all current n
  step :
      {current n : ℕ}
      → current ≢ 0
      → Map.contains current all ≡ true
      → Chain all (parent all current) n
      → Chain all current (suc n)

cycle_loop-ne-none :
    (fuel : ℕ) (all : NatMap RawWindow) (current : ℕ) (unvisited : NatMap RawWindow)
    → length unvisited < fuel
    → cycle_loop fuel all current unvisited ≢ none
unfolding cycle_loop
cycle_loop-ne-none zero all current unvisited h = absurd (omega arith)
cycle_loop-ne-none (suc fuel) all current unvisited h = ground (
  arith,
  length-erase-lt current unvisited,
  cycle_loop-ne-none fuel all (parent all current) (Map.erase current unvisited),
)

-- The outcomes of one round.
cycle_round :
    (fuel : ℕ) (all : NatMap RawWindow) (current : ℕ) (unvisited : NatMap RawWindow)
    → (((current ≡ 0) ⊎ (Map.contains current all ≡ false))
        × (cycle_loop (suc fuel) all current unvisited ≡ some false))
      ⊎ ((current ≢ 0)
          × (Map.contains current all ≡ true)
          × (Map.contains current unvisited ≡ false)
          × (cycle_loop (suc fuel) all current unvisited ≡ some true))
      ⊎ ((current ≢ 0)
          × (Map.contains current all ≡ true)
          × (Map.contains current unvisited ≡ true)
          × (cycle_loop (suc fuel) all current unvisited
              ≡ cycle_loop fuel all (parent all current) (Map.erase current unvisited)))
unfolding cycle_loop
cycle_round fuel all current unvisited = grind arith

-- A search that finds no cycle has walked the chain to its end.
cycle_loop-Chain :
    (fuel : ℕ) (all : NatMap RawWindow) (current : ℕ) (unvisited : NatMap RawWindow)
    → cycle_loop fuel all current unvisited ≡ some false
    → (n : ℕ) × Chain all current n
unfolding cycle_loop
cycle_loop-Chain zero all current unvisited e = cc
cycle_loop-Chain (suc fuel) all current unvisited e =
    elim (cycle_round fuel all current unvisited) [
      | inl (inl z, _) ↦ (0, root z refl)
      | inl (inr m, _) ↦ (0, missing m refl)
      | inr (inl (z, m, v, p)) ↦ cc (p, e)
      | inr (inr (z, m, v, p)) ↦
          let (n, c) =
            cycle_loop-Chain fuel all (parent all current) (Map.erase current unvisited)
              (sym p ∙ e) in
          (suc n, step z m c)
    ]

Chain-same_length :
    {all : NatMap RawWindow} {current n m : ℕ} → Chain all current n → Chain all current m → n ≡ m
Chain-same_length (root z p) (root z' q) = omega arith
Chain-same_length (root z p) (missing m q) = omega arith
Chain-same_length (root z p) (step z' m c) = absurd (z' z)
Chain-same_length (missing m p) (root z q) = omega arith
Chain-same_length (missing m p) (missing m' q) = omega arith
Chain-same_length (missing m p) (step z m' c) = cc
Chain-same_length (step z m c) (root z' q) = absurd (z z')
Chain-same_length (step z m c) (missing m' q) = cc
Chain-same_length (step z m c) (step z' m' d) = ap suc (Chain-same_length c d)

-- Every window that the search has visited has a longer chain than the one it stands at.
Visited : NatMap RawWindow → NatMap RawWindow → ℕ → Type 0
Visited all unvisited n =
    (c : ℕ)
    → Map.contains c all ≡ true
    → Map.contains c unvisited ≡ false
    → (m : ℕ) × Chain all c m × (n < m)

visit :
    (all unvisited : NatMap RawWindow) (current n : ℕ)
    → Chain all current (suc n)
    → Visited all unvisited (suc n)
    → Visited all (Map.erase current unvisited) n
unfolding Visited
visit all unvisited current n chain v c known gone = elim (Bool-cases (current == c)) [
  | inl same ↦
      (suc n, subst (λ k. Chain all k (suc n)) ((==_iff current c).0 same) chain, omega arith)
  | inr differs ↦
      let (m, d, h) = v c known (rw (find-erase, differs) at gone) in (m, d, omega arith)
]

next_of :
    {all : NatMap RawWindow} {current n : ℕ}
    → Chain all current n
    → current ≢ 0
    → Map.contains current all ≡ true
    → (k : ℕ) × (n ≡ suc k) × Chain all (parent all current) k
next_of (root z p) h m = absurd (h z)
next_of (missing m p) h m' = cc
next_of (step {n = k} z m c) h m' = (k, refl, c)

-- Along a chain that ends the search never comes back to a window.
Chain-cycle_loop :
    (fuel : ℕ) (all : NatMap RawWindow) (current : ℕ) (unvisited : NatMap RawWindow) (n : ℕ)
    → Chain all current n
    → Visited all unvisited n
    → cycle_loop fuel all current unvisited ≢ some true
unfolding cycle_loop Visited
Chain-cycle_loop zero all current unvisited n chain v e = cc
Chain-cycle_loop (suc fuel) all current unvisited n chain v e =
    elim (cycle_round fuel all current unvisited) [
      | inl (_, p) ↦ absurd (ground (arith, p, e))
      | inr (inl (z, m, gone, p)) ↦
          let (k, d, h) = v current m gone in absurd (omega (arith, Chain-same_length chain d))
      | inr (inr (z, m, there, p)) ↦
          let (k, eq, rest) = next_of chain z m in
          Chain-cycle_loop fuel all (parent all current) (Map.erase current unvisited) k rest
            (visit all unvisited current k (subst (λ i. Chain all current i) eq chain)
              (subst (λ i. Visited all unvisited i) eq v))
            (sym p ∙ e)
    ]

Visited-at_first : (all : NatMap RawWindow) (n : ℕ) → Visited all all n
unfolding Visited
Visited-at_first all n c known gone = cc

-- `transient_cycle` says no exactly if the transient chain of the window ends, at a window that is
-- transient for nothing or for an unknown one.
pub transient_cycle_iff :
    (raw : RawState) (id : ℕ)
    → (transient_cycle raw id ≡ false) ↔ ((n : ℕ) × Chain raw.windows id n)
unfolding transient_cycle
transient_cycle_iff raw id =
    let fuel : ℕ = length raw.windows + 1 in
    let total : cycle_loop fuel raw.windows id raw.windows ≢ none =
      cycle_loop-ne-none fuel raw.windows id raw.windows (omega arith) in
    (
      λ e. cycle_loop-Chain fuel raw.windows id raw.windows (ground (arith, total)),
      λ (n, chain). ground (
        arith,
        total,
        Chain-cycle_loop fuel raw.windows id raw.windows n chain (Visited-at_first raw.windows n),
      ),
    )
