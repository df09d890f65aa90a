-- ===== src/Server/AtomTable/Interning.antt =====
-- src/glasswyrmd/atom_table.cpp: names and atoms stay in one-to-one correspondence.
use Prim.Native.String.{String}
use text.Mathlib.Text.{◌==◌ as str_eq}
use text.Mathlib.TextEquality.{eq_iff}
use text.Mathlib.TextPositions.{eq_refl}
use glasswyrm.Prelude.{
  ℕ, ◌≤◌, ◌≡◌, ◌≢◌, ◌⊎◌, inl, inr, refl, none, some, Bool, true, false, arith, ◌==◌, if◌then◌else◌,
  Option-cases,
}
use glasswyrm.Prelude.Map.{find-insert}
use glasswyrm.Server.AtomTable.{
  AtomTable, success, exhausted, find_id, emplace_pair, find, name, add_atom, intern_missing,
  intern,
}

-- A name has an atom exactly if the atom has that name; 0 is no atom; and dynamic atoms start above
-- those in use, until they run out.
pub record IsConsistent (t : AtomTable) : Type 0 where
  pub to_name : (n : String) (a : ℕ) → find n t ≡ some a → name a t ≡ some n
  pub to_atom : (n : String) (a : ℕ) → name a t ≡ some n → find n t ≡ some a
  pub no_zero : name 0 t ≡ none
  pub above : t.next_dynamic_atom ≢ 0 → (a : ℕ) → t.next_dynamic_atom ≤ a → name a t ≡ none

-- A new pair, with any `k` for the next dynamic atom that is above the atoms in use.
module _ (a : ℕ) (n : String) (t : AtomTable) (c : IsConsistent t) (missing : find n t ≡ none)
    (unused : name a t ≡ none) where
  find-emplace_pair :
      (m : String) → find m (emplace_pair a n t) ≡ (if str_eq n m then some a else find m t)
  unfolding find emplace_pair find_id
  find-emplace_pair m = ground (arith, missing)

  name-emplace_pair : (b : ℕ) → name b (emplace_pair a n t) ≡ (if a == b then some n else name b t)
  unfolding name emplace_pair
  name-emplace_pair b = ground (arith, unused, find-insert a b n t.names_by_id)

  pub emplace_pair-IsConsistent :
      (k : ℕ)
      → a ≢ 0
      → (k ≢ 0 → (b : ℕ) → k ≤ b → (a ≢ b) × (name b t ≡ none))
      → IsConsistent (record (emplace_pair a n t) { next_dynamic_atom = k })
  unfolding find name
  emplace_pair-IsConsistent k h bound = record {
    to_name = λ m b e.
        ground
          (arith, e, find-emplace_pair m, name-emplace_pair b, eq_iff n m, c.to_name m b, unused);
    to_atom = λ m b e.
        ground
          (arith, e, find-emplace_pair m, name-emplace_pair b, eq_iff n m, c.to_atom m b, missing);
    no_zero = ground (arith, name-emplace_pair 0, c.no_zero);
    above = λ h2 b le. ground (arith, bound h2 b le, name-emplace_pair b);
  }

module _ (n : String) (t : AtomTable) (c : IsConsistent t) (missing : find n t ≡ none)
    (h : t.next_dynamic_atom ≢ 0) where
  next_unused : name t.next_dynamic_atom t ≡ none
  next_unused = c.above h t.next_dynamic_atom (omega arith)

  find-add_atom :
      (m : String)
      → find m (add_atom n t) ≡ (if str_eq n m then some t.next_dynamic_atom else find m t)
  unfolding add_atom find emplace_pair
  find-add_atom m = find-emplace_pair t.next_dynamic_atom n t c missing next_unused m

  name-add_atom :
      (a : ℕ) → name a (add_atom n t) ≡ (if t.next_dynamic_atom == a then some n else name a t)
  unfolding add_atom name emplace_pair
  name-add_atom a = name-emplace_pair t.next_dynamic_atom n t c missing next_unused a

  add_atom-IsConsistent : IsConsistent (add_atom n t)
  unfolding add_atom
  add_atom-IsConsistent =
      emplace_pair-IsConsistent t.next_dynamic_atom n t c missing next_unused _ h
        (λ h2 b le. (ground arith, c.above h b (ground arith)))

-- The three outcomes for a name that the table lacks.
intern_missing_cases :
    (n : String) (only : Bool) (t : AtomTable)
    → ((only ≡ true) × (intern_missing n only t ≡ (t, record { status = success; atom = 0 })))
      ⊎ ((only ≡ false) × (intern_missing n only t ≡ (t, record { status = exhausted; atom = 0 })))
      ⊎ ((t.next_dynamic_atom ≢ 0)
          × (intern_missing n only t
              ≡ (add_atom n t, record { status = success; atom = t.next_dynamic_atom })))
unfolding intern_missing
intern_missing_cases n only t = grind arith

-- The same for any name.
intern_cases :
    (n : String) (only : Bool) (t : AtomTable)
    → ((a : ℕ) × (find n t ≡ some a)
        × (intern n only t ≡ (t, record { status = success; atom = a })))
      ⊎ ((find n t ≡ none) × (intern n only t ≡ intern_missing n only t))
unfolding intern
intern_cases n only t = elim (Option-cases (find n t)) [
  | inl e ↦ inr (e, rw (e, intern))
  | inr (a, e) ↦ inl (a, e, rw (e, intern))
]

-- Interning keeps the table consistent, on every branch: names and atoms correspond, 0 is no
-- atom, and the next dynamic atom is above those in use, if any is left.
pub intern-IsConsistent :
    (n : String) (only : Bool) (t : AtomTable) → IsConsistent t → IsConsistent (intern n only t).0
intern-IsConsistent n only t c = elim (intern_cases n only t) [
  | inl (a, e, p) ↦ rw p c
  | inr (e, p) ↦ rw p (elim (intern_missing_cases n only t) [
    | inl (o, q) ↦ rw q c
    | inr (inl (o, q)) ↦ rw q c
    | inr (inr (h, q)) ↦ rw q (add_atom-IsConsistent n t c e h)
  ])
]

-- On a consistent table, a success gives an atom that is not 0, which the name has from then on
-- and which has that name; or else 0, where the caller asked for existing names alone and there
-- was none, and the table stays.
intern_result :
    (n : String) (only : Bool) (t : AtomTable)
    → IsConsistent t
    → (intern n only t).1.status ≡ success
    → let (t', r) = intern n only t in
      ((find n t' ≡ some r.atom) × (name r.atom t' ≡ some n) × (r.atom ≢ 0))
      ⊎ ((only ≡ true) × (r.atom ≡ 0) × (find n t ≡ none) × (t' ≡ t))
intern_result n only t c s = elim (intern_cases n only t) [
  | inl (a, e, p) ↦ rw p (inl (e, c.to_name n a e, nonzero a (c.to_name n a e)))
  | inr (e, p) ↦ elim (intern_missing_cases n only t) [
    | inl (o, q) ↦ rw (p, q) (inr (o, refl, e, refl))
    | inr (inl (o, q)) ↦ absurd (ground (arith, p, q))
    | inr (inr (h, q)) ↦
        rw (p, q)
          (inl (
            ground (arith, find-add_atom n t c e h n, eq_refl n),
            ground (arith, name-add_atom n t c e h t.next_dynamic_atom),
            h,
          ))
  ]
]
  where
    nonzero : (a : ℕ) → name a t ≡ some n → a ≢ 0
    nonzero a e z = cc (c.no_zero, e, z)

-- On a consistent table, a name that has an atom keeps it, whatever is interned.
intern_keeps :
    (n m : String) (only : Bool) (t : AtomTable) (a : ℕ)
    → IsConsistent t
    → find m t ≡ some a
    → find m (intern n only t).0 ≡ some a
intern_keeps n m only t a c e = elim (intern_cases n only t) [
  | inl (b, e', p) ↦ rw p e
  | inr (e', p) ↦ elim (intern_missing_cases n only t) [
    | inl (o, q) ↦ rw (p, q) e
    | inr (inl (o, q)) ↦ rw (p, q) e
    | inr (inr (h, q)) ↦ rw (p, q) (ground (arith, find-add_atom n t c e' h m, eq_iff n m))
  ]
]
