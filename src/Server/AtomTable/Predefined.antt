-- ===== src/Server/AtomTable/Predefined.antt =====
-- src/protocol/x11/atoms.hpp and the constructor of src/glasswyrmd/atom_table.cpp: the table that
-- a server starts with.
use Prim.Native.String.{String}
use glasswyrm.Prelude.{
  ℕ, ◌<◌, ◌≡◌, ◌≢◌, refl, List, [], ◌∷◌, none, Bool, true, not, ◌&&◌, arith, ltb, is_some,
}
use glasswyrm.Prelude.Map
use glasswyrm.Server.AtomTable.{
  AtomTable, find_id, emplace_pair, predefined_atoms, add_predefined, blank, make_table, find, name,
}
use glasswyrm.Server.AtomTable.Interning.{IsConsistent, emplace_pair-IsConsistent}

-- Each entry is new when it is added, and is an atom below the dynamic ones.
all_fresh : List (ℕ × String) → AtomTable → Bool
unfolding emplace_pair
all_fresh [] t = true
all_fresh ((a, n) ∷ rest) t =
    not (is_some (find n t))
    && not (is_some (name a t))
    && ltb 0 a
    && ltb a t.next_dynamic_atom
    && all_fresh rest (emplace_pair a n t)

fresh_facts :
    (a : ℕ) (n : String) (rest : List (ℕ × String)) (t : AtomTable)
    → all_fresh ((a, n) ∷ rest) t ≡ true
    → (find n t ≡ none)
      × (name a t ≡ none)
      × (a ≢ 0)
      × (a < t.next_dynamic_atom)
      × (all_fresh rest (emplace_pair a n t) ≡ true)
unfolding all_fresh
fresh_facts a n rest t e = ground arith

add_predefined-IsConsistent :
    (atoms : List (ℕ × String)) (t : AtomTable)
    → all_fresh atoms t ≡ true
    → IsConsistent t
    → IsConsistent (add_predefined atoms t)
unfolding add_predefined
add_predefined-IsConsistent [] t e c = c
add_predefined-IsConsistent ((a, n) ∷ rest) t e c =
    let (missing, unused, nonzero, below, fresh) = fresh_facts a n rest t e in
    add_predefined-IsConsistent rest (emplace_pair a n t) fresh (
      emplace_pair-IsConsistent a n t c missing unused t.next_dynamic_atom nonzero
        (λ h b le. (omega arith, c.above h b le)))

blank-IsConsistent : (m : ℕ) → IsConsistent (blank m)
unfolding find name find_id Map.find
blank-IsConsistent m = record {
  to_name = λ n a e. cc;
  to_atom = λ n a e. cc;
  no_zero = refl;
  above = λ h a le. refl;
}

predefined_fresh : (m : ℕ) → all_fresh predefined_atoms (blank m) ≡ true
unfolding all_fresh predefined_atoms find name Map.find Map.insert
predefined_fresh m = refl

-- The table of a new server is consistent, whatever its limit.
pub make_table-IsConsistent : (maximum_atom : ℕ) → IsConsistent (make_table maximum_atom)
unfolding make_table
make_table-IsConsistent m =
    add_predefined-IsConsistent predefined_atoms (blank m) (predefined_fresh m)
      (blank-IsConsistent m)
