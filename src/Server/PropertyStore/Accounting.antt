-- ===== src/Server/PropertyStore/Accounting.antt =====
-- The count of bytes is the sum of the sizes, and the limits hold.
use glasswyrm.Prelude.{
  ℕ, Bool, List, [], ◌∷◌, some, ◌≡◌, ◌-◌, ◌%◌, ◌^◌, arith, Bool-cases, Option-cases, inl, inr, ◌⊎◌,
  ◌*◌, min, ◌&&◌, ◌||◌, not, ltb, ◌==◌,
}
use glasswyrm.Prelude.Map.{NatMap, find}
use glasswyrm.Server.PropertyStore.{
  Property, PropertyMode, PropertyTable, byte_size, change_property, remove_in, delete_in,
  delete_property, read_property, read_in, get_property,
}
use glasswyrm.Server.PropertyStore.Counting.{
  IsAccounted, change_in-IsAccounted, remove_in-IsAccounted,
}

pub data Call : Type 0 where
  changes : ℕ → ℕ → Property → PropertyMode → Call
  deletes : ℕ → ℕ → Call
  gets : ℕ → ℕ → ℕ → Bool → ℕ → ℕ → Call

unfoldable pub apply : Call → PropertyTable → PropertyTable
apply (changes w a v m) t = (change_property w a v m t).0
apply (deletes w a) t = (delete_property w a t).0
apply (gets w a k d o l) t = (get_property w a k d o l t).0

unfoldable pub after : List Call → PropertyTable → PropertyTable
after [] t = t
after (call ∷ calls) t = apply call (after calls t)

change-IsAccounted :
    (w a : ℕ) (v : Property) (m : PropertyMode) (t : PropertyTable)
    → IsAccounted t
    → IsAccounted (change_property w a v m t).0
unfolding change_property
change-IsAccounted w a v m t h = elim (Option-cases (find w t.windows)) [
  | inl e ↦ rw (e, change_property) h
  | inr (ps, e) ↦ rw (e, change_property) (change_in-IsAccounted t h w ps e a v m)
]

delete-IsAccounted :
    (w a : ℕ) (t : PropertyTable) → IsAccounted t → IsAccounted (delete_property w a t).0
unfolding delete_property delete_in
delete-IsAccounted w a t h = elim (Option-cases (find w t.windows)) [
  | inl e ↦ rw (e, delete_property) h
  | inr (ps, e) ↦ elim (Option-cases (find a ps)) [
    | inl k ↦ rw (e, k, delete_property, delete_in) h
    | inr (p, k) ↦ rw (e, k, delete_property, delete_in) (remove_in-IsAccounted t h w ps e a p k)
  ]
]

-- A read leaves the table as it is, or takes the property away.
read_changes :
    (w : ℕ) (ps : NatMap Property) (a : ℕ) (p : Property) (k : ℕ) (d : Bool) (o l : ℕ)
    (t : PropertyTable)
    → ((read_property w ps a p k d o l t).0 ≡ t)
      ⊎ ((read_property w ps a p k d o l t).0 ≡ remove_in w ps a p t)
unfolding read_property
read_changes w ps a p k d o l t = elim (Bool-cases (ltb (byte_size p) (o * 4))) [
  | inl b ↦ inl (ground (arith, b))
  | inr b ↦ elim (Bool-cases (not (k == 0 || k == p.kind))) [
    | inl c ↦ inl (ground (arith, b, c))
    | inr c ↦
        elim (Bool-cases
          (d && ((byte_size p - o * 4 - min (byte_size p - o * 4) (l * 4)) % 2 ^ 32 == 0))) [
            | inl e ↦ inr (ground (arith, b, c, e))
            | inr e ↦ inl (ground (arith, b, c, e))
          ]
  ]
]

read-IsAccounted :
    (w : ℕ) (ps : NatMap Property) (a : ℕ) (p : Property) (k : ℕ) (d : Bool) (o l : ℕ)
    (t : PropertyTable)
    → IsAccounted t
    → find w t.windows ≡ some ps
    → find a ps ≡ some p
    → IsAccounted (read_property w ps a p k d o l t).0
unfolding read_property
read-IsAccounted w ps a p k d o l t h e f =
    let without = remove_in-IsAccounted t h w ps e a p f in
    elim (read_changes w ps a p k d o l t) [ inl q ↦ rw q h | inr q ↦ rw q without ]

get-IsAccounted :
    (w a k : ℕ) (d : Bool) (o l : ℕ) (t : PropertyTable)
    → IsAccounted t
    → IsAccounted (get_property w a k d o l t).0
unfolding get_property read_in
get-IsAccounted w a k d o l t h = elim (Option-cases (find w t.windows)) [
  | inl e ↦ rw (e, get_property) h
  | inr (ps, e) ↦ elim (Option-cases (find a ps)) [
    | inl f ↦ rw (e, f, get_property, read_in) h
    | inr (p, f) ↦ rw (e, f, get_property, read_in) (read-IsAccounted w ps a p k d o l t h e f)
  ]
]

step-IsAccounted : (call : Call) (t : PropertyTable) → IsAccounted t → IsAccounted (apply call t)
unfolding apply
step-IsAccounted (changes w a v m) t h = change-IsAccounted w a v m t h
step-IsAccounted (deletes w a) t h = delete-IsAccounted w a t h
step-IsAccounted (gets w a k d o l) t h = get-IsAccounted w a k d o l t h

-- Whatever properties are changed, deleted and read, with whatever results: the count of bytes stays
-- the sum of the sizes of all properties of all windows and below its limit, no property is larger
-- and no window has more properties than allowed, if this holds at the beginning and the limit is a
-- number of 64 bits.
pub after-IsAccounted :
    (calls : List Call) (t : PropertyTable) → IsAccounted t → IsAccounted (after calls t)
unfolding after
after-IsAccounted [] t h = h
after-IsAccounted (call ∷ calls) t h =
    step-IsAccounted call (after calls t) (after-IsAccounted calls t h)
