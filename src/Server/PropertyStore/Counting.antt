-- ===== src/Server/PropertyStore/Counting.antt =====
-- The invariant of the table, and that a changed or deleted property keeps it.
use glasswyrm.Prelude.{
  ℕ, false, Option, none, some, ◌≡◌, ◌+◌, ◌%◌, ◌^◌, ◌≤◌, ◌<◌, arith, refl, ap, Bool-cases, inl, inr,
  length,
}
use glasswyrm.Prelude.Map.{
  NatMap, find, insert, erase, IsAscending, insert-IsAscending, erase-IsAscending, length-insert,
  length-erase-le,
}
use glasswyrm.Prelude.Map.Sums.{
  sum_values, measure, AllValues, sum-insert, sum-erase, measure-le-sum, AllValues-insert,
  AllValues-erase, AllValues-find,
}
use glasswyrm.Server.PropertyStore.{
  Property, PropertyMode, PropertyTable, ResourceLimits, byte_size, size_or_0, sub_size,
  replacement, mismatch, over_limits, change_in, remove_in,
}

-- The properties of one window, within the limits.
abbrev pub IsWithin : ResourceLimits → NatMap Property → Type 0
IsWithin limits ps =
    IsAscending ps
    × (length ps ≤ limits.maximum_properties_per_window)
    × AllValues (λ p. byte_size p ≤ limits.maximum_bytes_per_property) ps

abbrev pub bytes_of : NatMap Property → ℕ
bytes_of ps = sum_values byte_size ps

abbrev pub total_of : NatMap (NatMap Property) → ℕ
total_of ws = sum_values bytes_of ws

pub record IsAccounted (t : PropertyTable) : Type 0 where
  pub ascending : IsAscending t.windows
  pub within : AllValues (IsWithin t.limits) t.windows
  pub counted : t.total_property_bytes ≡ total_of t.windows
  pub limited : t.total_property_bytes ≤ t.limits.maximum_total_property_bytes
  pub sized : t.limits.maximum_total_property_bytes < 2 ^ 64

size_or_0-measure : (o : Option Property) → size_or_0 o ≡ measure byte_size o
size_or_0-measure none = refl
size_or_0-measure (some p) = refl

measure-some :
    (ps : NatMap Property) (o : Option (NatMap Property))
    → o ≡ some ps
    → measure bytes_of o ≡ bytes_of ps
measure-some ps o e = ap (measure bytes_of) e

module _ (t : PropertyTable) (h : IsAccounted t) (window : ℕ) (ps : NatMap Property)
    (found : find window t.windows ≡ some ps) where
  within_found : IsWithin t.limits ps
  within_found = AllValues-find (IsWithin t.limits) window ps t.windows h.within found

  bytes_found : bytes_of ps ≤ t.total_property_bytes
  bytes_found =
      let part = measure-le-sum bytes_of window t.windows in
      let here = measure-some ps (find window t.windows) found in
      omega (arith, part, here, h.counted)

  -- Other properties for the window, and the count that goes with them.
  replaced :
      (qs : NatMap Property) (total : ℕ)
      → IsWithin t.limits qs
      → total + bytes_of ps ≡ t.total_property_bytes + bytes_of qs
      → total ≤ t.limits.maximum_total_property_bytes
      → IsAccounted
          (record t { windows = insert window qs t.windows; total_property_bytes = total })
  replaced qs total w e l =
      let sum = sum-insert bytes_of window qs t.windows h.ascending in
      let here = measure-some ps (find window t.windows) found in
      record {
        ascending = insert-IsAscending window qs t.windows h.ascending;
        within = AllValues-insert (IsWithin t.limits) window qs t.windows w h.within;
        counted = omega (arith, sum, here, e, h.counted);
        limited = l;
        sized = h.sized;
      }

  -- What the tests of a change that was made say of the sizes.
  sizes_fit :
      (current : Option Property) (new : ℕ)
      → size_or_0 current ≤ t.total_property_bytes
      → over_limits t ps current new ≡ false
      → ((sub_size t.total_property_bytes (size_or_0 current) + new) % 2 ^ 64 + size_or_0 current
          ≡ t.total_property_bytes + new)
        × ((sub_size t.total_property_bytes (size_or_0 current) + new) % 2 ^ 64
            ≤ t.limits.maximum_total_property_bytes)
        × (new ≤ t.limits.maximum_bytes_per_property)
  unfolding over_limits
  sizes_fit current new k c =
      let l = h.limited in
      let s = h.sized in
      let a : new ≤ t.limits.maximum_bytes_per_property = ground (arith, c) in
      let b : new
          ≤ sub_size t.limits.maximum_total_property_bytes
              (sub_size t.total_property_bytes (size_or_0 current)) =
        ground (arith, c) in
      (omega arith, omega arith, a)

  count_fits :
      (atom : ℕ) (new : Property)
      → over_limits t ps (find atom ps) (byte_size new) ≡ false
      → length (insert atom new ps) ≤ t.limits.maximum_properties_per_window
  unfolding over_limits
  count_fits atom new c =
      ground (arith, c, length-insert atom new ps within_found.0, within_found.1)

  pub change_in-IsAccounted :
      (atom : ℕ) (value : Property) (mode : PropertyMode)
      → IsAccounted (change_in window ps atom value mode t).0
  unfolding change_in
  change_in-IsAccounted atom value mode =
      let current = find atom ps in
      let new = replacement current value mode in
      elim (Bool-cases (mismatch current value mode)) [
        | inl b ↦ rw (b, change_in) h
        | inr b ↦ elim (Bool-cases (over_limits t ps current (byte_size new))) [
          | inl c ↦ rw (b, c, change_in) h
          | inr c ↦
              let old = size_or_0-measure current in
              let part = measure-le-sum byte_size atom ps in
              let sizes =
                sizes_fit current (byte_size new) (omega (arith, old, part, bytes_found)) c in
              let sum = sum-insert byte_size atom new ps within_found.0 in
              rw (b, c, change_in)
                (replaced (insert atom new ps)
                  ((sub_size t.total_property_bytes (size_or_0 current) + byte_size new) % 2 ^ 64)
                  (
                    insert-IsAscending atom new ps within_found.0,
                    count_fits atom new c,
                    AllValues-insert (λ p. byte_size p ≤ t.limits.maximum_bytes_per_property) atom
                        new ps sizes.2 within_found.2,
                  )
                  (omega (arith, sizes.0, sum, old)) sizes.1)
        ]
      ]

  pub remove_in-IsAccounted :
      (atom : ℕ) (p : Property) → find atom ps ≡ some p → IsAccounted (remove_in window ps atom p t)
  unfolding remove_in
  remove_in-IsAccounted atom p e =
      let here = ap (measure byte_size) e in
      let part = measure-le-sum byte_size atom ps in
      let sum = sum-erase byte_size atom ps within_found.0 in
      let whole = bytes_found in
      let l = h.limited in
      let z = h.sized in
      replaced (erase atom ps) (sub_size t.total_property_bytes (byte_size p))
        (
          erase-IsAscending atom ps within_found.0,
          omega (arith, length-erase-le atom ps, within_found.1),
          AllValues-erase (λ q. byte_size q ≤ t.limits.maximum_bytes_per_property) atom ps
              within_found.2,
        )
        (omega arith) (omega arith)
