-- ===== src/Server/PropertyStore/Examples.antt =====
-- src/glasswyrmd/property_store.cpp: a property of one window that a value is appended to.
use glasswyrm.Prelude.{
  ℕ, [], ◌∷◌, List, some, none, ◌≡◌, ◌≤◌, ◌<◌, ◌^◌, length, ◌*◌, arith, false, refl, ap, ◌∙◌,
}
use glasswyrm.Prelude.Map.{NatMap, find}
use glasswyrm.Server.PropertyStore.{
  PropertyData, Property, PropertyMode, values, value_size, PropertyTable, PropertyMutationStatus,
  change_property, get_property, replacement, byte_size, concatenate_property_data,
}
use glasswyrm.Server.PropertyStore.Accounting.{Call, after, after-IsAccounted}
use glasswyrm.Server.PropertyStore.Counting.{IsAccounted}
use glasswyrm.Server.PropertyStore.Stored.{stored, get-change_property}

abbrev text : Property
text = record { kind = 31; content = PropertyData.bytes_8 (1 ∷ 2 ∷ []) }

abbrev suffix : Property
suffix = record { kind = 31; content = PropertyData.bytes_8 (3 ∷ []) }

abbrev joined : Property
joined = record { kind = 31; content = PropertyData.bytes_8 (1 ∷ 2 ∷ 3 ∷ []) }

abbrev table_of : Property → ℕ → PropertyTable
table_of p size = record {
  windows = (5, (39, p) ∷ []) ∷ [];
  limits = record {
    maximum_bytes_per_property = 100;
    maximum_total_property_bytes = 1000;
    maximum_properties_per_window = 8;
  };
  total_property_bytes = size;
}

accounted : IsAccounted (table_of text 2)
unfolding byte_size glasswyrm.Prelude.Map.Sums.sum_values
accounted = record {
  ascending = ground arith;
  within = ground arith;
  counted = refl;
  limited = ground arith;
  sized = ground arith;
}

after-IsAccounted_example :
    IsAccounted (
      after
        (Call.changes 5 39 suffix PropertyMode.append ∷ Call.deletes 5 7 ∷ [])
        (table_of text 2))
after-IsAccounted_example =
    after-IsAccounted (Call.changes 5 39 suffix PropertyMode.append ∷ Call.deletes 5 7 ∷ [])
      (table_of text 2) accounted

changed :
    change_property 5 39 suffix PropertyMode.append (table_of text 2)
    ≡ (table_of joined 3, PropertyMutationStatus.success)
unfolding change_property find glasswyrm.Server.PropertyStore.change_in
    glasswyrm.Server.PropertyStore.mismatch glasswyrm.Server.PropertyStore.format_of
    glasswyrm.Server.PropertyStore.over_limits byte_size replacement
    glasswyrm.Server.PropertyStore.concatenate_property_data glasswyrm.Prelude.Map.insert
changed = refl

found : find 5 (table_of text 2).windows ≡ some ((39, text) ∷ [])
unfolding find
found = refl

small :
    length (stored (find 39 ((39, text) ∷ [])) suffix PropertyMode.append)
      * value_size suffix.content
    ≤ 1 * 4
unfolding find
small = omega arith

few :
    length (stored (find 39 ((39, text) ∷ [])) suffix PropertyMode.append)
      * value_size suffix.content
    < 2 ^ 32
unfolding find
few = omega arith

get-change_property_example :
    (values (get_property 5 39 0 false 0 1 (table_of joined 3)).1.value.content
      ≡ stored (find 39 ((39, text) ∷ [])) suffix PropertyMode.append)
    × (value_size (get_property 5 39 0 false 0 1 (table_of joined 3)).1.value.content
        ≡ value_size suffix.content)
    × ((get_property 5 39 0 false 0 1 (table_of joined 3)).1.value.kind ≡ suffix.kind)
    × ((get_property 5 39 0 false 0 1 (table_of joined 3)).1.value.bytes_after ≡ 0)
get-change_property_example =
    get-change_property (table_of text 2) (table_of joined 3) 5 39 suffix PropertyMode.append
      ((39, text) ∷ []) 1 found changed small few
