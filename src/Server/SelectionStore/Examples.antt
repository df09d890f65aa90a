-- ===== src/Server/SelectionStore/Examples.antt =====
-- src/glasswyrmd/selection_store.cpp on two clients that ask for the same selection.
use glasswyrm.Prelude.{
  ℕ, ◌≡◌, ◌≤◌, ◌==◌, ◌&&◌, refl, Bool, true, false, if◌then◌else◌, List, [], ◌∷◌, Option, none,
  some, arith,
}
use glasswyrm.Prelude.Map.{IsAscending}
use glasswyrm.Server.SelectionStore.{SelectionStore, set_owner, later, effective, select_xfixes}
use glasswyrm.Server.SelectionStore.Ownership.{is_applied, set_owner_earlier_refused}
use glasswyrm.Server.SelectionStore.Subscriptions.{
  IsKept, after, selects_xfixes, after-IsKept, mask_of, mask_of-select_xfixes,
}

abbrev owned : SelectionStore
owned = record {
  owners =
      (1, record { client = 5; window = 70; last_change_time = 100 })
      ∷ (2, record { client = 6; window = 80; last_change_time = 110 })
      ∷ [];
  xfixes_subscriptions = record { client = 5; window = 70; selection = 1; mask = 7 } ∷ [];
}

owned-IsKept : IsKept owned
unfolding glasswyrm.Prelude.any_of
owned-IsKept = ground arith

applies : is_applied (set_owner 6 1 80 true 120 200 owned).1.status ≡ true
unfolding set_owner glasswyrm.Prelude.Map.find later
applies = refl

is_later : later (effective 120 200) (effective 110 200) ≡ true
unfolding later
is_later = refl

set_owner_earlier_refused_example :
    ((set_owner 5 1 70 true 110 200 (set_owner 6 1 80 true 120 200 owned).0).0
      ≡ (set_owner 6 1 80 true 120 200 owned).0)
    × (is_applied (set_owner 5 1 70 true 110 200 (set_owner 6 1 80 true 120 200 owned).0).1.status
        ≡ false)
set_owner_earlier_refused_example =
    set_owner_earlier_refused 6 1 80 true 120 200 owned 5 70 true 110 200 applies (ground arith)
      (ground arith) is_later

after-IsKept_example : IsKept (after (selects_xfixes 5 70 2 3) owned)
after-IsKept_example = after-IsKept (selects_xfixes 5 70 2 3) owned owned-IsKept

mask_of-select_xfixes_example :
    mask_of 5 70 2 (select_xfixes 5 70 2 3 owned).0.xfixes_subscriptions ≡ (
      if (select_xfixes 5 70 2 3 owned).1 && (5 == 5 && 70 == 70 && 2 == 2)
      then 3
      else mask_of 5 70 2 owned.xfixes_subscriptions)
mask_of-select_xfixes_example = mask_of-select_xfixes 5 70 2 3 owned 5 70 2 owned-IsKept
