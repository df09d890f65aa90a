-- ===== src/Server/SelectionStore/Ownership.antt =====
-- src/glasswyrmd/selection_store.cpp: who owns a selection, and since when.
use glasswyrm.Prelude.{
  ℕ, ◌^◌, ◌<◌, ◌≤◌, ◌≡◌, Bool, true, false, ◌&&◌, ◌==◌, if◌then◌else◌, Option, none, some, arith,
}
use glasswyrm.Prelude.Map.{find-insert, find-erase}
use glasswyrm.Server.SelectionStore.{
  SelectionStore, SelectionOwner, SelectionOwnershipStatus, SelectionConversionKind, set_owner,
  owner, convert, later, effective,
}

-- Of two times none is later than itself, and not both than the other.
later_asymmetric : (a b : ℕ) → a < 2 ^ 32 → b < 2 ^ 32 → later a b ≡ true → later b a ≡ false
unfolding later
later_asymmetric a b ha hb h = ground arith

later_irreflexive : (a : ℕ) → later a a ≡ false
unfolding later
later_irreflexive a = ground arith

-- The owner that an applied change leaves.
abbrev pub new_owner : ℕ → ℕ → ℕ → Option SelectionOwner
new_owner client window time =
    if window == 0
    then none
    else some (record { client = client; window = window; last_change_time = time })

abbrev pub is_applied : SelectionOwnershipStatus → Bool
is_applied SelectionOwnershipStatus.applied = true
is_applied _ = false

-- A change of ownership touches its own selection alone, and that only when it is applied: then
-- the selection has the new owner at the effective time, or none for window 0.
owner-set_owner :
    (client selection window : ℕ) (exists : Bool) (time server : ℕ) (s : SelectionStore) (j : ℕ)
    → owner j (set_owner client selection window exists time server s).0 ≡ (
        if is_applied (set_owner client selection window exists time server s).1.status
          && selection == j
        then new_owner client window (effective time server)
        else owner j s)
unfolding set_owner
owner-set_owner client selection window exists time server s j =
    let time' = effective time server in
    ground (
      arith,
      find-insert selection j
          (record { client = client; window = window; last_change_time = time' }) s.owners,
      find-erase selection j s.owners,
    )

-- After a change was applied for a window that is not 0, at an effective time that is not 0, one
-- for the same selection with an earlier effective time changes nothing, whoever asks and
-- whatever the server's time: it is not applied.
pub set_owner_earlier_refused :
    (client selection window : ℕ) (exists : Bool) (time server : ℕ) (s : SelectionStore)
    (client' window' : ℕ) (exists' : Bool) (time' server' : ℕ)
    → is_applied (set_owner client selection window exists time server s).1.status ≡ true
    → 1 ≤ window
    → 1 ≤ effective time server
    → later (effective time server) (effective time' server') ≡ true
    → ((set_owner client' selection window' exists' time' server'
          (set_owner client selection window exists time server s).0).0
        ≡ (set_owner client selection window exists time server s).0)
      × (is_applied
            (set_owner client' selection window' exists' time' server'
              (set_owner client selection window exists time server s).0).1.status
          ≡ false)
unfolding set_owner
set_owner_earlier_refused client selection window exists time server s client' window' exists' time'
      server' a w t l =
    ground (
      arith,
      find-insert selection selection
          (record { client = client; window = window; last_change_time = effective time server })
          s.owners,
    )

-- A conversion that follows an applied change for a window goes to its owner, property kept; one that
-- follows an applied change for window 0 finds no owner, and its property is 0.
convert-set_owner :
    (client selection window : ℕ) (exists : Bool) (time server : ℕ) (s : SelectionStore)
    (requestor requestor_window target property time' server' : ℕ)
    → is_applied (set_owner client selection window exists time server s).1.status ≡ true
    → ((convert requestor requestor_window selection target property time' server'
          (set_owner client selection window exists time server s).0).kind
        ≡ (if window == 0
            then SelectionConversionKind.notify_no_owner
            else SelectionConversionKind.forward_to_owner))
      × ((convert requestor requestor_window selection target property time' server'
            (set_owner client selection window exists time server s).0).property
          ≡ (if window == 0 then 0 else property))
      × ((convert requestor requestor_window selection target property time' server'
            (set_owner client selection window exists time server s).0).owner
          ≡ new_owner client window (effective time server))
unfolding set_owner convert
convert-set_owner client selection window exists time server s requestor requestor_window target
      property time' server' a =
    ground (
      arith,
      find-insert selection selection
          (record { client = client; window = window; last_change_time = effective time server })
          s.owners,
      find-erase selection selection s.owners,
    )
