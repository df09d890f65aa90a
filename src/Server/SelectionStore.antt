-- ===== src/Server/SelectionStore.antt =====
-- src/glasswyrmd/selection_store.hpp and selection_store.cpp: the owners of the selections, and the
-- clients that asked XFIXES for their changes. `owners` is an unordered_map whose order is never
-- seen, since each list made from it is sorted by the selection. An allocation never fails here.
pub mod Ownership
pub mod Clearing
pub mod Subscriptions
mod Examples
use glasswyrm.Prelude.{
  ℕ, ◌+◌, ◌-◌, ◌%◌, ◌^◌, Bool, true, false, not, ◌&&◌, ◌||◌, ltb, leb, ◌==◌, ◌!=◌, if◌then◌else◌,
  Option, none, some, is_some, List, [], ◌∷◌, ◌++◌, map, length, keep_if, find_if, any_of, bit_and,
}
use glasswyrm.Prelude.Map
use glasswyrm.Prelude.Map.{NatMap, keys}
use glasswyrm.Prelude.Map.Keep.{keep_values}
use glasswyrm.Prelude.Sort.{sort}

pub record SelectionOwner : Type 0 where
  pub client : ℕ
  pub window : ℕ
  pub last_change_time : ℕ

pub record XFixesSelectionSubscription : Type 0 where
  pub client : ℕ
  pub window : ℕ
  pub selection : ℕ
  pub mask : ℕ

pub record XFixesSelectionNotification : Type 0 where
  pub client : ℕ
  subtype : ℕ
  pub window : ℕ
  pub owner : ℕ
  pub selection : ℕ
  timestamp : ℕ
  selection_timestamp : ℕ

pub data SelectionOwnershipStatus : Type 0 where
  applied ignored_stale_time invalid_selection invalid_owner_window : SelectionOwnershipStatus

pub record SelectionOwnershipChange : Type 0 where
  pub status : SelectionOwnershipStatus
  effective_time : ℕ
  previous_owner : Option SelectionOwner

pub data SelectionConversionKind : Type 0 where
  notify_no_owner forward_to_owner : SelectionConversionKind

pub record SelectionConversion : Type 0 where
  pub kind : SelectionConversionKind
  requestor_client : ℕ
  pub requestor_window : ℕ
  pub selection : ℕ
  pub target : ℕ
  pub property : ℕ
  pub time : ℕ
  pub owner : Option SelectionOwner

pub record SelectionStore : Type 0 where
  pub owners : NatMap SelectionOwner
  pub xfixes_subscriptions : List XFixesSelectionSubscription

-- Times are uint32_t and wrap: the difference, read as an int32_t, is positive.
unfoldable pub later : ℕ → ℕ → Bool
later lhs rhs = let d = (lhs + 2 ^ 32 - rhs) % 2 ^ 32 in ltb 0 d && ltb d (2 ^ 31)

abbrev pub effective : ℕ → ℕ → ℕ
effective request_time server_time = if request_time == 0 then server_time else request_time

abbrev last_change : Option SelectionOwner → ℕ
last_change none = 0
last_change (some current) = current.last_change_time

-- Too old for the current owner, or ahead of the server.
abbrev pub is_stale : Option SelectionOwner → ℕ → ℕ → Bool
is_stale current time server_time =
    (last_change current != 0 && later (last_change current) time) || later time server_time

abbrev refused : SelectionOwnershipStatus → ℕ → SelectionOwnershipChange
refused status time = record { status = status; effective_time = time; previous_owner = none }

unfoldable pub set_owner :
    ℕ → ℕ → ℕ → Bool → ℕ → ℕ → SelectionStore → SelectionStore × SelectionOwnershipChange
set_owner client selection owner_window owner_window_exists request_time server_time s =
    let time = effective request_time server_time in
    let current = Map.find selection s.owners in
    if selection == 0
    then (s, refused SelectionOwnershipStatus.invalid_selection time)
    else (if owner_window != 0 && not owner_window_exists
        then (s, refused SelectionOwnershipStatus.invalid_owner_window time)
        else (if is_stale current time server_time
            then (s, refused SelectionOwnershipStatus.ignored_stale_time time)
            else (
              record s {
                owners =
                    (if owner_window == 0
                      then Map.erase selection s.owners
                      else Map.insert selection
                          (record {
                            client = client;
                            window = owner_window;
                            last_change_time = time;
                          })
                          s.owners);
              },
              record {
                status = SelectionOwnershipStatus.applied;
                effective_time = time;
                previous_owner = current;
              },
            )))

abbrev pub owner : ℕ → SelectionStore → Option SelectionOwner
owner selection s = Map.find selection s.owners

unfoldable pub convert : ℕ → ℕ → ℕ → ℕ → ℕ → ℕ → ℕ → SelectionStore → SelectionConversion
convert requestor_client requestor_window selection target property request_time server_time s =
    let found = owner selection s in
    record {
      kind =
          (if is_some found
            then SelectionConversionKind.forward_to_owner
            else SelectionConversionKind.notify_no_owner);
      requestor_client = requestor_client;
      requestor_window = requestor_window;
      selection = selection;
      target = target;
      property = (if is_some found then property else 0);
      time = effective request_time server_time;
      owner = found;
    }

-- The owners that fail the test go, with the subscriptions that fail theirs; the selections that
-- lost their owner are returned, in ascending order.
abbrev pub clear :
    (SelectionOwner → Bool)
    → (XFixesSelectionSubscription → Bool)
    → SelectionStore
    → SelectionStore × List ℕ
clear is_owner is_subscriber s = (
  record s {
    owners = keep_values (λ o. not (is_owner o)) s.owners;
    xfixes_subscriptions = keep_if (λ x. not (is_subscriber x)) s.xfixes_subscriptions;
  },
  keys (keep_values is_owner s.owners),
)

unfoldable pub clear_window : ℕ → SelectionStore → SelectionStore × List ℕ
clear_window window s = clear (λ o. o.window == window) (λ x. x.window == window) s

unfoldable pub clear_client : ℕ → SelectionStore → SelectionStore × List ℕ
clear_client client s = clear (λ o. o.client == client) (λ x. x.client == client) s

abbrev pub is_for : ℕ → ℕ → ℕ → XFixesSelectionSubscription → Bool
is_for client window selection x =
    x.client == client && x.window == window && x.selection == selection

-- The first subscription that passes: erased, or with another mask.
unfoldable pub erase_first :
    (XFixesSelectionSubscription → Bool)
    → List XFixesSelectionSubscription
    → List XFixesSelectionSubscription
erase_first p [] = []
erase_first p (x ∷ xs) = if p x then xs else x ∷ erase_first p xs

unfoldable pub mask_first :
    (XFixesSelectionSubscription → Bool)
    → ℕ
    → List XFixesSelectionSubscription
    → List XFixesSelectionSubscription
mask_first p mask [] = []
mask_first p mask (x ∷ xs) = if p x then record x { mask = mask } ∷ xs else x ∷ mask_first p mask xs

abbrev pub maximum_subscriptions : ℕ
maximum_subscriptions = 4096

unfoldable pub select_xfixes : ℕ → ℕ → ℕ → ℕ → SelectionStore → SelectionStore × Bool
select_xfixes client window selection mask s =
    let p = is_for client window selection in
    if mask == 0
    then (record s { xfixes_subscriptions = erase_first p s.xfixes_subscriptions }, true)
    else (if any_of p s.xfixes_subscriptions
        then (record s { xfixes_subscriptions = mask_first p mask s.xfixes_subscriptions }, true)
        else (if leb maximum_subscriptions (length s.xfixes_subscriptions) then (s, false) else (
          record s {
            xfixes_subscriptions =
                s.xfixes_subscriptions
                ++ (record { client = client; window = window; selection = selection; mask = mask }
                    ∷ []);
          },
          true,
        )))

-- std::ranges::sort leaves the order of one client's notifications open; here they keep theirs.
unfoldable pub xfixes_notifications :
    ℕ → ℕ → ℕ → ℕ → ℕ → SelectionStore → List XFixesSelectionNotification
xfixes_notifications selection subtype owner timestamp selection_timestamp s =
    sort {A = XFixesSelectionNotification} (λ a b. ltb a.client b.client)
      (map
        (λ x. record {
          client = x.client;
          subtype = subtype;
          window = x.window;
          owner = owner;
          selection = selection;
          timestamp = timestamp;
          selection_timestamp = selection_timestamp;
        })
        (keep_if (λ x. x.selection == selection && bit_and x.mask (2 ^ subtype) != 0)
          s.xfixes_subscriptions))

unfoldable pub owned_by_client : ℕ → SelectionStore → NatMap SelectionOwner
owned_by_client client s = keep_values (λ o. o.client == client) s.owners

unfoldable pub owned_by_window : ℕ → SelectionStore → NatMap SelectionOwner
owned_by_window window s = keep_values (λ o. o.window == window) s.owners
