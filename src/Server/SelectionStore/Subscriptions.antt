-- ===== src/Server/SelectionStore/Subscriptions.antt =====
-- src/glasswyrmd/selection_store.cpp: the XFIXES subscriptions, at most one for each client, window
-- and selection.
use glasswyrm.Prelude.{
  ℕ, ◌≡◌, refl, ◌≤◌, Bool, true, false, not, ◌&&◌, ◌||◌, ◌==◌, if◌then◌else◌, List, [], ◌∷◌, ◌++◌,
  arith, any_of, keep_if, length, length-append, length-keep_if-le,
}
use glasswyrm.Prelude.Map.{IsAscending, insert-IsAscending, erase-IsAscending}
use glasswyrm.Prelude.Map.Keep.{keep_values-IsAscending}
use glasswyrm.Server.SelectionStore.{
  SelectionStore, XFixesSelectionSubscription, is_for, erase_first, mask_first, select_xfixes,
  clear, clear_window, clear_client, set_owner, effective, SelectionOwner, maximum_subscriptions,
}

-- The mask of a subscription, 0 where there is none.
unfoldable pub mask_of : ℕ → ℕ → ℕ → List XFixesSelectionSubscription → ℕ
mask_of client window selection [] = 0
mask_of client window selection (x ∷ xs) =
    if is_for client window selection x then x.mask else mask_of client window selection xs

abbrev pub same_key : XFixesSelectionSubscription → XFixesSelectionSubscription → Bool
same_key x y = is_for x.client x.window x.selection y

-- No two for one key, and no empty mask.
abbrev pub IsUnique : List XFixesSelectionSubscription → Type 0
IsUnique [] = Unit {0}
IsUnique (x ∷ xs) = (1 ≤ x.mask) × (any_of (same_key x) xs ≡ false) × IsUnique xs

module _ (c w s : ℕ) where
  mask_of_missing :
      (xs : List XFixesSelectionSubscription)
      → any_of (is_for c w s) xs ≡ false
      → mask_of c w s xs ≡ 0
  unfolding mask_of any_of
  mask_of_missing [] h = refl
  mask_of_missing (x ∷ xs) h = ground (arith, mask_of_missing xs)

module _ (p : XFixesSelectionSubscription → Bool) where
  any-erase_first :
      (q : XFixesSelectionSubscription → Bool) (xs : List XFixesSelectionSubscription)
      → any_of q xs ≡ false
      → any_of q (erase_first p xs) ≡ false
  unfolding erase_first any_of
  any-erase_first q [] h = h
  any-erase_first q (x ∷ xs) h = ground (arith, any-erase_first q xs)

  any-keep_if :
      (q : XFixesSelectionSubscription → Bool) (xs : List XFixesSelectionSubscription)
      → any_of q xs ≡ false
      → any_of q (keep_if p xs) ≡ false
  unfolding keep_if any_of
  any-keep_if q [] h = h
  any-keep_if q (x ∷ xs) h = ground (arith, any-keep_if q xs)

  erase_first-IsUnique :
      (xs : List XFixesSelectionSubscription) → IsUnique xs → IsUnique (erase_first p xs)
  unfolding erase_first
  erase_first-IsUnique [] u = tt
  erase_first-IsUnique (x ∷ xs) u =
      ground (arith, erase_first-IsUnique xs, any-erase_first (same_key x) xs)

  keep_if-IsUnique : (xs : List XFixesSelectionSubscription) → IsUnique xs → IsUnique (keep_if p xs)
  unfolding keep_if
  keep_if-IsUnique [] u = tt
  keep_if-IsUnique (x ∷ xs) u = ground (arith, keep_if-IsUnique xs, any-keep_if (same_key x) xs)

  length-erase_first :
      (xs : List XFixesSelectionSubscription) → length (erase_first p xs) ≤ length xs
  unfolding erase_first
  length-erase_first [] = ground arith
  length-erase_first (x ∷ xs) = ground (arith, length-erase_first xs)

  length-mask_first :
      (mask : ℕ) (xs : List XFixesSelectionSubscription) → length (mask_first p mask xs) ≡ length xs
  unfolding mask_first
  length-mask_first mask [] = refl
  length-mask_first mask (x ∷ xs) = ground (arith, length-mask_first mask xs)

  -- A key does not depend on the mask.
  any-mask_first :
      (c w s mask : ℕ) (xs : List XFixesSelectionSubscription)
      → any_of (is_for c w s) (mask_first p mask xs) ≡ any_of (is_for c w s) xs
  unfolding mask_first any_of
  any-mask_first c w s mask [] = refl
  any-mask_first c w s mask (x ∷ xs) = ground (arith, any-mask_first c w s mask xs)

  mask_first-IsUnique :
      (mask : ℕ) (xs : List XFixesSelectionSubscription)
      → 1 ≤ mask
      → IsUnique xs
      → IsUnique (mask_first p mask xs)
  unfolding mask_first
  mask_first-IsUnique mask [] h u = tt
  mask_first-IsUnique mask (x ∷ xs) h u =
      ground
        (arith, mask_first-IsUnique mask xs, any-mask_first x.client x.window x.selection mask xs)

any-append :
    (q : XFixesSelectionSubscription → Bool) (x : XFixesSelectionSubscription)
    (xs : List XFixesSelectionSubscription)
    → any_of q (xs ++ (x ∷ [])) ≡ any_of q xs || q x
unfolding any_of
any-append q x [] = ground arith
any-append q x (y ∷ ys) = ground (arith, any-append q x ys)

append-IsUnique :
    (x : XFixesSelectionSubscription) (xs : List XFixesSelectionSubscription)
    → 1 ≤ x.mask
    → any_of (same_key x) xs ≡ false
    → IsUnique xs
    → IsUnique (xs ++ (x ∷ []))
unfolding any_of
append-IsUnique x [] h n u = ground arith
append-IsUnique x (y ∷ ys) h n u =
    ground (arith, append-IsUnique x ys h, any-append (same_key y) x ys)

module _ (c w s c' w' s' mask : ℕ) where
  mask_of-mask_first :
      (xs : List XFixesSelectionSubscription)
      → any_of (is_for c w s) xs ≡ true
      → mask_of c' w' s' (mask_first (is_for c w s) mask xs)
        ≡ (if c == c' && w == w' && s == s' then mask else mask_of c' w' s' xs)
  unfolding mask_of mask_first any_of
  mask_of-mask_first [] h = ground arith
  mask_of-mask_first (x ∷ xs) h = ground (arith, mask_of-mask_first xs)

  mask_of-erase_first :
      (xs : List XFixesSelectionSubscription)
      → IsUnique xs
      → mask_of c' w' s' (erase_first (is_for c w s) xs)
        ≡ (if c == c' && w == w' && s == s' then 0 else mask_of c' w' s' xs)
  unfolding mask_of erase_first any_of
  mask_of-erase_first [] u = ground arith
  mask_of-erase_first (x ∷ xs) u =
      ground (arith, mask_of-erase_first xs, mask_of_missing x.client x.window x.selection xs)

  mask_of-append :
      (xs : List XFixesSelectionSubscription)
      → any_of (is_for c w s) xs ≡ false
      → mask_of c' w' s'
          (xs ++ (record { client = c; window = w; selection = s; mask = mask } ∷ []))
        ≡ (if c == c' && w == w' && s == s' then mask else mask_of c' w' s' xs)
  unfolding mask_of any_of
  mask_of-append [] h = ground arith
  mask_of-append (x ∷ xs) h = ground (arith, mask_of-append xs)

-- The subscriptions are at most 4096, one for each key, with masks that are not 0, and the owners
-- are a map.
pub record IsKept (s : SelectionStore) : Type 0 where
  pub few : length s.xfixes_subscriptions ≤ maximum_subscriptions
  pub ordered : IsAscending s.owners
  pub unique : IsUnique s.xfixes_subscriptions

select_xfixes-IsKept :
    (client window selection mask : ℕ) (s : SelectionStore)
    → IsKept s
    → IsKept (select_xfixes client window selection mask s).0
unfolding select_xfixes
select_xfixes-IsKept client window selection mask s k =
    let p = is_for client window selection in
    let x : XFixesSelectionSubscription = record {
      client = client;
      window = window;
      selection = selection;
      mask = mask;
    } in
    ground (
      arith,
      length-erase_first p s.xfixes_subscriptions,
      length-mask_first p mask s.xfixes_subscriptions,
      length-append s.xfixes_subscriptions (x ∷ []),
      erase_first-IsUnique p s.xfixes_subscriptions,
      mask_first-IsUnique p mask s.xfixes_subscriptions,
      append-IsUnique x s.xfixes_subscriptions,
    )

clear-IsKept :
    (p : SelectionOwner → Bool) (q : XFixesSelectionSubscription → Bool) (s : SelectionStore)
    → IsKept s
    → IsKept (clear p q s).0
clear-IsKept p q s k =
    let r : XFixesSelectionSubscription → Bool = λ x. not (q x) in
    ground (
      arith,
      length-keep_if-le r s.xfixes_subscriptions,
      keep_if-IsUnique r s.xfixes_subscriptions,
      keep_values-IsAscending (λ o. not (p o)) s.owners,
    )

set_owner-IsKept :
    (client selection window : ℕ) (exists : Bool) (time server : ℕ) (s : SelectionStore)
    → IsKept s
    → IsKept (set_owner client selection window exists time server s).0
unfolding set_owner
set_owner-IsKept client selection window exists time server s k =
    let o : SelectionOwner = record {
      client = client;
      window = window;
      last_change_time = effective time server;
    } in
    ground (arith, insert-IsAscending selection o s.owners, erase-IsAscending selection s.owners)

-- One call that changes the store.
pub data Change : Type 0 where
  sets_owner : ℕ → ℕ → ℕ → Bool → ℕ → ℕ → Change
  clears_window clears_client : ℕ → Change
  selects_xfixes : ℕ → ℕ → ℕ → ℕ → Change

pub after : Change → SelectionStore → SelectionStore
unfolding set_owner clear_window clear_client select_xfixes
after (sets_owner client selection window exists time server) s =
    (set_owner client selection window exists time server s).0
after (clears_window window) s = (clear_window window s).0
after (clears_client client) s = (clear_client client s).0
after (selects_xfixes client window selection mask) s =
    (select_xfixes client window selection mask s).0

-- Every call keeps the limit of 4096 subscriptions, at most one for each client, window and
-- selection, with masks that are not 0, and the owners a map.
pub after-IsKept : (c : Change) (s : SelectionStore) → IsKept s → IsKept (after c s)
unfolding after clear_window clear_client
after-IsKept (sets_owner client selection window exists time server) s k =
    set_owner-IsKept client selection window exists time server s k
after-IsKept (clears_window window) s k =
    clear-IsKept (λ o. o.window == window) (λ x. x.window == window) s k
after-IsKept (clears_client client) s k =
    clear-IsKept (λ o. o.client == client) (λ x. x.client == client) s k
after-IsKept (selects_xfixes client window selection mask) s k =
    select_xfixes-IsKept client window selection mask s k

-- In a store that is kept as above: a request that succeeds leaves its client, window and
-- selection with the requested mask, where 0 is no subscription, and changes no other mask; one
-- that fails changes no mask.
pub mask_of-select_xfixes :
    (client window selection mask : ℕ) (s : SelectionStore) (c w i : ℕ)
    → IsKept s
    → mask_of c w i (select_xfixes client window selection mask s).0.xfixes_subscriptions ≡ (
        if (select_xfixes client window selection mask s).1
          && (client == c && window == w && selection == i)
        then mask
        else mask_of c w i s.xfixes_subscriptions)
unfolding select_xfixes
mask_of-select_xfixes client window selection mask s c w i k =
    let xs = s.xfixes_subscriptions in
    ground (
      arith,
      mask_of-erase_first client window selection c w i mask xs,
      mask_of-mask_first client window selection c w i mask xs,
      mask_of-append client window selection c w i mask xs,
    )
