-- ===== src/Server/SelectionStore/Clearing.antt =====
-- src/glasswyrmd/selection_store.cpp: what goes with a window or a client.
use glasswyrm.Prelude.{
  ℕ, ◌≡◌, ◌≤◌, suc, Bool, not, ◌==◌, if◌then◌else◌, Option, none, List, [], ◌∷◌, arith, is_some,
}
use glasswyrm.Prelude.Map.{NatMap, IsAscending, keys, From}
use glasswyrm.Prelude.Map.Keep.{
  keep_values, filter_option, find-keep_values, has_number, has_number-keys,
  keep_values-IsAscending,
}
use glasswyrm.Server.SelectionStore.{
  SelectionStore, SelectionOwner, XFixesSelectionSubscription, owner, clear, clear_window,
  clear_client,
}

-- Whether a selection has an owner that passes.
abbrev pub owned_by : (SelectionOwner → Bool) → Option SelectionOwner → Bool
owned_by p o = is_some (filter_option p o)

abbrev pub Ascends : ℕ → List ℕ → Type 0
Ascends n [] = Unit {0}
Ascends n (k ∷ ks) = (n ≤ k) × Ascends (suc k) ks

keys-Ascends {ℓ} : {V : Type ℓ} (n : ℕ) (m : NatMap V) → From n m → Ascends n (keys m)
unfolding keys
keys-Ascends n [] f = tt
keys-Ascends n ((k, v) ∷ m) f = (f.0, keys-Ascends (suc k) m f.1)

clear_lem :
    (p : SelectionOwner → Bool) (q : XFixesSelectionSubscription → Bool) (s : SelectionStore)
    (j : ℕ)
    → IsAscending s.owners
    → (owner j (clear p q s).0 ≡ (if owned_by p (owner j s) then none else owner j s))
      × (has_number j (clear p q s).1 ≡ owned_by p (owner j s))
      × Ascends 0 (clear p q s).1
clear_lem p q s j a = (
  ground (arith, find-keep_values j (λ o. not (p o)) s.owners a),
  ground (arith, find-keep_values j p s.owners a, has_number-keys j (keep_values p s.owners)),
  keys-Ascends 0 (keep_values p s.owners) (keep_values-IsAscending p s.owners a),
)

-- Clearing a client, in a store whose owners are a map: the selections that it owned have no owner,
-- all others keep theirs, and exactly the selections that it owned are returned, in ascending order.
clear_client_lem :
    (client : ℕ) (s : SelectionStore) (j : ℕ)
    → IsAscending s.owners
    → (owner j (clear_client client s).0
        ≡ (if owned_by (λ o. o.client == client) (owner j s) then none else owner j s))
      × (has_number j (clear_client client s).1 ≡ owned_by (λ o. o.client == client) (owner j s))
      × Ascends 0 (clear_client client s).1
unfolding clear_client
clear_client_lem client s j a = clear_lem (λ o. o.client == client) (λ x. x.client == client) s j a

-- Clearing a window, in a store whose owners are a map: the selections that it owned have no
-- owner, all others keep theirs, and exactly the selections that it owned are returned, in
-- ascending order.
clear_window_lem :
    (window : ℕ) (s : SelectionStore) (j : ℕ)
    → IsAscending s.owners
    → (owner j (clear_window window s).0
        ≡ (if owned_by (λ o. o.window == window) (owner j s) then none else owner j s))
      × (has_number j (clear_window window s).1 ≡ owned_by (λ o. o.window == window) (owner j s))
      × Ascends 0 (clear_window window s).1
unfolding clear_window
clear_window_lem window s j a = clear_lem (λ o. o.window == window) (λ x. x.window == window) s j a
