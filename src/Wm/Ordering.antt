-- ===== src/Wm/Ordering.antt =====
-- src/wm/policy_ordering.cpp: the stacking of the visible windows.
use glasswyrm.Prelude.{
  ℕ, zero, suc, ◌+◌, List, [], ◌∷◌, ◌++◌, Bool, true, false, not, ◌&&◌, ◌==◌, ◌!=◌, if◌then◌else◌,
  keep_if, any_of, length,
}
use mathlib.Core.List.{flat_map}
use glasswyrm.Prelude.Int.{pos}
use glasswyrm.Prelude.Map
use glasswyrm.Prelude.Map.{NatMap}
use glasswyrm.Prelude.Sort.{sort, lex_lt, bit}
use glasswyrm.Wm.Types.{StackMode, RawWindow, RawState, WindowState, PolicyState}
use glasswyrm.Wm.Lookup.{window_at, state_at, flag_set, above_flag, is_fullscreen, ids_where}

stack_key : RawWindow → List ℕ
stack_key window =
    bit (flag_set window.flags above_flag)
    ∷ window.map_serial
    ∷ window.creation_serial
    ∷ window.window_id
    ∷ []

sort_ids : RawState → List ℕ → List ℕ
unfolding stack_key
sort_ids raw =
    sort (λ left right. lex_lt (stack_key (window_at raw left)) (stack_key (window_at raw right)))

abbrev is_above : StackMode → Bool
is_above StackMode.above = true
is_above _ = false

-- `band.insert(position, id)` at the sibling, or one after it. A validated operation names a sibling
-- that is in the band; at the end of the band the id is appended.
unfoldable pub insert_at : Bool → ℕ → ℕ → List ℕ → List ℕ
insert_at after sibling id [] = id ∷ []
insert_at after sibling id (x ∷ xs) =
    if x == sibling
    then (if after then x ∷ id ∷ xs else id ∷ x ∷ xs)
    else x ∷ insert_at after sibling id xs

unfoldable pub remove_first : ℕ → List ℕ → List ℕ
remove_first id [] = []
remove_first id (x ∷ xs) = if x == id then xs else x ∷ remove_first id xs

-- One restack operation.
unfoldable pub restack_one : RawState → ℕ → List ℕ → List ℕ
unfolding insert_at remove_first
restack_one raw id band =
    let operation = window_at raw id in
    let rest = remove_first id band in
    if not (any_of (λ x. x == id) band)
    then band
    else (if operation.stack_sibling == 0
        then (if is_above operation.stack_mode then rest ++ id ∷ [] else id ∷ rest)
        else insert_at (is_above operation.stack_mode) operation.stack_sibling id rest)

unfoldable pub restack_loop : RawState → List ℕ → List ℕ → List ℕ
restack_loop raw [] band = band
restack_loop raw (id ∷ ids) band = restack_loop raw ids (restack_one raw id band)

restack_key : RawWindow → List ℕ
restack_key window = window.stack_serial ∷ window.creation_serial ∷ window.window_id ∷ []

unfoldable pub apply_restack : RawState → List ℕ → List ℕ
unfolding restack_key
apply_restack raw band =
    restack_loop raw
      (sort
        (λ left right.
          lex_lt (restack_key (window_at raw left)) (restack_key (window_at raw right)))
        (keep_if (λ id. (window_at raw id).stack_serial != 0) band))
      band

abbrev visible_at : PolicyState → ℕ → Bool
visible_at policy id = (state_at policy id).visible

-- The visible managed windows that are transient for `id`.
visible_children : NatMap RawWindow → PolicyState → ℕ → List ℕ
visible_children [] policy id = []
visible_children ((child_id, child) ∷ m) policy id =
    if not child.override_redirect && child.transient_for == id && visible_at policy child_id
    then child_id ∷ visible_children m policy id
    else visible_children m policy id

-- `emit_transient_tree`, as the ids that it appends. Its depth is that of a transient chain, which
-- in a snapshot with no cycle is at most the number of windows: the fuel.
emit_transient_tree : ℕ → RawState → PolicyState → ℕ → List ℕ
unfolding visible_children sort_ids
emit_transient_tree zero raw policy id = id ∷ []
emit_transient_tree (suc fuel) raw policy id =
    id
    ∷ flat_map (emit_transient_tree fuel raw policy)
        (sort_ids raw (visible_children raw.windows policy id))

abbrev is_managed_root : RawWindow → Bool
is_managed_root window = not window.override_redirect && window.transient_for == 0

abbrev is_override : RawWindow → Bool
is_override window = window.override_redirect

-- std::stable_partition by the test.
abbrev partition_by : (ℕ → Bool) → List ℕ → List ℕ
partition_by p ids = keep_if p ids ++ keep_if (λ id. not (p id)) ids

unfoldable pub managed_roots : RawState → PolicyState → List ℕ
unfolding ids_where apply_restack sort_ids
managed_roots raw policy = keep_if (visible_at policy) (
    partition_by (λ id. not (is_fullscreen (state_at policy id).applied_state))
      (apply_restack raw (sort_ids raw (ids_where is_managed_root raw.windows))))

unfoldable pub overrides : RawState → PolicyState → List ℕ
unfolding ids_where apply_restack sort_ids
overrides raw policy =
    keep_if (visible_at policy)
      (apply_restack raw (sort_ids raw (ids_where is_override raw.windows)))

unfoldable pub stacking_order : RawState → PolicyState → List ℕ
unfolding emit_transient_tree
stacking_order raw policy =
    flat_map (emit_transient_tree (length raw.windows) raw policy) (managed_roots raw policy)
    ++ overrides raw policy

unfoldable pub number_stacking : ℕ → List ℕ → NatMap WindowState → NatMap WindowState
number_stacking index [] windows = windows
number_stacking index (id ∷ ids) windows =
    number_stacking (index + 1) ids
      (Map.update {V = WindowState} id (λ s. record s { stacking = pos index }) windows)

unfoldable pub invisible_ids : NatMap WindowState → List ℕ
invisible_ids [] = []
invisible_ids ((id, state) ∷ m) = if state.visible then invisible_ids m else id ∷ invisible_ids m

unfoldable pub apply_stacking_and_transient_ordering : RawState → PolicyState → PolicyState
unfolding stacking_order
apply_stacking_and_transient_ordering raw policy =
    let stacking = stacking_order raw policy in
    let windows = number_stacking 0 stacking policy.windows in
    record policy { windows = windows; output_order = stacking ++ invisible_ids windows }
