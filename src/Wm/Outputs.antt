-- ===== src/Wm/Outputs.antt =====
-- src/wm/multi_output_assignment.cpp and src/wm/multi_output_geometry.cpp: which output a rectangle
-- belongs to, and where a window goes on it.
use glasswyrm.Prelude.{
  ℕ, ◌*◌, min, List, [], ◌∷◌, ◌++◌, Option, none, some, Bool, false, not, ◌&&◌, ◌||◌, ltb, ◌==◌,
  ◌!=◌, if◌then◌else◌, any_of,
}
use glasswyrm.Prelude.Int.{ℤ, pos, pos_part, ◌+ℤ◌, ◌-ℤ◌, ltb_ℤ}
use glasswyrm.Prelude.Map
use glasswyrm.Prelude.Map.{NatMap}
use glasswyrm.Wm.Types.{Rectangle, OutputContext}
use glasswyrm.Wm.Placement.{clamp_coordinate, cascade_offset, sub_32}

pub record OutputSelection : Type 0 where
  pub geometry : Rectangle
  pub inherited_output_id : ℕ
  pub previous_output_id : ℕ
  pub preferred_output_id : ℕ
  pub retain_previous : Bool

abbrev is_enabled : Option OutputContext → Bool
is_enabled none = false
is_enabled (some output) = output.enabled

-- `enabled`, and `valid_output` of src/wm/multi_output_engine.cpp.
unfoldable pub enabled : NatMap OutputContext → ℕ → Bool
enabled outputs id = is_enabled (Map.find id outputs)

abbrev min_ℤ : ℤ → ℤ → ℤ
min_ℤ a b = if ltb_ℤ b a then b else a

abbrev max_ℤ : ℤ → ℤ → ℤ
max_ℤ a b = if ltb_ℤ a b then b else a

-- The length that two segments share; the clamp at 0 is `pos_part`.
unfoldable pub overlap : ℤ → ℕ → ℤ → ℕ → ℕ
overlap a extent_a b extent_b =
    pos_part (min_ℤ (a +ℤ pos extent_a) (b +ℤ pos extent_b) -ℤ max_ℤ a b)

-- The product is below 2 ^ 64, since each side is below 2 ^ 32.
unfoldable pub intersection_area : Rectangle → Rectangle → ℕ
unfolding overlap
intersection_area left right =
    overlap left.x left.width right.x right.width * overlap left.y left.height right.y right.height

unfoldable pub intersects_any : NatMap OutputContext → Rectangle → Bool
unfolding intersection_area
intersects_any [] geometry = false
intersects_any ((id, output) ∷ outputs) geometry =
    (output.enabled && intersection_area output.logical geometry != 0)
    || intersects_any outputs geometry

unfoldable pub visible_coordinate : ℤ → ℤ → ℕ → ℕ → ℤ
unfolding clamp_coordinate
visible_coordinate coordinate output_origin output_extent window_extent =
    clamp_coordinate coordinate (output_origin -ℤ pos window_extent +ℤ pos 1)
      (output_origin +ℤ pos output_extent -ℤ pos 1)

-- The loop over the outputs: the largest area so far, and who has it.
largest_loop : Rectangle → NatMap OutputContext → ℕ → List ℕ → List ℕ
unfolding intersection_area
largest_loop geometry [] maximum_area tied = tied
largest_loop geometry ((id, output) ∷ outputs) maximum_area tied =
    let area = intersection_area geometry output.logical in
    largest_loop geometry outputs
      (if output.enabled && ltb maximum_area area then area else maximum_area)
      (if not output.enabled
        then tied
        else (if ltb maximum_area area
            then id ∷ []
            else (if area == maximum_area then tied ++ id ∷ [] else tied)))

tied_contains : List ℕ → ℕ → Bool
tied_contains tied id = id != 0 && any_of (λ other. other == id) tied

first_or_zero : List ℕ → ℕ
first_or_zero [] = 0
first_or_zero (id ∷ ids) = id

unfoldable pub select_output : NatMap OutputContext → ℕ → OutputSelection → ℕ
unfolding largest_loop tied_contains first_or_zero
select_output outputs primary_output_id s =
    let tied = largest_loop s.geometry outputs 0 [] in
    if enabled outputs s.inherited_output_id
    then s.inherited_output_id
    else (if s.retain_previous && enabled outputs s.previous_output_id
        then s.previous_output_id
        else (if tied_contains tied s.previous_output_id
            then s.previous_output_id
            else (if tied_contains tied s.preferred_output_id
                then s.preferred_output_id
                else (if tied_contains tied primary_output_id
                    then primary_output_id
                    else first_or_zero tied))))

abbrev pull_into : Rectangle → Rectangle → Rectangle
pull_into logical geometry = record geometry {
  x = visible_coordinate geometry.x logical.x logical.width geometry.width;
  y = visible_coordinate geometry.y logical.y logical.height geometry.height;
}

retain_on : Option OutputContext → Rectangle → Rectangle
retain_on none geometry = geometry
retain_on (some output) geometry =
    if output.enabled then pull_into output.logical geometry else geometry

unfoldable pub retain_visible_pixel : NatMap OutputContext → ℕ → Rectangle → Rectangle
unfolding retain_on
retain_visible_pixel outputs assigned_output_id geometry =
    if intersects_any outputs geometry
    then geometry
    else retain_on (Map.find assigned_output_id outputs) geometry

unfoldable pub initial_placement : OutputContext → ℕ → ℕ → ℕ → Rectangle
initial_placement output width height cascade_slot =
    let w = min width output.work.width in
    let h = min height output.work.height in
    record {
      x = output.work.x +ℤ cascade_offset cascade_slot (sub_32 output.work.width w);
      y = output.work.y +ℤ cascade_offset cascade_slot (sub_32 output.work.height h);
      width = w;
      height = h;
    }

abbrev pub fullscreen_geometry : OutputContext → Rectangle
fullscreen_geometry output = output.work

abbrev pub maximize_geometry : OutputContext → Rectangle
maximize_geometry output = output.work
