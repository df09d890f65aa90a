-- ===== src/Server/AtomTable.antt =====
-- src/glasswyrmd/atom_table.cpp: interned names. An allocation never fails here: the `bad_alloc`
-- paths are left out.
pub mod Predefined
pub mod Interning
mod Examples
use Prim.Native.String.{String}
use text.Mathlib.Text.{◌==◌ as str_eq}
use glasswyrm.Prelude.{
  ℕ, ◌+◌, ◌-◌, ◌^◌, List, [], ◌∷◌, Option, none, some, Bool, true, false, ◌&&◌, ◌||◌, ltb, ◌==◌,
  if◌then◌else◌, is_some,
}
use glasswyrm.Prelude.Map
use glasswyrm.Prelude.Map.{NatMap}

pub data InternAtomStatus : Type 0 where
  success exhausted : InternAtomStatus

pub record InternAtomResult : Type 0 where
  pub status : InternAtomStatus
  pub atom : ℕ

pub record AtomTable : Type 0 where
  ids_by_name : List (String × ℕ)
  pub names_by_id : NatMap String
  pub next_dynamic_atom : ℕ
  pub maximum_atom : ℕ

abbrev pub highest_predefined_atom : ℕ
highest_predefined_atom = 68

abbrev pub uint32_max : ℕ
uint32_max = 2 ^ 32 - 1

-- The lookup of std::unordered_map<std::string, std::uint32_t>.
pub find_id : String → List (String × ℕ) → Option ℕ
find_id n [] = none
find_id n ((m, a) ∷ ids) = if str_eq m n then some a else find_id n ids

-- `emplace`: a key that is there keeps its value.
emplace_id : String → ℕ → List (String × ℕ) → List (String × ℕ)
unfolding find_id
emplace_id n a ids = if is_some (find_id n ids) then ids else (n, a) ∷ ids

emplace_name : ℕ → String → NatMap String → NatMap String
emplace_name a n names = if Map.contains a names then names else Map.insert a n names

pub predefined_atoms : List (ℕ × String)
predefined_atoms =
    (1, "PRIMARY")
    ∷ (2, "SECONDARY")
    ∷ (3, "ARC")
    ∷ (4, "ATOM")
    ∷ (5, "BITMAP")
    ∷ (6, "CARDINAL")
    ∷ (7, "COLORMAP")
    ∷ (8, "CURSOR")
    ∷ (9, "CUT_BUFFER0")
    ∷ (10, "CUT_BUFFER1")
    ∷ (11, "CUT_BUFFER2")
    ∷ (12, "CUT_BUFFER3")
    ∷ (13, "CUT_BUFFER4")
    ∷ (14, "CUT_BUFFER5")
    ∷ (15, "CUT_BUFFER6")
    ∷ (16, "CUT_BUFFER7")
    ∷ (17, "DRAWABLE")
    ∷ (18, "FONT")
    ∷ (19, "INTEGER")
    ∷ (20, "PIXMAP")
    ∷ (21, "POINT")
    ∷ (22, "RECTANGLE")
    ∷ (23, "RESOURCE_MANAGER")
    ∷ (24, "RGB_COLOR_MAP")
    ∷ (25, "RGB_BEST_MAP")
    ∷ (26, "RGB_BLUE_MAP")
    ∷ (27, "RGB_DEFAULT_MAP")
    ∷ (28, "RGB_GRAY_MAP")
    ∷ (29, "RGB_GREEN_MAP")
    ∷ (30, "RGB_RED_MAP")
    ∷ (31, "STRING")
    ∷ (32, "VISUALID")
    ∷ (33, "WINDOW")
    ∷ (34, "WM_COMMAND")
    ∷ (35, "WM_HINTS")
    ∷ (36, "WM_CLIENT_MACHINE")
    ∷ (37, "WM_ICON_NAME")
    ∷ (38, "WM_ICON_SIZE")
    ∷ (39, "WM_NAME")
    ∷ (40, "WM_NORMAL_HINTS")
    ∷ (41, "WM_SIZE_HINTS")
    ∷ (42, "WM_ZOOM_HINTS")
    ∷ (43, "MIN_SPACE")
    ∷ (44, "NORM_SPACE")
    ∷ (45, "MAX_SPACE")
    ∷ (46, "END_SPACE")
    ∷ (47, "SUPERSCRIPT_X")
    ∷ (48, "SUPERSCRIPT_Y")
    ∷ (49, "SUBSCRIPT_X")
    ∷ (50, "SUBSCRIPT_Y")
    ∷ (51, "UNDERLINE_POSITION")
    ∷ (52, "UNDERLINE_THICKNESS")
    ∷ (53, "STRIKEOUT_ASCENT")
    ∷ (54, "STRIKEOUT_DESCENT")
    ∷ (55, "ITALIC_ANGLE")
    ∷ (56, "X_HEIGHT")
    ∷ (57, "QUAD_WIDTH")
    ∷ (58, "WEIGHT")
    ∷ (59, "POINT_SIZE")
    ∷ (60, "RESOLUTION")
    ∷ (61, "COPYRIGHT")
    ∷ (62, "NOTICE")
    ∷ (63, "FONT_NAME")
    ∷ (64, "FAMILY_NAME")
    ∷ (65, "FULL_NAME")
    ∷ (66, "CAP_HEIGHT")
    ∷ (67, "WM_CLASS")
    ∷ (68, "WM_TRANSIENT_FOR")
    ∷ []

-- Both maps take the pair.
pub emplace_pair : ℕ → String → AtomTable → AtomTable
unfolding emplace_id emplace_name
emplace_pair a n t = record t {
  ids_by_name = emplace_id n a t.ids_by_name;
  names_by_id = emplace_name a n t.names_by_id;
}

pub add_predefined : List (ℕ × String) → AtomTable → AtomTable
unfolding emplace_pair
add_predefined [] t = t
add_predefined ((a, n) ∷ rest) t = add_predefined rest (emplace_pair a n t)

abbrev blank : ℕ → AtomTable
blank maximum_atom = record {
  ids_by_name = [];
  names_by_id = [];
  next_dynamic_atom = highest_predefined_atom + 1;
  maximum_atom = maximum_atom;
}

pub make_table : ℕ → AtomTable
unfolding add_predefined predefined_atoms
make_table maximum_atom = add_predefined predefined_atoms (blank maximum_atom)

pub find : String → AtomTable → Option ℕ
unfolding find_id
find n t = find_id n t.ids_by_name

pub name : ℕ → AtomTable → Option String
name a t = Map.find a t.names_by_id

pub valid : ℕ → Bool → AtomTable → Bool
valid a allow_none t = (allow_none && a == 0) || Map.contains a t.names_by_id

abbrev found_atom : ℕ → InternAtomResult
found_atom a = record { status = success; atom = a }

-- A new atom, when the table has no such name and is not full.
add_atom : String → AtomTable → AtomTable
unfolding emplace_pair
add_atom n t =
    let atom = t.next_dynamic_atom in
    record (emplace_pair atom n t) {
      next_dynamic_atom = if atom == uint32_max then 0 else atom + 1;
    }

intern_missing : String → Bool → AtomTable → AtomTable × InternAtomResult
intern_missing n only_if_exists t =
    if only_if_exists
    then (t, found_atom 0)
    else (if t.next_dynamic_atom == 0 || ltb t.maximum_atom t.next_dynamic_atom
        then (t, record { status = exhausted; atom = 0 })
        else (add_atom n t, found_atom t.next_dynamic_atom))

pub intern : String → Bool → AtomTable → AtomTable × InternAtomResult
intern n only_if_exists t = elim (find n t) [
  | none ↦ intern_missing n only_if_exists t
  | some a ↦ (t, found_atom a)
]
