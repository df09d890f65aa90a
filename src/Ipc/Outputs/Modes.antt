-- ===== src/Ipc/Outputs/Modes.antt =====
-- src/ipc/wire/output_contract.cpp: the modes of an output and the outputs of a policy.
use glasswyrm.Prelude.{
  ℕ, List, [], ◌∷◌, Option, none, some, Bool, false, not, ◌&&◌, ◌or◌, if◌then◌else◌, ltb, leb, ◌==◌,
  ◌!=◌, ◌*◌, ◌^◌,
}
use glasswyrm.Prelude.Int.{ℤ, pos, ◌+ℤ◌, leb_ℤ, eqb_ℤ}
use glasswyrm.Prelude.Sort.{bit}
use glasswyrm.Ipc.Bytes.{Reader}
use glasswyrm.Ipc.Fields.{
  ◌▸◌, Field, u8, u16, u32, u64, i32, Values, write_fields, Decoded, decode_fixed,
}
use glasswyrm.Prelude.Gcd.{gcd}

abbrev maximum_physical_extent : ℕ
maximum_physical_extent = 4096

unfoldable reduced_scale : ℕ → ℕ → Bool
reduced_scale numerator denominator =
    numerator != 0 && (denominator != 0 && gcd numerator denominator == 1)

-- valid_scale with its default limit of the denominator; the two calls of compare_scale are written
-- out.
unfoldable pub valid_scale : ℕ → ℕ → Bool
unfolding reduced_scale
valid_scale numerator denominator =
    leb denominator 120
    && (reduced_scale numerator denominator
        && (leb denominator numerator && leb numerator (4 * denominator)))

unfoldable pub valid_extent : ℤ → ℕ → Bool
valid_extent origin size =
    size != 0 && (leb_ℤ (pos 0) origin && leb_ℤ (origin +ℤ pos size) (pos (2 ^ 31)))

pub record OutputModeUpsert : Type 0 where
  pub output_id : ℕ
  pub mode_id : ℕ
  pub physical_width : ℕ
  pub physical_height : ℕ
  pub refresh_millihertz : ℕ
  pub preferred : Bool
  pub current : Bool
  pub flags : ℕ

unfoldable pub valid_mode : OutputModeUpsert → Bool
valid_mode value =
    value.output_id != 0
    && (value.mode_id != 0
        && (value.physical_width != 0
            && (leb value.physical_width maximum_physical_extent
                && (value.physical_height != 0
                    && (leb value.physical_height maximum_physical_extent
                        && (leb (value.physical_width * value.physical_height) 16777216
                            && (value.refresh_millihertz != 0 && value.flags == 0)))))))

abbrev pub output_mode_fields : List Field
output_mode_fields = u64 ∷ u64 ∷ u32 ∷ u32 ∷ u32 ∷ u8 ∷ u8 ∷ u16 ∷ u32 ∷ u32 ∷ []

unfoldable pub output_mode_values : OutputModeUpsert → Values output_mode_fields
output_mode_values value =
    (value.output_id
      ▸ value.mode_id
      ▸ value.physical_width
      ▸ value.physical_height
      ▸ value.refresh_millihertz
      ▸ bit value.preferred
      ▸ bit value.current
      ▸ 0
      ▸ value.flags
      ▸ 0
      ▸ tt)

unfoldable pub check_output_mode : Values output_mode_fields → Option OutputModeUpsert
check_output_mode
      (output_id ▸ mode_id ▸ physical_width ▸ physical_height ▸ refresh_millihertz ▸ preferred
        ▸ current ▸ reserved1 ▸ flags ▸ reserved2 ▸ end) =
    let value : OutputModeUpsert = record {
      output_id = output_id;
      mode_id = mode_id;
      physical_width = physical_width;
      physical_height = physical_height;
      refresh_millihertz = refresh_millihertz;
      preferred = preferred == 1;
      current = current == 1;
      flags = flags;
    } in
    if not (valid_mode value)
      or reserved1 != 0
      or reserved2 != 0
      or ltb 1 preferred
      or ltb 1 current
    then none
    else some value

unfoldable pub encode_output_mode : OutputModeUpsert → List ℕ
encode_output_mode value = write_fields output_mode_fields (output_mode_values value) []

unfoldable pub decode_output_mode : Reader → Decoded OutputModeUpsert
decode_output_mode bytes = decode_fixed output_mode_fields check_output_mode bytes

pub record PolicyOutputUpsert : Type 0 where
  pub output_id : ℕ
  pub logical_x : ℤ
  pub logical_y : ℤ
  pub logical_width : ℕ
  pub logical_height : ℕ
  pub work_x : ℤ
  pub work_y : ℤ
  pub work_width : ℕ
  pub work_height : ℕ
  pub scale_numerator : ℕ
  pub scale_denominator : ℕ
  pub transform : ℕ
  pub enabled : Bool
  pub primary : Bool
  pub flags : ℕ

-- The tests of an output that is enabled.
unfoldable pub valid_enabled : PolicyOutputUpsert → Bool
valid_enabled value =
    valid_extent value.logical_x value.logical_width
    && (valid_extent value.logical_y value.logical_height
        && (valid_extent value.work_x value.work_width
            && (valid_extent value.work_y value.work_height
                && (leb_ℤ value.logical_x value.work_x
                    && (leb_ℤ value.logical_y value.work_y
                        && (leb_ℤ (value.work_x +ℤ pos value.work_width)
                              (value.logical_x +ℤ pos value.logical_width)
                            && leb_ℤ (value.work_y +ℤ pos value.work_height)
                                (value.logical_y +ℤ pos value.logical_height)))))))

unfoldable pub valid_policy_output : PolicyOutputUpsert → Bool
valid_policy_output value =
    if value.output_id == 0
      or ltb 7 value.transform
      or value.flags != 0
      or not (valid_scale value.scale_numerator value.scale_denominator)
      or value.primary && not value.enabled
    then false
    else (if not value.enabled
        then not value.primary
          && (eqb_ℤ value.logical_x (pos 0)
              && (eqb_ℤ value.logical_y (pos 0)
                  && (value.logical_width == 0
                      && (value.logical_height == 0
                          && (eqb_ℤ value.work_x (pos 0)
                              && (eqb_ℤ value.work_y (pos 0)
                                  && (value.work_width == 0 && value.work_height == 0)))))))
        else valid_enabled value)

abbrev pub policy_output_fields : List Field
policy_output_fields =
    u64 ∷ i32 ∷ i32 ∷ u32 ∷ u32 ∷ i32 ∷ i32 ∷ u32 ∷ u32 ∷ u32 ∷ u32 ∷ u16 ∷ u8 ∷ u8 ∷ u32 ∷ []

unfoldable pub policy_output_values : PolicyOutputUpsert → Values policy_output_fields
policy_output_values value =
    (value.output_id
      ▸ value.logical_x
      ▸ value.logical_y
      ▸ value.logical_width
      ▸ value.logical_height
      ▸ value.work_x
      ▸ value.work_y
      ▸ value.work_width
      ▸ value.work_height
      ▸ value.scale_numerator
      ▸ value.scale_denominator
      ▸ value.transform
      ▸ bit value.enabled
      ▸ bit value.primary
      ▸ value.flags
      ▸ tt)

unfoldable pub check_policy_output : Values policy_output_fields → Option PolicyOutputUpsert
check_policy_output
      (output_id ▸ logical_x ▸ logical_y ▸ logical_width ▸ logical_height ▸ work_x ▸ work_y
        ▸ work_width ▸ work_height ▸ scale_numerator ▸ scale_denominator ▸ transform ▸ enabled
        ▸ primary ▸ flags ▸ end) =
    let value : PolicyOutputUpsert = record {
      output_id = output_id;
      logical_x = logical_x;
      logical_y = logical_y;
      logical_width = logical_width;
      logical_height = logical_height;
      work_x = work_x;
      work_y = work_y;
      work_width = work_width;
      work_height = work_height;
      scale_numerator = scale_numerator;
      scale_denominator = scale_denominator;
      transform = transform;
      enabled = enabled == 1;
      primary = primary == 1;
      flags = flags;
    } in
    if not (valid_policy_output value) or ltb 1 enabled or ltb 1 primary then none else some value

unfoldable pub encode_policy_output : PolicyOutputUpsert → List ℕ
encode_policy_output value = write_fields policy_output_fields (policy_output_values value) []

unfoldable pub decode_policy_output : Reader → Decoded PolicyOutputUpsert
decode_policy_output bytes = decode_fixed policy_output_fields check_policy_output bytes
