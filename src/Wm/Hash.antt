-- ===== src/Wm/Hash.antt =====
-- src/wm/policy_hash.cpp: FNV-1a over the little-endian bytes of a policy.
use Prim.Native.String.{String}
use Prim.Native.Char.{code}
use glasswyrm.Prelude.{ℕ, zero, suc, ◌*◌, ◌/◌, ◌%◌, ◌^◌, bit_xor, List, [], ◌∷◌, ◌++◌, length}
use glasswyrm.Prelude.Int.{bits_32, ℤ}
use glasswyrm.Prelude.Map.{NatMap}
use glasswyrm.Prelude.Sort.{bit}
use glasswyrm.Wm.Types.{
  WindowType, AppliedState, TriState, Context, Rectangle, OutputContext, WindowOutputHint,
  WindowState, PolicyState,
}
use glasswyrm.Wm.Lookup.{state_at}

unfoldable pub hash_byte : ℕ → ℕ → ℕ
hash_byte hash value = bit_xor hash value * 1_099_511_628_211 % 2 ^ 64

unfoldable pub hash_bytes : ℕ → List ℕ → ℕ
unfolding hash_byte
hash_bytes hash [] = hash
hash_bytes hash (b ∷ bs) = hash_bytes (hash_byte hash b) bs

-- The bytes that `hash_little` and `write_little` go through for a value of `size` bytes.
unfoldable pub little : ℕ → ℕ → List ℕ
little zero bits = []
little (suc size) bits = bits % 2 ^ 8 ∷ little size (bits / 2 ^ 8)

abbrev hash_u8 : ℕ → ℕ → ℕ
hash_u8 value hash = hash_bytes hash (little 1 value)

abbrev hash_u32 : ℕ → ℕ → ℕ
hash_u32 value hash = hash_bytes hash (little 4 value)

abbrev hash_u64 : ℕ → ℕ → ℕ
hash_u64 value hash = hash_bytes hash (little 8 value)

abbrev hash_i32 : ℤ → ℕ → ℕ
hash_i32 value hash = hash_bytes hash (little 4 (bits_32 value))

infixl 5 ◌|>◌
abbrev ◌|>◌ : ℕ → (ℕ → ℕ) → ℕ
hash |> f = f hash

unfoldable pub hash_context : Context → ℕ → ℕ
unfolding hash_bytes little
hash_context c hash =
    hash
    |> hash_u32 c.root_window_id
    |> hash_u32 c.workspace_id
    |> hash_u64 c.output_id
    |> hash_i32 c.work_x
    |> hash_i32 c.work_y
    |> hash_u32 c.work_width
    |> hash_u32 c.work_height
    |> hash_u32 c.flags

unfoldable pub hash_rectangle : Rectangle → ℕ → ℕ
unfolding hash_bytes little
hash_rectangle r hash =
    hash |> hash_i32 r.x |> hash_i32 r.y |> hash_u32 r.width |> hash_u32 r.height

unfoldable pub hash_output : OutputContext → ℕ → ℕ
unfolding hash_rectangle
hash_output output hash =
    hash
    |> hash_u64 output.output_id
    |> hash_rectangle output.logical
    |> hash_rectangle output.work
    |> hash_u32 output.scale_numerator
    |> hash_u32 output.scale_denominator
    |> hash_u8 output.transform
    |> hash_u8 (bit output.enabled)
    |> hash_u8 (bit output.primary)
    |> hash_u32 output.flags

unfoldable pub hash_hint : WindowOutputHint → ℕ → ℕ
hash_hint hint hash =
    hash
    |> hash_u32 hint.window_id
    |> hash_u64 hint.previous_output_id
    |> hash_u64 hint.preferred_output_id
    |> hash_u32 hint.flags

hash_outputs : NatMap OutputContext → ℕ → ℕ
unfolding hash_output
hash_outputs [] hash = hash
hash_outputs ((id, output) ∷ m) hash = hash_outputs m (hash_output output hash)

hash_hints : NatMap WindowOutputHint → ℕ → ℕ
unfolding hash_hint
hash_hints [] hash = hash
hash_hints ((id, hint) ∷ m) hash = hash_hints m (hash_hint hint hash)

abbrev window_type_code : WindowType → ℕ
window_type_code WindowType.unknown = 0
window_type_code WindowType.normal = 1
window_type_code WindowType.dialog = 2
window_type_code WindowType.utility = 3
window_type_code (WindowType.other n) = n

abbrev applied_state_code : AppliedState → ℕ
applied_state_code AppliedState.normal = 1
applied_state_code AppliedState.maximized = 2
applied_state_code AppliedState.fullscreen = 3
applied_state_code AppliedState.minimized = 4

abbrev tri_state_code : TriState → ℕ
tri_state_code TriState.unknown = 0
tri_state_code TriState.refused = 1
tri_state_code TriState.granted = 2

unfoldable pub encode_policy_window_state : WindowState → List ℕ
unfolding little
encode_policy_window_state s =
    little 4 s.window_id
    ++ (little 4 s.transient_for
        ++ (little 4 s.workspace_id
            ++ (little 4 0
                ++ (little 8 s.output_id
                    ++ (little 4 (bits_32 s.final_x)
                        ++ (little 4 (bits_32 s.final_y)
                            ++ (little 4 s.final_width
                                ++ (little 4 s.final_height
                                    ++ (little 4 (bits_32 s.stacking)
                                        ++ (little 2 (window_type_code s.window_type)
                                            ++ (little 2 (applied_state_code s.applied_state)
                                                ++ (bit s.visible
                                                    ∷ bit s.focused
                                                    ∷ bit s.managed
                                                    ∷ bit s.decoration_eligible
                                                    ∷ bit s.override_redirect
                                                    ∷ bit s.attention_requested
                                                    ∷ tri_state_code s.fullscreen_eligible
                                                    ∷ tri_state_code s.direct_scanout_eligible
                                                    ∷ (little 4 0 ++ little 4 0)))))))))))))

-- The characters of the tags are ASCII.
abbrev tag_bytes : String → List ℕ
tag_bytes String.[] = []
tag_bytes (String.◌∷◌ c s) = code c ∷ tag_bytes s

abbrev fnv_offset : ℕ
fnv_offset = 14_695_981_039_346_656_037

hash_order : PolicyState → List ℕ → ℕ → ℕ
unfolding hash_bytes encode_policy_window_state
hash_order policy [] hash = hash
hash_order policy (id ∷ ids) hash =
    hash_order policy ids (hash_bytes hash (encode_policy_window_state (state_at policy id)))

-- Only a policy with outputs hashes them and the hints.
output_part : NatMap OutputContext → NatMap WindowOutputHint → ℕ → ℕ
unfolding hash_outputs hash_hints
output_part [] hints hash = hash
output_part (output ∷ outputs) hints hash =
    hash
    |> hash_u32 (length (output ∷ outputs))
    |> hash_outputs (output ∷ outputs)
    |> hash_u32 (length hints)
    |> hash_hints hints

abbrev version_tag : NatMap OutputContext → List ℕ
version_tag [] = tag_bytes "glasswyrm-policy-v1"
version_tag (_ ∷ _) = tag_bytes "glasswyrm-policy-v3"

unfoldable pub policy_hash : PolicyState → ℕ
unfolding hash_order hash_context output_part
policy_hash policy =
    let head =
      hash_context policy.context
        (hash_u64 policy.generation (hash_bytes fnv_offset (version_tag policy.outputs))) in
    hash_order policy policy.output_order (output_part policy.outputs policy.output_hints head)
