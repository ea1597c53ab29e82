-- ===== src/Posix/Params.antt =====
-- The `ucall_param_*` functions of src/engine_posix.cpp, which a callback reads its parameters with, and
-- `ucall_add_procedure`.
use ucall.Prelude.{
  ℕ, ◌+◌, ◌^◌, ◌<◌, ◌≡◌, ap, ◌∙◌, ◌≤◌, ◌⊎◌, inl, inr, refl, [], ◌∷◌, ◌++◌, arith, length-append,
  ltb→lt, Bool-cases, Bool, Option, none, some, Bytes, ℤ, length, ltb, if◌then◌else◌,
}
use ucall.Charconv.{print_nat}
use ucall.Memory.Array
use ucall.Memory.Array.{Array, size}
use ucall.Memory.Array.Growth.{IsValid}
use ucall.Parse.Dom.{Dom}
use ucall.Parse.Callback.{NamedCallback}
use ucall.Parse.Pointer.{json_pointer_capacity, point_to_name, point_to_position}
use ucall.Parse.Pointer.Lookup.{point_to_position-name}
use ucall.Posix.Reply.{view}
use ucall.Posix.Engine.{Callback}
use ucall.Posix.Forward.Texts.{view-length}

-- The last slot of the reserved ones is never used.
pub add_procedure :
    {E T : Type 0}
    → Array (NamedCallback (Callback E T) T)
    → NamedCallback (Callback E T) T
    → Array (NamedCallback (Callback E T) T)
add_procedure callbacks c =
    if ltb (size callbacks + 1) callbacks.capacity
    then Array.push_back_reserved callbacks c
    else callbacks

-- `*result_ptr`, where the test passes.
abbrev read : {E A : Type 0} → (E → Bool) → (E → A) → Option E → Option A
read test get none = none
read test get (some value) = if test value then some (get value) else none

module _ {E D : Type 0} (dom : Dom E D) (tree : E) (json_pointer : Bytes) where
  -- `string_length` of the name: 0 asks for `strlen`.
  param_at_name : Bytes → ℕ → Option E
  param_at_name name name_len = point_to_name dom tree json_pointer (view name name_len)

  param_at_position : ℕ → Option E
  param_at_position position = point_to_position dom tree json_pointer position

  pub param_named_bool : Bytes → ℕ → Option Bool
  unfolding param_at_name
  param_named_bool name name_len = read dom.is_bool dom.get_bool (param_at_name name name_len)

  pub param_named_i64 : Bytes → ℕ → Option ℤ
  unfolding param_at_name
  param_named_i64 name name_len = read dom.is_int64 dom.get_int64 (param_at_name name name_len)

  pub param_named_f64 : Bytes → ℕ → Option D
  unfolding param_at_name
  param_named_f64 name name_len = read dom.is_double dom.get_double (param_at_name name name_len)

  pub param_named_str : Bytes → ℕ → Option Bytes
  unfolding param_at_name
  param_named_str name name_len = read dom.is_string dom.get_string (param_at_name name name_len)

  pub param_positional_bool : ℕ → Option Bool
  unfolding param_at_position
  param_positional_bool position = read dom.is_bool dom.get_bool (param_at_position position)

  pub param_positional_i64 : ℕ → Option ℤ
  unfolding param_at_position
  param_positional_i64 position = read dom.is_int64 dom.get_int64 (param_at_position position)

  pub param_positional_f64 : ℕ → Option D
  unfolding param_at_position
  param_positional_f64 position = read dom.is_double dom.get_double (param_at_position position)

  pub param_positional_str : ℕ → Option Bytes
  unfolding param_at_position
  param_positional_str position = read dom.is_string dom.get_string (param_at_position position)

-- A parameter that is read by its 64-bit position is the one that is read by the position's digits as its
-- name, for each of the four types.
pub param_positional-named :
    {E D : Type 0} (dom : Dom E D) (tree : E) (json_pointer : Bytes) (position : ℕ)
    → length json_pointer ≡ json_pointer_capacity
    → position < 2 ^ 64
    → let name = print_nat position in
      let len = length name in
      (param_named_bool dom tree json_pointer name len
        ≡ param_positional_bool dom tree json_pointer position)
      × (param_named_i64 dom tree json_pointer name len
          ≡ param_positional_i64 dom tree json_pointer position)
      × (param_named_f64 dom tree json_pointer name len
          ≡ param_positional_f64 dom tree json_pointer position)
      × (param_named_str dom tree json_pointer name len
          ≡ param_positional_str dom tree json_pointer position)
unfolding param_at_name param_at_position param_named_bool param_named_i64 param_named_f64
    param_named_str param_positional_bool param_positional_i64 param_positional_f64
    param_positional_str
param_positional-named dom tree json_pointer position h small =
    let name = print_nat position in
    let same : param_at_name dom tree json_pointer name (length name)
        ≡ param_at_position dom tree json_pointer position =
      ap (point_to_name dom tree json_pointer) (view-length name)
      ∙ (point_to_position-name dom tree json_pointer position h small).1 in
    (
      ap (read dom.is_bool dom.get_bool) same,
      ap (read dom.is_int64 dom.get_int64) same,
      ap (read dom.is_double dom.get_double) same,
      ap (read dom.is_string dom.get_string) same,
    )

-- Registering a callback never writes outside of the reserved slots: it goes behind the others while two
-- slots are free, and is dropped otherwise.
pub add_procedure_lem :
    {E T : Type 0} (callbacks : Array (NamedCallback (Callback E T) T))
    (c : NamedCallback (Callback E T) T)
    → IsValid callbacks
    → IsValid (add_procedure callbacks c)
      × ((size callbacks + 1 < callbacks.capacity)
            × ((add_procedure callbacks c).elements ≡ callbacks.elements ++ c ∷ [])
          ⊎ (callbacks.capacity ≤ size callbacks + 1) × (add_procedure callbacks c ≡ callbacks))
unfolding add_procedure Array.push_back_reserved
add_procedure_lem callbacks c v = elim (Bool-cases (ltb (size callbacks + 1) callbacks.capacity)) [
  | inl b ↦
      let room = ltb→lt (size callbacks + 1) callbacks.capacity b in
      rw (b, add_procedure)
        (
          record {
            fits = omega (arith, room, length-append callbacks.elements (c ∷ []));
            backed = v.backed;
          },
          inl (room, refl),
        )
  | inr b ↦ rw (b, add_procedure) (v, inr (ground arith, refl))
]
