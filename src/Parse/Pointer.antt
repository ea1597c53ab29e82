-- ===== src/Parse/Pointer.antt =====
-- `point_to_param` and `round_up_to` of src/helpers/parse.hpp.
pub mod Bounds
pub mod Lookup
use ucall.Prelude.{
  ℕ, ◌+◌, ◌-◌, ◌*◌, ◌/◌, Bool, true, false, Option, none, some, [], ◌∷◌, Bytes, codes, length, take,
  memcpy, ltb, ◌==◌, if◌then◌else◌,
}
use ucall.Charconv.{to_chars}
use ucall.Parse.Dom.{Dom}

abbrev pub json_pointer_capacity : ℕ
json_pointer_capacity = 256

-- `round_up_to<step>`
pub round_up_to : ℕ → ℕ → ℕ
round_up_to step n = (n + step - 1) / step * step

abbrev pub has_slash : Bytes → ℕ
has_slash [] = 0
has_slash (c ∷ s) = if c == b'/' then 1 else 0

-- The buffer `json_pointer` and the size of the text in it; `none` for `INVALID_JSON_POINTER`.
pub write_name : Bytes → Bytes → Option (Bytes × ℕ)
write_name json_pointer name =
    let final_size = length name + 8 - has_slash name in
    if ltb json_pointer_capacity final_size
    then none
    else some
        (memcpy (memcpy json_pointer 0 (codes "/params/")) (8 - has_slash name) name, final_size)

pub write_position : Bytes → ℕ → Option (Bytes × ℕ)
write_position json_pointer position = elim (to_chars (json_pointer_capacity - 8) position) [
  | none ↦ none
  | some s ↦ some (memcpy (memcpy json_pointer 0 (codes "/params/")) 8 s, 8 + length s)
]

module _ {E D : Type 0} (dom : Dom E D) where
  look_up : E → Option (Bytes × ℕ) → Option E
  look_up tree none = none
  look_up tree (some (json_pointer, final_size)) =
      dom.at_pointer tree (take final_size json_pointer)

  pub point_to_name : E → Bytes → Bytes → Option E
  unfolding write_name look_up
  point_to_name tree json_pointer name = look_up tree (write_name json_pointer name)

  pub point_to_position : E → Bytes → ℕ → Option E
  unfolding write_position look_up
  point_to_position tree json_pointer position = look_up tree (write_position json_pointer position)
