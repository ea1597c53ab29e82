-- ===== src/Parse/Callback.antt =====
-- `find_callback` of src/helpers/parse.hpp: the checks on a JSON-RPC request, and its callback.
pub mod Ids
pub mod Checks
use ucall.Prelude.{
  ℕ, ◌+◌, Bool, true, false, not, ◌&&◌, ◌||◌, ◌⊎◌, inl, inr, Option, none, some, List, [], ◌∷◌,
  Bytes, codes, ℤ, neg, view_eq, if◌then◌else◌,
}
use ucall.Charconv.{to_chars_int}
use ucall.Parse.Dom.{Dom, holds}
use ucall.Parse.Http.{DefaultError}

abbrev pub max_integer_length : ℕ
max_integer_length = 32

-- `named_callback_t`: a callback `C` and the tag `T` that it is handed.
pub record NamedCallback (C T : Type 0) : Type 0 where
  pub name : Bytes
  pub callback : C
  pub callback_tag : T

-- `scratch_space_t`, less the memory that the parsers use. `dynamic_id` holds the characters that
-- the view shows, which `parsed_over` brings up to date.
pub record Scratch (E : Type 0) : Type 0 where
  pub tree : E
  pub is_batch : Bool
  pub is_http : Bool
  pub dynamic_packet : Bytes
  pub dynamic_id : Bytes

-- The view of an id may point into the memory of a parser that parses the packet, or that is destroyed.
abbrev pub parsed_over : {E D : Type 0} → Dom E D → Scratch E → Scratch E
parsed_over dom s = record s { dynamic_id = dom.overwritten s.dynamic_packet s.dynamic_id }

abbrev pub bad_request : Bytes → DefaultError
bad_request note = record { code = neg 32600; note = note }

abbrev pub method_not_found : DefaultError
method_not_found = record { code = neg 32601; note = codes "Method not found." }

-- `std::find_if` on the names.
unfoldable pub find_named :
    {C T : Type 0} → List (NamedCallback C T) → Bytes → Option (NamedCallback C T)
find_named [] name = none
find_named (c ∷ cs) name = if view_eq c.name name then some c else find_named cs name

module _ {E D : Type 0} (dom : Dom E D) where
  open dom use {
    is_object, is_array, is_string, is_double, is_int64, is_uint64, get_string, get_int64, at_key,
  }

  -- `value_unsafe` of a string.
  unfoldable pub text_of : Option E → Bytes
  text_of none = []
  text_of (some e) = get_string e

  unfoldable pub version_invalid : E → Bool
  unfolding text_of
  version_invalid doc =
      let version = at_key doc (codes "jsonrpc") in
      not (holds is_string version) || not (view_eq (text_of version) (codes "2.0"))

  unfoldable pub id_invalid : E → Bool
  id_invalid doc =
      let id = at_key doc (codes "id") in
      (holds is_double id && not (holds is_int64 id) && not (holds is_uint64 id))
      || holds is_object id
      || holds is_array id

  unfoldable pub method_invalid : E → Bool
  method_invalid doc = not (holds is_string (at_key doc (codes "method")))

  -- Parameters that are absent are no error.
  unfoldable pub params_invalid : E → Bool
  params_invalid doc = elim (at_key doc (codes "params")) [
    | none ↦ false
    | some p ↦ not (is_array p) && not (is_object p)
  ]

  -- The id as the reply will show it; `none` if it does not fit its buffer.
  unfoldable pub print_id : Option E → Option Bytes
  print_id none = some []
  print_id (some id) =
      if is_string id
      then some (get_string id)
      else if is_int64 id || is_uint64 id
      then to_chars_int max_integer_length (get_int64 id)
      else some []

  module _ {C T : Type 0} where
    unfoldable pub find_method :
        List (NamedCallback C T) → Scratch E → (NamedCallback C T ⊎ DefaultError) × Scratch E
    unfolding print_id text_of
    find_method callbacks s = elim (print_id (at_key s.tree (codes "id"))) [
      | none ↦ (inr (bad_request (codes "The request ID is invalid integer.")), s)
      | some id ↦
          let s' = record s { dynamic_id = id } in
          elim (find_named callbacks (text_of (at_key s.tree (codes "method")))) [
            | none ↦ (inr method_not_found, s')
            | some c ↦ (inl c, s')
          ]
    ]

    unfoldable pub find_callback :
        List (NamedCallback C T) → Scratch E → (NamedCallback C T ⊎ DefaultError) × Scratch E
    unfolding version_invalid id_invalid method_invalid params_invalid find_method
    find_callback callbacks s =
        if not (is_object s.tree)
        then (inr (bad_request (codes "The JSON sent is not a valid request object.")), s)
        else if version_invalid s.tree
        then (inr (bad_request (codes "The request doesn't specify the 2.0 version.")), s)
        else if id_invalid s.tree
        then (inr (bad_request (codes "The request must have integer or string id.")), s)
        else if method_invalid s.tree
        then (inr (bad_request (codes "The method must be a string.")), s)
        else if params_invalid s.tree
        then (inr (bad_request (codes "Parameters can only be passed in arrays or objects.")), s)
        else find_method callbacks s
