-- ===== src/Python/Wrapper.antt =====
-- `wrapper`: from a call to the arguments of a Python function, and from what it returns to the reply.
pub mod Kinds
pub mod Replies
use Prim.Native.Nat.{bit_and, bit_or}
use ucall.Prelude.{
  ℕ, zero, suc, ◌%◌, ◌^◌, Bool, true, false, not, ◌&&◌, ◌||◌, Option, none, some, List, [], ◌∷◌,
  Bytes, pos, length, ltb, ◌==◌, if◌then◌else◌,
}
use ucall.Memory.Allocator.{Allocator}
use ucall.Parse.Dom.{Dom}
use ucall.Posix.Engine.{Answer, content, error, invalid_params, unknown, out_of_memory}
use ucall.Posix.Params.{
  param_named_bool, param_named_i64, param_named_f64, param_named_str, param_positional_bool,
  param_positional_i64, param_positional_f64, param_positional_str,
}
use ucall.PyJson.{
  Value, py_bool, py_long, py_float, py_unicode, py_bytes, Encoders, to_string,
  calculate_size_as_str,
}
use ucall.Python.Signature.{
  ParamKind, positional_only, positional_or_keyword, var_positional, keyword_only, var_keyword,
  Param,
}

-- The enumerators count from 0.
abbrev kind_value : ParamKind → ℕ
kind_value positional_only = 0
kind_value positional_or_keyword = 1
kind_value var_positional = 2
kind_value keyword_only = 3
kind_value var_keyword = 4

-- The masks are the enumerators themselves.
unfoldable pub may_have_name : ParamKind → Bool
may_have_name kind =
    let k = kind_value kind in not (bit_or (bit_or (bit_and k 1) (bit_and k 3)) (bit_and k 4) == 0)

unfoldable pub may_have_pos : ParamKind → Bool
may_have_pos kind =
    let k = kind_value kind in not (bit_or (bit_or (bit_and k 1) (bit_and k 0)) (bit_and k 2) == 0)

-- What the variable `res` of a parameter is in the end: read, or never set; or the call is refused; or a
-- pointer that was never set is followed.
pub data Fetched (A : Type 0) : Type 0 where
  got : A → Fetched A
  unset refused wild : Fetched A

unfoldable pub fetch : {A : Type 0} → ParamKind → ℕ → Option A → Option A → Fetched A
fetch kind name_len named positional =
    let by_name = if may_have_name kind && ltb 0 name_len then named else none in
    elim by_name [
      | some a ↦ got a
      | none ↦
          if may_have_pos kind then elim positional [ none ↦ refused | some a ↦ got a ] else unset
    ]

abbrev convert : {A B : Type 0} → (A → B) → Fetched A → Fetched B
convert f (got a) = got (f a)
convert f unset = unset
convert f refused = refused
convert f wild = wild

-- `PyUnicode_FromStringAndSize` and `tb64dec` read what their pointer, set or not, points to.
abbrev convert_text : {A B : Type 0} → (A → B) → Fetched A → Fetched B
convert_text f (got a) = got (f a)
convert_text f unset = wild
convert_text f refused = refused
convert_text f wild = wild

-- `PyType_IsSubtype` of the four types, and `tb64dec`.
pub record Types (T : Type 0) : Type 0 where
  pub is_bool : T → Bool
  pub is_long : T → Bool
  pub is_float : T → Bool
  pub is_unicode : T → Bool
  pub tb64dec : Bytes → Bytes

abbrev behind : {A : Type 0} → A → Option (Option (List A)) → Option (Option (List A))
behind a none = none
behind a (some none) = some none
behind a (some (some rest)) = some (some (a ∷ rest))

abbrev pub store :
    {A : Type 0} → Fetched A → Option (Option (List (Option A))) → Option (Option (List (Option A)))
store refused rest = some none
store wild rest = none
store unset rest = behind none rest
store (got a) rest = behind (some a) rest

-- What `PyObject_CallObject` gives: an object, or an exception with its text, or neither.
pub data Called (D : Type 0) : Type 0 where
  returned : Value D → Called D
  raised : Bytes → Called D
  failed : Called D

-- The reply to an object. `none`: more is written than the block holds, or nothing is, and `strlen` looks for
-- the end of a text in a block that was never set.
unfoldable pub respond : {D : Type 0} → Encoders D → Allocator → Value D → Option Answer
respond py heap response =
    let printed = to_string py response in
    let size = calculate_size_as_str py response % 2 ^ 64 in
    if not (heap.malloc size)
    then some out_of_memory
    else if ltb size printed.touched || length printed.text == 0
    then none
    else some (content printed.text (length printed.text))

unfoldable pub answer_called : {D : Type 0} → Encoders D → Allocator → Called D → Option Answer
answer_called py heap (returned response) = respond py heap response
answer_called py heap (raised text) = some (error (pos 500) text (length text))
answer_called py heap failed = some unknown

module _ {E D T V : Type 0} (dom : Dom E D) (types : Types T) (tree : E)
    (json_pointer : Bytes) where
  -- The argument at position `i` for a parameter with a type.
  unfoldable pub fetch_as : ℕ → Param V T → T → Fetched (Value D)
  fetch_as i p type =
      let n = length p.name in
      if types.is_bool type
      then convert py_bool (
          fetch p.kind n (param_named_bool dom tree json_pointer p.name n)
            (param_positional_bool dom tree json_pointer i))
      else if types.is_long type
      then convert py_long (
          fetch p.kind n (param_named_i64 dom tree json_pointer p.name n)
            (param_positional_i64 dom tree json_pointer i))
      else if types.is_float type
      then convert py_float (
          fetch p.kind n (param_named_f64 dom tree json_pointer p.name n)
            (param_positional_f64 dom tree json_pointer i))
      else if types.is_unicode type
      then convert_text py_unicode (
          fetch p.kind n (param_named_str dom tree json_pointer p.name n)
            (param_positional_str dom tree json_pointer i))
      else convert_text (λ s. py_bytes (types.tb64dec s))
          (fetch p.kind n (param_named_str dom tree json_pointer p.name n)
            (param_positional_str dom tree json_pointer i))

  -- The tuple of the arguments, `none` for one that was never set; the inner `none` is a refusal, which ends the
  -- loop. The outer `none`: a null or wild pointer is followed, as `PyType_IsSubtype` does for a parameter without a type.
  unfoldable pub arguments : ℕ → List (Param V T) → Option (Option (List (Option (Value D))))
  arguments i [] = some (some [])
  arguments i (p ∷ ps) = elim p.type [
    | none ↦ none
    | some type ↦ store (fetch_as i p type) (arguments (suc i) ps)
  ]

  -- `none`: memory that is not the wrapper's is read or written.
  unfoldable pub wrapper :
      Encoders D
      → Allocator
      → (List (Option (Value D)) → Called D)
      → List (Param V T)
      → Option (List Answer)
  wrapper py heap callable u_params = elim (arguments 0 u_params) [
    | none ↦ none
    | some none ↦ some (invalid_params ∷ [])
    | some (some args) ↦ elim (answer_called py heap (callable args)) [
      | none ↦ none
      | some a ↦ some (a ∷ [])
    ]
  ]
