-- ===== src/PyJson.antt =====
-- src/helpers/py_to_json.h: how the Python binding prints the value that a procedure returned.
-- The interpreter's objects are a data type with one constructor for each branch of the two functions;
-- what Python's and Turbo-Base64's functions return is a parameter.
pub mod Escape
pub mod Size
pub mod Fits
pub mod Grammar
use ucall.Prelude.{
  ℕ, suc, ◌+◌, ◌-◌, ◌/◌, ◌%◌, ◌^◌, Bool, true, false, List, [], ◌∷◌, ◌++◌, Bytes, codes, ℤ, pos,
  negsuc, length, get_or, max, drop_last, ltb, ◌==◌, if◌then◌else◌,
}
use ucall.Charconv.{print_int}

mutual
  -- `py_none` is `Py_None`; an integer has any size; a double of type `F` what
  -- `PyFloat_AsDouble` does; `other` is an object that no branch takes.
  pub data Value (F : Type 0) : Type 0 where
    py_none : Value F
    py_bool : Bool → Value F
    py_long : ℤ → Value F
    py_float : F → Value F
    py_bytes : Bytes → Value F
    py_unicode : Bytes → Value F
    py_sequence : Values F → Value F
    py_dict : Members F → Value F
    other : Value F

  pub data Values (F : Type 0) : Type 0 where
    no_values : Values F
    value : Value F → Values F → Values F

  pub data Members (F : Type 0) : Type 0 where
    no_members : Members F
    member : Value F → Value F → Members F → Members F

-- `sprintf("%f")`, `tb64enc` and `tb64enclen`.
pub record Encoders (F : Type 0) : Type 0 where
  pub float_text : F → Bytes
  pub tb64enc : Bytes → Bytes
  pub tb64enclen : ℕ → ℕ

abbrev int_to_hex : Bytes
int_to_hex = codes "0123456789ABCDEF"

unfoldable pub char_to_hex : ℕ → Bytes
char_to_hex c = get_or int_to_hex (c / 16) 0 ∷ get_or int_to_hex (c % 16) 0 ∷ []

-- The cases of the `switch`; the last ones are the bytes below 32 that are left.
unfoldable pub escape_char : ℕ → Bytes
escape_char c =
    if c == 34
    then codes "\\\""
    else if c == 92
    then codes "\\\\"
    else if c == 8
    then codes "\\b"
    else if c == 9
    then codes "\\t"
    else if c == 10
    then codes "\\n"
    else if c == 12
    then codes "\\f"
    else if c == 13
    then codes "\\r"
    else if ltb c 32
    then codes "\\u00" ++ char_to_hex c
    else c ∷ []

unfoldable pub escape : Bytes → Bytes
escape [] = []
escape (c ∷ s) = escape_char c ++ escape s

-- What a call of `to_string` does: its result (0 is `true`), the `*len` bytes at `data`, and how many
-- bytes from `data` on were written. `*len` is 0 before every call.
pub record Printed : Type 0 where
  pub done : Bool
  pub text : Bytes
  pub touched : ℕ

-- The terminator is written too.
unfoldable pub sprintf : Bytes → Printed
sprintf s = record { done = true; text = s; touched = length s + 1 }

abbrev pub written : Bytes → ℕ → Printed
written s touched = record { done = true; text = s; touched = touched }

-- The bracket takes the place of the last comma.
unfoldable pub bracketed : ℕ → ℕ → Bytes × ℕ → Printed
bracketed first last (text, touched) = written (first ∷ (drop_last text ++ last ∷ [])) (suc touched)

-- `PyLong_AsLong`, whose result is -1 for an integer that is no `long`.
abbrev pub as_long : ℤ → ℤ
as_long (pos n) = if ltb n (2 ^ 63) then pos n else negsuc 0
as_long (negsuc n) = if ltb n (2 ^ 63) then negsuc n else negsuc 0

module _ {F : Type 0} (py : Encoders F) where
  unfoldable mutual
    pub to_string : Value F → Printed
    to_string py_none = sprintf (codes "null")
    to_string (py_bool b) = sprintf (if b then codes "true" else codes "false")
    to_string (py_long i) = sprintf (print_int (as_long i))
    to_string (py_float x) = sprintf (py.float_text x)
    to_string (py_bytes s) = let text = 34 ∷ (py.tb64enc s ++ 34 ∷ []) in written text (length text)
    to_string (py_unicode s) = let text = 34 ∷ (escape s ++ 34 ∷ []) in written text (length text)
    to_string (py_sequence no_values) = written (codes "[]") 2
    to_string (py_sequence (value v vs)) = bracketed b'[' b']' (print_values (value v vs))
    to_string (py_dict no_members) = written (codes "{}") 2
    to_string (py_dict (member k v ms)) = bracketed b'{' b'}' (print_members (member k v ms))
    to_string other = record { done = false; text = []; touched = 0 }

    -- The results are not looked at.
    pub print_values : Values F → Bytes × ℕ
    print_values no_values = ([], 0)
    print_values (value v vs) =
        let n = to_string v in
        let (text, touched) = print_values vs in
        (n.text ++ b',' ∷ text, max n.touched (length n.text + 1 + touched))

    pub print_members : Members F → Bytes × ℕ
    print_members no_members = ([], 0)
    print_members (member k v ms) =
        let key = to_string k in
        let n = to_string v in
        let (text, touched) = print_members ms in
        (
          key.text ++ b':' ∷ (n.text ++ b',' ∷ text),
          max key.touched (length key.text + 1 + max n.touched (length n.text + 1 + touched)),
        )

  unfoldable mutual
    -- -1 is the largest `size_t`; the sums wrap.
    pub calculate_size_as_str : Value F → ℕ
    calculate_size_as_str py_none = 4
    calculate_size_as_str (py_bool b) = if b then 4 else 5
    calculate_size_as_str (py_long i) = length (print_int (as_long i))
    calculate_size_as_str (py_float x) = length (py.float_text x)
    calculate_size_as_str (py_bytes s) = py.tb64enclen (length s) + 2
    calculate_size_as_str (py_unicode s) = length s + 2
    calculate_size_as_str (py_sequence no_values) = 2
    calculate_size_as_str (py_sequence (value v vs)) =
        (values_size 2 (value v vs) + (2 ^ 64 - 1)) % 2 ^ 64
    calculate_size_as_str (py_dict no_members) = 2
    calculate_size_as_str (py_dict (member k v ms)) =
        (members_size 2 (member k v ms) + (2 ^ 64 - 1)) % 2 ^ 64
    calculate_size_as_str other = 2 ^ 64 - 1

    pub values_size : ℕ → Values F → ℕ
    values_size size no_values = size
    values_size size (value v vs) = values_size ((size + calculate_size_as_str v + 1) % 2 ^ 64) vs

    pub members_size : ℕ → Members F → ℕ
    members_size size no_members = size
    members_size size (member k v ms) =
        let size' = (size + calculate_size_as_str k + 1) % 2 ^ 64 in
        members_size ((size' + calculate_size_as_str v + 1) % 2 ^ 64) ms
