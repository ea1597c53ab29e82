-- ===== src/Parse/Dom.antt =====
-- What src/helpers/parse.hpp and the engines ask of the two parsers that they call: simdjson's DOM and
-- picohttpparser. Neither is part of the repository, so both are parameters.
use ucall.Prelude.{Bool, false, Option, none, some, List, Bytes, ℤ}

-- What parsing a text gives.
pub data Parsed (E : Type 0) : Type 0 where
  success : E → Parsed E
  -- `simdjson::CAPACITY`: the parser was not given enough memory
  capacity : Parsed E
  -- any other error
  invalid : Parsed E

-- `simdjson::dom`: elements `E`, doubles `D`. A getter is only read where the test before it passed.
pub record Dom (E D : Type 0) : Type 0 where
  pub parse : Bytes → Parsed E
  pub is_object : E → Bool
  pub is_array : E → Bool
  pub is_string : E → Bool
  pub is_double : E → Bool
  pub is_int64 : E → Bool
  pub is_uint64 : E → Bool
  pub is_bool : E → Bool
  pub get_array : E → List E
  pub get_string : E → Bytes
  pub get_int64 : E → ℤ
  pub get_double : E → D
  pub get_bool : E → Bool
  -- `element[key]` and `element.at_pointer(path)`; `none` for an error
  pub at_key : E → Bytes → Option E
  pub at_pointer : E → Bytes → Option E
  -- `overwritten packet view`: what a view of earlier characters shows once the parser has used the memory that
  -- it points to for this packet, or has given it back
  pub overwritten : Bytes → Bytes → Bytes

-- A test on a `simdjson_result`: an error fails it.
abbrev pub holds : {E : Type 0} → (E → Bool) → Option E → Bool
holds p none = false
holds p (some e) = p e

-- `phr_header`
pub record Header : Type 0 where
  pub name : Bytes
  pub value : Bytes

-- What `phr_parse_request` returns: the method and the headers of a request with a positive result,
-- -2 for a partial request, -1 for a text that is none.
pub data PhrResult : Type 0 where
  request : Bytes → List Header → PhrResult
  partial failed : PhrResult
