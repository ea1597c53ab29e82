-- ===== src/Tests/Requests.antt =====
-- Requests in a small document type of the tests, as the parsers' results.
use ucall.Prelude.{
  ℕ, ◌+◌, ◌≤◌, ◌≡◌, inl, refl, Bool, true, false, Option, none, some, List, [], ◌∷◌, ◌++◌, Bytes,
  codes, length, view_eq, pos, ℤ, if◌then◌else◌,
}
use ucall.Memory.Buffer.{replicate}
use ucall.Parse.Dom.{Dom, Header, PhrResult, request, invalid}
use ucall.Parse.Http.{ParsedRequest, split_body_headers, blank_line}
use ucall.Parse.Http.Split.{split_body_headers_post}
use ucall.Parse.Callback.{NamedCallback, Scratch}
use ucall.Parse.Pointer.{write_name}
use ucall.Parse.Pointer.Bounds.{Writes, name_pointer, write_name-Writes}

-- A call with a method and an id, a notification of a method, and their members.
pub data Toy : Type 0 where
  call : Bytes → ℕ → Toy
  notice : Bytes → Toy
  text : Bytes → Toy
  number : ℕ → Toy

abbrev is_call : Toy → Bool
is_call (call m i) = true
is_call (notice m) = true
is_call (text s) = false
is_call (number n) = false

abbrev is_text : Toy → Bool
is_text (call m i) = false
is_text (notice m) = false
is_text (text s) = true
is_text (number n) = false

abbrev is_number : Toy → Bool
is_number (call m i) = false
is_number (notice m) = false
is_number (text s) = false
is_number (number n) = true

abbrev text_of : Toy → Bytes
text_of (call m i) = []
text_of (notice m) = []
text_of (text s) = s
text_of (number n) = []

abbrev number_of : Toy → ℤ
number_of (call m i) = pos 0
number_of (notice m) = pos 0
number_of (text s) = pos 0
number_of (number n) = pos n

abbrev member : Toy → Bytes → Option Toy
member (call m i) key =
    if view_eq key (codes "jsonrpc")
    then some (text (codes "2.0"))
    else if view_eq key (codes "method")
    then some (text m)
    else if view_eq key (codes "id")
    then some (number i)
    else none
member (notice m) key =
    if view_eq key (codes "jsonrpc")
    then some (text (codes "2.0"))
    else if view_eq key (codes "method")
    then some (text m)
    else none
member (text s) key = none
member (number n) key = none

abbrev pub toy_dom : Dom Toy ℕ
toy_dom = record {
  parse = λ s. invalid;
  is_object = is_call;
  is_array = λ t. false;
  is_string = is_text;
  is_double = λ t. false;
  is_int64 = is_number;
  is_uint64 = λ t. false;
  is_bool = λ t. false;
  get_array = λ t. [];
  get_string = text_of;
  get_int64 = number_of;
  get_double = λ t. 0;
  get_bool = λ t. false;
  at_key = member;
  at_pointer = λ t path. none;
  overwritten = λ packet view. view;
}

abbrev pub asked : Scratch Toy
asked = record {
  tree = call (codes "sum") 7;
  is_batch = false;
  is_http = false;
  dynamic_packet = [];
  dynamic_id = codes "7";
}

abbrev named : List (NamedCallback ℕ ℕ)
named =
    record { name = codes "product"; callback = 1; callback_tag = 0 }
    ∷ record { name = codes "sum"; callback = 2; callback_tag = 0 }
    ∷ []

abbrev length_header : Header
length_header = record { name = codes "Content-Length"; value = codes "2" }

abbrev parse_post : Bytes → PhrResult
parse_post s = request (codes "POST") (length_header ∷ [])

split_body_headers_post_example :
    (req : ParsedRequest) × (head : Bytes) × (split_body_headers parse_post
        (codes "POST / HTTP/1.1" ++ (blank_line ++ codes "{}"))
      ≡ inl req)
    × (codes "POST / HTTP/1.1" ++ (blank_line ++ codes "{}") ≡ head ++ (blank_line ++ req.body))
    × (length head ≤ length (codes "POST / HTTP/1.1"))
    × (req.body_offset ≡ length head + 4)
    × (req.type ≡ codes "POST")
split_body_headers_post_example =
    split_body_headers_post parse_post (codes "POST / HTTP/1.1") (codes "{}") (length_header ∷ [])
      refl

abbrev type_header : Header
type_header = record { name = codes "Content-Type"; value = codes "application/json" }

write_name-Writes_example :
    Writes (name_pointer (codes "/user/id")) (write_name (replicate 256 0) (codes "/user/id"))
write_name-Writes_example = write_name-Writes (replicate 256 0) (codes "/user/id") refl
