-- ===== src/Parse/Http.antt =====
-- `split_body_headers` of src/helpers/parse.hpp: HTTP requests and plain JSON-RPC.
pub mod Split
use ucall.Prelude.{
  ℕ, zero, suc, ◌+◌, Bool, true, false, not, ◌&&◌, ◌⊎◌, inl, inr, Option, none, some, List, [], ◌∷◌,
  Bytes, codes, ℤ, neg, length, drop, view_eq, ltb, ◌==◌, if◌then◌else◌,
}
use ucall.Parse.Dom.{Header, PhrResult, request, partial, failed}

-- `default_error_t`
pub record DefaultError : Type 0 where
  pub code : ℤ
  pub note : Bytes

-- `parsed_request_t`; `body_offset` is where `body` begins in the packet.
pub record ParsedRequest : Type 0 where
  pub type : Bytes
  pub keep_alive : Bytes
  pub content_type : Bytes
  pub content_length : Bytes
  pub body : Bytes
  pub body_offset : ℕ

abbrev pub no_request : ParsedRequest
no_request = record {
  type = [];
  keep_alive = [];
  content_type = [];
  content_length = [];
  body = [];
  body_offset = 0;
}

-- The names are compared byte by byte.
set_header : ParsedRequest → Header → ParsedRequest
set_header req h =
    if length h.name == 0
    then req
    else if view_eq h.name (codes "Keep-Alive")
    then record req { keep_alive = h.value }
    else if view_eq h.name (codes "Content-Type")
    then record req { content_type = h.value }
    else if view_eq h.name (codes "Content-Length")
    then record req { content_length = h.value }
    else req

pub set_headers : ParsedRequest → List Header → ParsedRequest
unfolding set_header
set_headers req [] = req
set_headers req (h ∷ hs) = set_headers (set_header req h) hs

pub starts_with : Bytes → Bytes → Bool
starts_with [] s = true
starts_with (x ∷ xs) [] = false
starts_with (x ∷ xs) (y ∷ ys) = x == y && starts_with xs ys

abbrev one_later : Option ℕ → Option ℕ
one_later none = none
one_later (some i) = some (suc i)

-- `std::string_view::find`: the first position, if any.
pub find : Bytes → Bytes → Option ℕ
find needle [] = if starts_with needle [] then some 0 else none
find needle (x ∷ xs) =
    let rest = one_later (find needle xs) in if starts_with needle (x ∷ xs) then some 0 else rest

abbrev pub blank_line : Bytes
blank_line = codes "\r\n\r\n"

unfoldable pub with_body : ParsedRequest → Bytes → ParsedRequest ⊎ DefaultError
with_body req packet =
    if ltb 0 (length req.type) && view_eq req.type (codes "POST")
    then elim (find blank_line packet) [
      | none ↦
          inr (record { code = neg 32700; note = codes "Invalid JSON was received by the server." })
      | some pos ↦ inl (record req { body = drop (pos + 4) packet; body_offset = pos + 4 })
    ]
    else inl (record req { body = packet; body_offset = 0 })

-- `phr` stands for `phr_parse_request`.
unfoldable pub split_body_headers : (Bytes → PhrResult) → Bytes → ParsedRequest ⊎ DefaultError
unfolding with_body
split_body_headers phr packet = elim (phr packet) [
  | partial ↦ inr (record { code = neg 2; note = codes "Partial HTTP request" })
  | failed ↦ with_body no_request packet
  | request method headers ↦
      with_body (set_headers (record no_request { type = method }) headers) packet
]
