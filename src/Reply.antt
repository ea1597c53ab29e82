-- ===== src/Reply.antt =====
-- src/helpers/reply.hpp: the pieces of a reply, gathered from `iovec`s, and the HTTP header with its
-- `Content-Length`.
pub mod Header
pub mod Gather
mod Tests
use ucall.Prelude.{
  ℕ, ◌+◌, ◌≡◌, Bool, true, false, Option, none, some, List, [], ◌∷◌, ◌++◌, Bytes, codes, length,
  take, memcpy, if◌then◌else◌,
}
use ucall.Charconv.{to_chars}

-- `struct iovec`: where the bytes are, and how many of them are meant.
pub record IoVec : Type 0 where
  pub iov_base : Bytes
  pub iov_len : ℕ

abbrev pub http_header : Bytes
http_header =
    codes "HTTP/1.1 200 OK\r\nContent-Length:          \r\nContent-Type: application/json\r\n\r\n"

abbrev pub http_header_size : ℕ
http_header_size = 78

abbrev http_header_length_offset : ℕ
http_header_length_offset = 33

abbrev http_header_length_capacity : ℕ
http_header_length_capacity = 9

-- Where the number does not fit, the standard leaves the field unspecified; here it is untouched.
pub set_http_content_length : Bytes → ℕ → Bool × Bytes
set_http_content_length headers content_len =
    elim (to_chars http_header_length_capacity content_len) [
      | none ↦ (false, headers)
      | some s ↦ (true, memcpy headers http_header_length_offset s)
    ]

-- `append_comma` counts as a number.
abbrev pub comma_len : Bool → ℕ
comma_len b = if b then 1 else 0

abbrev piece : Bytes → ℕ → IoVec
piece base len = record { iov_base = base; iov_len = len }

abbrev view : Bytes → IoVec
view s = record { iov_base = s; iov_len = length s }

-- The buffers and the length that is returned.
pub fill_with_content : Bytes → Bytes → Bool → List IoVec × ℕ
fill_with_content request_id body append_comma = (
  piece (codes "{\"jsonrpc\":\"2.0\",\"id\":") 22
      ∷ view request_id
      ∷ piece (codes ",\"result\":") 10
      ∷ view body
      ∷ piece (codes "},") (1 + comma_len append_comma)
      ∷ [],
  22 + length request_id + 10 + length body + (1 + comma_len append_comma),
)

pub fill_with_error : Bytes → Bytes → Bytes → Bool → List IoVec × ℕ
fill_with_error request_id error_code error_message append_comma = (
  piece (codes "{\"jsonrpc\":\"2.0\",\"id\":") 22
      ∷ view request_id
      ∷ piece (codes ",\"error\":{\"code\":") 17
      ∷ view error_code
      ∷ piece (codes ",\"message\":\"") 12
      ∷ view error_message
      ∷ piece (codes "\"}},") (3 + comma_len append_comma)
      ∷ [],
  22
      + length request_id
      + 17
      + length error_code
      + 12
      + length error_message
      + 3
      + comma_len append_comma,
)

unfoldable pub iovecs_length : List IoVec → ℕ
iovecs_length [] = 0
iovecs_length (v ∷ vs) = v.iov_len + iovecs_length vs

-- The copies are made one behind the other, from `output` on.
pub iovecs_memcpy : List IoVec → Bytes → ℕ → Bytes
iovecs_memcpy [] mem output = mem
iovecs_memcpy (v ∷ vs) mem output =
    iovecs_memcpy vs (memcpy mem output (take v.iov_len v.iov_base)) (output + v.iov_len)
