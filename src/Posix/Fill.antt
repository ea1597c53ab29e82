-- ===== src/Posix/Fill.antt =====
-- `fill_with_content` and `fill_with_error` of src/engine_posix.cpp: a reply appended to the buffer.
pub mod Text
pub mod Full
use ucall.Prelude.{
  ℕ, ◌+◌, ◌-◌, Bool, true, false, ◌&&◌, Option, none, some, List, [], ◌∷◌, ◌++◌, Bytes, codes,
  length, take, drop, ltb, if◌then◌else◌,
}
use ucall.Memory.Allocator.{Allocator}
use ucall.Memory.Array
use ucall.Memory.Array.{Array, size}
use ucall.Reply.{http_header, http_header_size, set_http_content_length, comma_len}

infixl 5 ◌>>=◌
abbrev pub ◌>>=◌ : {A B : Type 0} → Option A → (A → Option B) → Option B
none >>= f = none
some a >>= f = f a

-- `res &= buffer.append_n(…)` for each part: a refusal does not stop the rest.
pub append_parts : Allocator → Array ℕ → List Bytes → Bool × Array ℕ
append_parts heap b [] = (true, b)
append_parts heap b (p ∷ ps) =
    let (done, b') = Array.append_n heap b p in
    let (rest, b'') = append_parts heap b' ps in (done && rest, b'')

-- `set_http_content_length(buffer.end() - (body_len + http_header_size_k), body_len)`. After a refused header
-- the address may lie below the block, and the write is outside of the buffer: `none`.
patch_length : Array ℕ → ℕ → Option (Array ℕ)
patch_length b body_len =
    let at = size b - (body_len + http_header_size) in
    if ltb (size b) (body_len + http_header_size)
    then none
    else some (record b {
      elements = take at b.elements ++ (set_http_content_length (drop at b.elements) body_len).1;
    })

-- `none`: the patch is written outside of the buffer.
pub fill : Allocator → Array ℕ → List Bytes → Bool → Option (Bool × Array ℕ)
unfolding append_parts patch_length
fill heap buffer parts add_http =
    let (headed, b) = if add_http then Array.append_n heap buffer http_header else (true, buffer) in
    let (done, b') = append_parts heap b parts in
    let body_len = size b' - size b in
    if add_http
    then (patch_length b' body_len >>= λ b''. some (headed && done, b''))
    else some (headed && done, b')

abbrev pub content_parts : Bytes → Bytes → Bool → List Bytes
content_parts request_id body append_comma =
    codes "{\"jsonrpc\":\"2.0\",\"id\":"
    ∷ request_id
    ∷ codes ",\"result\":"
    ∷ body
    ∷ take (1 + comma_len append_comma) (codes "},")
    ∷ []

abbrev pub error_parts : Bytes → Bytes → Bytes → Bool → List Bytes
error_parts request_id error_code error_message append_comma =
    codes "{\"jsonrpc\":\"2.0\",\"id\":"
    ∷ request_id
    ∷ codes ",\"error\":{\"code\":"
    ∷ error_code
    ∷ codes ",\"message\":\""
    ∷ error_message
    ∷ take (3 + comma_len append_comma) (codes "\"}},")
    ∷ []

pub fill_with_content : Allocator → Array ℕ → Bytes → Bytes → Bool → Bool → Option (Bool × Array ℕ)
unfolding fill
fill_with_content heap buffer request_id body add_http append_comma =
    fill heap buffer (content_parts request_id body append_comma) add_http

pub fill_with_error :
    Allocator → Array ℕ → Bytes → Bytes → Bytes → Bool → Bool → Option (Bool × Array ℕ)
unfolding fill
fill_with_error heap buffer request_id error_code error_message add_http append_comma =
    fill heap buffer (error_parts request_id error_code error_message append_comma) add_http
