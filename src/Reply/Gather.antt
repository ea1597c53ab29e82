-- ===== src/Reply/Gather.antt =====
-- What the `iovec`s of a reply amount to, and that copying them out writes just that.
use ucall.Prelude.{
  ℕ, ◌+◌, ◌≤◌, ◌≡◌, refl, sym, ap, ◌∙◌, Bool, true, false, List, [], ◌∷◌, ◌++◌, append-nil,
  append_assoc, arith, Bytes, codes, length, take, length-append, length-take, memcpy, take-memcpy,
  length-memcpy, take_all, if◌then◌else◌,
}
use ucall.Reply.{IoVec, fill_with_content, fill_with_error, iovecs_length, iovecs_memcpy}

-- The bytes of the vectors in order.
unfoldable pub gather : List IoVec → Bytes
gather [] = []
gather (v ∷ vs) = take v.iov_len v.iov_base ++ gather vs

-- No vector reads past its bytes.
abbrev pub InBounds : List IoVec → Type 0
InBounds [] = Unit {0}
InBounds (v ∷ vs) = (v.iov_len ≤ length v.iov_base) × InBounds vs

length-gather : (vs : List IoVec) → InBounds vs → length (gather vs) ≡ iovecs_length vs
unfolding gather iovecs_length
length-gather [] h = refl
length-gather (v ∷ vs) h = omega (
  arith,
  length-append (take v.iov_len v.iov_base) (gather vs),
  length-take v.iov_len v.iov_base,
  length-gather vs h.1,
)

-- The text of a JSON-RPC result.
abbrev pub content_text : Bytes → Bytes → Bytes
content_text id body =
    codes "{\"jsonrpc\":\"2.0\",\"id\":" ++ (id ++ (codes ",\"result\":" ++ (body ++ codes "}")))

-- The text of a JSON-RPC error.
abbrev pub error_text : Bytes → Bytes → Bytes → Bytes
error_text id code note =
    codes "{\"jsonrpc\":\"2.0\",\"id\":"
    ++ (id
        ++ (codes ",\"error\":{\"code\":"
            ++ (code ++ (codes ",\"message\":\"" ++ (note ++ codes "\"}}")))))

abbrev pub comma_text : Bool → Bytes
comma_text b = if b then codes "," else []

take-length : (xs : Bytes) → take (length xs) xs ≡ xs
take-length xs = take_all (length xs) xs (omega arith)

ruleset texts = (take-length, append_assoc, append-nil)

-- The vectors of a result hold its text, with the comma if one is asked for.
pub gather-fill_with_content :
    (id body : Bytes) (comma : Bool)
    → gather (fill_with_content id body comma).0 ≡ content_text id body ++ comma_text comma
unfolding fill_with_content gather
gather-fill_with_content id body true = simp texts
gather-fill_with_content id body false = simp texts

-- They stay in bounds, and the number that is returned is their sum.
pub fill_with_content_bounds :
    (id body : Bytes) (comma : Bool)
    → let (vs, n) = fill_with_content id body comma in InBounds vs × (n ≡ iovecs_length vs)
unfolding fill_with_content iovecs_length
fill_with_content_bounds id body comma = ground arith

-- The vectors of an error hold its text, with the comma if one is asked for.
pub gather-fill_with_error :
    (id code note : Bytes) (comma : Bool)
    → gather (fill_with_error id code note comma).0 ≡ error_text id code note ++ comma_text comma
unfolding fill_with_error gather
gather-fill_with_error id code note true = simp texts
gather-fill_with_error id code note false = simp texts

pub fill_with_error_bounds :
    (id code note : Bytes) (comma : Bool)
    → let (vs, n) = fill_with_error id code note comma in InBounds vs × (n ≡ iovecs_length vs)
unfolding fill_with_error iovecs_length
fill_with_error_bounds id code note comma = ground arith

-- Where the block has room, `iovecs_memcpy` writes the bytes of the vectors in order behind what the
-- block held below `output`, and the block keeps its length.
pub iovecs_memcpy_lem :
    (vs : List IoVec) (mem : Bytes) (output : ℕ)
    → InBounds vs
    → output + iovecs_length vs ≤ length mem
    → (take (output + iovecs_length vs) (iovecs_memcpy vs mem output)
        ≡ take output mem ++ gather vs)
      × (length (iovecs_memcpy vs mem output) ≡ length mem)
unfolding iovecs_memcpy iovecs_length gather
iovecs_memcpy_lem [] mem output b h =
    let e : output + 0 ≡ output = omega arith in (rw (e, append-nil), refl)
iovecs_memcpy_lem (v ∷ vs) mem output b h =
    let src : Bytes = take v.iov_len v.iov_base in
    let len : length src ≡ v.iov_len = omega (arith, length-take v.iov_len v.iov_base, b.0) in
    let keeps = length-memcpy mem output src (omega (arith, len)) in
    let ih =
      iovecs_memcpy_lem vs (memcpy mem output src) (output + v.iov_len) b.1
        (omega (arith, keeps)) in
    (
      ap (λ k. take k (iovecs_memcpy vs (memcpy mem output src) (output + v.iov_len))) (omega arith)
          ∙ ih.0
          ∙ ap (λ t. t ++ gather vs)
              (ap (λ k. take (output + k) (memcpy mem output src)) (sym len)
                ∙ take-memcpy mem output src (omega arith))
          ∙ append_assoc (take output mem) src (gather vs),
      ih.1 ∙ keeps,
    )
