-- ===== src/Posix/Fill/Full.antt =====
-- A fill of a buffer that has no room, with a heap that gives none.
use ucall.Prelude.{
  ℕ, ◌+◌, ◌<◌, ◌≡◌, Bool, true, false, some, refl, List, [], ◌∷◌, arith, Bytes, codes,
}
use ucall.Memory.Allocator.{exhausted}
use ucall.Memory.Array
use ucall.Memory.Array.{Array, size}
use ucall.Memory.Array.Growth.{append_n-exhausted}
use ucall.Posix.Fill.{append_parts, fill, fill_with_error, error_parts}

-- Not even the first part of a reply fits the buffer.
abbrev pub IsFull : Array ℕ → Type 0
IsFull b = b.capacity < size b + 22

append_parts-IsFull :
    (b : Array ℕ) (parts : List Bytes) → IsFull b → IsFull (append_parts exhausted b parts).1
unfolding append_parts
append_parts-IsFull b [] h = h
append_parts-IsFull b (p ∷ ps) h =
    let (cap, grows, refused) = append_n-exhausted b p in
    append_parts-IsFull (Array.append_n exhausted b p).1 ps (omega arith)

-- The reply cannot be built, and the buffer is still full.
pub fill_with_error-IsFull :
    (b : Array ℕ) (id code note : Bytes) (add_http comma : Bool)
    → add_http ≡ false
    → IsFull b
    → (b' : Array ℕ) × (fill_with_error exhausted b id code note add_http comma ≡ some (false, b'))
      × IsFull b'
unfolding fill_with_error fill append_parts
fill_with_error-IsFull b id code note true comma e h = cc
fill_with_error-IsFull b id code note false comma e h =
    let (cap, grows, refused) = append_n-exhausted b (codes "{\"jsonrpc\":\"2.0\",\"id\":") in
    (
      (append_parts exhausted b (error_parts id code note comma)).1,
      rw (refused (omega arith)) refl,
      append_parts-IsFull b (error_parts id code note comma) h,
    )
