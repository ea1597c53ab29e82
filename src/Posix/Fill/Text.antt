-- ===== src/Posix/Fill/Text.antt =====
-- The text that a filled buffer holds.
use ucall.Prelude.{
  ℕ, ◌+◌, ◌-◌, ◌≡◌, refl, sym, ap, ap₂, ◌∙◌, Bool, true, false, ◌&&◌, some, List, [], ◌∷◌, ◌++◌,
  append-nil, append_assoc, arith, Bytes, length, length-append, take, drop, take-length-append,
  drop-length-append, le→ltb, if◌then◌else◌,
}
use ucall.Memory.Allocator.{Allocator}
use ucall.Memory.Array
use ucall.Memory.Array.{Array, size}
use ucall.Memory.Array.Growth.{append_n_lem, append_n_total}
use ucall.Reply.{http_header, http_header_size, set_http_content_length}
use ucall.Reply.Gather.{content_text, error_text, comma_text}
use ucall.Posix.Fill.{
  append_parts, patch_length, fill, fill_with_content, fill_with_error, content_parts, error_parts,
}

-- The parts as one text.
abbrev pub concat : List Bytes → Bytes
concat [] = []
concat (p ∷ ps) = p ++ concat ps

-- A text as it is sent: behind a header with its length, where HTTP is spoken.
abbrev pub response : Bool → Bytes → Bytes
response add_http text =
    if add_http then (set_http_content_length (http_header ++ text) (length text)).1 else text

and_true : (a b : Bool) → (a && b) ≡ true → (a ≡ true) × (b ≡ true)
and_true a b h = ground arith

-- The header that stands behind `pre` is the one that is patched.
elements-patch_length :
    (b : Array ℕ) (pre text : Bytes) (n : ℕ)
    → b.elements ≡ pre ++ (http_header ++ text)
    → n ≡ length text
    → (b' : Array ℕ) × (patch_length b n ≡ some b')
      × (b'.elements ≡ pre ++ (set_http_content_length (http_header ++ text) n).1)
unfolding patch_length
elements-patch_length b pre text n e l =
    let len : size b ≡ length pre + (length http_header + length text) =
      ap length e
      ∙ length-append pre (http_header ++ text)
      ∙ ap (λ k. length pre + k) (length-append http_header text) in
    let at : size b - (n + http_header_size) ≡ length pre = omega (arith, len) in
    let at_header = size b - (n + http_header_size) in
    (
      record b {
        elements =
            take at_header b.elements ++ (set_http_content_length (drop at_header b.elements) n).1;
      },
      rw (le→ltb (size b) (n + http_header_size) (omega (arith, len))) refl,
      rw at (
          ap₂ (λ x y. x ++ (set_http_content_length y n).1)
            (ap (take (length pre)) e ∙ take-length-append pre (http_header ++ text))
            (ap (drop (length pre)) e ∙ drop-length-append pre (http_header ++ text))),
    )

module _ (heap : Allocator) where
  append_n-true :
      (b : Array ℕ) (p : Bytes)
      → (Array.append_n heap b p).0 ≡ true
      → (Array.append_n heap b p).1.elements ≡ b.elements ++ p
  append_n-true b p h = ground (arith, append_n_lem heap b p)

  append_parts-true :
      (b : Array ℕ) (parts : List Bytes)
      → (append_parts heap b parts).0 ≡ true
      → (append_parts heap b parts).1.elements ≡ b.elements ++ concat parts
  unfolding append_parts
  append_parts-true b [] h = sym (append-nil b.elements)
  append_parts-true b (p ∷ ps) h =
      let (first, rest) =
        and_true (Array.append_n heap b p).0 (append_parts heap (Array.append_n heap b p).1 ps).0
          h in
      append_parts-true (Array.append_n heap b p).1 ps rest
      ∙ ap (λ t. t ++ concat ps) (append_n-true b p first)
      ∙ append_assoc b.elements p (concat ps)

  append_parts_total :
      (b : Array ℕ) (parts : List Bytes)
      → ((n : ℕ) → heap.malloc n ≡ true)
      → ((n : ℕ) → heap.realloc n ≡ true)
      → (append_parts heap b parts).0 ≡ true
  unfolding append_parts
  append_parts_total b [] m r = refl
  append_parts_total b (p ∷ ps) m r =
      rw (append_n_total heap b p m r) (append_parts_total (Array.append_n heap b p).1 ps m r)

  -- A fill has appended the response, with its header's length in place.
  fill_lem :
      (buffer : Array ℕ) (parts : List Bytes) (add_http : Bool)
      → ((n : ℕ) → heap.malloc n ≡ true)
      → ((n : ℕ) → heap.realloc n ≡ true)
      → (b : Array ℕ) × (fill heap buffer parts add_http ≡ some (true, b))
        × (b.elements ≡ buffer.elements ++ response add_http (concat parts))
  unfolding fill
  fill_lem buffer parts false m r =
      let done = append_parts_total buffer parts m r in
      (
        (append_parts heap buffer parts).1,
        ap (λ d. some (d, (append_parts heap buffer parts).1)) done,
        append_parts-true buffer parts done,
      )
  fill_lem buffer parts true m r =
      let b = (Array.append_n heap buffer http_header).1 in
      let b' = (append_parts heap b parts).1 in
      let first = append_n_total heap buffer http_header m r in
      let rest = append_parts_total b parts m r in
      let start = append_n-true buffer http_header first in
      let text = append_parts-true b parts rest in
      let len : size b' - size b ≡ length (concat parts) =
        omega (arith, ap length text, length-append b.elements (concat parts)) in
      let (patched, run, elements) =
        elements-patch_length b' buffer.elements (concat parts) (size b' - size b)
          (text
            ∙ ap (λ t. t ++ concat parts) start
            ∙ append_assoc buffer.elements http_header (concat parts))
          len in
      (
        patched,
        rw (run, first, rest) refl,
        elements
            ∙ ap
                (λ k.
                  buffer.elements ++ (set_http_content_length (http_header ++ concat parts) k).1)
                len,
      )

concat-content_parts :
    (id body : Bytes) (comma : Bool)
    → concat (content_parts id body comma) ≡ content_text id body ++ comma_text comma
concat-content_parts id body true = simp (append_assoc, append-nil)
concat-content_parts id body false = simp (append_assoc, append-nil)

concat-error_parts :
    (id code note : Bytes) (comma : Bool)
    → concat (error_parts id code note comma) ≡ error_text id code note ++ comma_text comma
concat-error_parts id code note true = simp (append_assoc, append-nil)
concat-error_parts id code note false = simp (append_assoc, append-nil)

-- Where the heap gives what is asked for, `fill_with_content` succeeds, and has appended the JSON-RPC
-- result, behind a header with its length if HTTP is spoken.
pub fill_with_content_lem :
    (heap : Allocator) (buffer : Array ℕ) (id body : Bytes) (add_http comma : Bool)
    → ((n : ℕ) → heap.malloc n ≡ true)
    → ((n : ℕ) → heap.realloc n ≡ true)
    → (b : Array ℕ) × (fill_with_content heap buffer id body add_http comma ≡ some (true, b))
      × (b.elements
          ≡ buffer.elements ++ response add_http (content_text id body ++ comma_text comma))
unfolding fill_with_content
fill_with_content_lem heap buffer id body add_http comma m r =
    let (b, run, text) = fill_lem heap buffer (content_parts id body comma) add_http m r in
    (
      b,
      run,
      text ∙ ap (λ t. buffer.elements ++ response add_http t) (concat-content_parts id body comma),
    )

-- The same for `fill_with_error`.
pub fill_with_error_lem :
    (heap : Allocator) (buffer : Array ℕ) (id code note : Bytes) (add_http comma : Bool)
    → ((n : ℕ) → heap.malloc n ≡ true)
    → ((n : ℕ) → heap.realloc n ≡ true)
    → (b : Array ℕ) × (fill_with_error heap buffer id code note add_http comma ≡ some (true, b))
      × (b.elements
          ≡ buffer.elements ++ response add_http (error_text id code note ++ comma_text comma))
unfolding fill_with_error
fill_with_error_lem heap buffer id code note add_http comma m r =
    let (b, run, text) = fill_lem heap buffer (error_parts id code note comma) add_http m r in
    (
      b,
      run,
      text
          ∙ ap (λ t. buffer.elements ++ response add_http t)
              (concat-error_parts id code note comma),
    )
