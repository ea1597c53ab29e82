-- ===== src/Reply/Header.antt =====
-- The `Content-Length` field of a reply: which lengths it can hold, and what a client reads from it.
use ucall.Prelude.{
  ℕ, zero, suc, ◌+◌, ◌^◌, ◌≤◌, ◌<◌, ◌≡◌, refl, ap, ap₂, take-append, drop-append, append_assoc, ◌∙◌,
  true, false, some, ◌++◌, ◌-◌, arith, Bytes, length, take, drop, memcpy, length-memcpy,
  length-append, drop_add-append, drop-drop,
}
use ucall.Charconv.{print_nat, to_chars, from_chars, ok}
use ucall.Charconv.RoundTrip.{
  Ends, to_chars-eq-some, to_chars-eq-none, from_chars-print_nat, length-print_nat-le,
}
use ucall.Reply.{http_header, http_header_size, set_http_content_length}

-- Behind each prefix of the field stands a space, or the end of the line.
field_Ends : (k : ℕ) (rest : Bytes) → k ≤ 9 → Ends (drop (33 + k) (http_header ++ rest))
field_Ends zero rest h = refl
field_Ends (suc zero) rest h = refl
field_Ends (suc (suc zero)) rest h = refl
field_Ends (suc (suc (suc zero))) rest h = refl
field_Ends (suc (suc (suc (suc zero)))) rest h = refl
field_Ends (suc (suc (suc (suc (suc zero))))) rest h = refl
field_Ends (suc (suc (suc (suc (suc (suc zero)))))) rest h = refl
field_Ends (suc (suc (suc (suc (suc (suc (suc zero))))))) rest h = refl
field_Ends (suc (suc (suc (suc (suc (suc (suc (suc zero)))))))) rest h = refl
field_Ends (suc (suc (suc (suc (suc (suc (suc (suc (suc zero))))))))) rest h = refl
field_Ends (suc (suc (suc (suc (suc (suc (suc (suc (suc (suc k)))))))))) rest h =
    absurd (omega arith)

-- Overwriting the start of a field of nine bytes leaves what follows the field.
drop-field :
    (s whole : Bytes) → length s ≤ 9 → drop 9 (s ++ drop (33 + length s) whole) ≡ drop 42 whole
drop-field s whole h =
    ap (λ k. drop k (s ++ drop (33 + length s) whole)) {x = 9} (omega arith)
    ∙ drop_add-append (9 - length s) s (drop (33 + length s) whole)
    ∙ drop-drop (9 - length s) (33 + length s) whole
    ∙ ap (λ k. drop k whole) {y = 42} (omega arith)

set_of_some :
    (headers s : Bytes) (n : ℕ)
    → to_chars 9 n ≡ some s
    → set_http_content_length headers n ≡ (true, memcpy headers 33 s)
unfolding set_http_content_length
set_of_some headers s n e = rw (e, set_http_content_length)

-- On any reply that begins with the header, a length below `10 ^ 9` is written, a client reads it
-- back from the field, and the reply keeps its size and its other bytes.
pub set_http_content_length_lem :
    (rest : Bytes) (n : ℕ)
    → n < 10 ^ 9
    → let (done, reply) = set_http_content_length (http_header ++ rest) n in
      (done ≡ true)
      × (from_chars (drop 33 reply) ≡ ok n)
      × (take 33 reply ≡ take 33 http_header)
      × (drop 42 reply ≡ drop 42 http_header ++ rest)
      × (length reply ≡ http_header_size + length rest)
set_http_content_length_lem rest n h =
    let s = print_nat n in
    let short = length-print_nat-le 9 n h (omega arith) in
    rw (set_of_some (http_header ++ rest) s n (to_chars-eq-some 9 n (omega arith) (omega arith) h))
      (
        refl,
        from_chars-print_nat n _ (omega arith) (field_Ends (length s) rest short),
        refl,
        drop-field s (http_header ++ rest) short,
        length-memcpy (http_header ++ rest) 33 s (omega arith) ∙ length-append http_header rest,
      )

-- A 64-bit length of ten digits or more is refused, and the field stays blank.
set_http_content_length_overflow :
    (headers : Bytes) (n : ℕ)
    → n < 2 ^ 64
    → 10 ^ 9 ≤ n
    → set_http_content_length headers n ≡ (false, headers)
unfolding set_http_content_length
set_http_content_length_overflow headers n h q =
    rw (to_chars-eq-none 9 n h q, set_http_content_length)

-- Only the field is written, so what stands behind a text that holds it does not matter.
pub set_http_content_length-append :
    (xs ys : Bytes) (n : ℕ)
    → 42 ≤ length xs
    → n < 10 ^ 9
    → ((set_http_content_length (xs ++ ys) n).0 ≡ true)
      × ((set_http_content_length (xs ++ ys) n).1 ≡ (set_http_content_length xs n).1 ++ ys)
      × (length (set_http_content_length xs n).1 ≡ length xs)
set_http_content_length-append xs ys n long h =
    let s = print_nat n in
    let some_text = to_chars-eq-some 9 n (omega arith) (omega arith) h in
    let short = length-print_nat-le 9 n h (omega arith) in
    rw (set_of_some (xs ++ ys) s n some_text, set_of_some xs s n some_text)
      (
        refl,
        ap₂ (λ x y. x ++ (s ++ y)) (take-append 33 xs ys (omega arith))
              (drop-append (33 + length s) xs ys (omega arith))
            ∙ simp append_assoc,
        length-memcpy xs 33 s (omega arith),
      )
