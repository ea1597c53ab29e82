-- ===== src/Parse/Pointer/Bounds.antt =====
-- The JSON pointers that are looked up, and that they stay in their buffer.
use ucall.Prelude.{
  ℕ, ◌+◌, ◌-◌, ◌/◌, ◌%◌, ◌^◌, ◌≤◌, ◌<◌, ◌≡◌, ◌⊎◌, inl, inr, refl, sym, ap, ◌∙◌, none, some, [], ◌∷◌,
  ◌++◌, arith, Bytes, codes, length, length-append, length-take, take, drop, min, Option, ltb→lt,
  take-append, memcpy, length-memcpy, take-memcpy, ltb, ◌==◌, if◌then◌else◌, Bool-cases,
}
use native.Mathlib.Nat.{div-add-mod, mod-lt, mul_comm, mul-mod_left}
use ucall.Charconv.{print_nat}
use ucall.Charconv.RoundTrip.{to_chars_wide, length-print_nat-le}
use ucall.Parse.Pointer.{json_pointer_capacity, round_up_to, has_slash, write_name, write_position}

-- The pointer of a parameter's name: a slash between `/params` and the name, unless the name brings
-- its own.
abbrev pub name_pointer : Bytes → Bytes
name_pointer [] = codes "/params/"
name_pointer (c ∷ s) = if c == b'/' then codes "/params" ++ (c ∷ s) else codes "/params/" ++ (c ∷ s)

-- The text that ends with the name, when it is copied from `at` on behind a start of the text.
named :
    (buffer name : Bytes) (at : ℕ)
    → length buffer ≡ json_pointer_capacity
    → at ≤ 8
    → at + length name ≤ json_pointer_capacity
    → (take (at + length name) (memcpy (memcpy buffer 0 (codes "/params/")) at name)
        ≡ take at (codes "/params/") ++ name)
      × (length (memcpy (memcpy buffer 0 (codes "/params/")) at name) ≡ json_pointer_capacity)
named buffer name at h le room =
    let first : length (memcpy buffer 0 (codes "/params/")) ≡ json_pointer_capacity =
      length-memcpy buffer 0 (codes "/params/") (omega arith) ∙ h in
    (
      take-memcpy (memcpy buffer 0 (codes "/params/")) at name (omega arith)
          ∙ ap (λ t. t ++ name) (take-append at (codes "/params/") (drop 8 buffer) (omega arith)),
      length-memcpy (memcpy buffer 0 (codes "/params/")) at name (omega arith) ∙ first,
    )

-- What `write_name` promises of its result, for the pointer of the name.
abbrev pub Writes : Bytes → Option (Bytes × ℕ) → Type 0
Writes pointer r =
    (length pointer ≤ json_pointer_capacity)
      × ((memory : Bytes) × (r ≡ some (memory, length pointer))
          × (take (length pointer) memory ≡ pointer)
          × (length memory ≡ json_pointer_capacity))
    ⊎ (json_pointer_capacity < length pointer) × (r ≡ none)

-- The same at a given place for the name, `final_size` being the size that the code computes.
memcpy-Writes :
    (buffer name pointer : Bytes) (at final_size : ℕ)
    → length buffer ≡ json_pointer_capacity
    → at ≤ 8
    → pointer ≡ take at (codes "/params/") ++ name
    → final_size ≡ at + length name
    → Writes pointer (
        if ltb json_pointer_capacity final_size
        then none
        else some (memcpy (memcpy buffer 0 (codes "/params/")) at name, final_size))
memcpy-Writes buffer name pointer at final_size h le p f =
    elim (Bool-cases (ltb json_pointer_capacity final_size)) [
      | inl e ↦ rw e (inr (omega (arith, len, ltb→lt json_pointer_capacity final_size e), refl))
      | inr e ↦
          let room : final_size ≤ json_pointer_capacity = ground (arith, e) in
          let (text, keeps) = named buffer name at h le (omega arith) in
          rw e (
            inl (
              omega (arith, len),
              (
                memcpy (memcpy buffer 0 (codes "/params/")) at name,
                ap (λ k. some (memcpy (memcpy buffer 0 (codes "/params/")) at name, k))
                    (f ∙ sym len),
                ap (λ k. take k (memcpy (memcpy buffer 0 (codes "/params/")) at name)) len
                    ∙ text
                    ∙ sym p,
                keeps,
              ),
            ))
    ]
  where
    len : length pointer ≡ at + length name
    len =
        ap length p
        ∙ length-append (take at (codes "/params/")) name
        ∙ ap (λ k. k + length name) (length-take at (codes "/params/") ∙ min_eight)
      where
        min_eight : min at 8 ≡ at
        min_eight = omega arith

-- A name whose pointer fits the buffer is written as its pointer, inside the buffer; a longer one is
-- refused.
pub write_name-Writes :
    (buffer name : Bytes)
    → length buffer ≡ json_pointer_capacity
    → Writes (name_pointer name) (write_name buffer name)
unfolding write_name
write_name-Writes buffer [] h =
    memcpy-Writes buffer [] (codes "/params/") 8 (length {A = ℕ} [] + 8 - has_slash []) h
      (omega arith) refl (omega arith)
write_name-Writes buffer (c ∷ s) h = elim (Bool-cases (c == b'/')) [
  | inl e ↦ rw e (
      memcpy-Writes buffer (c ∷ s) (codes "/params" ++ (c ∷ s)) 7 _ h (omega arith) refl
        (omega arith))
  | inr e ↦ rw e (
      memcpy-Writes buffer (c ∷ s) (codes "/params/" ++ (c ∷ s)) 8 _ h (omega arith) refl
        (omega arith))
]

-- Every 64-bit position is written, as its decimal digits behind the slash, inside the buffer.
pub write_position_lem :
    (buffer : Bytes) (position : ℕ)
    → length buffer ≡ json_pointer_capacity
    → position < 2 ^ 64
    → (memory : Bytes) × (write_position buffer position
        ≡ some (memory, 8 + length (print_nat position)))
      × (take (8 + length (print_nat position)) memory ≡ codes "/params/" ++ print_nat position)
      × (length memory ≡ json_pointer_capacity)
unfolding write_position
write_position_lem buffer position h lt =
    let short = length-print_nat-le 20 position (omega arith) (omega arith) in
    let (text, keeps) = named buffer (print_nat position) 8 h (omega arith) (omega arith) in
    (
      memcpy (memcpy buffer 0 (codes "/params/")) 8 (print_nat position),
      rw (to_chars_wide 248 position (omega arith) lt, write_position),
      text,
      keeps,
    )

-- The result is the least multiple of the step that is not below the number.
pub round_up_to_lem :
    (step n : ℕ)
    → 0 < step
    → (n ≤ round_up_to step n) × (round_up_to step n < n + step) × (round_up_to step n % step ≡ 0)
unfolding round_up_to
round_up_to_lem step n h =
    let e = div-add-mod (n + step - 1) step in
    let l = mod-lt (n + step - 1) h in
    let c = mul_comm ((n + step - 1) / step) step in
    (omega (arith, e, l, c), omega (arith, e, l, c), mul-mod_left ((n + step - 1) / step) step)
