-- ===== src/PyJson/Size.antt =====
-- The block that a printed value gets, and what is written to it.
use ucall.Prelude.{
  ℕ, ◌+◌, ◌%◌, ◌^◌, ◌<◌, ◌≡◌, refl, true, false, ◌||◌, [], ◌∷◌, ◌++◌, arith, Bytes, length,
  length-append, length-drop_last, drop_last, ltb, ◌==◌, if◌then◌else◌,
}
use ucall.PyJson.{
  Value, Values, Members, py_none, py_bool, py_long, py_float, py_bytes, py_unicode, py_sequence,
  py_dict, other, no_values, value, no_members, member, Encoders, char_to_hex, escape_char, escape,
  sprintf, bracketed, to_string, print_values, print_members, calculate_size_as_str, values_size,
  members_size,
}

-- How many bytes more than one a character takes.
unfoldable pub extra_char : ℕ → ℕ
extra_char c =
    if c == 34 || c == 92 || c == 8 || c == 9 || c == 10 || c == 12 || c == 13
    then 1
    else if ltb c 32
    then 5
    else 0

unfoldable pub extra_text : Bytes → ℕ
extra_text [] = 0
extra_text (c ∷ s) = extra_char c + extra_text s

-- How many bytes more than the size that was calculated a value takes: those of the escapes, and a comma for each
-- element that cannot be printed.
unfoldable mutual
  pub extra : {F : Type 0} → Value F → ℕ
  extra (py_unicode s) = extra_text s
  extra (py_sequence vs) = extra_values vs
  extra (py_dict ms) = extra_members ms
  extra other = 1
  extra _ = 0

  pub extra_values : {F : Type 0} → Values F → ℕ
  extra_values no_values = 0
  extra_values (value v vs) = extra v + extra_values vs

  pub extra_members : {F : Type 0} → Members F → ℕ
  extra_members no_members = 0
  extra_members (member k v ms) = extra k + extra v + extra_members ms

length-escape_char : (c : ℕ) → length (escape_char c) ≡ 1 + extra_char c
unfolding escape_char extra_char char_to_hex
length-escape_char c = ground arith

pub length-escape : (s : Bytes) → length (escape s) ≡ length s + extra_text s
unfolding escape extra_text
length-escape [] = omega arith
length-escape (c ∷ s) =
    omega (arith, length-append (escape_char c) (escape s), length-escape_char c, length-escape s)

module _ {F : Type 0} (py : Encoders F)
    (encoded : (s : Bytes) → length (py.tb64enc s) ≡ py.tb64enclen (length s)) where
  pub length-bracketed :
      (first last : ℕ) (r : Bytes × ℕ)
      → 0 < length r.0
      → length (bracketed first last r).text ≡ length r.0 + 1
  unfolding bracketed
  length-bracketed first last r h =
      omega (arith, length-append (drop_last r.0) (last ∷ []), length-drop_last r.0)

  pub length-print_values :
      (v : Value F) (vs : Values F)
      → length (print_values py (value v vs)).0
        ≡ length (to_string py v).text + 1 + length (print_values py vs).0
  unfolding print_values
  length-print_values v vs =
      omega (arith, length-append (to_string py v).text (b',' ∷ (print_values py vs).0))

  pub length-print_members :
      (k v : Value F) (ms : Members F)
      → length (print_members py (member k v ms)).0
        ≡ length (to_string py k).text
          + 1
          + (length (to_string py v).text + 1 + length (print_members py ms).0)
  unfolding print_members
  length-print_members k v ms = omega (
    arith,
    length-append (to_string py k).text
        (b':' ∷ ((to_string py v).text ++ b',' ∷ (print_members py ms).0)),
    length-append (to_string py v).text (b',' ∷ (print_members py ms).0),
  )

  mutual
    unfolding to_string print_values print_members calculate_size_as_str values_size members_size
        extra extra_values extra_members sprintf

    -- The calculated size and the extra bytes make the length of the text, as `size_t` counts.
    pub size_lem :
        (v : Value F)
        → (calculate_size_as_str py v + extra v) % 2 ^ 64 ≡ length (to_string py v).text % 2 ^ 64
    size_lem py_none = refl
    size_lem (py_bool true) = refl
    size_lem (py_bool false) = refl
    size_lem (py_long i) = omega arith
    size_lem (py_float x) = omega arith
    size_lem (py_bytes s) = omega (arith, encoded s, length-append (py.tb64enc s) (34 ∷ []))
    size_lem (py_unicode s) = omega (arith, length-escape s, length-append (escape s) (34 ∷ []))
    size_lem (py_sequence no_values) = refl
    size_lem (py_sequence (value v vs)) = omega (
      arith,
      values_size_lem 2 (value v vs),
      length-print_values v vs,
      length-bracketed b'[' b']' (print_values py (value v vs))
          (omega (arith, length-print_values v vs)),
    )
    size_lem (py_dict no_members) = refl
    size_lem (py_dict (member k v ms)) = omega (
      arith,
      members_size_lem 2 (member k v ms),
      length-print_members k v ms,
      length-bracketed b'{' b'}' (print_members py (member k v ms))
          (omega (arith, length-print_members k v ms)),
    )
    size_lem other = refl

    values_size_lem :
        (size : ℕ) (vs : Values F)
        → (values_size py size vs + extra_values vs) % 2 ^ 64
          ≡ (size + length (print_values py vs).0) % 2 ^ 64
    values_size_lem size no_values = omega arith
    values_size_lem size (value v vs) = omega (
      arith,
      values_size_lem ((size + calculate_size_as_str py v + 1) % 2 ^ 64) vs,
      size_lem v,
      length-print_values v vs,
    )

    members_size_lem :
        (size : ℕ) (ms : Members F)
        → (members_size py size ms + extra_members ms) % 2 ^ 64
          ≡ (size + length (print_members py ms).0) % 2 ^ 64
    members_size_lem size no_members = omega arith
    members_size_lem size (member k v ms) =
        let size' = (size + calculate_size_as_str py k + 1) % 2 ^ 64 in
        omega (
          arith,
          members_size_lem ((size' + calculate_size_as_str py v + 1) % 2 ^ 64) ms,
          size_lem k,
          size_lem v,
          length-print_members k v ms,
        )
