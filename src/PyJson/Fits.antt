-- ===== src/PyJson/Fits.antt =====
-- Which values stay within the block that was allocated for them.
use ucall.Prelude.{
  ℕ, ◌+◌, ◌%◌, ◌^◌, ◌<◌, ◌≤◌, ◌≡◌, ◌↔◌, refl, Bool, true, false, [], ◌∷◌, arith, Bytes, length,
  length-append, if◌then◌else◌,
}
use ucall.PyJson.{
  Value, Values, Members, py_none, py_bool, py_long, py_float, py_bytes, py_unicode, py_sequence,
  py_dict, other, no_values, value, no_members, member, Encoders, sprintf, escape, bracketed,
  to_string, print_values, print_members, calculate_size_as_str,
}
use ucall.PyJson.Size.{
  extra, extra_values, extra_members, size_lem, length-print_values, length-print_members,
  length-bracketed, length-escape,
}

-- What `sprintf` prints, with a terminator behind it.
unfoldable pub terminator : {F : Type 0} → Value F → ℕ
terminator py_none = 1
terminator (py_bool b) = 1
terminator (py_long i) = 1
terminator (py_float x) = 1
terminator _ = 0

terminator_le : {F : Type 0} (v : Value F) → terminator v ≤ 1
unfolding terminator
terminator_le py_none = omega arith
terminator_le (py_bool b) = omega arith
terminator_le (py_long i) = omega arith
terminator_le (py_float x) = omega arith
terminator_le (py_bytes s) = omega arith
terminator_le (py_unicode s) = omega arith
terminator_le (py_sequence vs) = omega arith
terminator_le (py_dict ms) = omega arith
terminator_le other = omega arith

abbrev refused : Bool → ℕ
refused done = if done then 0 else 1

refused_le : (done : Bool) → refused done ≤ 1
refused_le true = omega arith
refused_le false = omega arith

module _ {F : Type 0} (py : Encoders F)
    (encoded : (s : Bytes) → length (py.tb64enc s) ≡ py.tb64enclen (length s)) where
  mutual
    unfolding to_string print_values print_members terminator sprintf bracketed

    -- Only a terminator is written behind the text.
    touched_lem :
        (v : Value F) → (to_string py v).touched ≡ length (to_string py v).text + terminator v
    touched_lem py_none = refl
    touched_lem (py_bool true) = refl
    touched_lem (py_bool false) = refl
    touched_lem (py_long i) = refl
    touched_lem (py_float x) = refl
    touched_lem (py_bytes s) = omega arith
    touched_lem (py_unicode s) = omega arith
    touched_lem (py_sequence no_values) = refl
    touched_lem (py_sequence (value v vs)) = omega (
      arith,
      touched_values (value v vs),
      length-print_values py encoded v vs,
      length-bracketed py encoded b'[' b']' (print_values py (value v vs))
          (omega (arith, length-print_values py encoded v vs)),
    )
    touched_lem (py_dict no_members) = refl
    touched_lem (py_dict (member k v ms)) = omega (
      arith,
      touched_members (member k v ms),
      length-print_members py encoded k v ms,
      length-bracketed py encoded b'{' b'}' (print_members py (member k v ms))
          (omega (arith, length-print_members py encoded k v ms)),
    )
    touched_lem other = refl

    touched_values : (vs : Values F) → (print_values py vs).1 ≡ length (print_values py vs).0
    touched_values no_values = refl
    touched_values (value v vs) = omega (
      arith,
      touched_lem v,
      terminator_le v,
      length-print_values py encoded v vs,
      touched_values vs,
    )

    touched_members : (ms : Members F) → (print_members py ms).1 ≡ length (print_members py ms).0
    touched_members no_members = refl
    touched_members (member k v ms) = omega (
      arith,
      touched_lem k,
      touched_lem v,
      terminator_le k,
      terminator_le v,
      length-print_members py encoded k v ms,
      touched_members ms,
    )

  mutual
    unfolding to_string print_values print_members sprintf bracketed extra extra_values
        extra_members

    extra_le :
        (v : Value F) → extra v ≤ length (to_string py v).text + refused (to_string py v).done
    extra_le py_none = omega arith
    extra_le (py_bool b) = omega arith
    extra_le (py_long i) = omega arith
    extra_le (py_float x) = omega arith
    extra_le (py_bytes s) = omega arith
    extra_le (py_unicode s) = omega (arith, length-escape s, length-append (escape s) (34 ∷ []))
    extra_le (py_sequence no_values) = omega arith
    extra_le (py_sequence (value v vs)) = omega (
      arith,
      extra_values_le (value v vs),
      length-print_values py encoded v vs,
      length-bracketed py encoded b'[' b']' (print_values py (value v vs))
          (omega (arith, length-print_values py encoded v vs)),
    )
    extra_le (py_dict no_members) = omega arith
    extra_le (py_dict (member k v ms)) = omega (
      arith,
      extra_members_le (member k v ms),
      length-print_members py encoded k v ms,
      length-bracketed py encoded b'{' b'}' (print_members py (member k v ms))
          (omega (arith, length-print_members py encoded k v ms)),
    )
    extra_le other = omega arith

    extra_values_le : (vs : Values F) → extra_values vs ≤ length (print_values py vs).0
    extra_values_le no_values = omega arith
    extra_values_le (value v vs) = omega (
      arith,
      extra_le v,
      refused_le (to_string py v).done,
      extra_values_le vs,
      length-print_values py encoded v vs,
    )

    extra_members_le : (ms : Members F) → extra_members ms ≤ length (print_members py ms).0
    extra_members_le no_members = omega arith
    extra_members_le (member k v ms) = omega (
      arith,
      extra_le k,
      extra_le v,
      refused_le (to_string py k).done,
      refused_le (to_string py v).done,
      extra_members_le ms,
      length-print_members py encoded k v ms,
    )

  -- Where Turbo-Base64 writes as many bytes as it says and the text is shorter than `size_t` counts: what is
  -- written for a value that can be printed stays within the calculated size exactly if nothing in it is
  -- escaped or left out, and it is not printed by `sprintf`, whose terminator is not counted.
  pub fits_iff :
      (v : Value F)
      → (to_string py v).done ≡ true
      → length (to_string py v).text + 1 < 2 ^ 64
      → ((to_string py v).touched ≤ calculate_size_as_str py v % 2 ^ 64)
        ↔ ((extra v ≡ 0) × (terminator v ≡ 0))
  fits_iff v done small =
      let le : extra v ≤ length (to_string py v).text = ground (arith, extra_le v) in
      (
        λ h. (
          omega (arith, h, le, size_lem py encoded v, touched_lem v),
          omega (arith, h, le, size_lem py encoded v, touched_lem v),
        ),
        λ h. omega (arith, h.0, h.1, size_lem py encoded v, touched_lem v),
      )
