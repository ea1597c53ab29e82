-- ===== src/PyJson/Grammar.antt =====
-- What is printed is JSON, and denotes the value.
use ucall.Prelude.{
  ℕ, suc, ◌+◌, ◌^◌, pos, negsuc, lt→ltb, ◌<◌, ◌≡◌, refl, ap, sym, subst, ◌∙◌, true, false, some, [],
  ◌∷◌, ◌++◌, append_assoc, arith, Bytes, codes, ℤ, length, length-append, drop_last,
  drop_last-append,
}
use ucall.Charconv.{print_nat, print_int}
use ucall.Charconv.Decimal.{IsNumeral, print_nat-IsNumeral}
use ucall.Charconv.RoundTrip.{IsInt64}
use ucall.PyJson.{
  Value, Values, Members, py_none, py_bool, py_long, py_float, py_bytes, py_unicode, py_sequence,
  py_dict, other, no_values, value, no_members, member, Encoders, escape, sprintf, bracketed,
  to_string, print_values, print_members,
}
use ucall.PyJson.Escape.{read, plain, read-escape}

mutual
  -- The grammar of RFC 8259, without white space, and the value that a text denotes.
  pub data IsJson {F : Type 0} : Bytes → Value F → Type 0 where
    json_null : IsJson (codes "null") py_none
    json_true : IsJson (codes "true") (py_bool true)
    json_false : IsJson (codes "false") (py_bool false)
    json_natural : {t : Bytes} {n : ℕ} → IsNumeral t n → IsJson t (py_long (pos n))
    json_negative :
        {t : Bytes} {n : ℕ} → IsNumeral t (suc n) → IsJson (b'-' ∷ t) (py_long (negsuc n))
    json_string :
        (t s : Bytes)
        → read plain (t ++ 34 ∷ []) ≡ some (s, [])
        → IsJson (34 ∷ (t ++ 34 ∷ [])) (py_unicode s)
    json_no_elements : IsJson (codes "[]") (py_sequence no_values)
    json_array :
        {t : Bytes} {vs : Values F}
        → IsElements t vs
        → IsJson (b'[' ∷ (t ++ b']' ∷ [])) (py_sequence vs)
    json_no_members : IsJson (codes "{}") (py_dict no_members)
    json_object :
        {t : Bytes} {ms : Members F}
        → IsMembers t ms
        → IsJson (b'{' ∷ (t ++ b'}' ∷ [])) (py_dict ms)

  -- Values with commas between them.
  pub data IsElements {F : Type 0} : Bytes → Values F → Type 0 where
    last_element : {t : Bytes} {v : Value F} → IsJson t v → IsElements t (value v no_values)
    element :
        {t u : Bytes} {v : Value F} {vs : Values F}
        → IsJson t v
        → IsElements u vs
        → IsElements (t ++ b',' ∷ u) (value v vs)

  -- Strings and values with colons between them, and commas between these pairs.
  pub data IsMembers {F : Type 0} : Bytes → Members F → Type 0 where
    last_pair :
        {k t : Bytes} {s : Bytes} {v : Value F}
        → IsJson {F = F} k (py_unicode s)
        → IsJson t v
        → IsMembers (k ++ b':' ∷ t) (member (py_unicode s) v no_members)
    pair :
        {k t u : Bytes} {s : Bytes} {v : Value F} {ms : Members F}
        → IsJson {F = F} k (py_unicode s)
        → IsJson t v
        → IsMembers u ms
        → IsMembers (k ++ b':' ∷ (t ++ b',' ∷ u)) (member (py_unicode s) v ms)

unfoldable mutual
  -- Values whose numbers are 64-bit integers, whose bytes are text and whose keys are strings.
  pub IsPlain : {F : Type 0} → Value F → Type 0
  IsPlain py_none = Unit {0}
  IsPlain (py_bool b) = Unit {0}
  IsPlain (py_long i) = IsInt64 i
  IsPlain (py_float x) = ⊥
  IsPlain (py_bytes s) = ⊥
  IsPlain (py_unicode s) = Unit {0}
  IsPlain (py_sequence vs) = AllPlain vs
  IsPlain (py_dict ms) = AllKeyed ms
  IsPlain other = ⊥

  pub AllPlain : {F : Type 0} → Values F → Type 0
  AllPlain no_values = Unit {0}
  AllPlain (value v vs) = IsPlain v × AllPlain vs

  pub AllKeyed : {F : Type 0} → Members F → Type 0
  AllKeyed no_members = Unit {0}
  AllKeyed (member k v ms) = ((s : Bytes) × (k ≡ py_unicode s)) × (IsPlain v × AllKeyed ms)

add_one : (n : ℕ) → n + 1 ≡ suc n
add_one n = omega arith

drop_last_behind :
    (xs : Bytes) (c : ℕ) (ys : Bytes)
    → 0 < length ys
    → drop_last (xs ++ c ∷ ys) ≡ xs ++ c ∷ drop_last ys
drop_last_behind [] c [] h = absurd (omega arith)
drop_last_behind [] c (y ∷ ys) h = refl
drop_last_behind (x ∷ []) c ys h = ap (◌∷◌ x) (drop_last_behind [] c ys h)
drop_last_behind (x ∷ x' ∷ xs) c ys h = ap (◌∷◌ x) (drop_last_behind (x' ∷ xs) c ys h)

module _ {F : Type 0} (py : Encoders F) where
  -- What stands between the brackets, where anything does.
  abbrev Listed : Values F → Type 0
  Listed no_values = Unit {0}
  Listed (value v vs) = IsElements (drop_last (print_values py (value v vs)).0) (value v vs)

  abbrev Keyed : Members F → Type 0
  Keyed no_members = Unit {0}
  Keyed (member k v ms) = IsMembers (drop_last (print_members py (member k v ms)).0) (member k v ms)

  some_values : (v : Value F) (vs : Values F) → 0 < length (print_values py (value v vs)).0
  unfolding print_values
  some_values v vs =
      omega (arith, length-append (to_string py v).text (b',' ∷ (print_values py vs).0))

  some_members : (k v : Value F) (ms : Members F) → 0 < length (print_members py (member k v ms)).0
  unfolding print_members
  some_members k v ms = omega (
    arith,
    length-append (to_string py k).text
        (b':' ∷ ((to_string py v).text ++ b',' ∷ (print_members py ms).0)),
  )

  listed :
      (v : Value F) (vs : Values F)
      → IsJson (to_string py v).text v
      → Listed vs
      → Listed (value v vs)
  unfolding print_values
  listed v no_values j rest =
      subst (λ t. IsElements t (value v no_values))
        (sym (drop_last-append (to_string py v).text b',')) (last_element j)
  listed v (value w ws) j rest =
      subst (λ t. IsElements t (value v (value w ws)))
        (sym (
          drop_last_behind (to_string py v).text b',' (print_values py (value w ws)).0
            (some_values w ws)))
        (element j rest)

  keyed :
      (s : Bytes) (v : Value F) (ms : Members F)
      → IsJson {F = F} (to_string py (py_unicode s)).text (py_unicode s)
      → IsJson (to_string py v).text v
      → Keyed ms
      → Keyed (member (py_unicode s) v ms)
  unfolding print_members
  keyed s v no_members i j rest =
      let key = (to_string py (py_unicode s)).text in
      let text = (to_string py v).text in
      subst (λ t. IsMembers t (member (py_unicode s) v no_members))
        (sym (
          ap drop_last (sym (append_assoc key (b':' ∷ text) (b',' ∷ [])))
          ∙ drop_last-append (key ++ b':' ∷ text) b','))
        (last_pair i j)
  keyed s v (member k w ms) i j rest =
      let key = (to_string py (py_unicode s)).text in
      let text = (to_string py v).text in
      let more = (print_members py (member k w ms)).0 in
      subst (λ t. IsMembers t (member (py_unicode s) v (member k w ms)))
        (sym (
          ap drop_last (sym (append_assoc key (b':' ∷ text) (b',' ∷ more)))
          ∙ drop_last_behind (key ++ b':' ∷ text) b',' more (some_members k w ms)
          ∙ append_assoc key (b':' ∷ text) (b',' ∷ drop_last more)))
        (pair i j rest)

  printed_long : (i : ℤ) → IsInt64 i → IsJson {F = F} (to_string py (py_long i)).text (py_long i)
  unfolding to_string sprintf print_int
  printed_long (pos n) h =
      rw (lt→ltb n (2 ^ 63) h) (json_natural (print_nat-IsNumeral n (omega arith)))
  printed_long (negsuc n) h = rw (lt→ltb n (2 ^ 63) h) (
      json_negative (
        subst (IsNumeral (print_nat (n + 1))) (add_one n)
          (print_nat-IsNumeral (n + 1) (omega arith))))

  printed_string : (s : Bytes) → IsJson {F = F} (to_string py (py_unicode s)).text (py_unicode s)
  unfolding to_string
  printed_string s = json_string (escape s) s (read-escape s [])

  mutual
    unfolding to_string sprintf bracketed IsPlain

    plain-IsJson : (v : Value F) → IsPlain v → IsJson (to_string py v).text v
    plain-IsJson py_none p = json_null
    plain-IsJson (py_bool true) p = json_true
    plain-IsJson (py_bool false) p = json_false
    plain-IsJson (py_long i) p = printed_long i p
    plain-IsJson (py_float x) p = absurd p
    plain-IsJson (py_bytes s) p = absurd p
    plain-IsJson (py_unicode s) p = printed_string s
    plain-IsJson (py_sequence no_values) p = json_no_elements
    plain-IsJson (py_sequence (value v vs)) (p, q) =
        json_array (listed v vs (plain-IsJson v p) (values-IsElements vs q))
    plain-IsJson (py_dict no_members) p = json_no_members
    plain-IsJson (py_dict (member k v ms)) ((s, e), (p, q)) = json_object (
        subst (λ k. Keyed (member k v ms)) (sym e)
          (keyed s v ms (printed_string s) (plain-IsJson v p) (members-IsMembers ms q)))
    plain-IsJson other p = absurd p

    values-IsElements : (vs : Values F) → AllPlain vs → Listed vs
    values-IsElements no_values p = tt
    values-IsElements (value v vs) (p, q) = listed v vs (plain-IsJson v p) (values-IsElements vs q)

    members-IsMembers : (ms : Members F) → AllKeyed ms → Keyed ms
    members-IsMembers no_members p = tt
    members-IsMembers (member k v ms) ((s, e), (p, q)) =
        subst (λ k. Keyed (member k v ms)) (sym e)
          (keyed s v ms (printed_string s) (plain-IsJson v p) (members-IsMembers ms q))

  -- A value that has only None, booleans, 64-bit integers, strings, sequences and dictionaries with string keys in it is printed as a JSON text
  -- that denotes it.
  pub to_string-IsJson : (v : Value F) → IsPlain v → IsJson (to_string py v).text v
  to_string-IsJson v p = plain-IsJson v p
