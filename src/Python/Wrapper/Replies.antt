-- ===== src/Python/Wrapper/Replies.antt =====
-- How a Python procedure's value is answered.
use ucall.Prelude.{
  subst, ◌≤◌, ◌+◌, ◌%◌, ◌^◌, ◌<◌, ◌≡◌, ◌≢◌, refl, true, false, Option, none, some, List, [], ◌∷◌,
  Bytes, arith, length, ltb, le→ltb, ◌==◌, Bool-cases, inl, inr,
}
use ucall.Charconv.Decimal.{NoLeadingZero}
use ucall.Memory.Allocator.{Allocator}
use ucall.Parse.Dom.{Dom}
use ucall.Posix.Engine.{content}
use ucall.PyJson.{
  Value, Encoders, py_none, py_bool, py_long, py_float, py_bytes, py_unicode, py_sequence, py_dict,
  other, no_values, value, no_members, member, sprintf, bracketed, to_string, calculate_size_as_str,
}
use ucall.PyJson.Grammar.{
  IsPlain, IsJson, json_null, json_true, json_false, json_natural, json_negative, json_string,
  json_no_elements, json_array, json_no_members, json_object, to_string-IsJson,
}
use ucall.PyJson.Size.{extra}
use ucall.PyJson.Fits.{terminator, fits_iff}
use ucall.Python.Signature.{Param}
use ucall.Python.Wrapper.{Types, Called, returned, arguments, respond, answer_called, wrapper}

-- No JSON text is empty.
IsJson-some : {F : Type 0} {t : Bytes} {v : Value F} → IsJson t v → t ≢ []
IsJson-some json_null e = cc e
IsJson-some json_true e = cc e
IsJson-some json_false e = cc e
IsJson-some (json_natural numeral) e = subst NoLeadingZero e numeral.leading
IsJson-some (json_negative numeral) e = cc e
IsJson-some (json_string t s r) e = cc e
IsJson-some json_no_elements e = cc e
IsJson-some (json_array j) e = cc e
IsJson-some json_no_members e = cc e
IsJson-some (json_object j) e = cc e

not_empty : (t : Bytes) → t ≢ [] → (length t == 0) ≡ false
not_empty [] h = absurd (h refl)
not_empty (c ∷ t) h = ground arith

module _ {F : Type 0} (py : Encoders F) (heap : Allocator) where
  IsPlain-done : (v : Value F) → IsPlain v → (to_string py v).done ≡ true
  unfolding IsPlain to_string sprintf bracketed
  IsPlain-done py_none p = refl
  IsPlain-done (py_bool b) p = refl
  IsPlain-done (py_long i) p = refl
  IsPlain-done (py_float x) p = absurd p
  IsPlain-done (py_bytes s) p = absurd p
  IsPlain-done (py_unicode s) p = refl
  IsPlain-done (py_sequence no_values) p = refl
  IsPlain-done (py_sequence (value v vs)) p = refl
  IsPlain-done (py_dict no_members) p = refl
  IsPlain-done (py_dict (member k v ms)) p = refl
  IsPlain-done other p = absurd p

  respond_fits :
      (v : Value F)
      → heap.malloc (calculate_size_as_str py v % 2 ^ 64) ≡ true
      → IsJson (to_string py v).text v
      → (to_string py v).touched ≤ calculate_size_as_str py v % 2 ^ 64
      → respond py heap v ≡ some (content (to_string py v).text (length (to_string py v).text))
  unfolding respond
  respond_fits v m j h =
      rw
        (
          m,
          le→ltb (calculate_size_as_str py v % 2 ^ 64) (to_string py v).touched h,
          not_empty (to_string py v).text (IsJson-some j),
        )
        refl

  respond_overrun :
      (v : Value F)
      → heap.malloc (calculate_size_as_str py v % 2 ^ 64) ≡ true
      → ¬ ((to_string py v).touched ≤ calculate_size_as_str py v % 2 ^ 64)
      → respond py heap v ≡ none
  unfolding respond
  respond_overrun v m h =
      elim (Bool-cases (ltb (calculate_size_as_str py v % 2 ^ 64) (to_string py v).touched)) [
        | inl e ↦ rw (m, e) refl
        | inr e ↦ absurd (h (ground (arith, e)))
      ]

  module _ {E T V : Type 0} (dom : Dom E F) (types : Types T) (tree : E) (json_pointer : Bytes)
      (encoded : (s : Bytes) → length (py.tb64enc s) ≡ py.tb64enclen (length s)) where
    -- A procedure that gets its arguments and returns a value of None, booleans, 64-bit integers, strings, sequences and
    -- dictionaries with string keys, where the heap gives the block and the text is shorter than `size_t` counts: the call is
    -- answered with a JSON text that denotes the value, if nothing in it is escaped and it is not printed
    -- by `sprintf`; otherwise the text is written behind its block.
    pub wrapper_returned :
        (callable : List (Option (Value F)) → Called F) (ps : List (Param V T))
        (args : List (Option (Value F))) (v : Value F)
        → arguments dom types tree json_pointer 0 ps ≡ some (some args)
        → callable args ≡ returned v
        → IsPlain v
        → heap.malloc (calculate_size_as_str py v % 2 ^ 64) ≡ true
        → length (to_string py v).text + 1 < 2 ^ 64
        → let text = (to_string py v).text in
          IsJson text v
          × ((extra v ≡ 0) × (terminator v ≡ 0)
              → wrapper dom types tree json_pointer py heap callable ps
                ≡ some (content text (length text) ∷ []))
          × (¬ ((extra v ≡ 0) × (terminator v ≡ 0))
              → wrapper dom types tree json_pointer py heap callable ps ≡ none)
    unfolding wrapper answer_called
    wrapper_returned callable ps args v got_all called plain m small =
        let j = to_string-IsJson py v plain in
        let (to, from) = fits_iff py encoded v (IsPlain-done v plain) small in
        (
          j,
          λ h. rw (got_all, called, respond_fits v m j (from h), wrapper) refl,
          λ h. rw (got_all, called, respond_overrun v m (λ fits. h (to fits)), wrapper) refl,
        )
