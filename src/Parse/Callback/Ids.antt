-- ===== src/Parse/Callback/Ids.antt =====
-- What `find_callback` of src/helpers/parse.hpp takes for an id and for parameters, in terms of the document.
use ucall.Prelude.{
  ◌≡◌, ◌⊎◌, inl, inr, sym, ap, true, false, none, some, [], arith, Bytes, Bool, not, ◌&&◌, ◌||◌,
  ◌≤◌, Option, ℤ, refl, subst, length, leb, leb→le, le→leb, Bool-cases,
}
use ucall.Charconv.{print_int, to_chars_int}
use ucall.Parse.Dom.{Dom, holds}
use ucall.Parse.Callback.{print_id}

module _ {E D : Type 0} (dom : Dom E D) where
  open dom use {
    is_object, is_array, is_string, is_double, is_int64, is_uint64, get_string, get_int64,
  }

  abbrev pub IsInteger : E → Type 0
  IsInteger e = (is_int64 e ≡ true) ⊎ (is_uint64 e ≡ true)

  abbrev pub IsNoInteger : E → Type 0
  IsNoInteger e = (is_int64 e ≡ false) × (is_uint64 e ≡ false)

  -- What the reply shows of an `id`: nothing if there is none or it is null or a Boolean, the characters of a
  -- string without their quotes, the decimal digits of an integer. Objects, arrays and fractions are no ids.
  abbrev pub ShowsId : Option E → Bytes → Type 0
  ShowsId none id = id ≡ []
  ShowsId (some e) id =
      (is_object e ≡ false)
      × (is_array e ≡ false)
      × ((is_double e ≡ false) ⊎ IsInteger e)
      × ((is_string e ≡ true) × (id ≡ get_string e)
          ⊎ (is_string e ≡ false)
            × (IsInteger e × (id ≡ print_int (get_int64 e)) × (length id ≤ 32)
                ⊎ IsNoInteger e × (id ≡ [])))

  -- Parameters are absent, or an array or an object.
  abbrev pub AreParams : Option E → Type 0
  AreParams none = Unit {0}
  AreParams (some p) = (is_array p ≡ true) ⊎ (is_object p ≡ true)

  abbrev rejected : Option E → Bool
  rejected id =
      (holds is_double id && not (holds is_int64 id) && not (holds is_uint64 id))
      || holds is_object id
      || holds is_array id

  printed :
      (i : ℤ) (id : Bytes) → to_chars_int 32 i ≡ some id → (id ≡ print_int i) × (length id ≤ 32)
  unfolding to_chars_int
  printed i id h = elim (Bool-cases (leb (length (print_int i)) 32)) [
    | inl e ↦
        let same : id ≡ print_int i = cc (rw e at h) in
        (same, subst (λ t. length t ≤ 32) (sym same) (leb→le (length (print_int i)) 32 e))
    | inr e ↦ cc (rw e at h)
  ]

  prints : (i : ℤ) (id : Bytes) → id ≡ print_int i → length id ≤ 32 → to_chars_int 32 i ≡ some id
  unfolding to_chars_int
  prints i id e h =
      rw (le→leb (length (print_int i)) 32 (subst (λ t. length t ≤ 32) e h)) (ap some (sym e))

  no_fraction : (e : E) → rejected (some e) ≡ false → (is_double e ≡ false) ⊎ IsInteger e
  no_fraction e h = ground arith

  pub shows :
      (o : Option E) (id : Bytes) → rejected o ≡ false → print_id dom o ≡ some id → ShowsId o id
  unfolding print_id
  shows none id r h = cc h
  shows (some e) id r h = (
    ground arith,
    ground arith,
    no_fraction e r,
    elim (Bool-cases (is_string e)) [
      | inl s ↦ inl (s, cc (rw s at h))
      | inr s ↦ elim (Bool-cases (is_int64 e)) [
        | inl i ↦
            let (t, l) = printed (get_int64 e) id (rw (s, i) at h) in inr (s, inl (inl i, t, l))
        | inr i ↦ elim (Bool-cases (is_uint64 e)) [
          | inl u ↦
              let (t, l) = printed (get_int64 e) id (rw (s, i, u) at h) in
              inr (s, inl (inr u, t, l))
          | inr u ↦ inr (s, inr ((i, u), cc (rw (s, i, u) at h)))
        ]
      ]
    ],
  )

  pub accepted : (o : Option E) (id : Bytes) → ShowsId o id → rejected o ≡ false
  accepted none id h = refl
  accepted (some e) id (o, a, inl d, _) = rw (o, a, d) refl
  accepted (some e) id (o, a, inr (inl i), _) = ground (arith, o, a, i)
  accepted (some e) id (o, a, inr (inr u), _) = ground (arith, o, a, u)

  pub shown : (o : Option E) (id : Bytes) → ShowsId o id → print_id dom o ≡ some id
  unfolding print_id
  shown none id h = ap some (sym h)
  shown (some e) id (_, _, _, inl (s, t)) = rw s (ap some (sym t))
  shown (some e) id (_, _, _, inr (s, inl (inl i, t, l))) = rw (s, i) (prints (get_int64 e) id t l)
  shown (some e) id (_, _, _, inr (s, inl (inr u, t, l))) = elim (Bool-cases (is_int64 e)) [
    | inl i ↦ rw (s, i) (prints (get_int64 e) id t l)
    | inr i ↦ rw (s, i, u) (prints (get_int64 e) id t l)
  ]
  shown (some e) id (_, _, _, inr (s, inr ((i, u), t))) = rw (s, i, u) (ap some (sym t))

  abbrev params_rejected : Option E → Bool
  params_rejected params = elim params [
    | none ↦ false
    | some p ↦ not (is_array p) && not (is_object p)
  ]

  pub are_params : (o : Option E) → params_rejected o ≡ false → AreParams o
  are_params none h = tt
  are_params (some p) h = ground arith

  pub params_accepted : (o : Option E) → AreParams o → params_rejected o ≡ false
  params_accepted none h = refl
  params_accepted (some p) (inl a) = rw a refl
  params_accepted (some p) (inr o) = ground (arith, o)
