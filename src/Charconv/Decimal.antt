-- ===== src/Charconv/Decimal.antt =====
-- The decimal numerals that src/helpers/py_to_json.h prints, as a JSON reader takes them.
use ucall.Prelude.{
  ℕ, zero, suc, ◌+◌, ◌/◌, ◌%◌, ◌^◌, ◌<◌, ◌≡◌, ◌≢◌, ◌⊎◌, inl, inr, refl, subst, sym, ap, ◌∙◌, true,
  [], ◌∷◌, ◌++◌, append-nil, arith, Bytes, Bool-cases, ltb,
}
use ucall.Charconv.{digits, print_nat, is_digit, ok, from_chars}
use ucall.Charconv.RoundTrip.{digits_one, digits_more, tenth-lt-pow, fuel_pos, from_chars-print_nat}

abbrev pub AllDigits : Bytes → Type 0
AllDigits [] = Unit {0}
AllDigits (c ∷ s) = (is_digit c ≡ true) × AllDigits s

-- The numeral is `0`, or its first digit is another one.
abbrev pub NoLeadingZero : Bytes → Type 0
NoLeadingZero [] = ⊥
NoLeadingZero (c ∷ s) = (c ≢ b'0') ⊎ (s ≡ [])

-- A text of digits alone that has this value.
pub record IsNumeral (t : Bytes) (n : ℕ) : Type 0 where
  pub digits : AllDigits t
  pub leading : NoLeadingZero t
  pub read : from_chars t ≡ ok n

AllDigits-append : (s t : Bytes) → AllDigits s → AllDigits t → AllDigits (s ++ t)
AllDigits-append [] t p q = q
AllDigits-append (c ∷ s) t (d, p) q = (d, AllDigits-append s t p q)

digits-AllDigits : (f n : ℕ) → n < 10 ^ f → 0 < f → AllDigits (digits f n)
digits-AllDigits zero n h p = absurd (omega arith)
digits-AllDigits (suc f) n h p = elim (Bool-cases (ltb n 10)) [
  | inl small ↦ subst AllDigits (sym (digits_one f n small)) (ground arith, tt)
  | inr large ↦ subst AllDigits (sym (digits_more f n large)) (
      AllDigits-append (digits f (n / 10)) ((b'0' + n % 10) ∷ [])
        (digits-AllDigits f (n / 10) (tenth-lt-pow n f h) (fuel_pos f n h large))
        (ground arith, tt))
]

-- A positive number begins with a digit that is not 0.
digits-first :
    (f n : ℕ)
    → n < 10 ^ f
    → 0 < f
    → 0 < n
    → (c : ℕ) × (s : Bytes) × (digits f n ≡ c ∷ s) × (c ≢ b'0')
digits-first zero n h p q = absurd (omega arith)
digits-first (suc f) n h p q = elim (Bool-cases (ltb n 10)) [
  | inl small ↦ (b'0' + n, [], digits_one f n small, λ e. omega arith)
  | inr large ↦
      let ten : 0 < n / 10 = ground arith in
      let (c, s, e, d) = digits-first f (n / 10) (tenth-lt-pow n f h) (fuel_pos f n h large) ten in
      (
        c,
        s ++ (b'0' + n % 10) ∷ [],
        digits_more f n large ∙ ap (λ t. t ++ (b'0' + n % 10) ∷ []) e,
        d,
      )
]

digits-NoLeadingZero : (n : ℕ) → n < 2 ^ 64 → NoLeadingZero (digits 20 n)
digits-NoLeadingZero zero h = subst NoLeadingZero (sym (digits_one 19 0 refl)) (inr refl)
digits-NoLeadingZero (suc n) h =
    let (c, s, e, d) = digits-first 20 (suc n) (omega arith) (omega arith) (omega arith) in
    subst NoLeadingZero (sym e) (inl d)

-- A printed number is the numeral of its value.
pub print_nat-IsNumeral : (n : ℕ) → n < 2 ^ 64 → IsNumeral (print_nat n) n
unfolding print_nat
print_nat-IsNumeral n h = record {
  digits = digits-AllDigits 20 n (omega arith) (omega arith);
  leading = digits-NoLeadingZero n h;
  read = ap from_chars (sym (append-nil (digits 20 n))) ∙ from_chars-print_nat n [] h tt;
}
