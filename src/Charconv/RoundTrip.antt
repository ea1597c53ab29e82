-- ===== src/Charconv/RoundTrip.antt =====
-- What is printed is read back, and how long a printed number is.
use native.Mathlib.Nat.{pow-suc}
use ucall.Prelude.{
  ℕ, zero, suc, ◌+◌, ◌*◌, ◌/◌, ◌%◌, ◌^◌, ◌≤◌, ◌<◌, ◌≡◌, inl, inr, refl, sym, ap, ◌∙◌, true, false,
  some, [], ◌∷◌, ◌++◌, append_assoc, arith, Bytes, ℤ, pos, negsuc, length, length-append, ltb, leb,
  lt→ltb, le→leb, ltb→lt, leb→le, none, Bool-cases,
}
use ucall.Charconv.{
  digits, print_nat, print_int, to_chars, to_chars_int, ok, is_digit, scan_digits, from_chars,
}

pub tenth-lt-pow : (n f : ℕ) → n < 10 ^ suc f → n / 10 < 10 ^ f
tenth-lt-pow n f h = omega (arith, pow-suc 10 f)

-- A text that goes on with no digit.
abbrev pub Ends : Bytes → Type 0
Ends [] = Unit {0}
Ends (c ∷ s) = is_digit c ≡ false

-- `digits` at a number of one digit, and at a longer one.
pub digits_one : (f n : ℕ) → ltb n 10 ≡ true → digits (suc f) n ≡ (b'0' + n) ∷ []
unfolding digits
digits_one f n h = rw h

pub digits_more :
    (f n : ℕ) → ltb n 10 ≡ false → digits (suc f) n ≡ digits f (n / 10) ++ (b'0' + n % 10) ∷ []
unfolding digits
digits_more f n h = rw h

scan_digits-cons :
    (d acc : ℕ) (rest : Bytes)
    → d < 10
    → scan_digits ((b'0' + d) ∷ rest) acc ≡ scan_digits rest (acc * 10 + d)
unfolding scan_digits
scan_digits-cons d acc rest h = ground arith

pub fuel_pos : (f n : ℕ) → n < 10 ^ suc f → ltb n 10 ≡ false → 0 < f
fuel_pos zero n h l = ground arith
fuel_pos (suc f) n h l = omega arith

scan_digits-digits :
    (f n : ℕ) (rest : Bytes)
    → n < 10 ^ f
    → 0 < f
    → scan_digits (digits f n ++ rest) 0 ≡ scan_digits rest n
scan_digits-digits zero n rest h p = absurd (omega arith)
scan_digits-digits (suc f) n rest h p = elim (Bool-cases (ltb n 10)) [
  | inl small ↦
      rw (digits_one f n small)
        (scan_digits-cons n 0 rest (ground arith) ∙ ap (scan_digits rest) (omega arith))
  | inr large ↦
      rw (digits_more f n large, append_assoc)
        (scan_digits-digits f (n / 10) ((b'0' + n % 10) ∷ rest) (tenth-lt-pow n f h)
            (fuel_pos f n h large)
          ∙ scan_digits-cons (n % 10) (n / 10) rest (omega arith)
          ∙ ap (scan_digits rest) (omega arith))
]

Ends-scan : (s : Bytes) (acc : ℕ) → Ends s → scan_digits s acc ≡ acc
unfolding scan_digits
Ends-scan [] acc e = refl
Ends-scan (c ∷ s) acc e = rw e

-- A number below `10 ^ k` has at most `k` digits.
length-digits-le : (f k n : ℕ) → n < 10 ^ k → 0 < k → length (digits f n) ≤ k
unfolding digits
length-digits-le zero k n h p = omega arith
length-digits-le (suc f) zero n h p = absurd (omega arith)
length-digits-le (suc f) (suc k) n h p = elim (Bool-cases (ltb n 10)) [
  | inl small ↦ rw (digits_one f n small) (omega arith)
  | inr large ↦ rw (digits_more f n large) (
      omega (
        arith,
        length-append (digits f (n / 10)) ((b'0' + n % 10) ∷ []),
        length-digits-le f k (n / 10) (tenth-lt-pow n k h) (fuel_pos k n h large),
      ))
]

pow_pos : (k : ℕ) → 0 < 10 ^ k
pow_pos zero = omega arith
pow_pos (suc k) = omega (arith, pow-suc 10 k, pow_pos k)

-- With enough fuel, a number of at most `k` digits is below `10 ^ k`.
lt-pow-length : (f k n : ℕ) → n < 10 ^ f → 0 < f → length (digits f n) ≤ k → n < 10 ^ k
lt-pow-length zero k n h p l = absurd (omega arith)
lt-pow-length (suc f) zero n h p l = elim (Bool-cases (ltb n 10)) [
  | inl small ↦ absurd (omega (arith, ap length (digits_one f n small)))
  | inr large ↦ absurd (
      omega (
        arith,
        ap length (digits_more f n large),
        length-append (digits f (n / 10)) ((b'0' + n % 10) ∷ []),
      ))
]
lt-pow-length (suc f) (suc k) n h p l = elim (Bool-cases (ltb n 10)) [
  | inl small ↦ omega (arith, pow-suc 10 k, pow_pos k, ltb→lt n 10 small)
  | inr large ↦ omega (
    arith,
    pow-suc 10 k,
    lt-pow-length f k (n / 10) (tenth-lt-pow n f h) (fuel_pos f n h large) (
        omega (
          arith,
          ap length (digits_more f n large),
          length-append (digits f (n / 10)) ((b'0' + n % 10) ∷ []),
        )),
  )
]

-- The first character is a digit.
digits_head :
    (f n : ℕ)
    → n < 10 ^ f
    → 0 < f
    → (c : ℕ) × (s : Bytes) × (digits f n ≡ c ∷ s) × (is_digit c ≡ true)
digits_head zero n h p = absurd (omega arith)
digits_head (suc f) n h p = elim (Bool-cases (ltb n 10)) [
  | inl small ↦ (b'0' + n, [], digits_one f n small, ground arith)
  | inr large ↦
      let (c, s, e, d) = digits_head f (n / 10) (tenth-lt-pow n f h) (fuel_pos f n h large) in
      (c, s ++ (b'0' + n % 10) ∷ [], rw (digits_more f n large, e), d)
]

scan-print_nat :
    (n : ℕ) (rest : Bytes) → n < 2 ^ 64 → Ends rest → scan_digits (print_nat n ++ rest) 0 ≡ n
unfolding print_nat
scan-print_nat n rest h e =
    scan_digits-digits 20 n rest (omega arith) (omega arith) ∙ Ends-scan rest n e

-- A text that begins with a digit is read, if its value fits.
from_chars-digit :
    (c : ℕ) (s : Bytes) (n : ℕ)
    → is_digit c ≡ true
    → scan_digits (c ∷ s) 0 ≡ n
    → n < 2 ^ 64
    → from_chars (c ∷ s) ≡ ok n
unfolding from_chars
from_chars-digit c s n d e h = rw (d, e, lt→ltb n (2 ^ 64) h)

-- A printed number begins with a digit.
pub print_nat_head :
    (n : ℕ) → n < 2 ^ 64 → (c : ℕ) × (s : Bytes) × (print_nat n ≡ c ∷ s) × (is_digit c ≡ true)
unfolding print_nat
print_nat_head n h = digits_head 20 n (omega arith) (omega arith)

-- A printed number is read back, whatever text follows that does not begin with a digit.
pub from_chars-print_nat :
    (n : ℕ) (rest : Bytes) → n < 2 ^ 64 → Ends rest → from_chars (print_nat n ++ rest) ≡ ok n
unfolding print_nat
from_chars-print_nat n rest h e = go (digits_head 20 n (omega arith) (omega arith))
  where
    go :
        (c : ℕ) × (s : Bytes) × (digits 20 n ≡ c ∷ s) × (is_digit c ≡ true)
        → from_chars (digits 20 n ++ rest) ≡ ok n
    go (c, s, q, d) =
        let q' = ap (λ t. t ++ rest) q in
        ap from_chars q'
        ∙ from_chars-digit c (s ++ rest) n d
            (ap (λ t. scan_digits t 0) (sym q') ∙ scan-print_nat n rest h e) h

-- `std::to_chars` succeeds exactly on the numbers of at most `room` digits, with the digits of the
-- number.
pub to_chars-eq-some :
    (room n : ℕ) → 0 < room → room ≤ 20 → n < 10 ^ room → to_chars room n ≡ some (print_nat n)
unfolding to_chars print_nat
to_chars-eq-some room n p q h = rw (le→leb _ _ (length-digits-le 20 room n h p))

pub to_chars-eq-none : (room n : ℕ) → n < 2 ^ 64 → 10 ^ room ≤ n → to_chars room n ≡ none
unfolding to_chars print_nat
to_chars-eq-none room n h q = elim (Bool-cases (leb (length (print_nat n)) room)) [
  | inl fits ↦
      absurd (omega (arith, lt-pow-length 20 room n (omega arith) (omega arith) (leb→le _ _ fits)))
  | inr long ↦ rw long
]

pub length-print_nat-le : (k n : ℕ) → n < 10 ^ k → 0 < k → length (print_nat n) ≤ k
unfolding print_nat
length-print_nat-le k n h p = length-digits-le 20 k n h p

-- Room for twenty characters is enough for every 64-bit number.
pub to_chars_wide : (room n : ℕ) → 20 ≤ room → n < 2 ^ 64 → to_chars room n ≡ some (print_nat n)
unfolding to_chars
to_chars_wide room n p h =
    let short = length-print_nat-le 20 n (omega arith) (omega arith) in
    rw (le→leb (length (print_nat n)) room (omega arith))

-- The values of `std::int64_t`.
abbrev pub IsInt64 : ℤ → Type 0
IsInt64 (pos n) = n < 2 ^ 63
IsInt64 (negsuc n) = n < 2 ^ 63

-- Every signed 64-bit number fits the buffer that the code keeps for numbers.
pub to_chars_int_wide : (n : ℤ) → IsInt64 n → to_chars_int 32 n ≡ some (print_int n)
unfolding to_chars_int print_int
to_chars_int_wide (pos n) h =
    let short = length-print_nat-le 20 n (omega arith) (omega arith) in
    rw (le→leb (length (print_nat n)) 32 (omega arith))
to_chars_int_wide (negsuc n) h =
    let short = length-print_nat-le 20 (n + 1) (omega arith) (omega arith) in
    rw (le→leb (suc (length (print_nat (n + 1)))) 32 (omega arith))
