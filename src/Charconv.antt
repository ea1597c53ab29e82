-- ===== src/Charconv.antt =====
-- `std::to_chars` and `std::from_chars` on integers, as src/helpers/parse.hpp, src/helpers/reply.hpp
-- and the engines use them: decimal digits, the room that the caller gives, and the error codes.
pub mod RoundTrip
pub mod Decimal
mod Tests
use ucall.Prelude.{
  ℕ, zero, suc, ◌+◌, ◌-◌, ◌*◌, ◌/◌, ◌%◌, ◌^◌, ◌≡◌, Bool, ◌&&◌, Option, none, some, [], ◌∷◌, ◌++◌,
  Bytes, ℤ, pos, negsuc, length, ltb, leb, if◌then◌else◌,
}

-- Decimal digits, most significant first; `fuel` bounds their number.
pub digits : ℕ → ℕ → Bytes
digits zero n = []
digits (suc fuel) n =
    let rest = digits fuel (n / 10) ++ (b'0' + n % 10) ∷ [] in
    if ltb n 10 then (b'0' + n) ∷ [] else rest

-- 64-bit numbers have at most twenty digits.
pub print_nat : ℕ → Bytes
unfolding digits
print_nat n = digits 20 n

unfoldable pub print_int : ℤ → Bytes
unfolding print_nat
print_int (pos n) = print_nat n
print_int (negsuc n) = b'-' ∷ print_nat (n + 1)

-- `std::to_chars(p, p + room, n)`: the characters, or `std::errc::value_too_large`.
pub to_chars : ℕ → ℕ → Option Bytes
unfolding print_nat
to_chars room n = let s = print_nat n in if leb (length s) room then some s else none

unfoldable pub to_chars_int : ℕ → ℤ → Option Bytes
unfolding print_int
to_chars_int room n = let s = print_int n in if leb (length s) room then some s else none

-- What `std::from_chars` reports.
pub data FromChars : Type 0 where
  ok : ℕ → FromChars
  invalid_argument out_of_range : FromChars

abbrev pub is_digit : ℕ → Bool
is_digit c = leb b'0' c && leb c b'9'

-- The value of the longest run of digits, on top of `acc`.
pub scan_digits : Bytes → ℕ → ℕ
scan_digits [] acc = acc
scan_digits (c ∷ s) acc =
    let rest = scan_digits s (acc * 10 + (c - b'0')) in if is_digit c then rest else acc

-- `std::from_chars` into a `std::size_t`.
unfoldable pub from_chars : Bytes → FromChars
from_chars [] = invalid_argument
from_chars (c ∷ s) =
    let v = scan_digits (c ∷ s) 0 in
    if is_digit c then if ltb v (2 ^ 64) then ok v else out_of_range else invalid_argument
