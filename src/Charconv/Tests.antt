-- ===== src/Charconv/Tests.antt =====
use ucall.Prelude.{◌≡◌, refl, codes, neg, none, ◌^◌, ◌-◌, []}
use ucall.Charconv.{
  print_nat, print_int, to_chars, from_chars, scan_digits, ok, invalid_argument, out_of_range,
}

print_zero : print_nat 0 ≡ codes "0"
unfolding print_nat
print_zero = refl

print_error_code : print_int (neg 32600) ≡ codes "-32600"
unfolding print_int
print_error_code = refl

no_room : to_chars 3 1234 ≡ none
unfolding to_chars
no_room = refl

read_number : from_chars (codes "118\r\n") ≡ ok 118
unfolding from_chars scan_digits
read_number = refl

read_largest : from_chars (codes "18446744073709551615") ≡ ok (2 ^ 64 - 1)
unfolding from_chars scan_digits
read_largest = refl

read_overflow : from_chars (codes "18446744073709551616") ≡ out_of_range
unfolding from_chars scan_digits
read_overflow = refl

read_nothing : from_chars [] ≡ invalid_argument
unfolding from_chars scan_digits
read_nothing = refl
