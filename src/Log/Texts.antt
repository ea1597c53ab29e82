-- ===== src/Log/Texts.antt =====
-- What the printed counters hold.
use ucall.Prelude.{
  ℕ, ◌+◌, ◌-◌, ◌*◌, ◌<◌, ◌≤◌, ◌^◌, ◌≡◌, ◌⊎◌, refl, ap, sym, ◌++◌, arith, Bytes, codes, length,
  length-append, take_all,
}
use ucall.Charconv.{print_nat}
use ucall.Charconv.RoundTrip.{length-print_nat-le}
use ucall.Posix.Engine.{Stats}
use ucall.Log.{printable, snprintf, no_stats, json_text, log_json}

-- The counters are `std::size_t`.
pub record AreSizes (s : Stats) : Type 0 where
  pub added : s.added_connections < 2 ^ 64
  pub closed : s.closed_connections < 2 ^ 64
  pub received : s.bytes_received < 2 ^ 64
  pub sent : s.bytes_sent < 2 ^ 64
  pub packets_in : s.packets_received < 2 ^ 64
  pub packets_out : s.packets_sent < 2 ^ 64

digits_le : (n : ℕ) → n < 2 ^ 64 → length (print_nat n) ≤ 20
digits_le n h = length-print_nat-le 20 n (omega (arith, h)) (omega arith)

-- A counter behind its label.
length_field :
    (label : Bytes) (n : ℕ) (rest : Bytes)
    → n < 2 ^ 64
    → length (label ++ (print_nat n ++ rest)) ≤ length label + 20 + length rest
length_field label n rest h = omega (
  arith,
  length-append label (print_nat n ++ rest),
  length-append (print_nat n) rest,
  digits_le n h,
)

length-json_text : (s : Stats) → AreSizes s → length (json_text s) < 256
unfolding json_text
length-json_text s h =
    let t₆ : Bytes = codes "} \\n " in
    let t₅ = codes ",\"sent_packs\":" ++ (print_nat s.packets_sent ++ t₆) in
    let t₄ = codes ",\"recv_packs\":" ++ (print_nat s.packets_received ++ t₅) in
    let t₃ = codes ",\"sent_bytes\":" ++ (print_nat s.bytes_sent ++ t₄) in
    let t₂ = codes ",\"recv_bytes\":" ++ (print_nat s.bytes_received ++ t₃) in
    let t₁ = codes ",\"close\":" ++ (print_nat s.closed_connections ++ t₂) in
    omega (
      arith,
      length_field (codes " {\"add\":") s.added_connections t₁ h.added,
      length_field (codes ",\"close\":") s.closed_connections t₂ h.closed,
      length_field (codes ",\"recv_bytes\":") s.bytes_received t₃ h.received,
      length_field (codes ",\"sent_bytes\":") s.bytes_sent t₄ h.sent,
      length_field (codes ",\"recv_packs\":") s.packets_received t₅ h.packets_in,
      length_field (codes ",\"sent_packs\":") s.packets_sent t₆ h.packets_out,
    )

-- A buffer of at least 256 bytes, such as the page that the engines use, holds the whole document; the length that is
-- returned is its length, and the counters are 0 again.
pub log_json_lem :
    (buffer_capacity : ℕ) (s : Stats)
    → AreSizes s
    → 256 ≤ buffer_capacity
    → let ((text, len), s') = log_json buffer_capacity s in
      (text ≡ json_text s) × (len ≡ length text) × (len < buffer_capacity) × (s' ≡ no_stats)
unfolding log_json snprintf
log_json_lem buffer_capacity s h room =
    let short = length-json_text s h in
    let whole = take_all (buffer_capacity - 1) (json_text s) (omega (arith, short, room)) in
    (whole, ap length (sym whole), omega (arith, short, room), refl)

-- The number that is printed is the quotient by the unit of its suffix: more than one of it where there is a suffix, and no more than a
-- thousand of it up to a billion.
printable_lem :
    (n : ℕ)
    → let p = printable n in
      (p.number ≡ n)
      × ((p.divisor ≡ 1) × (p.suffix ≡ b' ') × (n ≤ 1000)
          ⊎ ((p.divisor ≡ 1000) × (p.suffix ≡ b'K') × (1000 < n) × (n ≤ 1000 * 1000)
              ⊎ ((p.divisor ≡ 1000 ^ 2) × (p.suffix ≡ b'M') × (1000 ^ 2 < n) × (n ≤ 1000 * 1000 ^ 2)
                  ⊎ (p.divisor ≡ 1000 ^ 3) × (p.suffix ≡ b'G') × (1000 ^ 3 < n))))
unfolding printable
printable_lem n = ground arith
