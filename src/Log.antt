-- ===== src/Log.antt =====
-- src/helpers/log.hpp: the counters of a server and how they are printed.
pub mod Texts
use ucall.Prelude.{
  ℕ, ◌+◌, ◌-◌, ◌*◌, ◌<◌, ◌≤◌, ◌^◌, List, [], ◌∷◌, ◌++◌, Bytes, codes, length, take, ltb,
  if◌then◌else◌,
}
use ucall.Charconv.{print_nat}
use ucall.Posix.Engine.{Stats}

-- `number_and_suffix_t`; the number is kept as the division that makes the `float`.
pub record NumberAndSuffix : Type 0 where
  pub number : ℕ
  pub divisor : ℕ
  pub suffix : ℕ

unfoldable pub printable : ℕ → NumberAndSuffix
printable n =
    if ltb 1000000000 n
    then record { number = n; divisor = 1000000000; suffix = b'G' }
    else if ltb 1000000 n
    then record { number = n; divisor = 1000000; suffix = b'M' }
    else if ltb 1000 n
    then record { number = n; divisor = 1000; suffix = b'K' }
    else record { number = n; divisor = 1; suffix = b' ' }

-- The counters after all of them were exchanged for 0.
abbrev pub no_stats : Stats
no_stats = record {
  added_connections = 0;
  closed_connections = 0;
  bytes_received = 0;
  bytes_sent = 0;
  packets_received = 0;
  packets_sent = 0;
}

-- What `snprintf` leaves in the buffer, less the terminator, and what it returns.
unfoldable pub snprintf : ℕ → Bytes → Bytes × ℕ
snprintf buffer_capacity text = (take (buffer_capacity - 1) text, length text)

-- `normalized` is the conversion of `double(n) / seconds` to `std::size_t`, and `one_digit` prints a quotient with
-- `%.1f`.
unfoldable human_text : (ℕ → ℕ) → (ℕ → ℕ → Bytes) → Stats → Bytes
human_text normalized one_digit s =
    codes "connections: +"
    ++ (rate s.added_connections
        ++ (codes "/s, -"
            ++ (rate s.closed_connections
                ++ (codes "/s, RX: "
                    ++ (rate s.packets_received
                        ++ (codes " msgs/s, "
                            ++ (rate s.bytes_received
                                ++ (codes "b/s, TX: "
                                    ++ (rate s.packets_sent
                                        ++ (codes " msgs/s, "
                                            ++ (rate s.bytes_sent ++ codes "b/s. \n")))))))))))
  where
    rate : ℕ → Bytes
    rate n =
        let p = printable (normalized n) in one_digit p.number p.divisor ++ (b' ' ∷ p.suffix ∷ [])

unfoldable log_human_readable : (ℕ → ℕ) → (ℕ → ℕ → Bytes) → ℕ → Stats → (Bytes × ℕ) × Stats
log_human_readable normalized one_digit buffer_capacity s =
    (snprintf buffer_capacity (human_text normalized one_digit s), no_stats)

-- The format is a raw string: its `\n` is a backslash and a letter.
unfoldable pub json_text : Stats → Bytes
json_text s =
    codes " {\"add\":"
    ++ (print_nat s.added_connections
        ++ (codes ",\"close\":"
            ++ (print_nat s.closed_connections
                ++ (codes ",\"recv_bytes\":"
                    ++ (print_nat s.bytes_received
                        ++ (codes ",\"sent_bytes\":"
                            ++ (print_nat s.bytes_sent
                                ++ (codes ",\"recv_packs\":"
                                    ++ (print_nat s.packets_received
                                        ++ (codes ",\"sent_packs\":"
                                            ++ (print_nat s.packets_sent
                                                ++ codes "} \\n ")))))))))))

unfoldable pub log_json : ℕ → Stats → (Bytes × ℕ) × Stats
log_json buffer_capacity s = (snprintf buffer_capacity (json_text s), no_stats)
