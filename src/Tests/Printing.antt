-- ===== src/Tests/Printing.antt =====
-- Values of Python, and counters, as they are printed.
use ucall.Prelude.{pos}
use ucall.Prelude.{
  ℕ, ◌+◌, ◌%◌, ◌^◌, ◌<◌, ◌≤◌, ◌≡◌, ◌↔◌, refl, true, some, [], ◌∷◌, ◌++◌, codes, length, arith,
}
use ucall.Posix.Engine.{Stats}
use ucall.PyJson.{
  Value, value, no_values, py_none, py_unicode, py_sequence, Encoders, escape, escape_char,
  to_string, bracketed, sprintf, calculate_size_as_str,
}
use ucall.PyJson.{py_long, py_bool, py_dict, member, no_members}
use ucall.PyJson.Grammar.{IsJson, IsPlain, to_string-IsJson}
use ucall.PyJson.Escape.{read, plain, read-escape}
use ucall.PyJson.Size.{extra}
use ucall.PyJson.Fits.{terminator, fits_iff}
use ucall.Log.{json_text, log_json, no_stats}
use ucall.Log.Texts.{log_json_lem}

read-escape_example :
    read plain (escape (codes "a\n\"") ++ 34 ∷ codes ",1]") ≡ some (codes "a\n\"", codes ",1]")
read-escape_example = read-escape (codes "a\n\"") (codes ",1]")

-- Encoders that print nothing.
abbrev mute : Encoders ℕ
mute = record { float_text = λ x. []; tb64enc = λ s. []; tb64enclen = λ n. 0 }

abbrev listed : Value ℕ
listed = py_sequence (value py_none (value (py_unicode (codes "a\n")) no_values))

listed_done : (to_string mute listed).done ≡ true
unfolding to_string bracketed
listed_done = refl

listed_short : length (to_string mute listed).text + 1 < 2 ^ 64
unfolding to_string bracketed escape escape_char sprintf
listed_short = omega arith

fits_iff_example :
    ((to_string mute listed).touched ≤ calculate_size_as_str mute listed % 2 ^ 64)
    ↔ ((extra listed ≡ 0) × (terminator listed ≡ 0))
fits_iff_example = fits_iff mute (λ s. refl) listed listed_done listed_short

abbrev counted : Stats
counted = record {
  added_connections = 3;
  closed_connections = 2;
  bytes_received = 70000;
  bytes_sent = 123456789;
  packets_received = 900;
  packets_sent = 900;
}

log_json_lem_example :
    let ((text, len), s') = log_json 4096 counted in
    (text ≡ json_text counted) × (len ≡ length text) × (len < 4096) × (s' ≡ no_stats)
log_json_lem_example =
    log_json_lem 4096 counted
      (record {
        added = omega arith;
        closed = omega arith;
        received = omega arith;
        sent = omega arith;
        packets_in = omega arith;
        packets_out = omega arith;
      })
      (omega arith)

-- `{"a": [1, True]}`
abbrev keyed : Value ℕ
keyed = py_dict (
    member (py_unicode (codes "a"))
      (py_sequence (value (py_long (pos 1)) (value (py_bool true) no_values))) no_members)

keyed-IsPlain : IsPlain keyed
unfolding IsPlain
keyed-IsPlain = ((codes "a", refl), ((omega arith, (tt, tt)), tt))

to_string-IsJson_example : IsJson (to_string mute keyed).text keyed
to_string-IsJson_example = to_string-IsJson mute keyed keyed-IsPlain
