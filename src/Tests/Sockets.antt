-- ===== src/Tests/Sockets.antt =====
-- Connections that carry what they declare, and more than that.
use ucall.Prelude.{
  ℕ, ◌+◌, ◌<◌, ◌≤◌, ◌⊎◌, ◌++◌, ◌≡◌, refl, true, some, [], ◌∷◌, Bytes, codes, length, arith,
}
use ucall.Charconv.{from_chars, print_nat}
use ucall.Memory.Allocator.{unlimited}
use ucall.Parse.Dom.{PhrResult, failed}
use ucall.Parse.Http.{split_body_headers, with_body, no_request}
use ucall.Posix.Engine.{Sent, bytes}
use ucall.Posix.Take.{World, overrun, take_call, bytes_expected}
use ucall.Posix.Take.Bounds.{take_call_overrun}
use ucall.Memory.Array.{Array, size}
use ucall.Memory.Array.Growth.{IsValid}
use ucall.Memory.Buffer.{replicate}
use ucall.Parse.Callback.{NamedCallback}
use ucall.Posix.Engine.{Callback}
use ucall.Posix.Params.{
  add_procedure, add_procedure_lem, param_positional-named, param_named_bool, param_named_i64,
  param_named_f64, param_named_str, param_positional_bool, param_positional_i64,
  param_positional_f64, param_positional_str,
}
use ucall.Tests.Requests.{Toy, number, toy_dom}
use ucall.Tests.Replies.{server}

abbrev plain : Bytes → PhrResult
plain s = failed

abbrev slow : ℕ → Sent
slow k = bytes 10

-- Plain JSON-RPC: `ioctl` tells how many bytes are waiting.
abbrev world : ℕ → World
world n = record {
  accepted = true;
  first = some (codes "{\"id\":1}");
  waiting = some n;
  source = λ k. codes "  ";
  allocate = λ k. true;
  aligned_alloc = λ k. true;
  padding = 64;
}

take_call_overrun_example : take_call toy_dom unlimited slow plain 2 server (world 3) ≡ some overrun
unfolding split_body_headers with_body bytes_expected from_chars
take_call_overrun_example =
    take_call_overrun toy_dom unlimited slow plain 2 server (world 3) (codes "{\"id\":1}")
      (record no_request { body = codes "{\"id\":1}" }) refl refl refl (omega arith) (omega arith)
      (omega arith) (λ k. omega arith)

param_positional-named_example :
    (param_named_bool toy_dom (number 3) (replicate 256 0) (print_nat 1) (length (print_nat 1))
      ≡ param_positional_bool toy_dom (number 3) (replicate 256 0) 1)
    × (param_named_i64 toy_dom (number 3) (replicate 256 0) (print_nat 1) (length (print_nat 1))
        ≡ param_positional_i64 toy_dom (number 3) (replicate 256 0) 1)
    × (param_named_f64 toy_dom (number 3) (replicate 256 0) (print_nat 1) (length (print_nat 1))
        ≡ param_positional_f64 toy_dom (number 3) (replicate 256 0) 1)
    × (param_named_str toy_dom (number 3) (replicate 256 0) (print_nat 1) (length (print_nat 1))
        ≡ param_positional_str toy_dom (number 3) (replicate 256 0) 1)
param_positional-named_example =
    param_positional-named toy_dom (number 3) (replicate 256 0) 1 refl (omega arith)

abbrev one_slot : Array (NamedCallback (Callback Toy ℕ) ℕ)
one_slot = record { elements = []; allocated = true; capacity = 1 }

abbrev silent : NamedCallback (Callback Toy ℕ) ℕ
silent = record { name = codes "silent"; callback = λ tree tag. []; callback_tag = 0 }

one_slot-IsValid : IsValid one_slot
one_slot-IsValid = record { fits = omega arith; backed = λ h. cc }

add_procedure_lem_example :
    IsValid (add_procedure one_slot silent)
    × ((size one_slot + 1 < one_slot.capacity)
          × ((add_procedure one_slot silent).elements ≡ one_slot.elements ++ silent ∷ [])
        ⊎ (one_slot.capacity ≤ size one_slot + 1) × (add_procedure one_slot silent ≡ one_slot))
add_procedure_lem_example = add_procedure_lem one_slot silent one_slot-IsValid
