-- ===== src/Tests/Agreement.antt =====
-- The two engines on the same batch.
use ucall.Prelude.{
  ℕ, zero, suc, inl, view_eq, ◌≡◌, ◌≢◌, refl, Bool, true, false, Option, none, some, List, [], ◌∷◌,
  ◌++◌, Bytes, codes, length, if◌then◌else◌, arith, ◌<◌, ◌^◌,
}
use ucall.Memory.Allocator.{unlimited}
use ucall.Memory.Array
use ucall.Memory.Buffer.{replicate}
use ucall.Parse.Dom.{Dom, success, invalid}
use ucall.Parse.Callback.{
  Scratch, find_callback, find_method, find_named, version_invalid, id_invalid, method_invalid,
  params_invalid, text_of, print_id,
}
use ucall.Exchange.{Pipes, Pipe, output_span}
use ucall.Exchange.Outputs.{span_cleared}
use ucall.Exchange.Holds.{Holds}
use ucall.Posix.Engine.{Engine}
use ucall.Posix.Fill.Text.{response}
use ucall.Posix.Forward.{forward_batch}
use ucall.Posix.Forward.Texts.{
  batch_texts, call_texts, answer_texts, commas, answer_text, view-length,
}
use ucall.Uring.Requests.{raise_call_or_calls}
use ucall.Uring.Requests.Bodies.{request_body, batch_body, header}
use ucall.Uring.Requests.Responses.{
  parse_error, raise_call_or_calls_lem, raise_call_or_calls_invalid, engines_agree,
}
use ucall.Tests.Requests.{Toy, call, notice, number, toy_dom, asked}
use ucall.Tests.Replies.{server, slow, slow-IsWilling}

abbrev is_batch : Toy → Bool
is_batch (call m i) = false
is_batch (notice m) = false
is_batch (Toy.text s) = false
is_batch (number zero) = true
is_batch (number (suc n)) = false

-- The id is a string.
abbrev member : Toy → Bytes → Option Toy
member (call m i) key =
    if view_eq key (codes "id") then some (Toy.text (codes "7")) else toy_dom.at_key (call m i) key
member (notice m) key = toy_dom.at_key (notice m) key
member (Toy.text s) key = none
member (number n) key = none

-- A packet is a batch of one call and a notification.
abbrev pub batch_dom : Dom Toy ℕ
batch_dom = record toy_dom {
  parse = λ s. success (number 0);
  is_array = is_batch;
  at_key = member;
  get_array = λ t. call (codes "sum") 1 ∷ notice (codes "sum") ∷ [];
}

abbrev fresh : Pipe
fresh = record { embedded = replicate 4096 0; embedded_used = 0; dynamic = Array.empty }

abbrev pub idle : Pipes
idle = record { input = fresh; output = fresh; output_submitted = 0 }

pub idle-Holds : Holds idle []
idle-Holds = record {
  page = refl;
  used = omega arith;
  single = inl refl;
  content = span_cleared idle refl;
}

body_length : length (request_body batch_dom server.callbacks asked (number 0)) < 10 ^ 9
unfolding request_body batch_texts call_texts find_callback find_method find_named version_invalid
    id_invalid method_invalid params_invalid text_of print_id batch_body answer_texts answer_text
    view_eq
body_length = rw (view-length (codes "5")) (omega arith)

apart : {t : Bytes} {ts : List Bytes} → t ∷ ts ≢ []
apart e = cc e

some_text :
    batch_texts batch_dom server.callbacks
      (record asked { is_batch = true })
      (batch_dom.get_array (number 0))
    ≢ []
unfolding batch_texts call_texts find_callback find_method find_named version_invalid id_invalid
    method_invalid params_invalid text_of print_id answer_texts answer_text view_eq
some_text = apart

engines_agree_example :
    (e' : Engine Toy ℕ) × (s' : Scratch Toy) × (ps' : Pipes) × (forward_batch batch_dom unlimited
        slow 1 server
        (batch_dom.get_array (number 0))
      ≡ some e')
    × (raise_call_or_calls batch_dom unlimited server.callbacks 1 (asked, idle) ≡ some (s', ps'))
    × (e'.wire ≡ [] ++ output_span ps')
engines_agree_example =
    engines_agree batch_dom unlimited slow (λ n. refl) (λ n. refl) slow-IsWilling 0 server idle
      (number 0) refl refl ((λ tree. tt), ((λ tree. tt), tt)) refl idle-Holds refl some_text
      body_length

raise_call_or_calls_lem_example :
    (s' : Scratch Toy) × (ps' : Pipes) × (raise_call_or_calls batch_dom unlimited server.callbacks 1
        (asked, idle)
      ≡ some (s', ps'))
    × (output_span ps' ≡ response false (request_body batch_dom server.callbacks asked (number 0)))
raise_call_or_calls_lem_example =
    raise_call_or_calls_lem batch_dom unlimited server.callbacks (λ n. refl) (λ n. refl) 0 asked
      idle (number 0) refl ((λ tree. tt), ((λ tree. tt), tt)) idle-Holds refl
      (λ single. absurd (apart_bools single)) body_length
  where
    apart_bools : true ≢ false
    apart_bools e = cc e

-- Nothing is JSON.
abbrev broken_dom : Dom Toy ℕ
broken_dom = record batch_dom { parse = λ s. invalid }

-- A packet over HTTP, where the last call had the id "7".
abbrev garbled : Scratch Toy
garbled = record asked { is_http = true; dynamic_packet = codes "{]" }

raise_call_or_calls_invalid_example :
    (ps' : Pipes) × (raise_call_or_calls broken_dom unlimited server.callbacks 1 (garbled, idle)
      ≡ some (garbled, ps'))
    × (output_span ps' ≡ header true ++ commas (answer_texts (codes "7") (parse_error ∷ [])))
raise_call_or_calls_invalid_example =
    raise_call_or_calls_invalid broken_dom unlimited server.callbacks (λ n. refl) (λ n. refl) 0
      garbled idle refl idle-Holds refl
