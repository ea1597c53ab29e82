-- ===== src/Posix/Forward.antt =====
-- From a packet to its replies in src/engine_posix.cpp: `forward_call`, `forward_call_or_calls` and
-- `forward_packet`.
pub mod Texts
pub mod Calls
pub mod Batch
use ucall.Prelude.{
  ℕ, ◌+◌, ◌-◌, Bool, true, false, not, ◌&&◌, ◌⊎◌, inl, inr, Option, none, some, List, [], ◌∷◌, ◌++◌,
  Bytes, codes, ℤ, neg, length, get_or, ltb, ◌==◌, if◌then◌else◌,
}
use ucall.Memory.Allocator.{Allocator}
use ucall.Memory.Array
use ucall.Memory.Array.{Array, size}
use ucall.Reply.{http_header, http_header_size, set_http_content_length}
use ucall.Parse.Dom.{Dom, success, capacity, invalid, PhrResult}
use ucall.Parse.Http.{DefaultError, ParsedRequest, split_body_headers}
use ucall.Parse.Callback.{Scratch, NamedCallback, parsed_over, find_callback}
pub use ucall.Posix.Fill.{◌>>=◌}
use ucall.Posix.Engine.{Answer, Callback, Sent, Engine}
use ucall.Posix.Reply.{answer, reply_error, reply_error_out_of_memory, send_message}

-- `if (buffer[size - 1] == ',') buffer.pop_back();`, where an empty buffer is read outside of its block: `none`.
pub drop_comma : {E T : Type 0} → Engine E T → Option (Engine E T)
drop_comma e =
    if size e.buffer == 0
    then none
    else if get_or e.buffer.elements (size e.buffer - 1) 0 == b','
    then some (record e { buffer = Array.pop_back e.buffer 1 })
    else some e

-- `if (scratch.is_http) set_http_content_length(buffer.data(), buffer.size() - http_header_size_k);`
pub patch : {E T : Type 0} → Bool → Engine E T → Engine E T
patch false e = e
patch true e = record e {
  buffer = record (e.buffer) {
    elements = (set_http_content_length e.buffer.elements (size e.buffer - http_header_size)).1;
  };
}

module _ {E D T : Type 0} (dom : Dom E D) (heap : Allocator) (net : ℕ → Sent) where
  -- The calls that a callback makes, in order.
  pub answers : ℕ → Engine E T → List Answer → Option (Engine E T)
  answers fuel e [] = some e
  answers fuel e (a ∷ more) = answer heap net fuel e a >>= λ e'. answers fuel e' more

  pub answer_callback :
      ℕ → Engine E T → NamedCallback (Callback E T) T ⊎ DefaultError → Option (Engine E T)
  unfolding answers
  answer_callback fuel e (inr err) = reply_error heap net fuel e err.code err.note (length err.note)
  answer_callback fuel e (inl c) = answers fuel e (c.callback e.scratch.tree c.callback_tag)

  pub forward_call : ℕ → Engine E T → Option (Engine E T)
  unfolding answer_callback
  forward_call fuel e =
      let (found, s) = find_callback dom e.callbacks e.scratch in
      answer_callback fuel (record e { scratch = s }) found

  -- `for (sjd::element const one : many)`
  pub forward_each : ℕ → Engine E T → List E → Option (Engine E T)
  unfolding forward_call
  forward_each fuel e [] = some e
  forward_each fuel e (one ∷ many) =
      forward_call fuel (record e { scratch = record (e.scratch) { tree = one } }) >>= λ e'.
      forward_each fuel e' many

  pub append : Bool × Engine E T → Bytes → Bool × Engine E T
  append (res, e) s =
      let (done, b) = Array.append_n heap e.buffer s in (res && done, record e { buffer = b })

  -- The end of a batch that was written down, or was not.
  pub seal : ℕ → Bool × Engine E T → Option (Engine E T)
  unfolding patch
  seal fuel (res, e) =
      if not res
      then reply_error_out_of_memory heap net fuel e
      else send_message heap net (reply_error_out_of_memory heap net fuel)
          (patch e.scratch.is_http e)
        >>= λ e'. some (record e' { buffer = Array.reset e'.buffer })

  pub close_batch : ℕ → Bool × Engine E T → Option (Engine E T)
  unfolding append seal
  close_batch fuel (opened, e) = drop_comma e >>= λ e'. seal fuel (append (opened, e') (codes "]"))

  pub open_batch : Engine E T → Bool × Engine E T
  unfolding append
  open_batch e =
      let b = record e { scratch = record (e.scratch) { is_batch = true } } in
      append (if e.scratch.is_http then append (true, b) http_header else (true, b)) (codes "[")

  pub forward_batch : ℕ → Engine E T → List E → Option (Engine E T)
  unfolding open_batch close_batch drop_comma forward_each
  forward_batch fuel e many =
      let (opened, e₁) = open_batch e in
      forward_each fuel e₁ many >>= λ e₂. close_batch fuel (opened, e₂)

  forward_single : ℕ → Engine E T → E → Option (Engine E T)
  unfolding forward_call
  forward_single fuel e one =
      forward_call fuel (record e { scratch = record (e.scratch) { is_batch = false; tree = one } })
      >>= λ e'. some (record e' { buffer = Array.reset e'.buffer })

  forward_call_or_calls : ℕ → Engine E T → Option (Engine E T)
  unfolding forward_batch forward_single
  forward_call_or_calls fuel e₀ =
      let e = record e₀ { scratch = parsed_over dom e₀.scratch } in
      let invalid_json =
        reply_error heap net fuel e (neg 32700) (codes "Invalid JSON was received by the server.")
          40 in
      elim (dom.parse e.scratch.dynamic_packet) [
        | capacity ↦ invalid_json
        | invalid ↦ invalid_json
        | success one_or_many ↦
            if dom.is_array one_or_many
            then forward_batch fuel e (dom.get_array one_or_many)
            else forward_single fuel e one_or_many
      ]

  pub forward_packet : (Bytes → PhrResult) → ℕ → Engine E T → Option (Engine E T)
  unfolding forward_call_or_calls
  forward_packet phr fuel e = elim (split_body_headers phr e.scratch.dynamic_packet) [
    | inr err ↦ reply_error heap net fuel e err.code err.note (length err.note)
    | inl request ↦ forward_call_or_calls fuel (record e {
      scratch = record (e.scratch) {
        is_http = not (length request.type == 0);
        dynamic_packet = request.body;
      };
    })
  ]
