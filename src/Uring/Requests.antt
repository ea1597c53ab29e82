-- ===== src/Uring/Requests.antt =====
-- From a full request to its replies in src/engine_uring.cpp: `raise_call`, `raise_call_or_calls`,
-- `parse_and_raise_request` and `received_full_request`.
pub mod Total
pub mod Replies
pub mod Bodies
pub mod Responses
use ucall.Prelude.{
  ℕ, ◌+◌, ◌%◌, ◌^◌, Bool, true, false, not, ◌&&◌, ◌||◌, ◌⊎◌, inl, inr, Option, none, some, List, [],
  ◌∷◌, Bytes, codes, ℤ, neg, length, ltb, ◌==◌, if◌then◌else◌,
}
use ucall.Charconv.{FromChars, ok, invalid_argument, out_of_range, from_chars}
use ucall.Memory.Allocator.{Allocator}
use ucall.Memory.Array.{size}
use ucall.Reply.{http_header, set_http_content_length}
use ucall.Parse.Dom.{Dom, success, capacity, invalid, PhrResult}
use ucall.Parse.Http.{DefaultError, ParsedRequest, split_body_headers}
use ucall.Parse.Callback.{Scratch, NamedCallback, parsed_over, find_callback}
use ucall.Exchange.{
  Pipes, ram_page_size, input_span, output_span, sub_size, append_reserved, push_back_reserved,
  output_pop_back, has_outputs,
}
use ucall.Posix.Engine.{Answer, Callback}
use ucall.Uring.Reply.{answer, reply_error, reply_error_out_of_memory}

infixl 5 ◌>>=◌
abbrev pub ◌>>=◌ : {A B : Type 0} → Option A → (A → Option B) → Option B
none >>= f = none
some a >>= f = f a

-- `set_http_content_length(output.data(), body_size)` on the bytes that the output span shows.
unfoldable pub patch_outputs : Pipes → ℕ → Bool × Pipes
patch_outputs ps body_size =
    let (done, page) = set_http_content_length ps.output.embedded body_size in
    let (done', text) = set_http_content_length ps.output.dynamic.elements body_size in
    if size ps.output.dynamic == 0
    then (done, record ps { output = record (ps.output) { embedded = page } })
    else (
      done',
      record ps {
        output = record (ps.output) { dynamic = record (ps.output.dynamic) { elements = text } };
      },
    )

-- Whether the request is complete, and the new `content_length`.
unfoldable pub received_full_request : (Bytes → PhrResult) → Bytes → Option ℕ → Bool × Option ℕ
received_full_request phr text content_length = elim (split_body_headers phr text) [
  | inr err ↦ (true, content_length)
  | inl request ↦ expected request (from_chars request.content_length)
]
  where
    enough : ParsedRequest → ℕ → Bool × Option ℕ
    enough request n =
        let bytes_expected = (n + request.body_offset) % 2 ^ 64 in
        if bytes_expected == 0
        then (true, content_length)
        else (not (ltb (length text) bytes_expected), some bytes_expected)

    expected : ParsedRequest → FromChars → Bool × Option ℕ
    expected request invalid_argument = (true, content_length)
    expected request out_of_range = enough request 0
    expected request (ok n) = enough request n

module _ {E D T : Type 0} (dom : Dom E D) (heap : Allocator)
    (callbacks : List (NamedCallback (Callback E T) T)) where
  unfoldable pub answers : ℕ → Scratch E → Pipes → List Answer → Option Pipes
  answers fuel s ps [] = some ps
  answers fuel s ps (a ∷ more) = answer heap s fuel ps a >>= λ ps'. answers fuel s ps' more

  unfoldable pub answer_callback :
      ℕ → NamedCallback (Callback E T) T ⊎ DefaultError → Scratch E → Pipes → Option Pipes
  answer_callback fuel (inr err) s ps =
      reply_error heap s fuel ps err.code err.note (length err.note)
  answer_callback fuel (inl c) s ps = answers fuel s ps (c.callback s.tree c.callback_tag)

  unfoldable pub raise_call : ℕ → Scratch E × Pipes → Option (Scratch E × Pipes)
  raise_call fuel (s, ps) =
      let (found, s') = find_callback dom callbacks s in
      answer_callback fuel found s' ps >>= λ ps'. some (s', ps')

  -- `for (sjd::element const one : many)`
  unfoldable pub raise_each : ℕ → Scratch E × Pipes → List E → Option (Scratch E × Pipes)
  raise_each fuel (s, ps) [] = some (s, ps)
  raise_each fuel (s, ps) (one ∷ many) =
      raise_call fuel (record s { tree = one }, ps) >>= λ r. raise_each fuel r many

  unfoldable pub raise_batch : ℕ → Scratch E × Pipes → List E → Option (Scratch E × Pipes)
  raise_batch fuel (s, ps) many =
      raise_each fuel (record s { is_batch = true }, push_back_reserved ps b'[') many
      >>= λ (s', ps'). some (s', push_back_reserved (output_pop_back ps') b']')

  -- The comma behind a single reply is dropped; a notification is answered by an empty object.
  unfoldable pub close_single : Scratch E × Pipes → Scratch E × Pipes
  close_single (s, ps) = (
    s,
    if length s.dynamic_id == 0
        then push_back_reserved (push_back_reserved ps b'{') b'}'
        else if has_outputs ps
        then output_pop_back ps
        else ps,
  )

  unfoldable pub raise_single : ℕ → Scratch E × Pipes → E → Option (Scratch E × Pipes)
  raise_single fuel (s, ps) one =
      raise_call fuel (record s { is_batch = false; tree = one }, ps) >>= λ r. some (close_single r)

  unfoldable pub close_http : ℕ → ℕ → Scratch E × Pipes → Option (Scratch E × Pipes)
  close_http fuel body_size (s, ps) =
      let (done, ps') = patch_outputs ps (sub_size (length (output_span ps)) body_size) in
      let oom = reply_error_out_of_memory heap s fuel ps' >>= λ ps''. some (s, ps'') in
      if s.is_http then if done then some (s, ps') else oom else some (s, ps)

  unfoldable pub raise_call_or_calls : ℕ → Scratch E × Pipes → Option (Scratch E × Pipes)
  raise_call_or_calls fuel (s, ps) =
      let ps₁ = if s.is_http then append_reserved heap ps http_header else ps in
      let body_size = length (output_span ps₁) in
      let s₁ = parsed_over dom s in
      elim (dom.parse s.dynamic_packet) [
        | capacity ↦ reply_error_out_of_memory heap s₁ fuel ps >>= λ ps'. some (s₁, ps')
        | invalid ↦
            reply_error heap s₁ fuel ps₁ (neg 32700)
              (codes "Invalid JSON was received by the server.") 40
            >>= λ ps'. some (s₁, ps')
        | success one_or_many ↦
            (if dom.is_array one_or_many
              then raise_batch fuel (s₁, ps₁) (dom.get_array one_or_many)
              else raise_single fuel (s₁, ps₁) one_or_many)
            >>= close_http fuel body_size
      ]

  -- `allocate` tells whether a parser for a packet of that size can be set up; that parser is destroyed at the
  -- end.
  unfoldable pub parse_and_raise_request :
      (Bytes → PhrResult) → (ℕ → Bool) → ℕ → Scratch E × Pipes → Option (Scratch E × Pipes)
  parse_and_raise_request phr allocate fuel (s, ps) =
      elim (split_body_headers phr (input_span ps)) [
        | inr err ↦
            (reply_error heap s fuel ps err.code err.note (length err.note) >>= λ ps'.
            some (s, ps'))
        | inl request ↦
            let s' = record s {
              is_http = not (length (input_span ps) == length request.body);
              dynamic_packet = request.body;
            } in
            if ltb ram_page_size (length request.body) && not (allocate (length request.body))
            then (reply_error_out_of_memory heap s' fuel ps >>= λ ps'. some (s', ps'))
            else if ltb ram_page_size (length request.body)
            then (raise_call_or_calls fuel (s', ps) >>= λ (s'', ps').
                some (parsed_over dom s'', ps'))
            else raise_call_or_calls fuel (s', ps)
      ]
