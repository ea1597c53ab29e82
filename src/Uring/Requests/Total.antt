-- ===== src/Uring/Requests/Total.antt =====
-- Every request is answered: where the heap gives every block, two rounds of replies are enough.
use ucall.Prelude.{
  ℕ, suc, ◌≡◌, ◌⊎◌, inl, inr, refl, Bool, true, false, Option, none, some, List, [], ◌∷◌, Bytes,
  codes, ℤ, neg, length, arith, Bool-cases, Option-cases, ◌==◌, if◌then◌else◌,
}
use ucall.Charconv.{to_chars_int}
use ucall.Charconv.RoundTrip.{to_chars_int_wide}
use ucall.Memory.Allocator.{Allocator}
use ucall.Reply
use ucall.Reply.{http_header}
use ucall.Parse.Dom.{Dom, Parsed, success, capacity, invalid, PhrResult}
use ucall.Parse.Http.{DefaultError, ParsedRequest, split_body_headers}
use ucall.Parse.Callback.{parsed_over, Scratch, NamedCallback, find_callback}
use ucall.Exchange.{Pipes, append_outputs, append_reserved, input_span}
use ucall.Exchange.Outputs.{append_outputs_total}
use ucall.Posix.Engine.{Answer, content, error, invalid_params, unknown, out_of_memory, Callback}
use ucall.Posix.Reply.{view}
use ucall.Uring.Reply.{
  reply_error, reply_error_out_of_memory, answer, reply_error_invalid_params, reply_error_unknown,
}
use ucall.Uring.Requests.{
  ◌>>=◌, answers, answer_callback, raise_call, raise_each, raise_batch, raise_single, close_http,
  raise_call_or_calls, parse_and_raise_request,
}

-- A result is there.
abbrev pub Gives : {A : Type 0} → Option A → Type 0
Gives {A} r = (a : A) × (r ≡ some a)

Gives->>= :
    {A B : Type 0} (r : Option A) (f : A → Option B)
    → Gives r
    → ((a : A) → Gives (f a))
    → Gives (r >>= f)
Gives->>= none f (a, e) g = cc
Gives->>= (some a) f h g = g a

if_Gives : {A : Type 0} (b : Bool) {r q : Option A} → Gives r → Gives q → Gives (if b then r else q)
if_Gives true g h = g
if_Gives false g h = h

module _ {E : Type 0} (heap : Allocator) (s : Scratch E) (malloc : (n : ℕ) → heap.malloc n ≡ true)
    (realloc : (n : ℕ) → heap.realloc n ≡ true) where
  one_round :
      (fuel : ℕ) (ps : Pipes) (code : ℤ) (note : Bytes) (len : ℕ) (text : Bytes)
      → to_chars_int 32 code ≡ some text
      → Gives (reply_error heap s (suc fuel) ps code note len)
  unfolding reply_error
  one_round fuel ps code note len text e = elim (Bool-cases (length s.dynamic_id == 0)) [
    | inl z ↦ (ps, rw (z, reply_error))
    | inr z ↦
        let vs = (Reply.fill_with_error s.dynamic_id text (view note len) true).0 in
        (
          (append_outputs heap ps vs).1,
          rw (z, e, append_outputs_total heap ps vs malloc realloc, reply_error),
        )
  ]

  -- A code that cannot be printed is answered by one that can.
  pub reply_error_total :
      (fuel : ℕ) (ps : Pipes) (code : ℤ) (note : Bytes) (len : ℕ)
      → Gives (reply_error heap s (suc (suc fuel)) ps code note len)
  unfolding reply_error
  reply_error_total fuel ps code note len = elim (Option-cases (to_chars_int 32 code)) [
    | inr (text, e) ↦ one_round (suc fuel) ps code note len text e
    | inl e ↦ elim (Bool-cases (length s.dynamic_id == 0)) [
      | inl z ↦ (ps, rw (z, reply_error))
      | inr z ↦
          let (ps', run) =
            one_round fuel ps (neg 32603) (codes "Unknown error.") 14 _
              (to_chars_int_wide (neg 32603) (omega arith)) in
          (ps', rw (z, e, reply_error) run)
    ]
  ]

  answer_total : (fuel : ℕ) (ps : Pipes) (a : Answer) → Gives (answer heap s (suc (suc fuel)) ps a)
  unfolding answer reply_error_invalid_params reply_error_unknown reply_error_out_of_memory
  answer_total fuel ps (content body len) = (_, refl)
  answer_total fuel ps (error code note len) = reply_error_total fuel ps code note len
  answer_total fuel ps invalid_params = reply_error_total fuel ps _ _ _
  answer_total fuel ps unknown = reply_error_total fuel ps _ _ _
  answer_total fuel ps out_of_memory = reply_error_total fuel ps _ _ _

module _ {E D T : Type 0} (dom : Dom E D) (heap : Allocator)
    (callbacks : List (NamedCallback (Callback E T) T)) (malloc : (n : ℕ) → heap.malloc n ≡ true)
    (realloc : (n : ℕ) → heap.realloc n ≡ true) where
  answers_total :
      (fuel : ℕ) (s : Scratch E) (ps : Pipes) (acts : List Answer)
      → Gives (answers dom heap callbacks (suc (suc fuel)) s ps acts)
  unfolding answers
  answers_total fuel s ps [] = (ps, refl)
  answers_total fuel s ps (a ∷ acts) =
      Gives->>= _ _ (answer_total heap s malloc realloc fuel ps a)
        (λ ps'. answers_total fuel s ps' acts)

  callback_total :
      (fuel : ℕ) (found : NamedCallback (Callback E T) T ⊎ DefaultError) (s : Scratch E)
      (ps : Pipes)
      → Gives (answer_callback dom heap callbacks (suc (suc fuel)) found s ps)
  unfolding answer_callback
  callback_total fuel (inl c) s ps = answers_total fuel s ps (c.callback s.tree c.callback_tag)
  callback_total fuel (inr err) s ps = reply_error_total heap s malloc realloc fuel ps _ _ _

  raise_call_total :
      (fuel : ℕ) (r : Scratch E × Pipes) → Gives (raise_call dom heap callbacks (suc (suc fuel)) r)
  unfolding raise_call
  raise_call_total fuel (s, ps) =
      let (found, s') = find_callback dom callbacks s in
      Gives->>= _ _ (callback_total fuel found s' ps) (λ ps'. ((s', ps'), refl))

  raise_each_total :
      (fuel : ℕ) (r : Scratch E × Pipes) (many : List E)
      → Gives (raise_each dom heap callbacks (suc (suc fuel)) r many)
  unfolding raise_each
  raise_each_total fuel (s, ps) [] = ((s, ps), refl)
  raise_each_total fuel (s, ps) (one ∷ many) =
      Gives->>= _ _ (raise_call_total fuel (record s { tree = one }, ps))
        (λ r. raise_each_total fuel r many)

  close_http_total :
      (fuel body_size : ℕ) (r : Scratch E × Pipes)
      → Gives (close_http dom heap callbacks (suc (suc fuel)) body_size r)
  unfolding close_http reply_error_out_of_memory
  close_http_total fuel body_size (s, ps) =
      if_Gives s.is_http
        (if_Gives _ (_, refl)
          (Gives->>= _ _ (reply_error_total heap s malloc realloc fuel _ _ _ _) (λ ps'. (_, refl))))
        (_, refl)

  raise_batch_total :
      (fuel : ℕ) (r : Scratch E × Pipes) (many : List E)
      → Gives (raise_batch dom heap callbacks (suc (suc fuel)) r many)
  unfolding raise_batch
  raise_batch_total fuel (s, ps) many =
      Gives->>= _ _ (raise_each_total fuel _ many) (λ r. (_, refl))

  raise_single_total :
      (fuel : ℕ) (r : Scratch E × Pipes) (one : E)
      → Gives (raise_single dom heap callbacks (suc (suc fuel)) r one)
  unfolding raise_single
  raise_single_total fuel (s, ps) one = Gives->>= _ _ (raise_call_total fuel _) (λ r. (_, refl))

  raise_call_or_calls_total :
      (fuel : ℕ) (r : Scratch E × Pipes)
      → Gives (raise_call_or_calls dom heap callbacks (suc (suc fuel)) r)
  unfolding raise_call_or_calls reply_error_out_of_memory
  raise_call_or_calls_total fuel (s, ps) = go (dom.parse s.dynamic_packet) refl
    where
      ps₁ : Pipes
      ps₁ = if s.is_http then append_reserved heap ps http_header else ps

      go :
          (parsed : Parsed E)
          → dom.parse s.dynamic_packet ≡ parsed
          → Gives (raise_call_or_calls dom heap callbacks (suc (suc fuel)) (s, ps))
      go capacity e =
          rw (e, raise_call_or_calls)
            (Gives->>= _ _ (reply_error_total heap (parsed_over dom s) malloc realloc fuel ps _ _ _)
              (λ ps'. (_, refl)))
      go invalid e =
          rw (e, raise_call_or_calls)
            (Gives->>= _ _
              (reply_error_total heap (parsed_over dom s) malloc realloc fuel ps₁ _ _ _)
              (λ ps'. (_, refl)))
      go (success one_or_many) e =
          rw (e, raise_call_or_calls)
            (Gives->>= _ _
              (if_Gives (dom.is_array one_or_many)
                (raise_batch_total fuel (parsed_over dom s, ps₁) (dom.get_array one_or_many))
                (raise_single_total fuel (parsed_over dom s, ps₁) one_or_many))
              (λ r. close_http_total fuel _ r))

  -- Where the heap gives every block, two rounds of replies are enough for every request.
  pub parse_and_raise_request_total :
      (phr : Bytes → PhrResult) (allocate : ℕ → Bool) (fuel : ℕ) (r : Scratch E × Pipes)
      → Gives (parse_and_raise_request dom heap callbacks phr allocate (suc (suc fuel)) r)
  unfolding parse_and_raise_request reply_error_out_of_memory
  parse_and_raise_request_total phr allocate fuel (s, ps) =
      go (split_body_headers phr (input_span ps)) refl
    where
      go :
          (split : ParsedRequest ⊎ DefaultError)
          → split_body_headers phr (input_span ps) ≡ split
          → Gives (parse_and_raise_request dom heap callbacks phr allocate (suc (suc fuel)) (s, ps))
      go (inr err) e =
          rw (e, parse_and_raise_request)
            (Gives->>= _ _ (reply_error_total heap s malloc realloc fuel ps _ _ _)
              (λ ps'. (_, refl)))
      go (inl request) e =
          rw (e, parse_and_raise_request)
            (if_Gives _
              (Gives->>= _ _ (reply_error_total heap _ malloc realloc fuel ps _ _ _)
                (λ ps'. (_, refl)))
              (if_Gives _ (Gives->>= _ _ (raise_call_or_calls_total fuel _) (λ r. (_, refl)))
                (raise_call_or_calls_total fuel _)))
