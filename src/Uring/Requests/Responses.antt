-- ===== src/Uring/Requests/Responses.antt =====
-- What a connection sends after a whole request, and that both engines answer a batch alike.
use ucall.Prelude.{
  ℕ, suc, ◌+◌, ◌^◌, ◌<◌, ◌≡◌, ◌≢◌, refl, sym, ap, subst, ◌∙◌, Bool, true, false, some, List, [],
  ◌∷◌, ◌++◌, arith, Bytes, codes, length, if◌then◌else◌, Bool-cases, inl, inr, neg,
}
use ucall.Memory.Allocator.{Allocator}
use ucall.Memory.Array.{size}
use ucall.Reply.{http_header}
use ucall.Parse.Dom.{Dom, success, invalid}
use ucall.Parse.Callback.{Scratch, NamedCallback, parsed_over}
use ucall.Exchange.{Pipes, output_span, append_reserved}
use ucall.Exchange.Holds.{Holds, used-Holds, append_reserved-Holds}
use ucall.Posix.Engine.{Answer, error, Callback, Engine, Sent}
use ucall.Posix.Engine.Transport.{IsWilling}
use ucall.Posix.Fill.Text.{response}
use ucall.Posix.Forward.{forward_batch}
use ucall.Posix.Forward.Texts.{batch_texts, answer_texts, commas, join}
use ucall.Posix.Forward.Calls.{AllServe}
use ucall.Posix.Forward.Batch.{forward_batch_lem}
use ucall.Uring.Requests.{◌>>=◌, raise_batch, raise_single, close_http, raise_call_or_calls}
use ucall.Uring.Requests.Replies.{refused-Leaves}
use ucall.Uring.Requests.Bodies.{
  batch_body, request_body, call_answers, header, raise_batch-Holds, raise_single-Holds,
  close_http-response,
}

-- What the engine says of a packet that is not JSON.
abbrev pub parse_error : Answer
parse_error = error (neg 32700) (codes "Invalid JSON was received by the server.") 40

module _ {E D T : Type 0} (dom : Dom E D) (heap : Allocator)
    (callbacks : List (NamedCallback (Callback E T) T)) (malloc : (n : ℕ) → heap.malloc n ≡ true)
    (realloc : (n : ℕ) → heap.realloc n ≡ true) where
  opened :
      (s : Scratch E) (ps : Pipes)
      → Holds ps []
      → size ps.output.dynamic ≡ 0
      → Holds (if s.is_http then append_reserved heap ps http_header else ps) (header s.is_http)
  opened s ps h e = go s.is_http
    where
      go :
          (http : Bool)
          → Holds (if http then append_reserved heap ps http_header else ps) (header http)
      go true =
          (append_reserved-Holds heap ps [] http_header h e (omega (arith, used-Holds ps [] h))).0
      go false = h

  raised :
      (fuel : ℕ) (s : Scratch E) (ps : Pipes) (head : Bytes) (x : E)
      → AllServe callbacks
      → Holds ps head
      → length head + 2 < 4096
      → (dom.is_array x ≡ false
          → call_answers dom callbacks (record s { is_batch = false; tree = x }) ≢ [])
      → (s' : Scratch E) × (ps' : Pipes) × ((if dom.is_array x
            then raise_batch dom heap callbacks (suc fuel) (s, ps) (dom.get_array x)
            else raise_single dom heap callbacks (suc fuel) (s, ps) x)
          ≡ some (s', ps'))
        × (s'.is_http ≡ s.is_http)
        × Holds ps' (head ++ request_body dom callbacks s x)
  unfolding request_body
  raised fuel s ps head x serve h room answers = elim (Bool-cases (dom.is_array x)) [
    | inl z ↦ rw z (
        raise_batch-Holds dom heap callbacks malloc realloc fuel s ps head (dom.get_array x) serve h
          room)
    | inr z ↦ rw z (
        raise_single-Holds dom heap callbacks malloc realloc fuel s ps head x serve h room
          (answers z))
  ]

  -- Where the heap gives every block, the callbacks report C integers, the output is empty, a single call
  -- is answered at least once and the body is shorter than `10 ^ 9` bytes: a request whose packet parses
  -- ends with fuel for one round of replies, and the output, in the page or on the heap, is its body, behind
  -- a header with the body's length where HTTP is spoken. The body of a batch is its
  -- replies in order, in square brackets with commas between them, and a lone `]` if there is none; that of a call is its reply, and `{}` if it has no id.
  pub raise_call_or_calls_lem :
      (fuel : ℕ) (s : Scratch E) (ps : Pipes) (one_or_many : E)
      → dom.parse s.dynamic_packet ≡ success one_or_many
      → AllServe callbacks
      → Holds ps []
      → size ps.output.dynamic ≡ 0
      → (dom.is_array one_or_many ≡ false
          → call_answers dom callbacks
              (record (parsed_over dom s) { is_batch = false; tree = one_or_many })
            ≢ [])
      → length (request_body dom callbacks (parsed_over dom s) one_or_many) < 10 ^ 9
      → (s' : Scratch E) × (ps' : Pipes) × (raise_call_or_calls dom heap callbacks
            (suc fuel)
            (s, ps)
          ≡ some (s', ps'))
        × (output_span ps'
            ≡ response s.is_http (request_body dom callbacks (parsed_over dom s) one_or_many))
  unfolding raise_call_or_calls
  raise_call_or_calls_lem fuel s ps x parsed serve h e answers short =
      let ps₁ = if s.is_http then append_reserved heap ps http_header else ps in
      let h₁ = opened s ps h e in
      let body = request_body dom callbacks (parsed_over dom s) x in
      let (s', ps', run, http, h') =
        raised fuel (parsed_over dom s) ps₁ (header s.is_http) x serve h₁ (room s.is_http)
          answers in
      let (ps'', close, text) =
        close_http-response dom heap callbacks malloc realloc fuel s' ps' body
          (subst (λ b. Holds ps' (header b ++ body)) (sym http) h') short in
      (
        s',
        ps'',
        rw (parsed, raise_call_or_calls)
            (ap (λ o. o >>= close_http dom heap callbacks (suc fuel) (length (output_span ps₁))) run
              ∙ ap (λ k. close_http dom heap callbacks (suc fuel) k (s', ps'))
                  (ap length h₁.content ∙ ap (λ b. length (header b)) (sym http))
              ∙ close),
        text ∙ ap (λ b. response b body) http,
      )
    where
      room : (b : Bool) → length (header b) + 2 < 4096
      room true = omega arith
      room false = omega arith

  -- Where the heap gives every block and the output is empty: a request whose packet is not JSON ends with
  -- fuel for one round of replies. The output is, where HTTP is spoken, the headers as they are reserved,
  -- with no length in them, and then the error with a comma behind it, under whatever the view of an earlier
  -- call's id shows once the packet was parsed; it is nothing more than those headers where that view is empty.
  pub raise_call_or_calls_invalid :
      (fuel : ℕ) (s : Scratch E) (ps : Pipes)
      → dom.parse s.dynamic_packet ≡ invalid
      → Holds ps []
      → size ps.output.dynamic ≡ 0
      → (ps' : Pipes) × (raise_call_or_calls dom heap callbacks (suc fuel) (s, ps)
          ≡ some (parsed_over dom s, ps'))
        × (output_span ps'
            ≡ header s.is_http
              ++ commas
                  (answer_texts (dom.overwritten s.dynamic_packet s.dynamic_id) (parse_error ∷ [])))
  unfolding raise_call_or_calls
  raise_call_or_calls_invalid fuel s ps refused h e =
      let ps₁ = if s.is_http then append_reserved heap ps http_header else ps in
      let (ps', run, h') =
        refused-Leaves dom heap callbacks malloc realloc fuel
          (record { code = neg 32700; note = codes "Invalid JSON was received by the server." })
          (parsed_over dom s) ps₁ (header s.is_http) (omega arith, tt) (opened s ps h e) in
      (
        ps',
        rw (refused, raise_call_or_calls) (ap (λ o. o >>= λ p. some (parsed_over dom s, p)) run),
        h'.content,
      )

  batch_bodies :
      (texts : List Bytes) → texts ≢ [] → batch_body texts ≡ codes "[" ++ (join texts ++ codes "]")
  unfolding batch_body
  batch_bodies [] h = absurd (h refl)
  batch_bodies (t ∷ ts) h = refl

  array_body :
      (s : Scratch E) (x : E)
      → dom.is_array x ≡ true
      → batch_texts dom callbacks (record s { is_batch = true }) (dom.get_array x) ≢ []
      → request_body dom callbacks s x
        ≡ codes "["
          ++ (join (batch_texts dom callbacks (record s { is_batch = true }) (dom.get_array x))
              ++ codes "]")
  unfolding request_body
  array_body s x array h =
      rw array (
        batch_bodies (batch_texts dom callbacks (record s { is_batch = true }) (dom.get_array x)) h)

module _ {E D T : Type 0} (dom : Dom E D) (heap : Allocator) (net : ℕ → Sent)
    (malloc : (n : ℕ) → heap.malloc n ≡ true) (realloc : (n : ℕ) → heap.realloc n ≡ true)
    (w : IsWilling net) where
  -- Where the heap gives every block, the peer takes something of every message, the callbacks report C
  -- integers, the buffer of the one engine and the output of the other are empty, and the body is shorter
  -- than `10 ^ 9` bytes: for a batch with at least one reply, what the POSIX engine has sent at its end is what
  -- the io_uring engine holds ready to send.
  pub engines_agree :
      (fuel : ℕ) (e : Engine E T) (ps : Pipes) (many : E)
      → dom.parse e.scratch.dynamic_packet ≡ success many
      → dom.is_array many ≡ true
      → AllServe e.callbacks
      → e.buffer.elements ≡ []
      → Holds ps []
      → size ps.output.dynamic ≡ 0
      → batch_texts dom e.callbacks
          (record (parsed_over dom e.scratch) { is_batch = true })
          (dom.get_array many)
        ≢ []
      → length (request_body dom e.callbacks (parsed_over dom e.scratch) many) < 10 ^ 9
      → (e' : Engine E T) × (s' : Scratch E) × (ps' : Pipes) × (forward_batch dom heap net
            (suc fuel)
            (record e { scratch = parsed_over dom e.scratch })
            (dom.get_array many)
          ≡ some e')
        × (raise_call_or_calls dom heap e.callbacks (suc fuel) (e.scratch, ps) ≡ some (s', ps'))
        × (e'.wire ≡ e.wire ++ output_span ps')
  engines_agree fuel e ps many parsed array serve empty h none_yet texts short =
      let (e', run, cleared, wire) =
        forward_batch_lem dom heap net malloc realloc w fuel
          (record e { scratch = parsed_over dom e.scratch }) (dom.get_array many) empty serve in
      let (s', ps', run', out) =
        raise_call_or_calls_lem dom heap e.callbacks malloc realloc fuel e.scratch ps many parsed
          serve h none_yet (λ single. absurd (true_or_false array single)) short in
      (
        e',
        s',
        ps',
        run,
        run',
        wire
            ∙ ap (◌++◌ e.wire) (
                ap (response e.scratch.is_http) (
                  sym (
                    array_body dom heap e.callbacks malloc realloc (parsed_over dom e.scratch) many
                      array texts))
                ∙ sym out),
      )
    where
      true_or_false : {b : Bool} → b ≡ true → b ≡ false → ⊥
      true_or_false t f = cc
