-- ===== src/Uring/Requests/Replies.antt =====
-- What the calls of a request leave in the connection's output, where the heap gives every block.
use ucall.Prelude.{
  ℕ, suc, ◌≡◌, ◌⊎◌, inl, inr, refl, sym, ap, subst, ◌∙◌, true, false, Option, some, List, [], ◌∷◌,
  ◌++◌, append-nil, append_assoc, arith, Bytes, codes, ℤ, neg, length, ◌==◌, Option-cases,
}
use ucall.Charconv.{print_int}
use ucall.Charconv.RoundTrip.{IsInt64, to_chars_int_wide}
use ucall.Memory.Allocator.{Allocator}
use ucall.Reply
use ucall.Reply.{IoVec}
use ucall.Reply.Gather.{
  gather, InBounds, content_text, error_text, gather-fill_with_content, gather-fill_with_error,
  fill_with_content_bounds, fill_with_error_bounds,
}
use ucall.Parse.Dom.{Dom}
use ucall.Parse.Http.{DefaultError}
use ucall.Parse.Callback.{Scratch, NamedCallback, find_callback}
use ucall.Exchange.{Pipes, append_outputs}
use ucall.Exchange.Outputs.{append_outputs_total}
use ucall.Exchange.Holds.{Holds, append-Holds}
use ucall.Posix.Engine.{Answer, content, error, invalid_params, unknown, out_of_memory, Callback}
use ucall.Posix.Reply.{view}
use ucall.Posix.Forward.Texts.{
  answer_text, answer_texts, AllInts, found_answers, call_texts, batch_texts, commas, commas-append,
}
use ucall.Posix.Forward.Calls.{AllServe, find_callback_keeps}
use ucall.Uring.Reply.{
  reply_content, reply_error, reply_error_out_of_memory, answer, reply_error_invalid_params,
  reply_error_unknown,
}
use ucall.Uring.Requests.{◌>>=◌, answers, answer_callback, raise_call, raise_each}

-- There is a result, and its output holds this text.
abbrev pub Leaves : Option Pipes → Bytes → Type 0
Leaves r text = (ps : Pipes) × (r ≡ some ps) × Holds ps text

module _ (heap : Allocator) (malloc : (n : ℕ) → heap.malloc n ≡ true)
    (realloc : (n : ℕ) → heap.realloc n ≡ true) where
  vectors-Holds :
      (ps : Pipes) (text : Bytes) (vs : List IoVec) {more : Bytes}
      → Holds ps text
      → InBounds vs
      → gather vs ≡ more
      → Holds (append_outputs heap ps vs).1 (text ++ more)
  vectors-Holds ps text vs h b e =
      subst (λ t. Holds (append_outputs heap ps vs).1 (text ++ t)) e
        (append-Holds heap malloc realloc ps text vs h b)

  module _ {E : Type 0} (s : Scratch E) (c : ℕ) (id : Bytes) (has_id : s.dynamic_id ≡ c ∷ id) where
    reply_content-Leaves :
        (ps : Pipes) (text body : Bytes) (len : ℕ)
        → Holds ps text
        → Holds
            (reply_content heap s ps body len)
            (text ++ (content_text (c ∷ id) (view body len) ++ codes ","))
    unfolding reply_content
    reply_content-Leaves ps text body len h =
        let z : (length s.dynamic_id == 0) ≡ false =
          ap (λ i. length i == 0) has_id ∙ ground arith in
        rw (z, has_id)
          (vectors-Holds ps text _ h (fill_with_content_bounds (c ∷ id) (view body len) true).0
            (gather-fill_with_content (c ∷ id) (view body len) true))

    reply_error-Leaves :
        (fuel : ℕ) (ps : Pipes) (text : Bytes) (code : ℤ) (note : Bytes) (len : ℕ)
        → IsInt64 code
        → Holds ps text
        → Leaves
            (reply_error heap s (suc fuel) ps code note len)
            (text ++ (error_text (c ∷ id) (print_int code) (view note len) ++ codes ","))
    unfolding reply_error
    reply_error-Leaves fuel ps text code note len ok h =
        let z : (length s.dynamic_id == 0) ≡ false =
          ap (λ i. length i == 0) has_id ∙ ground arith in
        let vs = (Reply.fill_with_error (c ∷ id) (print_int code) (view note len) true).0 in
        (
          (append_outputs heap ps vs).1,
          rw
              (
                z,
                to_chars_int_wide code ok,
                has_id,
                append_outputs_total heap ps vs malloc realloc,
                reply_error,
              )
              refl,
          vectors-Holds ps text vs h
              (fill_with_error_bounds (c ∷ id) (print_int code) (view note len) true).0
              (gather-fill_with_error (c ∷ id) (print_int code) (view note len) true),
        )

    answer-Leaves :
        (fuel : ℕ) (ps : Pipes) (text : Bytes) (a : Answer)
        → AllInts (a ∷ [])
        → Holds ps text
        → Leaves (answer heap s (suc fuel) ps a) (text ++ (answer_text (c ∷ id) a ++ codes ","))
    unfolding answer answer_text reply_error_invalid_params reply_error_unknown
        reply_error_out_of_memory
    answer-Leaves fuel ps text (content body len) ok h =
        (_, refl, reply_content-Leaves ps text body len h)
    answer-Leaves fuel ps text (error code note len) ok h =
        reply_error-Leaves fuel ps text code note len ok.0 h
    answer-Leaves fuel ps text invalid_params ok h =
        reply_error-Leaves fuel ps text (neg 32602) (codes "Invalid method param(s).") 24
          (omega arith) h
    answer-Leaves fuel ps text unknown ok h =
        reply_error-Leaves fuel ps text (neg 32603) (codes "Unknown error.") 14 (omega arith) h
    answer-Leaves fuel ps text out_of_memory ok h =
        reply_error-Leaves fuel ps text (neg 32000) (codes "Out of memory.") 14 (omega arith) h

first_AllInts :
    (a : Answer) (acts : List Answer) → AllInts (a ∷ acts) → AllInts (a ∷ []) × AllInts acts
first_AllInts (content body len) acts ok = (tt, ok)
first_AllInts (error code note len) acts ok = ((ok.0, tt), ok.1)
first_AllInts invalid_params acts ok = (tt, ok)
first_AllInts unknown acts ok = (tt, ok)
first_AllInts out_of_memory acts ok = (tt, ok)

module _ {E : Type 0} (heap : Allocator) (s : Scratch E) (no_id : s.dynamic_id ≡ []) where
  -- A notification is not answered.
  silent : (fuel : ℕ) (ps : Pipes) (a : Answer) → answer heap s (suc fuel) ps a ≡ some ps
  unfolding answer reply_content reply_error reply_error_invalid_params reply_error_unknown
      reply_error_out_of_memory
  silent fuel ps (content body len) = rw no_id
  silent fuel ps (error code note len) = rw no_id
  silent fuel ps invalid_params = rw no_id
  silent fuel ps unknown = rw no_id
  silent fuel ps out_of_memory = rw no_id

module _ {E D T : Type 0} (dom : Dom E D) (heap : Allocator)
    (callbacks : List (NamedCallback (Callback E T) T)) where
  one_answer :
      (fuel : ℕ) (s : Scratch E) (ps : Pipes) (err : DefaultError)
      → answers dom heap callbacks (suc fuel) s ps (error err.code err.note (length err.note) ∷ [])
        ≡ reply_error heap s (suc fuel) ps err.code err.note (length err.note)
  unfolding answers answer
  one_answer fuel s ps err =
      elim (Option-cases (reply_error heap s (suc fuel) ps err.code err.note (length err.note))) [
        | inl e ↦ rw e refl
        | inr (ps', e) ↦ rw e refl
      ]

  silent_all :
      (fuel : ℕ) (s : Scratch E) (ps : Pipes) (acts : List Answer)
      → s.dynamic_id ≡ []
      → answers dom heap callbacks (suc fuel) s ps acts ≡ some ps
  unfolding answers
  silent_all fuel s ps [] no_id = refl
  silent_all fuel s ps (a ∷ acts) no_id =
      ap (λ r. r >>= λ ps'. answers dom heap callbacks (suc fuel) s ps' acts)
        (silent heap s no_id fuel ps a)
      ∙ silent_all fuel s ps acts no_id

  module _ (malloc : (n : ℕ) → heap.malloc n ≡ true)
      (realloc : (n : ℕ) → heap.realloc n ≡ true) where
    spoken_all :
        (fuel : ℕ) (s : Scratch E) (ps : Pipes) (text : Bytes) (acts : List Answer) (c : ℕ)
        (id : Bytes)
        → s.dynamic_id ≡ c ∷ id
        → AllInts acts
        → Holds ps text
        → Leaves
            (answers dom heap callbacks (suc fuel) s ps acts)
            (text ++ commas (answer_texts (c ∷ id) acts))
    unfolding answers answer_texts
    spoken_all fuel s ps text [] c id has_id ok h =
        (ps, refl, subst (Holds ps) (sym (append-nil text)) h)
    spoken_all fuel s ps text (a ∷ acts) c id has_id ok h =
        let (first, rest) = first_AllInts a acts ok in
        let (ps₁, run₁, h₁) =
          answer-Leaves heap malloc realloc s c id has_id fuel ps text a first h in
        let t = answer_text (c ∷ id) a ++ codes "," in
        let (ps₂, run₂, h₂) = spoken_all fuel s ps₁ (text ++ t) acts c id has_id rest h₁ in
        (
          ps₂,
          ap (λ r. r >>= λ ps'. answers dom heap callbacks (suc fuel) s ps' acts) run₁ ∙ run₂,
          subst (Holds ps₂) (append_assoc text t (commas (answer_texts (c ∷ id) acts))) h₂,
        )

    answers-Leaves :
        (fuel : ℕ) (s : Scratch E) (ps : Pipes) (text : Bytes) (acts : List Answer)
        → AllInts acts
        → Holds ps text
        → Leaves
            (answers dom heap callbacks (suc fuel) s ps acts)
            (text ++ commas (answer_texts s.dynamic_id acts))
    unfolding answer_texts
    answers-Leaves fuel s ps text acts ok h = go s.dynamic_id refl
      where
        go :
            (id : Bytes)
            → s.dynamic_id ≡ id
            → Leaves
                (answers dom heap callbacks (suc fuel) s ps acts)
                (text ++ commas (answer_texts s.dynamic_id acts))
        go [] e =
            (ps, silent_all fuel s ps acts e, subst (Holds ps) (sym (rw e (append-nil text))) h)
        go (c ∷ id) e =
            subst
              (λ i.
                Leaves (answers dom heap callbacks (suc fuel) s ps acts)
                  (text ++ commas (answer_texts i acts)))
              (sym e) (spoken_all fuel s ps text acts c id e ok h)

    -- An error that the engine itself reports is answered like one of a callback.
    pub refused-Leaves :
        (fuel : ℕ) (err : DefaultError) (s : Scratch E) (ps : Pipes) (text : Bytes)
        → AllInts (error err.code err.note (length err.note) ∷ [])
        → Holds ps text
        → Leaves (reply_error heap s (suc fuel) ps err.code err.note (length err.note)) (
            text
            ++ commas (answer_texts s.dynamic_id (error err.code err.note (length err.note) ∷ [])))
    refused-Leaves fuel err s ps text ok h =
        let (ps', run, h') =
          answers-Leaves fuel s ps text (error err.code err.note (length err.note) ∷ []) ok h in
        (ps', sym (one_answer fuel s ps err) ∙ run, h')

    callback-Leaves :
        (fuel : ℕ) (found : NamedCallback (Callback E T) T ⊎ DefaultError) (s : Scratch E)
        (ps : Pipes) (text : Bytes)
        → AllInts (found_answers dom callbacks found s)
        → Holds ps text
        → Leaves
            (answer_callback dom heap callbacks (suc fuel) found s ps)
            (text ++ commas (answer_texts s.dynamic_id (found_answers dom callbacks found s)))
    unfolding answer_callback
    callback-Leaves fuel (inl c) s ps text ok h =
        answers-Leaves fuel s ps text (c.callback s.tree c.callback_tag) ok h
    callback-Leaves fuel (inr err) s ps text ok h = refused-Leaves fuel err s ps text ok h

    -- A call appends its replies, each with a comma behind it.
    pub raise_call-Leaves :
        (fuel : ℕ) (s : Scratch E) (ps : Pipes) (text : Bytes)
        → AllServe callbacks
        → Holds ps text
        → let s' = (find_callback dom callbacks s).1 in
          (ps' : Pipes) × (raise_call dom heap callbacks (suc fuel) (s, ps) ≡ some (s', ps'))
          × Holds ps' (text ++ commas (call_texts dom callbacks s))
    unfolding raise_call call_texts
    raise_call-Leaves fuel s ps text serve h =
        let (found, s') = find_callback dom callbacks s in
        let (batch, http, ok) = find_callback_keeps dom callbacks s serve in
        let (ps', run, h') = callback-Leaves fuel found s' ps text ok h in
        (ps', ap (λ r. r >>= λ p. some (s', p)) run, h')

    pub raise_each-Leaves :
        (fuel : ℕ) (s : Scratch E) (ps : Pipes) (text : Bytes) (many : List E)
        → AllServe callbacks
        → Holds ps text
        → (s' : Scratch E) × (ps' : Pipes) × (raise_each dom heap callbacks (suc fuel) (s, ps) many
            ≡ some (s', ps'))
          × (s'.is_http ≡ s.is_http)
          × Holds ps' (text ++ commas (batch_texts dom callbacks s many))
    unfolding raise_each batch_texts
    raise_each-Leaves fuel s ps text [] serve h =
        (s, ps, refl, refl, subst (Holds ps) (sym (append-nil text)) h)
    raise_each-Leaves fuel s ps text (one ∷ many) serve h =
        let s₁ = record s { tree = one } in
        let (batch, http, ok) = find_callback_keeps dom callbacks s₁ serve in
        let (ps₁, run₁, h₁) = raise_call-Leaves fuel s₁ ps text serve h in
        let first = call_texts dom callbacks s₁ in
        let s₂ = (find_callback dom callbacks s₁).1 in
        let (s', ps₂, run₂, http₂, h₂) =
          raise_each-Leaves fuel s₂ ps₁ (text ++ commas first) many serve h₁ in
        (
          s',
          ps₂,
          ap (λ r. r >>= λ p. raise_each dom heap callbacks (suc fuel) p many) run₁ ∙ run₂,
          http₂ ∙ http,
          subst (Holds ps₂)
              (append_assoc text (commas first) (commas (batch_texts dom callbacks s₂ many))
                ∙ ap (◌++◌ text) (sym (commas-append first (batch_texts dom callbacks s₂ many))))
              h₂,
        )
