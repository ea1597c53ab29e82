-- ===== src/Uring/Requests/Bodies.antt =====
-- The output of the io_uring engine after a whole request.
use ucall.Prelude.{
  ℕ, suc, ◌+◌, ◌^◌, ◌≤◌, ◌<◌, ◌≡◌, ◌≢◌, inl, inr, refl, sym, ap, subst, ◌∙◌, Bool, true, false,
  some, List, [], ◌∷◌, map, ◌++◌, append-nil, append_assoc, arith, Bytes, codes, length,
  length-append, take, drop, ◌==◌, if◌then◌else◌, Bool-cases, take-append-drop, take-length-append,
}
use ucall.Memory.Allocator.{Allocator}
use ucall.Memory.Array.{size}
use ucall.Reply.{http_header, set_http_content_length}
use ucall.Reply.Header.{set_http_content_length-append}
use ucall.Parse.Dom.{Dom}
use ucall.Parse.Callback.{Scratch, NamedCallback, find_callback}
use ucall.Exchange.{
  Pipes, ram_page_size, output_span, sub_size, push_back_reserved, output_pop_back, has_outputs,
}
use ucall.Exchange.Outputs.{span_embedded, span_cleared}
use ucall.Exchange.Holds.{
  Holds, used-Holds, push-Holds, pop-Holds, length-page, on_heap, replace-Holds, has_outputs-Holds,
}
use ucall.Posix.Engine.{Answer, Callback}
use ucall.Posix.Fill.Text.{response}
use ucall.Posix.Forward.Texts.{
  answer_text, answer_texts, found_answers, call_texts, batch_texts, commas, join, commas-join,
}
use ucall.Posix.Forward.Calls.{AllServe, find_callback_keeps}
use ucall.Uring.Requests.{◌>>=◌, patch_outputs, raise_batch, close_single, raise_single, close_http}
use ucall.Uring.Requests.Replies.{raise_call-Leaves, raise_each-Leaves}

-- The body that answers a batch: the bracket that opens it is lost where there is no reply.
unfoldable pub batch_body : List Bytes → Bytes
batch_body [] = codes "]"
batch_body (t ∷ ts) = codes "[" ++ (join (t ∷ ts) ++ codes "]")

-- The body that answers a single call with this id.
unfoldable pub single_body : Bytes → List Bytes → Bytes
single_body [] texts = codes "{}"
single_body (c ∷ id) texts = join texts

module _ {E D T : Type 0} (dom : Dom E D) (callbacks : List (NamedCallback (Callback E T) T)) where
  -- What the call in the scratch is answered with, and whether there is anything.
  abbrev pub call_answers : Scratch E → List Answer
  call_answers s =
      let (found, s') = find_callback dom callbacks s in found_answers dom callbacks found s'

  abbrev pub call_id : Scratch E → Bytes
  call_id s = (find_callback dom callbacks s).1.dynamic_id

  -- The body that answers a request.
  unfoldable pub request_body : Scratch E → E → Bytes
  request_body s one_or_many =
      let one = record s { is_batch = false; tree = one_or_many } in
      if dom.is_array one_or_many
      then batch_body
          (batch_texts dom callbacks (record s { is_batch = true }) (dom.get_array one_or_many))
      else single_body (call_id one) (call_texts dom callbacks one)

-- What stands before the body.
abbrev pub header : Bool → Bytes
header http = if http then http_header else []

module _ {E D T : Type 0} (dom : Dom E D) (heap : Allocator)
    (callbacks : List (NamedCallback (Callback E T) T)) (malloc : (n : ℕ) → heap.malloc n ≡ true)
    (realloc : (n : ℕ) → heap.realloc n ≡ true) where
  close_batch-Holds :
      (ps : Pipes) (head : Bytes) (texts : List Bytes)
      → Holds ps ((head ++ codes "[") ++ commas texts)
      → Holds (push_back_reserved (output_pop_back ps) b']') (head ++ batch_body texts)
  unfolding batch_body
  close_batch-Holds ps head [] h =
      replace-Holds ps head b'[' b']' (subst (Holds ps) (append-nil (head ++ codes "[")) h)
  close_batch-Holds ps head (t ∷ ts) h =
      let text = codes "[" ++ join (t ∷ ts) in
      subst (Holds _) (append_assoc head text (codes "]")) (
        replace-Holds ps (head ++ text) b',' b']' (
          subst (Holds ps)
            (ap (◌++◌ (head ++ codes "[")) (commas-join t ts)
              ∙ append_assoc head (codes "[") (join (t ∷ ts) ++ codes ",")
              ∙ sym (append_assoc head text (codes ",")))
            h))

  pub raise_batch-Holds :
      (fuel : ℕ) (s : Scratch E) (ps : Pipes) (head : Bytes) (many : List E)
      → AllServe callbacks
      → Holds ps head
      → length head + 2 < ram_page_size
      → (s' : Scratch E) × (ps' : Pipes) × (raise_batch dom heap callbacks (suc fuel) (s, ps) many
          ≡ some (s', ps'))
        × (s'.is_http ≡ s.is_http)
        × Holds ps'
            (head ++ batch_body (batch_texts dom callbacks (record s { is_batch = true }) many))
  unfolding raise_batch
  raise_batch-Holds fuel s ps head many serve h room =
      let b = record s { is_batch = true } in
      let (s', ps', run, http, h') =
        raise_each-Leaves dom heap callbacks malloc realloc fuel b (push_back_reserved ps b'[')
          (head ++ codes "[") many serve
          (push-Holds ps head b'[' h (omega (arith, room, used-Holds ps head h))) in
      (
        s',
        push_back_reserved (output_pop_back ps') b']',
        ap (λ o. o >>= λ (s', ps'). some (s', push_back_reserved (output_pop_back ps') b']')) run,
        http,
        close_batch-Holds ps' head (batch_texts dom callbacks b many) h',
      )

  commas_tail :
      (head : Bytes) (t : Bytes) (ts : List Bytes)
      → head ++ commas (t ∷ ts) ≡ (head ++ join (t ∷ ts)) ++ codes ","
  commas_tail head t ts =
      ap (◌++◌ head) (commas-join t ts) ∙ sym (append_assoc head (join (t ∷ ts)) (codes ","))

  some_output :
      (ps : Pipes) (text : Bytes) (c : ℕ) → Holds ps (text ++ c ∷ []) → has_outputs ps ≡ true
  some_output ps [] c h = has_outputs-Holds ps c [] h
  some_output ps (x ∷ text) c h = has_outputs-Holds ps x (text ++ c ∷ []) h

  close-Holds :
      (ps : Pipes) (head id : Bytes) (answers : List Answer)
      → Holds ps (head ++ commas (answer_texts id answers))
      → answers ≢ []
      → length head + 2 < ram_page_size
      → Holds
          (if length id == 0
            then push_back_reserved (push_back_reserved ps b'{') b'}'
            else if has_outputs ps
            then output_pop_back ps
            else ps)
          (head ++ single_body id (answer_texts id answers))
  unfolding answer_texts single_body
  close-Holds ps head [] answers h some_answer room =
      let h₀ = subst (Holds ps) (append-nil head) h in
      let h₁ = push-Holds ps head b'{' h₀ (omega (arith, room, used-Holds ps head h₀)) in
      let used = used-Holds (push_back_reserved ps b'{') (head ++ codes "{") h₁ in
      subst (Holds (push_back_reserved (push_back_reserved ps b'{') b'}'))
        (append_assoc head (codes "{") (codes "}"))
        (push-Holds (push_back_reserved ps b'{') (head ++ codes "{") b'}' h₁
          (omega (arith, room, used, length-append head (codes "{"))))
  close-Holds ps head (c ∷ id) [] h some_answer room = absurd (some_answer refl)
  close-Holds ps head (c ∷ id) (a ∷ answers) h some_answer room =
      let some_id : (length (c ∷ id) == 0) ≡ false = ground arith in
      let t = answer_text (c ∷ id) a in
      let ts = map (answer_text (c ∷ id)) answers in
      let h' = subst (Holds ps) (commas_tail head t ts) h in
      rw (some_id, some_output ps (head ++ join (t ∷ ts)) b',' h')
        (pop-Holds ps (head ++ join (t ∷ ts)) b',' h').0

  pub raise_single-Holds :
      (fuel : ℕ) (s : Scratch E) (ps : Pipes) (head : Bytes) (one : E)
      → AllServe callbacks
      → Holds ps head
      → length head + 2 < ram_page_size
      → let s₁ = record s { is_batch = false; tree = one } in
        call_answers dom callbacks s₁ ≢ []
        → (s' : Scratch E) × (ps' : Pipes) × (raise_single dom heap callbacks (suc fuel) (s, ps) one
            ≡ some (s', ps'))
          × (s'.is_http ≡ s.is_http)
          × Holds ps' (head ++ single_body (call_id dom callbacks s₁) (call_texts dom callbacks s₁))
  unfolding raise_single call_texts close_single
  raise_single-Holds fuel s ps head one serve h room some_answer =
      let s₁ = record s { is_batch = false; tree = one } in
      let s' = (find_callback dom callbacks s₁).1 in
      let (batch, http, ok) = find_callback_keeps dom callbacks s₁ serve in
      let (ps', run, h') =
        raise_call-Leaves dom heap callbacks malloc realloc fuel s₁ ps head serve h in
      (
        s',
        _,
        ap (λ o. o >>= λ r. some (close_single dom heap callbacks r)) run,
        http,
        close-Holds ps' head s'.dynamic_id (call_answers dom callbacks s₁) h' some_answer room,
      )

  patch_page :
      (ps : Pipes) (text : Bytes) (n : ℕ)
      → Holds ps text
      → size ps.output.dynamic ≡ 0
      → 42 ≤ length text
      → n < 10 ^ 9
      → ((set_http_content_length ps.output.embedded n).0 ≡ true)
        × (take ps.output.embedded_used (set_http_content_length ps.output.embedded n).1
            ≡ (set_http_content_length text n).1)
  patch_page ps text n h e long short =
      let u = ps.output.embedded_used in
      let rest = drop u ps.output.embedded in
      let whole : ps.output.embedded ≡ text ++ rest =
        sym (take-append-drop u ps.output.embedded)
        ∙ ap (λ t. t ++ rest) (sym (span_embedded ps e) ∙ h.content) in
      let (done, text', len) = set_http_content_length-append text rest n long short in
      let used : length (set_http_content_length text n).1 ≡ u =
        len ∙ sym (length-page ps text h e) in
      (
        ap (λ m. (set_http_content_length m n).0) whole ∙ done,
        ap (λ m. take u (set_http_content_length m n).1) whole
            ∙ ap (take u) text'
            ∙ ap (λ k. take k ((set_http_content_length text n).1 ++ rest)) (sym used)
            ∙ take-length-append (set_http_content_length text n).1 rest,
      )

  patch-Holds :
      (ps : Pipes) (text : Bytes) (n : ℕ)
      → Holds ps text
      → 42 ≤ length text
      → n < 10 ^ 9
      → ((patch_outputs ps n).0 ≡ true)
        × (output_span (patch_outputs ps n).1 ≡ (set_http_content_length text n).1)
  unfolding patch_outputs
  patch-Holds ps text n h long short = elim (Bool-cases (size ps.output.dynamic == 0)) [
    | inl z ↦
        let (done, text') = patch_page ps text n h (ground arith) long short in
        rw z (
          done,
          span_embedded
                (record ps {
                  output = record (ps.output) {
                    embedded = (set_http_content_length ps.output.embedded n).1;
                  };
                })
                (ground arith)
              ∙ text',
        )
    | inr z ↦
        let (e, same) = on_heap ps text h z in
        let (done, text', len) = set_http_content_length-append text [] n long short in
        rw z (
          ap (λ t. (set_http_content_length t n).0) (same ∙ sym (append-nil text)) ∙ done,
          span_cleared
                (record ps {
                  output = record (ps.output) {
                    dynamic = record (ps.output.dynamic) {
                      elements = (set_http_content_length ps.output.dynamic.elements n).1;
                    };
                  };
                })
                e
              ∙ ap (λ t. (set_http_content_length t n).1) same,
        )
  ]

  pub close_http-response :
      (fuel : ℕ) (s : Scratch E) (ps : Pipes) (body : Bytes)
      → Holds ps (header s.is_http ++ body)
      → length body < 10 ^ 9
      → (ps' : Pipes) × (close_http dom heap callbacks
            (suc fuel)
            (length (header s.is_http))
            (s, ps)
          ≡ some (s, ps'))
        × (output_span ps' ≡ response s.is_http body)
  unfolding close_http
  close_http-response fuel s ps body h short = elim (Bool-cases s.is_http) [
    | inl z ↦
        let n = sub_size (length (output_span ps)) 78 in
        let h' = subst (λ b. Holds ps (header b ++ body)) z h in
        let len : n ≡ length body =
          omega (arith, ap length h'.content, length-append http_header body, short) in
        let (done, text) =
          patch-Holds ps (http_header ++ body) (length body) h'
            (omega (arith, length-append http_header body)) short in
        ((patch_outputs ps (length body)).1, rw (z, len, done) refl, text ∙ rw z refl)
    | inr z ↦ (ps, rw z refl, h.content ∙ rw z refl)
  ]
