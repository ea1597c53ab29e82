-- ===== src/Posix/Forward/Calls.antt =====
-- What the calls of a batch leave in the buffer, where the heap and the network do their part.
use ucall.Prelude.{
  subst, ℕ, suc, ◌≡◌, ◌≢◌, refl, sym, ap, ap₂, ◌∙◌, true, ◌⊎◌, inl, inr, Option, none, some, List,
  [], ◌∷◌, ◌++◌, append-nil, append_assoc, arith, Bytes, codes, neg, length,
}
use ucall.Memory.Allocator.{Allocator}
use ucall.Parse.Dom.{Dom}
use ucall.Parse.Http.{DefaultError}
use ucall.Parse.Callback.{Scratch, NamedCallback, find_callback}
use ucall.Parse.Callback.Checks.{find_callback_cases}
use ucall.Posix.Engine.{
  Answer, content, error, invalid_params, unknown, out_of_memory, Callback, Sent, Engine,
}
use ucall.Posix.Engine.Transport.{IsWilling}
use ucall.Posix.Reply.{answer}
use ucall.Posix.Reply.Delivered.{Replied, notification, reply_content-Replied, reply_error-Replied}
use ucall.Posix.Forward.{answers, answer_callback, forward_call, forward_each, ◌>>=◌}
use ucall.Posix.Forward.Texts.{
  answer_text, answer_texts, AllInts, found_answers, call_texts, batch_texts, commas, commas-append,
}

-- Every callback of the list reports C integers, whatever it is called with.
abbrev pub AllServe : {E T : Type 0} → List (NamedCallback (Callback E T) T) → Type 0
AllServe [] = Unit {0}
AllServe {E} (c ∷ cs) = ((tree : E) → AllInts (c.callback tree c.callback_tag)) × AllServe cs

serves_each :
    {E T : Type 0} (before : List (NamedCallback (Callback E T) T))
    (c : NamedCallback (Callback E T) T) (after : List (NamedCallback (Callback E T) T))
    → AllServe (before ++ c ∷ after)
    → (tree : E) → AllInts (c.callback tree c.callback_tag)
serves_each [] c after h = h.0
serves_each (b ∷ before) c after h = serves_each before c after h.1

-- What is left of a batch's state by replies with these texts.
record Waits {E T : Type 0} (s : Scratch E) (e : Engine E T) (texts : List Bytes) (e' : Engine E T)
    : Type 0 where
  pub scratch : e'.scratch ≡ s
  pub callbacks : e'.callbacks ≡ e.callbacks
  pub buffer : e'.buffer.elements ≡ e.buffer.elements ++ commas texts
  pub wire : e'.wire ≡ e.wire

right_unit : {A : Type 0} (o : Option A) → (o >>= λ a. some a) ≡ o
right_unit none = refl
right_unit (some a) = refl

module _ {E D T : Type 0} (dom : Dom E D) where
  -- `find_callback` keeps the mode, and its errors have C integers.
  pub find_callback_keeps :
      (callbacks : List (NamedCallback (Callback E T) T)) (s : Scratch E)
      → AllServe callbacks
      → let (found, s') = find_callback dom callbacks s in
        (s'.is_batch ≡ s.is_batch)
        × (s'.is_http ≡ s.is_http)
        × AllInts (found_answers dom callbacks found s')
  find_callback_keeps callbacks s h = elim (find_callback_cases dom callbacks s) [
    | inl (c, before, after, id, run, request, split, other, named) ↦
        rw run (refl, refl, serves_each before c after (subst AllServe split h) s.tree)
    | inr (inl (id, run, request, other)) ↦ rw run (refl, refl, (omega arith, tt))
    | inr (inr (note, run, refused)) ↦ rw run (refl, refl, (omega arith, tt))
  ]

  module _ (heap : Allocator) (net : ℕ → Sent) where
    module _ (malloc : (n : ℕ) → heap.malloc n ≡ true) (realloc : (n : ℕ) → heap.realloc n ≡ true)
        (w : IsWilling net) where
      answer-Replied :
          (fuel : ℕ) (e : Engine E T) (a : Answer)
          → e.scratch.dynamic_id ≢ []
          → AllInts (a ∷ [])
          → (e' : Engine E T) × (answer heap net (suc fuel) e a ≡ some e')
            × Replied e (answer_text e.scratch.dynamic_id a) e'
      unfolding answer answer_text
      answer-Replied fuel e (content body len) h ok =
          reply_content-Replied heap net malloc realloc w (suc fuel) e body len h
      answer-Replied fuel e (error code note len) h ok =
          reply_error-Replied heap net malloc realloc w fuel e code note len h ok.0
      answer-Replied fuel e invalid_params h ok =
          reply_error-Replied heap net malloc realloc w fuel e (neg 32602)
            (codes "Invalid method param(s).") 24 h (omega arith)
      answer-Replied fuel e unknown h ok =
          reply_error-Replied heap net malloc realloc w fuel e (neg 32603) (codes "Unknown error.")
            14 h (omega arith)
      answer-Replied fuel e out_of_memory h ok =
          reply_error-Replied heap net malloc realloc w fuel e (neg 32000) (codes "Out of memory.")
            14 h (omega arith)

      no_id :
          (fuel : ℕ) (e : Engine E T) (acts : List Answer)
          → e.scratch.dynamic_id ≡ []
          → answers dom heap net (suc fuel) e acts ≡ some e
      unfolding answers
      no_id fuel e [] h = refl
      no_id fuel e (a ∷ acts) h =
          ap (λ r. r >>= λ e'. answers dom heap net (suc fuel) e' acts)
            (notification heap net fuel e a h)
          ∙ no_id fuel e acts h

      with_id :
          (fuel : ℕ) (e : Engine E T) (c : ℕ) (id : Bytes) (acts : List Answer)
          → e.scratch.dynamic_id ≡ c ∷ id
          → e.scratch.is_batch ≡ true
          → AllInts acts
          → (e' : Engine E T) × (answers dom heap net (suc fuel) e acts ≡ some e')
            × Waits e.scratch e (answer_texts (c ∷ id) acts) e'
      unfolding answers answer_texts
      with_id fuel e c id [] h b ok = (
        e,
        refl,
        record {
          scratch = refl;
          callbacks = refl;
          buffer = sym (append-nil e.buffer.elements);
          wire = refl;
        },
      )
      with_id fuel e c id (a ∷ acts) h b ok =
          let (first, rest) = split_ints a acts ok in
          let (e₁, run₁, r₁) =
            answer-Replied fuel e a (λ none_there. cc (sym h ∙ none_there)) first in
          let same = ap (λ (s : Scratch E). s.dynamic_id) r₁.scratch ∙ h in
          let batch = ap (λ (s : Scratch E). s.is_batch) r₁.scratch ∙ b in
          let (e₂, run₂, r₂) = with_id fuel e₁ c id acts same batch rest in
          let t = answer_text (c ∷ id) a in
          (
            e₂,
            ap (λ r. r >>= λ e'. answers dom heap net (suc fuel) e' acts) run₁ ∙ run₂,
            record {
              scratch = r₂.scratch ∙ r₁.scratch;
              callbacks = r₂.callbacks ∙ r₁.callbacks;
              buffer =
                  r₂.buffer
                  ∙ ap (λ x. x ++ commas (answer_texts (c ∷ id) acts))
                      ((r₁.waits b).0
                        ∙ ap (λ i. e.buffer.elements ++ (answer_text i a ++ codes ",")) h)
                  ∙ append_assoc e.buffer.elements (t ++ codes ",")
                      (commas (answer_texts (c ∷ id) acts));
              wire = r₂.wire ∙ (r₁.waits b).1;
            },
          )
        where
          split_ints :
              (a : Answer) (acts : List Answer)
              → AllInts (a ∷ acts)
              → AllInts (a ∷ []) × AllInts acts
          split_ints (content body len) acts ok = (tt, ok)
          split_ints (error code note len) acts ok = ((ok.0, tt), ok.1)
          split_ints invalid_params acts ok = (tt, ok)
          split_ints unknown acts ok = (tt, ok)
          split_ints out_of_memory acts ok = (tt, ok)

      answers-Waits :
          (fuel : ℕ) (e : Engine E T) (acts : List Answer)
          → e.scratch.is_batch ≡ true
          → AllInts acts
          → (e' : Engine E T) × (answers dom heap net (suc fuel) e acts ≡ some e')
            × Waits e.scratch e (answer_texts e.scratch.dynamic_id acts) e'
      unfolding answer_texts
      answers-Waits fuel e acts b ok = go e.scratch.dynamic_id refl
        where
          go :
              (id : Bytes)
              → e.scratch.dynamic_id ≡ id
              → (e' : Engine E T) × (answers dom heap net (suc fuel) e acts ≡ some e')
                × Waits e.scratch e (answer_texts e.scratch.dynamic_id acts) e'
          go [] h = (
            e,
            no_id fuel e acts h,
            record {
              scratch = refl;
              callbacks = refl;
              buffer = rw h (sym (append-nil e.buffer.elements));
              wire = refl;
            },
          )
          go (c ∷ id) h =
              let (e', run, r) = with_id fuel e c id acts h b ok in
              (
                e',
                run,
                record {
                  scratch = r.scratch;
                  callbacks = r.callbacks;
                  buffer =
                      r.buffer
                      ∙ ap (λ i. e.buffer.elements ++ commas (answer_texts i acts)) (sym h);
                  wire = r.wire;
                },
              )

      call-Waits :
          (fuel : ℕ) (e : Engine E T)
          → e.scratch.is_batch ≡ true
          → AllServe e.callbacks
          → (e' : Engine E T) × (forward_call dom heap net (suc fuel) e ≡ some e')
            × Waits
                (find_callback dom e.callbacks e.scratch).1
                e
                (call_texts dom e.callbacks e.scratch)
                e'
      unfolding forward_call answer_callback call_texts answers answer
      call-Waits fuel e b h =
          let (found, s) = find_callback dom e.callbacks e.scratch in
          let (batch, http, ok) = find_callback_keeps e.callbacks e.scratch h in
          go found s (batch ∙ b) ok
        where
          go :
              (found : NamedCallback (Callback E T) T ⊎ DefaultError) (s : Scratch E)
              → s.is_batch ≡ true
              → AllInts (found_answers dom e.callbacks found s)
              → (e' : Engine E T) × (answer_callback dom heap net
                    (suc fuel)
                    (record e { scratch = s })
                    found
                  ≡ some e')
                × Waits s e (answer_texts s.dynamic_id (found_answers dom e.callbacks found s)) e'
          go (inl c) s b ok =
              let (e', run, r) =
                answers-Waits fuel (record e { scratch = s }) (c.callback s.tree c.callback_tag) b
                  ok in
              (
                e',
                run,
                record {
                  scratch = r.scratch;
                  callbacks = r.callbacks;
                  buffer = r.buffer;
                  wire = r.wire;
                },
              )
          go (inr err) s b ok =
              let (e', run, r) =
                answers-Waits fuel (record e { scratch = s })
                  (error err.code err.note (length err.note) ∷ []) b ok in
              (
                e',
                sym (right_unit _) ∙ run,
                record {
                  scratch = r.scratch;
                  callbacks = r.callbacks;
                  buffer = r.buffer;
                  wire = r.wire;
                },
              )

      pub each-Waits :
          (fuel : ℕ) (e : Engine E T) (many : List E)
          → e.scratch.is_batch ≡ true
          → AllServe e.callbacks
          → (e' : Engine E T) × (forward_each dom heap net (suc fuel) e many ≡ some e')
            × (e'.scratch.is_http ≡ e.scratch.is_http)
            × (e'.buffer.elements
                ≡ e.buffer.elements ++ commas (batch_texts dom e.callbacks e.scratch many))
            × (e'.wire ≡ e.wire)
      unfolding forward_each batch_texts
      each-Waits fuel e [] b h = (e, refl, refl, sym (append-nil e.buffer.elements), refl)
      each-Waits fuel e (one ∷ many) b h =
          let s₁ = record (e.scratch) { tree = one } in
          let (e₁, run₁, r₁) = call-Waits fuel (record e { scratch = s₁ }) b h in
          let (batch, http, ok) = find_callback_keeps e.callbacks s₁ h in
          let (e₂, run₂, http₂, buffer₂, wire₂) =
            each-Waits fuel e₁ many (ap (λ (s : Scratch E). s.is_batch) r₁.scratch ∙ batch ∙ b)
              (subst AllServe (sym r₁.callbacks) h) in
          let first = call_texts dom e.callbacks s₁ in
          let rest = batch_texts dom e.callbacks (find_callback dom e.callbacks s₁).1 many in
          (
            e₂,
            ap (λ r. r >>= λ e'. forward_each dom heap net (suc fuel) e' many) run₁ ∙ run₂,
            http₂ ∙ ap (λ (s : Scratch E). s.is_http) r₁.scratch ∙ http,
            buffer₂
                ∙ ap₂ (λ x y. x ++ commas y) r₁.buffer
                    (ap₂ (λ c s. batch_texts dom c s many) r₁.callbacks r₁.scratch)
                ∙ append_assoc e.buffer.elements (commas first) (commas rest)
                ∙ ap (◌++◌ e.buffer.elements) (sym (commas-append first rest)),
            wire₂ ∙ r₁.wire,
          )
