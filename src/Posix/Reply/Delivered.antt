-- ===== src/Posix/Reply/Delivered.antt =====
-- The replies that leave the engine, where the heap and the network do their part.
use ucall.Prelude.{
  ℕ, suc, ◌+◌, ◌≡◌, ◌≢◌, inl, inr, refl, sym, ap, ◌∙◌, Bool, true, false, Option, some, [], ◌∷◌,
  ◌++◌, append-nil, arith, Bytes, codes, ℤ, neg, length, Bool-cases, ◌==◌, if◌then◌else◌,
}
use ucall.Charconv.{print_int}
use ucall.Charconv.RoundTrip.{to_chars_int_wide, IsInt64}
use ucall.Memory.Allocator.{Allocator}
use ucall.Memory.Array.{Array}
use ucall.Reply.Gather.{content_text, error_text}
use ucall.Posix.Fill.{◌>>=◌}
use ucall.Posix.Fill.Text.{response, fill_with_content_lem, fill_with_error_lem}
use ucall.Posix.Engine.{
  Answer, content, error, invalid_params, unknown, out_of_memory, Sent, bytes, Engine, send_loop,
}
use ucall.Posix.Engine.Transport.{IsWilling, send_loop_all}
use ucall.Posix.Reply.{
  view, send_message, finish, reply_error, reply_content, reply_error_out_of_memory, answer,
}

-- What a reply with this text does to the engine: in a batch the text and a comma wait in the buffer,
-- and a single reply is sent behind what the buffer held. Nothing else of the engine's state that a
-- later reply depends on has changed.
pub record Replied {E T : Type 0} (e : Engine E T) (text : Bytes) (e' : Engine E T) : Type 0 where
  pub scratch : e'.scratch ≡ e.scratch
  pub callbacks : e'.callbacks ≡ e.callbacks
  pub waits :
      e.scratch.is_batch ≡ true
      → (e'.buffer.elements ≡ e.buffer.elements ++ (text ++ codes ",")) × (e'.wire ≡ e.wire)
  pub sent :
      e.scratch.is_batch ≡ false
      → e'.wire ≡ e.wire ++ (e.buffer.elements ++ response e.scratch.is_http text)

picked :
    (b : Bool) {x y : Option (Bool × Array ℕ)} {b₁ b₂ : Array ℕ}
    → x ≡ some (true, b₁)
    → y ≡ some (true, b₂)
    → (if b then x else y) ≡ some (true, if b then b₁ else b₂)
picked true p q = p
picked false p q = q

pub not_empty : (s : Bytes) → s ≢ [] → (length s == 0) ≡ false
not_empty [] h = absurd (h refl)
not_empty (c ∷ s) h = ground arith

module _ {E T : Type 0} (heap : Allocator) (net : ℕ → Sent) where
  -- A message is sent whole.
  pub send_message_willing :
      (oom : Engine E T → Option (Engine E T)) (e : Engine E T)
      → IsWilling net
      → (e' : Engine E T) × (send_message heap net oom e ≡ some e')
        × (e'.wire ≡ e.wire ++ e.buffer.elements)
        × (e'.scratch ≡ e.scratch)
        × (e'.callbacks ≡ e.callbacks)
        × (e'.stats.packets_sent ≡ e.stats.packets_sent + 1)
        × (e'.stats.bytes_sent ≡ e.stats.bytes_sent + length e.buffer.elements)
  unfolding send_message
  send_message_willing oom e w =
      let d = send_loop net (length e.buffer.elements) e.buffer.elements (bytes 0) e.clock in
      let (taken, (m, last)) =
        send_loop_all net (length e.buffer.elements) e.buffer.elements 0 e.clock w (omega arith) in
      (
        record e {
          wire = e.wire ++ d.taken;
          clock = d.clock;
          stats = record (e.stats) {
            bytes_sent = e.stats.bytes_sent + length d.taken;
            packets_sent = e.stats.packets_sent + 1;
          };
        },
        rw (last, send_message) refl,
        ap (◌++◌ e.wire) taken,
        refl,
        refl,
        refl,
        ap (λ t. e.stats.bytes_sent + length t) taken,
      )

  abbrev held : Engine E T → Array ℕ → Engine E T
  held e b = record e { buffer = b }

  -- A filled buffer is kept or sent.
  finish_batch :
      (oom : Engine E T → Option (Engine E T)) (e : Engine E T) (r : Bool × Array ℕ)
      → e.scratch.is_batch ≡ true
      → r.0 ≡ true
      → finish heap net oom e r ≡ some (held e r.1)
  unfolding finish
  finish_batch oom e r b d = rw (b, d, finish)

  finish_single :
      (oom : Engine E T → Option (Engine E T)) (e : Engine E T) (r : Bool × Array ℕ)
      → e.scratch.is_batch ≡ false
      → r.0 ≡ true
      → finish heap net oom e r ≡ send_message heap net oom (held e r.1)
  unfolding finish
  finish_single oom e r b d = rw (b, d, finish)

  -- The result of `finish` on a buffer that was filled for the mode that the engine is in.
  finish-Replied :
      (oom : Engine E T → Option (Engine E T)) (e : Engine E T) (text : Bytes) (r : Bool × Array ℕ)
      → IsWilling net
      → r.0 ≡ true
      → (e.scratch.is_batch ≡ true → r.1.elements ≡ e.buffer.elements ++ (text ++ codes ","))
      → (e.scratch.is_batch ≡ false
          → r.1.elements ≡ e.buffer.elements ++ response e.scratch.is_http text)
      → (e' : Engine E T) × (finish heap net oom e r ≡ some e') × Replied e text e'
  finish-Replied oom e text r w d batch single = elim (Bool-cases e.scratch.is_batch) [
    | inl b ↦ (
      held e r.1,
      finish_batch oom e r b d,
      record {
        scratch = refl;
        callbacks = refl;
        waits = λ _. (batch b, refl);
        sent = λ no_batch. cc (sym b ∙ no_batch);
      },
    )
    | inr b ↦
        let (e', run, wire, scratch, callbacks, packets, sizes) =
          send_message_willing oom (held e r.1) w in
        (
          e',
          finish_single oom e r b d ∙ run,
          record {
            scratch = scratch;
            callbacks = callbacks;
            waits = λ in_batch. cc (sym in_batch ∙ b);
            sent = λ _. wire ∙ ap (◌++◌ e.wire) (single b);
          },
        )
  ]

  -- A request with no id gets no reply, whatever the callback answers.
  pub notification :
      (fuel : ℕ) (e : Engine E T) (a : Answer)
      → e.scratch.dynamic_id ≡ []
      → answer heap net (suc fuel) e a ≡ some e
  unfolding answer
  notification fuel e (content body len) h = rw (h, answer)
  notification fuel e (error code note len) h = rw (h, answer)
  notification fuel e invalid_params h = rw (h, answer)
  notification fuel e unknown h = rw (h, answer)
  notification fuel e out_of_memory h = rw (h, answer)

  module _ (malloc : (n : ℕ) → heap.malloc n ≡ true) (realloc : (n : ℕ) → heap.realloc n ≡ true)
      (w : IsWilling net) where
    -- Where the heap gives every block and the peer takes something of every message, a reply with a
    -- result to a request that has an id ends: in a batch its text and a comma wait in the buffer, and
    -- alone it is sent behind what the buffer held.
    pub reply_content-Replied :
        (fuel : ℕ) (e : Engine E T) (body : Bytes) (len : ℕ)
        → e.scratch.dynamic_id ≢ []
        → (e' : Engine E T) × (reply_content heap net fuel e body len ≡ some e')
          × Replied e (content_text e.scratch.dynamic_id (view body len)) e'
    unfolding reply_content
    reply_content-Replied fuel e body len h =
        let s = e.scratch in
        let oom = reply_error_out_of_memory heap net fuel in
        let text = content_text s.dynamic_id (view body len) in
        let (b₁, run₁, t₁) =
          fill_with_content_lem heap e.buffer s.dynamic_id (view body len) false true malloc
            realloc in
        let (b₂, run₂, t₂) =
          fill_with_content_lem heap e.buffer s.dynamic_id (view body len) s.is_http false malloc
            realloc in
        let (e', run, replied) =
          finish-Replied oom e text (true, if s.is_batch then b₁ else b₂) w refl (λ b. rw b t₁)
            (λ b.
              rw b (t₂ ∙ ap (λ t. e.buffer.elements ++ response s.is_http t) (append-nil text))) in
        (
          e',
          rw (not_empty s.dynamic_id h, reply_content)
              (ap (λ o. o >>= finish heap net oom e) (picked s.is_batch run₁ run₂) ∙ run),
          replied,
        )

    -- The same holds of an error reply with a 64-bit code, already with fuel for one round.
    pub reply_error-Replied :
        (fuel : ℕ) (e : Engine E T) (code : ℤ) (note : Bytes) (len : ℕ)
        → e.scratch.dynamic_id ≢ []
        → IsInt64 code
        → (e' : Engine E T) × (reply_error heap net (suc fuel) e code note len ≡ some e')
          × Replied e (error_text e.scratch.dynamic_id (print_int code) (view note len)) e'
    unfolding reply_error
    reply_error-Replied fuel e code note len h small =
        let s = e.scratch in
        let oom = λ (e' : Engine E T).
          reply_error heap net fuel e' (neg 32000) (codes "Out of memory.") 14 in
        let text = error_text s.dynamic_id (print_int code) (view note len) in
        let (b₁, run₁, t₁) =
          fill_with_error_lem heap e.buffer s.dynamic_id (print_int code) (view note len) false true
            malloc realloc in
        let (b₂, run₂, t₂) =
          fill_with_error_lem heap e.buffer s.dynamic_id (print_int code) (view note len) s.is_http
            false malloc realloc in
        let (e', run, replied) =
          finish-Replied oom e text (true, if s.is_batch then b₁ else b₂) w refl (λ b. rw b t₁)
            (λ b.
              rw b (t₂ ∙ ap (λ t. e.buffer.elements ++ response s.is_http t) (append-nil text))) in
        (
          e',
          rw (not_empty s.dynamic_id h, to_chars_int_wide code small, reply_error)
              (ap (λ o. o >>= finish heap net oom e) (picked s.is_batch run₁ run₂) ∙ run),
          replied,
        )
