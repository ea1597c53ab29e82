-- ===== src/Uring/Automata/Pending.antt =====
-- No connection is forgotten: what a completion leaves in flight for its connection and for the others.
use ucall.Prelude.{
  ◌≤◌, Bool-cases, le→ltb, subst, ℕ, suc, ◌+◌, ◌%◌, ◌^◌, ◌≡◌, ◌⊎◌, inl, inr, refl, sym, ap, ◌∙◌,
  Bool, true, false, not, ◌||◌, Option, none, some, List, [], ◌∷◌, ◌++◌, arith, Bytes, ℤ, ◌==◌,
  if◌then◌else◌,
}
use ucall.Memory.Allocator.{Allocator}
use ucall.Parse.Dom.{Dom, PhrResult}
use ucall.Exchange.{
  ram_page_size, sub_size, Pipes, absorb_input, input_span, shift_input_to_dynamic,
  has_remaining_outputs, prepare_more_outputs, release_inputs, has_outputs,
}
use ucall.Uring.Engine.{
  Stage, waiting_to_accept, expecting_reception, responding_in_progress, waiting_to_close,
  Connection, Sqe, accept, read, link_timeout, send, cancel, shutdown, close, heartbeat, Engine,
  put, to_size,
}
use ucall.Uring.Reply.{reply_error_out_of_memory}
use ucall.Uring.Requests.{received_full_request, ◌>>=◌}
use ucall.Uring.Requests.Total.{Gives, parse_and_raise_request_total, reply_error_total}
use ucall.Uring.Connections.{close_gracefully, send_next, receive_next}
use ucall.Uring.Automata.{
  count_sent, count_received, transmitted, with_pipes, is_canceled, is_corrupted, is_zero,
  should_release, accepted, overslept, nothing_received, next_exchange, reply_out_of_memory,
  respond, absorbed, received, responded, in_stage, automata,
}

-- 1 for an entry whose completion will name the connection.
abbrev pub names : ℕ → Sqe → ℕ
names c (accept k) = if k == c then 1 else 0
names c (read k fd n) = if k == c then 1 else 0
names c (send k fd at n) = if k == c then 1 else 0
names c (close k fd) = if k == c then 1 else 0
names c (link_timeout ns) = 0
names c (cancel fd) = 0
names c (shutdown fd) = 0
names c heartbeat = 0

-- How many entries of the queue name the connection.
abbrev pub pending : ℕ → List Sqe → ℕ
pending c [] = 0
pending c (q ∷ qs) = names c q + pending c qs

pending-append : (c : ℕ) (xs ys : List Sqe) → pending c (xs ++ ys) ≡ pending c xs + pending c ys
pending-append c [] ys = omega arith
pending-append c (x ∷ xs) ys = omega (arith, pending-append c xs ys)

-- The stages of a connection with an operation in flight.
abbrev pub IsWaiting : Stage → Type 0
IsWaiting s = (s ≡ expecting_reception) ⊎ ((s ≡ responding_in_progress) ⊎ (s ≡ waiting_to_close))

-- One operation more is in flight for the connection, whose stage says which; the other connections
-- and the pool are as they were.
pub record Resubmitted {E T : Type 0} (e : Engine E T) (c : ℕ) (e' : Engine E T) : Type 0 where
  pub own : pending c e'.ring ≡ pending c e.ring + 1
  pub waits : IsWaiting (e'.at_offset c).stage
  pub others :
      (k : ℕ)
      → (k == c) ≡ false
      → (e'.at_offset k ≡ e.at_offset k) × (pending k e'.ring ≡ pending k e.ring)
  pub pool : e'.connections ≡ e.connections

-- Only the connection itself, and what belongs to no connection, has changed.
record Same {E T : Type 0} (e : Engine E T) (c : ℕ) (e' : Engine E T) : Type 0 where
  ring : e'.ring ≡ e.ring
  others : (k : ℕ) → (k == c) ≡ false → e'.at_offset k ≡ e.at_offset k
  pool : e'.connections ≡ e.connections

self : (c : ℕ) → (c == c) ≡ true
self c = ground arith

other : (k c : ℕ) → (k == c) ≡ false → (c == k) ≡ false
other k c h = ground arith

module _ {E T : Type 0} where
  then_Resubmitted :
      (e e₁ e₂ : Engine E T) (c : ℕ) → Same e c e₁ → Resubmitted e₁ c e₂ → Resubmitted e c e₂
  then_Resubmitted e e₁ e₂ c s r = record {
    own = r.own ∙ ap (λ q. pending c q + 1) s.ring;
    waits = r.waits;
    others = λ k h. ((r.others k h).0 ∙ s.others k h, (r.others k h).1 ∙ ap (pending k) s.ring);
    pool = r.pool ∙ s.pool;
  }

  put-Same : (e : Engine E T) (c : ℕ) (connection : Connection) → Same e c (put e c connection)
  put-Same e c connection = record { ring = refl; others = λ k h. rw h refl; pool = refl }

  receive_next-Resubmitted : (e : Engine E T) (c : ℕ) → Resubmitted e c (receive_next e c)
  unfolding receive_next
  receive_next-Resubmitted e c = record {
    own = pending-append c e.ring _ ∙ rw (self c) refl;
    waits = rw (self c) (inl refl);
    others = λ k h. (rw h refl, pending-append k e.ring _ ∙ rw (other k c h) (omega arith));
    pool = refl;
  }

  send_next-Resubmitted : (e : Engine E T) (c : ℕ) → Resubmitted e c (send_next e c)
  unfolding send_next
  send_next-Resubmitted e c = record {
    own = pending-append c e.ring _ ∙ rw (self c) refl;
    waits = rw (self c) (inr (inl refl));
    others = λ k h. (rw h refl, pending-append k e.ring _ ∙ rw (other k c h) (omega arith));
    pool = refl;
  }

  close_gracefully-Resubmitted : (e : Engine E T) (c : ℕ) → Resubmitted e c (close_gracefully e c)
  unfolding close_gracefully
  close_gracefully-Resubmitted e c = record {
    own = pending-append c e.ring _ ∙ rw (self c) refl;
    waits = rw (self c) (inr (inr refl));
    others = λ k h. (rw h refl, pending-append k e.ring _ ∙ rw (other k c h) (omega arith));
    pool = refl;
  }

  if_Resubmitted :
      (e : Engine E T) (c : ℕ) (b : Bool) {x y : Engine E T}
      → (b ≡ true → Resubmitted e c x)
      → (b ≡ false → Resubmitted e c y)
      → Resubmitted e c (if b then x else y)
  if_Resubmitted e c true p q = p refl
  if_Resubmitted e c false p q = q refl

  -- The handler ends, with one operation more in flight.
  abbrev pub Continues : Engine E T → ℕ → Option (Engine E T) → Type 0
  Continues e c r = (e' : Engine E T) × (r ≡ some e') × Resubmitted e c e'

  if_Continues :
      (e : Engine E T) (c : ℕ) (b : Bool) {x y : Option (Engine E T)}
      → Continues e c x
      → Continues e c y
      → Continues e c (if b then x else y)
  if_Continues e c true p q = p
  if_Continues e c false p q = q

  Continues->>= :
      {A : Type 0} (e : Engine E T) (c : ℕ) (r : Option A) (g : A → Engine E T)
      → Gives r
      → ((a : A) → Resubmitted e c (g a))
      → Continues e c (r >>= λ a. some (g a))
  Continues->>= e c none g (a, h) p = cc
  Continues->>= e c (some a) g h p = (g a, refl, p a)

-- What a reception may report: a number of bytes that the page holds, or a cancellation.
abbrev pub IsReception : ℤ → Type 0
IsReception result = (is_canceled result ≡ true) ⊎ (to_size result ≤ ram_page_size)

-- A reception with such a result or with an error that closes the connection, a submission with any
-- result, or an acceptance that was not cancelled.
abbrev pub IsExpected : Stage → ℤ → Type 0
IsExpected stage result =
    (stage ≡ expecting_reception) × ((is_corrupted result ≡ true) ⊎ IsReception result)
    ⊎ ((stage ≡ responding_in_progress)
        ⊎ (stage ≡ waiting_to_accept) × (is_canceled result ≡ false))

true_or_false : {b : Bool} → b ≡ true → b ≡ false → ⊥
true_or_false t f = cc

module _ {E D T : Type 0} (dom : Dom E D) (heap : Allocator) (phr : Bytes → PhrResult)
    (allocate : ℕ → Bool) (submitted : ℕ → Bool) where
  abbrev same :
      (e e₁ : Engine E T) (c : ℕ)
      → e₁.ring ≡ e.ring
      → ((k : ℕ) → (k == c) ≡ false → e₁.at_offset k ≡ e.at_offset k)
      → e₁.connections ≡ e.connections
      → Same e c e₁
  same e e₁ c p q r = record { ring = p; others = q; pool = r }

  nothing_received-Resubmitted :
      (e : Engine E T) (c : ℕ)
      → Resubmitted e c (nothing_received dom heap phr allocate submitted e c)
  unfolding nothing_received
  nothing_received-Resubmitted e c = then_Resubmitted e _ _ c (put-Same e c _) (
      if_Resubmitted _ c _ (λ b. close_gracefully-Resubmitted _ c)
        (λ b. receive_next-Resubmitted _ c))

  next_exchange-Resubmitted :
      (e : Engine E T) (c : ℕ) → Resubmitted e c (next_exchange dom heap phr allocate submitted e c)
  unfolding next_exchange
  next_exchange-Resubmitted e c = then_Resubmitted e _ _ c (put-Same e c _) (
      if_Resubmitted _ c _ (λ b. close_gracefully-Resubmitted _ c)
        (λ b. receive_next-Resubmitted _ c))

  respond-Resubmitted :
      (e : Engine E T) (c : ℕ) → Resubmitted e c (respond dom heap phr allocate submitted e c)
  unfolding respond
  respond-Resubmitted e c =
      if_Resubmitted e c (not (has_outputs (release_inputs (e.at_offset c).pipes)))
        (λ b. then_Resubmitted e _ _ c (put-Same e c _) (next_exchange-Resubmitted _ c))
        (λ b. then_Resubmitted e _ _ c (put-Same e c _) (send_next-Resubmitted _ c))

  -- A completed submission whose connection lives on.
  sent_more-Resubmitted :
      (e e₂ : Engine E T) (c : ℕ) (pipes : Pipes)
      → Same e c e₂
      → Resubmitted e c (
          if not (has_remaining_outputs pipes)
          then next_exchange dom heap phr allocate submitted
              (put e₂ c (record (e₂.at_offset c) { pipes = pipes }))
              c
          else send_next
              (put e₂ c (record (e₂.at_offset c) { pipes = prepare_more_outputs pipes }))
              c)
  sent_more-Resubmitted e e₂ c pipes s =
      if_Resubmitted e c (not (has_remaining_outputs pipes))
        (λ b.
          then_Resubmitted e e₂ _ c s
            (then_Resubmitted e₂ _ _ c (put-Same e₂ c _) (next_exchange-Resubmitted _ c)))
        (λ b.
          then_Resubmitted e e₂ _ c s
            (then_Resubmitted e₂ _ _ c (put-Same e₂ c _) (send_next-Resubmitted _ c)))

  responded-Resubmitted :
      (e : Engine E T) (c : ℕ) (result : ℤ)
      → Resubmitted e c (responded dom heap phr allocate submitted e c result)
  unfolding responded
  responded-Resubmitted e c result =
      let e₁ = transmitted dom heap phr allocate submitted e c result in
      let e₂ = count_sent dom heap phr allocate submitted e₁ result in
      if_Resubmitted e c (should_release dom heap phr allocate submitted e₁ c)
        (λ b. then_Resubmitted e e₁ _ c (put-Same e c _) (close_gracefully-Resubmitted e₁ c))
        (λ b. sent_more-Resubmitted e e₂ c _ (same e e₂ c refl (λ k h. rw h refl) refl))

  accepted-Resubmitted :
      (e : Engine E T) (c : ℕ) (result : ℤ)
      → is_canceled result ≡ false
      → Resubmitted e c (accepted dom heap phr allocate submitted e c result)
  unfolding accepted
  accepted-Resubmitted e c result alive =
      rw (alive, accepted)
        (then_Resubmitted e
          (put
            (record e {
              reserved_connections = sub_size e.reserved_connections 1;
              active_connections = (e.active_connections + 1) % 2 ^ 64;
              stats = record (e.stats) {
                added_connections = (e.stats.added_connections + 1) % 2 ^ 64;
              };
            })
            c (record (e.at_offset c) { descriptor = result }))
          _ c (same e _ c refl (λ k h. rw h refl) refl) (receive_next-Resubmitted _ c))

  module _ (malloc : (n : ℕ) → heap.malloc n ≡ true)
      (realloc : (n : ℕ) → heap.realloc n ≡ true) where
    out_of_memory-Continues :
        (fuel : ℕ) (e : Engine E T) (c : ℕ)
        → Continues e c (reply_out_of_memory dom heap phr allocate submitted (suc (suc fuel)) e c)
    unfolding reply_out_of_memory reply_error_out_of_memory
    out_of_memory-Continues fuel e c =
        Continues->>= e c _ _ (reply_error_total heap e.scratch malloc realloc fuel _ _ _ _)
          (λ ps. then_Resubmitted e _ _ c (put-Same e c _) (send_next-Resubmitted _ c))

    absorbed-Continues :
        (fuel : ℕ) (e : Engine E T) (c : ℕ)
        → Continues e c (absorbed dom heap phr allocate submitted (suc (suc fuel)) e c)
    unfolding absorbed
    absorbed-Continues fuel e c =
        let connection = e.at_offset c in
        let (full, content_length) =
          received_full_request phr (input_span connection.pipes) connection.content_length in
        let e' = put e c (record connection { content_length = content_length }) in
        let (shifted, pipes) = shift_input_to_dynamic heap connection.pipes in
        let e'' = with_pipes dom heap phr allocate submitted e' c pipes in
        let shift = same e e'' c refl (λ k h. rw h refl) refl in
        let (e₃, run₃, r₃) = out_of_memory-Continues fuel e'' c in
        if_Continues e c full
          (Continues->>= e c _ _
            (parse_and_raise_request_total dom heap e.callbacks malloc realloc phr allocate fuel
              (e.scratch, connection.pipes))
            (λ (s, ps).
              then_Resubmitted e
                (with_pipes dom heap phr allocate submitted (record e' { scratch = s }) c ps) _ c
                (same e _ c refl (λ k h. rw h refl) refl) (respond-Resubmitted _ c)))
          (if_Continues e c shifted
            (
              receive_next e'' c,
              refl,
              then_Resubmitted e e'' _ c shift (receive_next-Resubmitted e'' c),
            )
            (e₃, run₃, then_Resubmitted e e'' e₃ c shift r₃))

    received-Continues :
        (fuel : ℕ) (e : Engine E T) (c : ℕ) (result : ℤ)
        → IsReception result
        → Continues e c (received dom heap phr allocate submitted (suc (suc fuel)) e c result)
    unfolding received
    received-Continues fuel e c result sane =
        let connection = overslept (e.at_offset c) result in
        let (done, pipes) = absorb_input heap connection.pipes (to_size result) in
        let e' =
          put (count_received dom heap phr allocate submitted e result) c
            (record connection { empty_transmits = 0; sleep_ns = 0; pipes = pipes }) in
        let start = same e e' c refl (λ k h. rw h refl) refl in
        let (e₁, run₁, r₁) = absorbed-Continues fuel e' c in
        let (e₂, run₂, r₂) = out_of_memory-Continues fuel e' c in
        let nothing : Continues e c
            (some (nothing_received dom heap phr allocate submitted (put e c connection) c)) =
          (
            _,
            refl,
            then_Resubmitted e (put e c connection) _ c (put-Same e c connection)
                (nothing_received-Resubmitted _ c),
          ) in
        elim sane [
          | inl cancelled ↦ rw cancelled nothing
          | inr few ↦ if_Continues e c (is_canceled result || is_zero result) nothing (
              rw (le→ltb ram_page_size (to_size result) few) (
                if_Continues e c done (e₁, run₁, then_Resubmitted e e' e₁ c start r₁)
                  (e₂, run₂, then_Resubmitted e e' e₂ c start r₂)))
        ]

    -- Where the heap gives every block and replies have fuel for two rounds: the completion of a reception with as
    -- many bytes as the page holds at most, or with -ECANCELED, -EPIPE or -EBADF, the completion of a submission with any
    -- result, or of an acceptance that was not cancelled, is handled to the end, whatever the input. One more
    -- operation is then in flight that names the connection, and the connection is in the stage of an operation in
    -- flight; the operations and the state of every other connection are as they were, and so is the pool.
    pub automata-Continues :
        (fuel : ℕ) (e : Engine E T) (c : ℕ) (result : ℤ)
        → IsExpected (e.at_offset c).stage result
        → Continues e c (automata dom heap phr allocate submitted (suc (suc fuel)) e c result)
    unfolding automata in_stage
    automata-Continues fuel e c result h = elim (Bool-cases (is_corrupted result)) [
      | inl k ↦ rw (k, automata) (_, refl, close_gracefully-Resubmitted e c)
      | inr k ↦ rw (k, automata) (go k h)
    ]
      where
        staged :
            (stage : Stage)
            → (e.at_offset c).stage ≡ stage
            → Continues e c
                (in_stage dom heap phr allocate submitted (suc (suc fuel)) e c result stage)
            → Continues e c (
                in_stage dom heap phr allocate submitted
                  (suc (suc fuel))
                  e
                  c
                  result
                  (e.at_offset c).stage)
        staged stage s =
            subst
              (λ stage.
                Continues e c
                  (in_stage dom heap phr allocate submitted (suc (suc fuel)) e c result stage))
              (sym s)

        go :
            is_corrupted result ≡ false
            → IsExpected (e.at_offset c).stage result
            → Continues e c (
                in_stage dom heap phr allocate submitted
                  (suc (suc fuel))
                  e
                  c
                  result
                  (e.at_offset c).stage)
        go k (inl (s, inl bad)) = absurd (true_or_false bad k)
        go k (inl (s, inr sane)) = staged _ s (received-Continues fuel e c result sane)
        go k (inr (inl s)) = staged _ s (_, refl, responded-Resubmitted e c result)
        go k (inr (inr (s, alive))) = staged _ s (_, refl, accepted-Resubmitted e c result alive)
