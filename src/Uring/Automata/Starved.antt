-- ===== src/Uring/Automata/Starved.antt =====
-- A server that has once looked for a connection while its pool was full, from then on.
use ucall.Prelude.{
  subst, ℕ, suc, ◌+◌, ◌≡◌, ◌≢◌, refl, sym, ap, ◌∙◌, Bool, true, false, not, Option, none, some,
  List, [], ◌∷◌, ◌++◌, arith, Bytes, ℤ, if◌then◌else◌,
}
use ucall.Memory.Allocator.{Allocator}
use ucall.Parse.Dom.{Dom, PhrResult}
use ucall.Exchange.{has_outputs, release_inputs}
use ucall.Uring.Engine.{
  Stage, waiting_to_accept, expecting_reception, responding_in_progress, waiting_to_close,
  log_stats, unknown, Connection, Sqe, accept, read, link_timeout, send, cancel, shutdown, close,
  heartbeat, Engine, put,
}
use ucall.Uring.Requests.{◌>>=◌}
use ucall.Uring.Connections.{
  consider_accepting_new_connection, release_connection, close_gracefully, send_next, receive_next,
  submit_stats_heartbeat, log_and_reset_stats,
}
use ucall.Uring.Connections.Starved.{consider_accepting_starved}
use ucall.Uring.Automata.{
  nothing_received, next_exchange, reply_out_of_memory, respond, absorbed, received, responded,
  in_stage, automata, is_corrupted,
}

-- How many acceptances the queue asks for.
abbrev pub accepts : List Sqe → ℕ
accepts [] = 0
accepts (accept c ∷ qs) = suc (accepts qs)
accepts (read c fd n ∷ qs) = accepts qs
accepts (send c fd at n ∷ qs) = accepts qs
accepts (close c fd ∷ qs) = accepts qs
accepts (link_timeout ns ∷ qs) = accepts qs
accepts (cancel fd ∷ qs) = accepts qs
accepts (shutdown fd ∷ qs) = accepts qs
accepts (heartbeat ∷ qs) = accepts qs

accepts-append : (xs ys : List Sqe) → accepts (xs ++ ys) ≡ accepts xs + accepts ys
accepts-append [] ys = omega arith
accepts-append (accept c ∷ xs) ys = omega (arith, accepts-append xs ys)
accepts-append (read c fd n ∷ xs) ys = accepts-append xs ys
accepts-append (send c fd at n ∷ xs) ys = accepts-append xs ys
accepts-append (close c fd ∷ xs) ys = accepts-append xs ys
accepts-append (link_timeout ns ∷ xs) ys = accepts-append xs ys
accepts-append (cancel fd ∷ xs) ys = accepts-append xs ys
accepts-append (shutdown fd ∷ xs) ys = accepts-append xs ys
accepts-append (heartbeat ∷ xs) ys = accepts-append xs ys

-- No acceptance was asked for or counted.
record Kept {E T : Type 0} (e e' : Engine E T) : Type 0 where
  reserved : e'.reserved_connections ≡ e.reserved_connections
  asked : accepts e'.ring ≡ accepts e.ring

-- Whatever the result is, it keeps them.
abbrev KeptBy : {E T : Type 0} → Engine E T → Option (Engine E T) → Type 0
KeptBy {E} {T} e r = (e' : Engine E T) → r ≡ some e' → Kept e e'

module _ {E T : Type 0} where
  kept : (e : Engine E T) → Kept e e
  kept e = record { reserved = refl; asked = refl }

  then_Kept : (e e₁ e₂ : Engine E T) → Kept e e₁ → Kept e₁ e₂ → Kept e e₂
  then_Kept e e₁ e₂ p q = record { reserved = q.reserved ∙ p.reserved; asked = q.asked ∙ p.asked }

  put-Kept : (e : Engine E T) (c : ℕ) (connection : Connection) → Kept e (put e c connection)
  put-Kept e c connection = record { reserved = refl; asked = refl }

  receive_next-Kept : (e : Engine E T) (c : ℕ) → Kept e (receive_next e c)
  unfolding receive_next
  receive_next-Kept e c = record { reserved = refl; asked = accepts-append e.ring _ ∙ omega arith }

  send_next-Kept : (e : Engine E T) (c : ℕ) → Kept e (send_next e c)
  unfolding send_next
  send_next-Kept e c = record { reserved = refl; asked = accepts-append e.ring _ ∙ omega arith }

  close_gracefully-Kept : (e : Engine E T) (c : ℕ) → Kept e (close_gracefully e c)
  unfolding close_gracefully
  close_gracefully-Kept e c = record {
    reserved = refl;
    asked = accepts-append e.ring _ ∙ omega arith;
  }

  release_connection-Kept : (e : Engine E T) (c : ℕ) → Kept e (release_connection e c)
  unfolding release_connection
  release_connection-Kept e c = record { reserved = refl; asked = refl }

  heartbeat-Kept : (e : Engine E T) → Kept e (submit_stats_heartbeat (log_and_reset_stats e))
  unfolding submit_stats_heartbeat log_and_reset_stats
  heartbeat-Kept e = record { reserved = refl; asked = accepts-append e.ring _ ∙ omega arith }

  if_Kept :
      (e : Engine E T) (b : Bool) {x y : Engine E T}
      → Kept e x
      → Kept e y
      → Kept e (if b then x else y)
  if_Kept e true p q = p
  if_Kept e false p q = q

  some-KeptBy : (e x : Engine E T) → Kept e x → KeptBy e (some x)
  some-KeptBy e x k e' run = let same : x ≡ e' = cc run in subst (Kept e) same k

  if_KeptBy :
      (e : Engine E T) (b : Bool) {x y : Option (Engine E T)}
      → KeptBy e x
      → KeptBy e y
      → KeptBy e (if b then x else y)
  if_KeptBy e true p q = p
  if_KeptBy e false p q = q

  bind_KeptBy :
      {A : Type 0} (e : Engine E T) (r : Option A) (g : A → Engine E T)
      → ((a : A) → Kept e (g a))
      → KeptBy e (r >>= λ a. some (g a))
  bind_KeptBy e none g k e' run = absurd (cc run)
  bind_KeptBy e (some a) g k e' run = some-KeptBy e (g a) (k a) e' run

module _ {E D T : Type 0} (dom : Dom E D) (heap : Allocator) (phr : Bytes → PhrResult)
    (allocate : ℕ → Bool) (submitted : ℕ → Bool) where
  nothing_received-Kept :
      (e : Engine E T) (c : ℕ) → Kept e (nothing_received dom heap phr allocate submitted e c)
  unfolding nothing_received
  nothing_received-Kept e c =
      then_Kept e _ _ (put-Kept e c _)
        (if_Kept _ _ (close_gracefully-Kept _ c) (receive_next-Kept _ c))

  next_exchange-Kept :
      (e : Engine E T) (c : ℕ) → Kept e (next_exchange dom heap phr allocate submitted e c)
  unfolding next_exchange
  next_exchange-Kept e c =
      then_Kept e _ _ (put-Kept e c _)
        (if_Kept _ _ (close_gracefully-Kept _ c) (receive_next-Kept _ c))

  respond-Kept : (e : Engine E T) (c : ℕ) → Kept e (respond dom heap phr allocate submitted e c)
  unfolding respond
  respond-Kept e c =
      if_Kept e (not (has_outputs (release_inputs (e.at_offset c).pipes)))
        (then_Kept e _ _ (put-Kept e c _) (next_exchange-Kept _ c))
        (then_Kept e _ _ (put-Kept e c _) (send_next-Kept _ c))

  responded-Kept :
      (e : Engine E T) (c : ℕ) (result : ℤ)
      → Kept e (responded dom heap phr allocate submitted e c result)
  unfolding responded
  responded-Kept e c result =
      if_Kept e _ (then_Kept e _ _ (put-Kept e c _) (close_gracefully-Kept _ c)) (
        if_Kept e _
          (then_Kept e _ _ (record { reserved = refl; asked = refl }) (next_exchange-Kept _ c))
          (then_Kept e _ _ (record { reserved = refl; asked = refl }) (send_next-Kept _ c)))

  out_of_memory-KeptBy :
      (fuel : ℕ) (e : Engine E T) (c : ℕ)
      → KeptBy e (reply_out_of_memory dom heap phr allocate submitted fuel e c)
  unfolding reply_out_of_memory
  out_of_memory-KeptBy fuel e c =
      bind_KeptBy e _ _ (λ pipes. then_Kept e _ _ (put-Kept e c _) (send_next-Kept _ c))

  -- The same, where only the connection had changed.
  after_put : (e e₁ : Engine E T) (r : Option (Engine E T)) → Kept e e₁ → KeptBy e₁ r → KeptBy e r
  after_put e e₁ r p q e' run = then_Kept e e₁ e' p (q e' run)

  absorbed-KeptBy :
      (fuel : ℕ) (e : Engine E T) (c : ℕ)
      → KeptBy e (absorbed dom heap phr allocate submitted fuel e c)
  unfolding absorbed
  absorbed-KeptBy fuel e c =
      if_KeptBy e _
        (bind_KeptBy e _ _ (λ (s, ps).
          then_Kept e _ _ (record { reserved = refl; asked = refl }) (respond-Kept _ c)))
        (if_KeptBy e _
          (some-KeptBy e _
            (then_Kept e _ _ (record { reserved = refl; asked = refl }) (receive_next-Kept _ c)))
          (after_put e _ _ (record { reserved = refl; asked = refl })
            (out_of_memory-KeptBy fuel _ c)))

  none-KeptBy : (e : Engine E T) → KeptBy e none
  none-KeptBy e e' run = absurd (no run)
    where
      no : none ≢ some e'
      no n = cc n

  received-KeptBy :
      (fuel : ℕ) (e : Engine E T) (c : ℕ) (result : ℤ)
      → KeptBy e (received dom heap phr allocate submitted fuel e c result)
  unfolding received
  received-KeptBy fuel e c result =
      if_KeptBy e _ (some-KeptBy e _ (then_Kept e _ _ (put-Kept e c _) (nothing_received-Kept _ c)))
        (if_KeptBy e _ (none-KeptBy e) (
          if_KeptBy e _
            (after_put e _ _ (record { reserved = refl; asked = refl }) (absorbed-KeptBy fuel _ c))
            (after_put e _ _ (record { reserved = refl; asked = refl })
              (out_of_memory-KeptBy fuel _ c))))

  staged-KeptBy :
      (fuel : ℕ) (e : Engine E T) (c : ℕ) (result : ℤ) (stage : Stage)
      → stage ≢ waiting_to_accept
      → KeptBy e (in_stage dom heap phr allocate submitted fuel e c result stage)
  unfolding in_stage
  staged-KeptBy fuel e c result waiting_to_accept h = absurd (h refl)
  staged-KeptBy fuel e c result expecting_reception h = received-KeptBy fuel e c result
  staged-KeptBy fuel e c result responding_in_progress h =
      some-KeptBy e _ (responded-Kept e c result)
  staged-KeptBy fuel e c result waiting_to_close h = some-KeptBy e _ (release_connection-Kept e c)
  staged-KeptBy fuel e c result log_stats h = some-KeptBy e _ (heartbeat-Kept e)
  staged-KeptBy fuel e c result unknown h = some-KeptBy e _ (kept e)

  automata-KeptBy :
      (fuel : ℕ) (e : Engine E T) (c : ℕ) (result : ℤ)
      → (e.at_offset c).stage ≢ waiting_to_accept
      → KeptBy e (automata dom heap phr allocate submitted fuel e c result)
  unfolding automata
  automata-KeptBy fuel e c result h =
      if_KeptBy e (is_corrupted result) (some-KeptBy e _ (close_gracefully-Kept e c))
        (staged-KeptBy fuel e c result (e.at_offset c).stage h)

  -- What a server does while no acceptance is in flight: it looks for a connection, or handles the completion
  -- of another operation, or a connection is released.
  pub data Steps (e : Engine E T) : Engine E T → Type 0 where
    start : Steps e e
    look :
        {e' : Engine E T} → Steps e e' → Steps e (consider_accepting_new_connection submitted e').1
    release : {e' : Engine E T} (c : ℕ) → Steps e e' → Steps e (release_connection e' c)
    complete :
        {e' : Engine E T} (fuel c : ℕ) (result : ℤ) (e'' : Engine E T)
        → Steps e e'
        → (e'.at_offset c).stage ≢ waiting_to_accept
        → automata dom heap phr allocate submitted fuel e' c result ≡ some e''
        → Steps e e''

  look_reserved :
      (e : Engine E T)
      → e.reserved_connections ≡ 1
      → consider_accepting_new_connection submitted e ≡ (false, e)
  unfolding consider_accepting_new_connection
  look_reserved e h = rw (h, consider_accepting_new_connection) refl

  steps-Kept : (e e' : Engine E T) → e.reserved_connections ≡ 1 → Steps e e' → Kept e e'
  steps-Kept e _ h start = kept e
  steps-Kept e _ h (look {e'} s) =
      let k = steps-Kept e e' h s in
      subst (Kept e) (ap (λ r. r.1) (sym (look_reserved e' (k.reserved ∙ h)))) k
  steps-Kept e _ h (release {e'} c s) =
      then_Kept e e' _ (steps-Kept e e' h s) (release_connection-Kept e' c)
  steps-Kept e e'' h (complete {e'} fuel c result _ s other run) =
      then_Kept e e' e'' (steps-Kept e e' h s) (automata-KeptBy fuel e' c result other e'' run)

  -- If the engine has looked for a connection while its pool had no free slot and no acceptance was in flight:
  -- after any sequence of looks, released connections and handled completions of other operations than
  -- acceptances, the queue asks for no acceptance more than before, and the next look submits none.
  pub starved_forever :
      (e e' : Engine E T)
      → e.connections.free_count ≡ 0
      → e.reserved_connections ≡ 0
      → Steps (consider_accepting_new_connection submitted e).1 e'
      → (consider_accepting_new_connection submitted e' ≡ (false, e'))
        × (accepts e'.ring ≡ accepts e.ring)
        × (e'.reserved_connections ≡ 1)
  starved_forever e e' full idle steps =
      let (found, ring, one, again, released) =
        consider_accepting_starved submitted e 0 full idle in
      let k = steps-Kept _ e' one steps in
      (look_reserved e' (k.reserved ∙ one), k.asked ∙ ap accepts ring, k.reserved ∙ one)
