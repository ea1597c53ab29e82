-- ===== src/Uring/Automata.antt =====
-- `automata_t::operator()` of src/engine_uring.cpp: what a completion does to its connection.
pub mod Pending
pub mod Starved
use ucall.Prelude.{
  ℕ, ◌+◌, ◌-◌, ◌*◌, ◌%◌, ◌^◌, Bool, true, false, not, ◌&&◌, ◌||◌, Option, none, some, [], ◌∷◌,
  Bytes, ℤ, pos, negsuc, leb, ltb, ◌==◌, if◌then◌else◌,
}
use ucall.Memory.Allocator.{Allocator}
use ucall.Parse.Dom.{Dom, PhrResult}
use ucall.Exchange.{
  Pipes, ram_page_size, sub_size, input_span, absorb_input, shift_input_to_dynamic, release_inputs,
  has_outputs, prepare_more_outputs, mark_submitted_outputs, has_remaining_outputs,
}
use ucall.Uring.Engine.{
  Stage, waiting_to_accept, expecting_reception, responding_in_progress, waiting_to_close,
  log_stats, unknown, Connection, expired, sleep_growth_factor, Engine, put, to_size,
}
use ucall.Uring.Reply.{reply_error_out_of_memory}
use ucall.Uring.Requests.{received_full_request, parse_and_raise_request, ◌>>=◌}
use ucall.Uring.Connections.{
  consider_accepting_new_connection, release_connection, close_gracefully, send_next, receive_next,
  submit_stats_heartbeat, log_and_reset_stats,
}

-- `-ECANCELED`, `-EPIPE` and `-EBADF`
abbrev pub is_canceled : ℤ → Bool
is_canceled (pos n) = false
is_canceled (negsuc n) = n == 124

abbrev pub is_corrupted : ℤ → Bool
is_corrupted (pos n) = false
is_corrupted (negsuc n) = n == 31 || n == 8

abbrev pub is_zero : ℤ → Bool
is_zero (pos n) = n == 0
is_zero (negsuc n) = false

-- A reception that was cancelled by its timer: the next one waits longer.
unfoldable pub overslept : Connection → ℤ → Connection
overslept connection result =
    if is_canceled result
    then record connection {
      sleep_ns = (connection.sleep_ns + connection.next_wakeup_ns) % 2 ^ 64;
      next_wakeup_ns = connection.next_wakeup_ns * sleep_growth_factor;
    }
    else connection

module _ {E D T : Type 0} (dom : Dom E D) (heap : Allocator) (phr : Bytes → PhrResult)
    (allocate : ℕ → Bool) (submitted : ℕ → Bool) where
  unfoldable pub should_release : Engine E T → ℕ → Bool
  should_release e c =
      let connection = e.at_offset c in
      expired connection || not (e.dismissed_connections == 0) || ltb 100 connection.empty_transmits

  unfoldable pub accepted : Engine E T → ℕ → ℤ → Engine E T
  accepted e c result =
      let free = release_connection e c in
      let retry = record free { reserved_connections = sub_size free.reserved_connections 1 } in
      let taken = record e {
        reserved_connections = sub_size e.reserved_connections 1;
        active_connections = (e.active_connections + 1) % 2 ^ 64;
        stats = record (e.stats) { added_connections = (e.stats.added_connections + 1) % 2 ^ 64 };
      } in
      if is_canceled result
      then (consider_accepting_new_connection submitted retry).1
      else receive_next (put taken c (record (e.at_offset c) { descriptor = result })) c

  unfoldable pub nothing_received : Engine E T → ℕ → Engine E T
  nothing_received e c =
      let connection = e.at_offset c in
      let e' =
        put e c
          (record connection { empty_transmits = (connection.empty_transmits + 1) % 2 ^ 64 }) in
      if should_release e' c then close_gracefully e' c else receive_next e' c

  -- The end of an exchange: the connection is closed after so many, or listens again.
  unfoldable pub next_exchange : Engine E T → ℕ → Engine E T
  next_exchange e c =
      let connection = e.at_offset c in
      let e' = put e c (record connection { exchanges = (connection.exchanges + 1) % 2 ^ 64 }) in
      if leb e.max_lifetime_exchanges ((connection.exchanges + 1) % 2 ^ 64)
      then close_gracefully e' c
      else receive_next e' c

  abbrev pub with_pipes : Engine E T → ℕ → Pipes → Engine E T
  with_pipes e c pipes = put e c (record (e.at_offset c) { pipes = pipes })

  unfoldable pub reply_out_of_memory : ℕ → Engine E T → ℕ → Option (Engine E T)
  reply_out_of_memory fuel e c =
      reply_error_out_of_memory heap e.scratch fuel (e.at_offset c).pipes >>= λ pipes.
      some (send_next (with_pipes e c pipes) c)

  -- After the request was answered.
  unfoldable pub respond : Engine E T → ℕ → Engine E T
  respond e c =
      let pipes = release_inputs (e.at_offset c).pipes in
      if not (has_outputs pipes)
      then next_exchange (with_pipes e c pipes) c
      else send_next (with_pipes e c (prepare_more_outputs pipes)) c

  unfoldable pub absorbed : ℕ → Engine E T → ℕ → Option (Engine E T)
  absorbed fuel e c =
      let connection = e.at_offset c in
      let (full, content_length) =
        received_full_request phr (input_span connection.pipes) connection.content_length in
      let e' = put e c (record connection { content_length = content_length }) in
      let (shifted, pipes) = shift_input_to_dynamic heap connection.pipes in
      let failed = reply_out_of_memory fuel (with_pipes e' c pipes) c in
      let answered =
        parse_and_raise_request dom heap e.callbacks phr allocate fuel (e.scratch, connection.pipes)
        >>= λ (s, ps). some (respond (with_pipes (record e' { scratch = s }) c ps) c) in
      if full
      then answered
      else if shifted
      then some (receive_next (with_pipes e' c pipes) c)
      else failed

  abbrev pub count_received : Engine E T → ℤ → Engine E T
  count_received e result = record e {
    stats = record (e.stats) {
      bytes_received = (e.stats.bytes_received + to_size result) % 2 ^ 64;
      packets_received = (e.stats.packets_received + 1) % 2 ^ 64;
    };
  }

  -- A result of more than the page holds, such as an error that is no cancellation, is taken for a number of
  -- bytes: memory behind the page is read, and the result is `none`.
  unfoldable pub received : ℕ → Engine E T → ℕ → ℤ → Option (Engine E T)
  received fuel e c result =
      let connection = overslept (e.at_offset c) result in
      let (done, pipes) = absorb_input heap connection.pipes (to_size result) in
      let e' =
        put (count_received e result) c
          (record connection { empty_transmits = 0; sleep_ns = 0; pipes = pipes }) in
      let failed = reply_out_of_memory fuel e' c in
      let next = absorbed fuel e' c in
      if is_canceled result || is_zero result
      then some (nothing_received (put e c connection) c)
      else if ltb ram_page_size (to_size result)
      then none
      else if done
      then next
      else failed

  abbrev pub count_sent : Engine E T → ℤ → Engine E T
  count_sent e result = record e {
    stats = record (e.stats) {
      bytes_sent = (e.stats.bytes_sent + to_size result) % 2 ^ 64;
      packets_sent = (e.stats.packets_sent + 1) % 2 ^ 64;
    };
  }

  abbrev pub transmitted : Engine E T → ℕ → ℤ → Engine E T
  transmitted e c result =
      let connection = e.at_offset c in
      put e c (record connection {
        empty_transmits = if is_zero result then (connection.empty_transmits + 1) % 2 ^ 64 else 0;
      })

  unfoldable pub responded : Engine E T → ℕ → ℤ → Engine E T
  responded e c result =
      let e₁ = transmitted e c result in
      let e₂ = count_sent e₁ result in
      let pipes = mark_submitted_outputs (e₂.at_offset c).pipes (to_size result) in
      if should_release e₁ c
      then close_gracefully e₁ c
      else if not (has_remaining_outputs pipes)
      then next_exchange (with_pipes e₂ c pipes) c
      else send_next (with_pipes e₂ c (prepare_more_outputs pipes)) c

  unfoldable pub in_stage : ℕ → Engine E T → ℕ → ℤ → Stage → Option (Engine E T)
  in_stage fuel e c result waiting_to_accept = some (accepted e c result)
  in_stage fuel e c result expecting_reception = received fuel e c result
  in_stage fuel e c result responding_in_progress = some (responded e c result)
  in_stage fuel e c result waiting_to_close = some (release_connection e c)
  in_stage fuel e c result log_stats = some (submit_stats_heartbeat (log_and_reset_stats e))
  in_stage fuel e c result unknown = some e

  unfoldable pub automata : ℕ → Engine E T → ℕ → ℤ → Option (Engine E T)
  automata fuel e c result =
      if is_corrupted result
      then some (close_gracefully e c)
      else in_stage fuel e c result (e.at_offset c).stage
