-- ===== src/Uring/Connections.antt =====
-- How src/engine_uring.cpp takes connections in and lets them go, and what it submits for them.
pub mod Starved
use ucall.Prelude.{
  ℕ, ◌+◌, ◌^◌, ◌%◌, Bool, true, false, not, none, some, [], ◌∷◌, ◌==◌, if◌then◌else◌,
}
use ucall.Log.{no_stats}
use ucall.Memory.Pool
use ucall.Exchange.{
  ram_page_size, sub_size, release_inputs, release_outputs, next_output_address, next_output_length,
}
use ucall.Uring.Engine.{
  Stage, waiting_to_accept, expecting_reception, responding_in_progress, waiting_to_close,
  log_stats, unknown, reset, accept, read, link_timeout, send, cancel, shutdown, close, heartbeat,
  Engine, put, submit,
}

abbrev is_active : Stage → ℕ
is_active waiting_to_accept = 0
is_active expecting_reception = 1
is_active responding_in_progress = 1
is_active waiting_to_close = 1
is_active log_stats = 1
is_active unknown = 1

module _ {E T : Type 0} where
  -- `submitted` tells, for each submission whose result is read, whether it is not negative. The entry
  -- that was prepared stays in the queue either way.
  unfoldable pub offer : (ℕ → Bool) → Engine E T → ℕ → Bool × Engine E T
  offer submitted e c =
      let e' =
        record (submit (put e c (record (e.at_offset c) { stage = waiting_to_accept }))
          (accept c ∷ [])) { clock = e.clock + 1 } in
      if submitted e.clock then (true, record e' { dismissed_connections = 0 }) else (
        false,
        record e' {
          connections = Pool.release e'.connections c;
          reserved_connections = sub_size e'.reserved_connections 1;
        },
      )

  unfoldable pub consider_accepting_new_connection : (ℕ → Bool) → Engine E T → Bool × Engine E T
  consider_accepting_new_connection submitted e =
      let (con, pool) = Pool.alloc e.connections in
      let e' = record e { reserved_connections = 1; connections = pool } in
      if not (e.reserved_connections == 0) then (false, e) else elim con [
        | none ↦
            (false, record e' { dismissed_connections = (e.dismissed_connections + 1) % 2 ^ 64 })
        | some c ↦ offer submitted e' c
      ]

  unfoldable pub release_connection : Engine E T → ℕ → Engine E T
  release_connection e c =
      let active = is_active (e.at_offset c).stage in
      let e' = put e c (reset (e.at_offset c)) in
      record e' {
        connections = Pool.release e.connections c;
        active_connections = sub_size e.active_connections active;
        stats = record (e.stats) {
          closed_connections = (e.stats.closed_connections + active) % 2 ^ 64;
        };
      }

  unfoldable pub close_gracefully : Engine E T → ℕ → Engine E T
  close_gracefully e c =
      let connection = e.at_offset c in
      submit (put e c (record connection { stage = waiting_to_close })) (
        cancel connection.descriptor
        ∷ shutdown connection.descriptor
        ∷ close c connection.descriptor
        ∷ [])

  unfoldable pub send_next : Engine E T → ℕ → Engine E T
  send_next e c =
      let connection = e.at_offset c in
      let pipes = release_inputs connection.pipes in
      submit (put e c (record connection { stage = responding_in_progress; pipes = pipes }))
        (send c connection.descriptor (next_output_address pipes) (next_output_length pipes) ∷ [])

  unfoldable pub receive_next : Engine E T → ℕ → Engine E T
  receive_next e c =
      let connection = e.at_offset c in
      let pipes = release_outputs connection.pipes in
      submit (put e c (record connection { stage = expecting_reception; pipes = pipes }))
        (read c connection.descriptor ram_page_size ∷ link_timeout connection.next_wakeup_ns ∷ [])

  -- The entry names the pseudo-connection of the statistics.
  unfoldable pub submit_stats_heartbeat : Engine E T → Engine E T
  submit_stats_heartbeat e = submit e (heartbeat ∷ [])

  -- Both formats exchange every counter with 0; their texts, which go to a file, are those of Log.
  unfoldable pub log_and_reset_stats : Engine E T → Engine E T
  log_and_reset_stats e = record e { stats = no_stats }
