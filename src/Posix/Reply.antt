-- ===== src/Posix/Reply.antt =====
-- `send_message` and the `ucall_call_reply_*` functions of src/engine_posix.cpp.
pub mod Delivered
pub mod Endless
use ucall.Prelude.{
  ℕ, zero, suc, ◌+◌, Bool, true, false, Option, none, some, List, [], ◌∷◌, ◌++◌, Bytes, codes, ℤ,
  neg, length, take, if◌then◌else◌, ◌==◌,
}
use ucall.Charconv.{to_chars_int}
use ucall.Memory.Allocator.{Allocator}
use ucall.Memory.Array.{Array}
use ucall.Parse.Callback.{Scratch, max_integer_length}
use ucall.Posix.Fill.{◌>>=◌, fill_with_content, fill_with_error}
use ucall.Posix.Engine.{
  Answer, content, error, invalid_params, unknown, out_of_memory, Sent, bytes, failed, Engine,
  send_loop,
}

-- The characters before the terminating zero.
unfoldable pub c_string : Bytes → Bytes
c_string [] = []
c_string (c ∷ s) = if c == 0 then [] else c ∷ c_string s

-- A body and its length, where 0 asks for `strlen`.
unfoldable pub view : Bytes → ℕ → Bytes
view s len = if len == 0 then c_string s else take len s

module _ {E T : Type 0} (heap : Allocator) (net : ℕ → Sent) where
  -- `oom` is `ucall_call_reply_error_out_of_memory`, which sends a message in its turn.
  pub send_message : (Engine E T → Option (Engine E T)) → Engine E T → Option (Engine E T)
  send_message oom e =
      let d = send_loop net (length e.buffer.elements) e.buffer.elements (bytes 0) e.clock in
      let e' = record e { wire = e.wire ++ d.taken; clock = d.clock } in
      elim d.last [
        | failed big ↦ if big then oom e' else some e'
        | bytes n ↦ some (record e' {
          stats = record (e.stats) {
            bytes_sent = e.stats.bytes_sent + length d.taken;
            packets_sent = e.stats.packets_sent + 1;
          };
        })
      ]

  -- What follows a filled buffer: single replies are sent at once, those of a batch wait.
  pub finish :
      (Engine E T → Option (Engine E T)) → Engine E T → Bool × Array ℕ → Option (Engine E T)
  unfolding send_message
  finish oom e (done, buffer) =
      let e' = record e { buffer = buffer } in
      if e.scratch.is_batch
      then if done then some e' else oom e'
      else if done
      then send_message oom e'
      else oom e'

  -- The calls go round: a reply that cannot be built or sent is answered by another reply. `none`
  -- means that the fuel for such rounds ran out, or that a header was refused and its length is written
  -- outside of the buffer.
  pub reply_error : ℕ → Engine E T → ℤ → Bytes → ℕ → Option (Engine E T)
  unfolding finish
  reply_error zero e code note note_len = none
  reply_error (suc fuel) e code note note_len =
      let oom = λ (e' : Engine E T). reply_error fuel e' (neg 32000) (codes "Out of memory.") 14 in
      let other =
        λ (e' : Engine E T). reply_error fuel e' (neg 32603) (codes "Unknown error.") 14 in
      let s = e.scratch in
      if length s.dynamic_id == 0 then some e else elim (to_chars_int max_integer_length code) [
        | none ↦ other e
        | some text ↦
            (if s.is_batch
              then fill_with_error heap e.buffer s.dynamic_id text (view note note_len) false true
              else fill_with_error heap e.buffer s.dynamic_id text (view note note_len) s.is_http
                  false)
            >>= finish oom e
      ]

  pub reply_error_invalid_params : ℕ → Engine E T → Option (Engine E T)
  reply_error_invalid_params fuel e =
      reply_error fuel e (neg 32602) (codes "Invalid method param(s).") 24

  pub reply_error_unknown : ℕ → Engine E T → Option (Engine E T)
  reply_error_unknown fuel e = reply_error fuel e (neg 32603) (codes "Unknown error.") 14

  pub reply_error_out_of_memory : ℕ → Engine E T → Option (Engine E T)
  reply_error_out_of_memory fuel e = reply_error fuel e (neg 32000) (codes "Out of memory.") 14

  pub reply_content : ℕ → Engine E T → Bytes → ℕ → Option (Engine E T)
  unfolding finish reply_error_out_of_memory
  reply_content fuel e body body_len =
      let s = e.scratch in
      if length s.dynamic_id == 0
      then some e
      else (if s.is_batch
          then fill_with_content heap e.buffer s.dynamic_id (view body body_len) false true
          else fill_with_content heap e.buffer s.dynamic_id (view body body_len) s.is_http false)
        >>= finish (reply_error_out_of_memory fuel) e

  -- One call of a callback into the engine.
  unfoldable pub answer : ℕ → Engine E T → Answer → Option (Engine E T)
  unfolding reply_error reply_error_invalid_params reply_error_unknown reply_error_out_of_memory
      reply_content
  answer fuel e (content body len) = reply_content fuel e body len
  answer fuel e (error code note len) = reply_error fuel e code note len
  answer fuel e invalid_params = reply_error_invalid_params fuel e
  answer fuel e unknown = reply_error_unknown fuel e
  answer fuel e out_of_memory = reply_error_out_of_memory fuel e
