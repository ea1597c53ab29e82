-- ===== src/Uring/Reply.antt =====
-- The `ucall_call_reply_*` functions of src/engine_uring.cpp: they append to the connection's pipes.
use ucall.Prelude.{
  ℕ, zero, suc, true, Option, none, some, Bytes, codes, ℤ, neg, length, ◌==◌, if◌then◌else◌,
}
use ucall.Charconv.{to_chars_int}
use ucall.Memory.Allocator.{Allocator}
use ucall.Reply
use ucall.Parse.Callback.{Scratch, max_integer_length}
use ucall.Exchange.{Pipes, append_outputs}
use ucall.Posix.Engine.{Answer, content, error, invalid_params, unknown, out_of_memory}
use ucall.Posix.Reply.{view}

module _ {E : Type 0} (heap : Allocator) (s : Scratch E) where
  -- A refusal of the heap is not looked at.
  unfoldable pub reply_content : Pipes → Bytes → ℕ → Pipes
  reply_content ps body body_len =
      if length s.dynamic_id == 0
      then ps
      else (append_outputs heap ps
          (Reply.fill_with_content s.dynamic_id (view body body_len) true).0).1

  -- `none` means that the fuel for the rounds of errors about errors ran out.
  unfoldable pub reply_error : ℕ → Pipes → ℤ → Bytes → ℕ → Option Pipes
  reply_error zero ps code note note_len = none
  reply_error (suc fuel) ps code note note_len =
      let unknown_error = reply_error fuel ps (neg 32603) (codes "Unknown error.") 14 in
      let oom = λ (ps' : Pipes). reply_error fuel ps' (neg 32000) (codes "Out of memory.") 14 in
      if length s.dynamic_id == 0 then some ps else elim (to_chars_int max_integer_length code) [
        | none ↦ unknown_error
        | some text ↦
            let (done, ps') =
              append_outputs heap ps
                (Reply.fill_with_error s.dynamic_id text (view note note_len) true).0 in
            if done then some ps' else oom ps'
      ]

  unfoldable pub reply_error_invalid_params : ℕ → Pipes → Option Pipes
  reply_error_invalid_params fuel ps =
      reply_error fuel ps (neg 32602) (codes "Invalid method param(s).") 24

  unfoldable pub reply_error_unknown : ℕ → Pipes → Option Pipes
  reply_error_unknown fuel ps = reply_error fuel ps (neg 32603) (codes "Unknown error.") 14

  unfoldable pub reply_error_out_of_memory : ℕ → Pipes → Option Pipes
  reply_error_out_of_memory fuel ps = reply_error fuel ps (neg 32000) (codes "Out of memory.") 14

  -- One call of a callback into the engine.
  unfoldable pub answer : ℕ → Pipes → Answer → Option Pipes
  answer fuel ps (content body len) = some (reply_content ps body len)
  answer fuel ps (error code note len) = reply_error fuel ps code note len
  answer fuel ps invalid_params = reply_error_invalid_params fuel ps
  answer fuel ps unknown = reply_error_unknown fuel ps
  answer fuel ps out_of_memory = reply_error_out_of_memory fuel ps
