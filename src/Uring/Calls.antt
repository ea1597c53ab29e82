-- ===== src/Uring/Calls.antt =====
-- `pop_completed` and `ucall_take_call` of src/engine_uring.cpp: the completions that the kernel has queued.
pub mod Popped
use ucall.Prelude.{
  ℕ, zero, suc, ◌+◌, Bool, true, false, Option, none, some, List, [], ◌∷◌, Bytes, ℤ, length, ◌==◌,
  if◌then◌else◌,
}
use ucall.Memory.Allocator.{Allocator}
use ucall.Parse.Dom.{Dom, PhrResult}
use ucall.Uring.Engine.{Engine}
use ucall.Uring.Requests.{◌>>=◌}
use ucall.Uring.Connections.{consider_accepting_new_connection}
use ucall.Uring.Automata.{automata}

-- `struct io_uring_cqe`: the connection that is its user data, if any, and the result.
pub record Cqe : Type 0 where
  pub user_data : Option ℕ
  pub res : ℤ

-- `completed_event_t`; its copy of the stage is never read.
pub record CompletedEvent : Type 0 where
  pub connection : ℕ
  pub result : ℤ

abbrev pub completed_max : ℕ
completed_max = 16

-- At most `room` events, and the number of entries that the queue is advanced by.
pub pop_completed : ℕ → List Cqe → List CompletedEvent × ℕ
pop_completed zero cqes = ([], 0)
pop_completed (suc room) [] = ([], 0)
pop_completed (suc room) (cqe ∷ cqes) = elim cqe.user_data [
  | none ↦ let (events, passed) = pop_completed (suc room) cqes in (events, passed + 1)
  | some c ↦
      let (events, passed) = pop_completed room cqes in
      (record { connection = c; result = cqe.res } ∷ events, passed + 1)
]

module _ {E D T : Type 0} (dom : Dom E D) (heap : Allocator) (phr : Bytes → PhrResult)
    (allocate : ℕ → Bool) (submitted : ℕ → Bool) where
  pub run_events : ℕ → Engine E T → List CompletedEvent → Option (Engine E T)
  run_events fuel e [] = some e
  run_events fuel e (event ∷ events) =
      automata dom heap phr allocate submitted fuel e event.connection event.result >>= λ e'.
      run_events fuel e' events

  -- The first thread looks for a new connection first.
  unfoldable pub take_call : ℕ → ℕ → Engine E T → List Cqe → Option (Engine E T)
  unfolding run_events pop_completed
  take_call fuel thread_idx e cqes =
      let e' = if thread_idx == 0 then (consider_accepting_new_connection submitted e).1 else e in
      run_events fuel e' (pop_completed completed_max cqes).0
