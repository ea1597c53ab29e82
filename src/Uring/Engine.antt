-- ===== src/Uring/Engine.antt =====
-- The state of src/engine_uring.cpp: its connections and the entries of the submission queue.
use ucall.Prelude.{
  ℕ, ◌-◌, ◌^◌, Bool, Option, none, List, ◌++◌, ℤ, pos, negsuc, ltb, ◌==◌, if◌then◌else◌,
}
use ucall.Memory.Pool.{Pool}
use ucall.Parse.Callback.{Scratch, NamedCallback}
use ucall.Exchange.{Pipes, release_inputs, release_outputs}
use ucall.Posix.Engine.{Callback, Stats}

-- `stage_t`
pub data Stage : Type 0 where
  waiting_to_accept expecting_reception responding_in_progress waiting_to_close log_stats unknown :
      Stage

abbrev wakeup_initial_frequency_ns : ℕ
wakeup_initial_frequency_ns = 3000

abbrev pub sleep_growth_factor : ℕ
sleep_growth_factor = 4

abbrev max_inactive_duration_ns : ℕ
max_inactive_duration_ns = 100000000000

-- `connection_t`, less the address of the peer and two headers that are never read.
pub record Connection : Type 0 where
  pub pipes : Pipes
  pub descriptor : ℤ
  pub stage : Stage
  pub sleep_ns : ℕ
  pub empty_transmits : ℕ
  pub exchanges : ℕ
  pub next_wakeup_ns : ℕ
  pub content_length : Option ℕ

pub expired : Connection → Bool
expired c = ltb max_inactive_duration_ns c.sleep_ns

-- The descriptor stays.
pub reset : Connection → Connection
reset c = record c {
  stage = unknown;
  pipes = release_outputs (release_inputs c.pipes);
  content_length = none;
  sleep_ns = 0;
  empty_transmits = 0;
  exchanges = 0;
  next_wakeup_ns = wakeup_initial_frequency_ns;
}

-- An entry of the submission queue. Those that name a connection have it as their user data; a
-- connection is its offset in the pool.
pub data Sqe : Type 0 where
  accept : ℕ → Sqe
  -- connection, descriptor, length
  read : ℕ → ℤ → ℕ → Sqe
  link_timeout : ℕ → Sqe
  -- connection, descriptor, address in the page, length
  send : ℕ → ℤ → ℕ → ℕ → Sqe
  cancel : ℤ → Sqe
  shutdown : ℤ → Sqe
  close : ℕ → ℤ → Sqe
  heartbeat : Sqe

-- `engine_t`, with the scratch space of the thread that is looked at. `ring` is the submission
-- queue, which is taken to have room, in the order of preparation; `clock` counts the submissions
-- whose result is read.
pub record Engine (E T : Type 0) : Type 0 where
  pub reserved_connections : ℕ
  pub active_connections : ℕ
  pub dismissed_connections : ℕ
  pub max_lifetime_exchanges : ℕ
  pub stats : Stats
  pub callbacks : List (NamedCallback (Callback E T) T)
  pub connections : Pool
  pub at_offset : ℕ → Connection
  pub scratch : Scratch E
  pub ring : List Sqe
  pub clock : ℕ

module _ {E T : Type 0} where
  -- The elements of the pool, one of them replaced.
  abbrev pub put : Engine E T → ℕ → Connection → Engine E T
  put e c connection = record e { at_offset = λ k. if k == c then connection else e.at_offset k }

  abbrev pub submit : Engine E T → List Sqe → Engine E T
  submit e entries = record e { ring = e.ring ++ entries }

-- A signed result as the `std::size_t` that it is converted to.
abbrev pub to_size : ℤ → ℕ
to_size (pos n) = n
to_size (negsuc n) = 2 ^ 64 - 1 - n
