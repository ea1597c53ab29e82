-- ===== src/Tests/Circles.antt =====
-- A circle of four connections.
use ucall.Prelude.{ℕ, ◌<◌, ◌≡◌, refl, some, List, [], ◌∷◌, pos, arith, get_elem?}
use ucall.RoundRobin.{Slot, RoundRobin, poll}
use ucall.RoundRobin.Queue.{Represents}
use ucall.RoundRobin.Refine.{Op, push, drop, queue_run, ring_run, run-Represents, poll_idle}

abbrev vacant : ℕ → Slot ℕ
vacant n = record {
  descriptor = pos n;
  skipped_cycles = 0;
  copies_count = 0;
  iovecs_count = 0;
  rest = n;
}

abbrev circle : List (Slot ℕ)
circle = vacant 10 ∷ vacant 11 ∷ vacant 12 ∷ vacant 13 ∷ []

-- The last slot is the only connection.
abbrev ring : RoundRobin ℕ
ring = record {
  circle = circle;
  count = 1;
  capacity = 4;
  idx_newest = 0;
  idx_oldest = 3;
  idx_to_poll = 3;
}

abbrev ops : List Op
ops = push (pos 20) ∷ push (pos 21) ∷ drop ∷ push (pos 22) ∷ drop ∷ []

ring-Represents : Represents ring (pos 13 ∷ [])
ring-Represents = record {
  ring = record {
    slots = refl;
    oldest = omega arith;
    few = omega arith;
    small = omega arith;
    newest = refl;
  };
  amount = refl;
  lists = ((vacant 13, refl, refl), tt);
}

queue_runs : queue_run 4 (pos 13 ∷ []) ops ≡ some (pos 13 ∷ pos 20 ∷ [], pos 21 ∷ pos 22 ∷ [])
unfolding queue_run
queue_runs = refl

run-Represents_example :
    (r' : RoundRobin ℕ) × (ring_run ring ops ≡ some (pos 13 ∷ pos 20 ∷ [], r'))
    × Represents r' (pos 21 ∷ pos 22 ∷ [])
run-Represents_example =
    run-Represents ops ring (pos 13 ∷ []) (pos 13 ∷ pos 20 ∷ []) (pos 21 ∷ pos 22 ∷ [])
      ring-Represents queue_runs

-- The third slot is the only connection.
abbrev middle : RoundRobin ℕ
middle = record {
  circle = circle;
  count = 1;
  capacity = 4;
  idx_newest = 3;
  idx_oldest = 2;
  idx_to_poll = 2;
}

poll_idle_example :
    (slot : Slot ℕ) × (r' : RoundRobin ℕ) × (poll middle ≡ some (slot, r'))
    × (r'.idx_to_poll < 2)
    × (get_elem? circle r'.idx_to_poll ≡ some slot)
poll_idle_example =
    poll_idle middle
      (record {
        slots = refl;
        oldest = omega arith;
        few = omega arith;
        small = omega arith;
        newest = refl;
      })
      (omega arith) (omega arith) (omega arith)
