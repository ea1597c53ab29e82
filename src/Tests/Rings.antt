-- ===== src/Tests/Rings.antt =====
-- Connections of the ring at concrete states.
use ucall.Prelude.{◌≡◌, false, List, ◌∷◌, some, ℕ, inl, inr, arith, refl, true, none, [], ◌∷◌, pos}
use ucall.Memory.Allocator.{unlimited}
use ucall.Memory.Array
use ucall.Memory.Buffer.{replicate}
use ucall.Parse.Dom.{failed}
use ucall.Exchange.{Pipe}
use ucall.Uring.Engine.{Connection, Engine, expecting_reception}
use ucall.Uring.Automata.{automata}
use ucall.Uring.Automata.Pending.{Continues, automata-Continues}
use ucall.Uring.Calls.{Cqe, pop_completed}
use ucall.Uring.Calls.Popped.{Popped, pop_completed_lem}
use ucall.Uring.Connections.{consider_accepting_new_connection, release_connection}
use ucall.Uring.Automata.Starved.{accepts, look, release, start, starved_forever}
use ucall.Tests.Requests.{Toy, toy_dom, asked}

abbrev fresh_pipe : Pipe
fresh_pipe = record { embedded = replicate 4096 32; embedded_used = 0; dynamic = Array.empty }

abbrev listening : Connection
listening = record {
  pipes = record { input = fresh_pipe; output = fresh_pipe; output_submitted = 0 };
  descriptor = pos 5;
  stage = expecting_reception;
  sleep_ns = 0;
  empty_transmits = 0;
  exchanges = 0;
  next_wakeup_ns = 3000;
  content_length = none;
}

abbrev ring_server : Engine Toy ℕ
ring_server = record {
  reserved_connections = 0;
  active_connections = 1;
  dismissed_connections = 0;
  max_lifetime_exchanges = 100;
  stats = record {
    added_connections = 1;
    closed_connections = 0;
    bytes_received = 0;
    bytes_sent = 0;
    packets_received = 0;
    packets_sent = 0;
  };
  callbacks = [];
  connections = record { capacity = 2; free_count = 1; free_offsets = 0 ∷ 1 ∷ [] };
  at_offset = λ k. listening;
  scratch = asked;
  ring = [];
  clock = 0;
}

automata-Continues_example :
    Continues ring_server 1
      (automata toy_dom unlimited (λ s. failed) (λ n. true) (λ k. true) 2 ring_server 1 (pos 12))
automata-Continues_example =
    automata-Continues toy_dom unlimited (λ s. failed) (λ n. true) (λ k. true) (λ n. refl)
      (λ n. refl) 0 ring_server 1 (pos 12) (inl (refl, inr (inr (omega arith))))

abbrev queued : List Cqe
queued =
    record { user_data = some 1; res = pos 12 }
    ∷ record { user_data = none; res = pos 0 }
    ∷ record { user_data = some 0; res = pos 4 }
    ∷ []

pop_completed_lem_example : Popped 16 queued (pop_completed 16 queued)
pop_completed_lem_example = pop_completed_lem 16 queued

-- Both slots are in use.
abbrev full_server : Engine Toy ℕ
full_server = record ring_server {
  connections = record { capacity = 2; free_count = 0; free_offsets = 0 ∷ 1 ∷ [] };
}

abbrev looked : Engine Toy ℕ
looked = (consider_accepting_new_connection (λ k. true) full_server).1

-- A look, a slot that is given back, and another look.
abbrev freed : Engine Toy ℕ
freed = release_connection looked 1

abbrev looked_again : Engine Toy ℕ
looked_again = (consider_accepting_new_connection (λ k. true) freed).1

starved_forever_example :
    (consider_accepting_new_connection (λ k. true) looked_again ≡ (false, looked_again))
    × (accepts looked_again.ring ≡ accepts full_server.ring)
    × (looked_again.reserved_connections ≡ 1)
starved_forever_example =
    starved_forever toy_dom unlimited (λ s. failed) (λ n. true) (λ k. true) full_server looked_again
      refl refl (look (release 1 start))
