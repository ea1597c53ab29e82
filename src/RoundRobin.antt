-- ===== src/RoundRobin.antt =====
-- src/helpers/round_robin.hpp: a ring of connections that drops the oldest and polls the others in turn. The
-- library does not use it.
pub mod Queue
pub mod Refine
use ucall.Prelude.{
  ℕ, suc, ◌+◌, ◌-◌, ◌%◌, Bool, true, false, Option, none, some, List, [], ◌∷◌, ℤ, neg, length,
  get_elem?, set, ◌==◌, if◌then◌else◌,
}
use mathlib.Core.Option
use ucall.Memory.Allocator.{Allocator}
use ucall.Exchange.{sub_size}

-- What the ring touches of an element; `A` is the rest of it.
pub record Slot (A : Type 0) : Type 0 where
  pub descriptor : ℤ
  pub skipped_cycles : ℕ
  pub copies_count : ℕ
  pub iovecs_count : ℕ
  pub rest : A

pub record RoundRobin (A : Type 0) : Type 0 where
  pub circle : List (Slot A)
  pub count : ℕ
  pub capacity : ℕ
  pub idx_newest : ℕ
  pub idx_oldest : ℕ
  pub idx_to_poll : ℕ

abbrev bad_descriptor : ℤ
bad_descriptor = neg 1

-- An index out of bounds changes nothing.
abbrev pub update : {A : Type 0} → List A → ℕ → (A → A) → List A
update xs i f = elim (get_elem? xs i) [ none ↦ xs | some x ↦ set xs i (f x) ]

module _ {A : Type 0} where
  -- `block` is what the memory that `malloc` gives holds.
  pub alloc : Allocator → (ℕ → List (Slot A)) → RoundRobin A → ℕ → Bool × RoundRobin A
  alloc heap block r n =
      if heap.malloc n then (true, record r { circle = block n; capacity = n }) else (false, r)

  abbrev pub without_tail : RoundRobin A → Slot A → ℤ × RoundRobin A
  without_tail r old = (
    old.descriptor,
    record r {
      circle = set r.circle r.idx_oldest (record old { descriptor = bad_descriptor });
      idx_to_poll =
          if r.idx_to_poll == r.idx_oldest then (r.idx_to_poll + 1) % r.capacity else r.idx_to_poll;
      idx_oldest = (r.idx_oldest + 1) % r.capacity;
      count = sub_size r.count 1;
    },
  )

  -- `none` for a slot out of bounds.
  unfoldable pub drop_tail : RoundRobin A → Option (ℤ × RoundRobin A)
  drop_tail r = Option.map (without_tail r) (get_elem? r.circle r.idx_oldest)

  abbrev pub connected : ℤ → Slot A → Slot A
  connected descriptor slot = record slot {
    descriptor = descriptor;
    skipped_cycles = 0;
    copies_count = 0;
    iovecs_count = 0;
  }

  unfoldable pub push_ahead : RoundRobin A → ℤ → RoundRobin A
  push_ahead r descriptor = record r {
    circle = update r.circle r.idx_newest (connected descriptor);
    idx_newest = (r.idx_newest + 1) % r.capacity;
    count = r.count + 1;
  }

  -- The remainder is that by the number of connections. `none` for a division by zero or a slot out of bounds.
  unfoldable pub poll : RoundRobin A → Option (Slot A × RoundRobin A)
  poll r =
      let following = (r.idx_to_poll + 1) % r.count in
      let to_poll = if following == r.idx_newest then r.idx_oldest else following in
      if r.count == 0 then none else elim (get_elem? r.circle to_poll) [
        | none ↦ none
        | some slot ↦ some (slot, record r { idx_to_poll = to_poll })
      ]

  pub tail : RoundRobin A → Option (Slot A)
  tail r = get_elem? r.circle r.idx_oldest

  -- Behind the first push around the ring the index is -1.
  pub head : RoundRobin A → Option (Slot A)
  head r = get_elem? r.circle (sub_size r.idx_newest 1)
