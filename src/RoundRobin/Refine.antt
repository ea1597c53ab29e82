-- ===== src/RoundRobin/Refine.antt =====
-- The ring implements a queue of bounded length, and what a poll may give.
use ucall.Prelude.{
  ℕ, ◌+◌, ◌%◌, ◌<◌, ◌≤◌, ◌≡◌, refl, ap, subst, ◌∙◌, true, false, Option, none, some, List, [], ◌∷◌,
  ◌++◌, ℤ, arith, length, ltb, ◌==◌, inl, inr, Bool-cases, get_elem?,
}
use mathlib.Core.Option
use ucall.RoundRobin.{Slot, RoundRobin, drop_tail, push_ahead, poll}
use ucall.RoundRobin.Queue.{
  IsRing, Represents, push_ahead-Represents, drop_tail-Represents, mod_small, get_elem?_inside,
}

-- What is done to a ring or to a queue.
pub data Op : Type 0 where
  push : ℤ → Op
  drop : Op

-- The queue of at most `capacity` descriptors; `none` for a push when it is full or a drop when it is empty.
unfoldable pub queue_run : ℕ → List ℤ → List Op → Option (List ℤ × List ℤ)
queue_run capacity queue [] = some ([], queue)
queue_run capacity queue (push d ∷ ops) = elim (ltb (length queue) capacity) [
  | true ↦ queue_run capacity (queue ++ d ∷ []) ops
  | false ↦ none
]
queue_run capacity [] (drop ∷ ops) = none
queue_run capacity (d ∷ queue) (drop ∷ ops) =
    Option.map (λ (dropped, rest). (d ∷ dropped, rest)) (queue_run capacity queue ops)

module _ {A : Type 0} where
  -- The same on the ring: the descriptors that are dropped, in order, and the ring in the end.
  unfoldable pub ring_run : RoundRobin A → List Op → Option (List ℤ × RoundRobin A)
  ring_run r [] = some ([], r)
  ring_run r (push d ∷ ops) = ring_run (push_ahead r d) ops
  ring_run r (drop ∷ ops) = elim (drop_tail r) [
    | none ↦ none
    | some (d, r') ↦ Option.map (λ (dropped, end). (d ∷ dropped, end)) (ring_run r' ops)
  ]

  -- Where the queue has an outcome, the ring has the same.
  abbrev Agree : Option (List ℤ × List ℤ) → Option (List ℤ × RoundRobin A) → Type 0
  Agree none ring = Unit {0}
  Agree (some (dropped, left)) ring =
      (r' : RoundRobin A) × (ring ≡ some (dropped, r')) × Represents r' left

  Agree-map :
      (d : ℤ) (queue : Option (List ℤ × List ℤ)) (ring : Option (List ℤ × RoundRobin A))
      → Agree queue ring
      → Agree
          (Option.map (λ (dropped, rest). (d ∷ dropped, rest)) queue)
          (Option.map (λ (dropped, end). (d ∷ dropped, end)) ring)
  Agree-map d none ring h = tt
  Agree-map d (some (dropped, left)) ring (r', e, h) =
      (r', ap (Option.map (λ (dropped, end). (d ∷ dropped, end))) e, h)

  runs-Agree :
      (ops : List Op) (r : RoundRobin A) (queue : List ℤ)
      → Represents r queue
      → Agree (queue_run r.capacity queue ops) (ring_run r ops)
  unfolding queue_run ring_run push_ahead
  runs-Agree [] r queue h = (r, refl, h)
  runs-Agree (push d ∷ ops) r queue h = elim (Bool-cases (ltb (length queue) r.capacity)) [
    | inl e ↦
        rw (queue_run, e)
          (runs-Agree ops (push_ahead r d) (queue ++ d ∷ [])
            (push_ahead-Represents r queue d h (ground (arith, h.amount))))
    | inr e ↦ rw (queue_run, e) tt
  ]
  runs-Agree (drop ∷ ops) r [] h = tt
  runs-Agree (drop ∷ ops) r (d ∷ queue) h =
      let (r', e, capacity, h') = drop_tail-Represents r d queue h in
      let rest =
        subst (λ c. Agree (queue_run c queue ops) (ring_run r' ops)) capacity
          (runs-Agree ops r' queue h') in
      rw (ring_run, e) (Agree-map d (queue_run r.capacity queue ops) (ring_run r' ops) rest)

  -- Any sequence of operations that a queue of the ring's capacity allows gives the same descriptors on the ring, and the ring that
  -- is left represents the queue that is left.
  pub run-Represents :
      (ops : List Op) (r : RoundRobin A) (queue dropped left : List ℤ)
      → Represents r queue
      → queue_run r.capacity queue ops ≡ some (dropped, left)
      → (r' : RoundRobin A) × (ring_run r ops ≡ some (dropped, r')) × Represents r' left
  run-Represents ops r queue dropped left h e =
      subst (λ o. Agree o (ring_run r ops)) e (runs-Agree ops r queue h)

mod_lt : (x n : ℕ) → 0 < n → x % n < n
mod_lt x n h = grind arith

-- Where the index of the oldest connection is no less than their number, and they do not reach the end of the circle, a poll gives
-- a slot in front of the oldest one, which is none of the connections: the remainder is that by their number and not by the
-- capacity.
pub poll_idle :
    {A : Type 0} (r : RoundRobin A)
    → IsRing r
    → 0 < r.count
    → r.count ≤ r.idx_oldest
    → r.idx_oldest + r.count < r.capacity
    → (slot : Slot A) × (r' : RoundRobin A) × (poll r ≡ some (slot, r'))
      × (r'.idx_to_poll < r.idx_oldest)
      × (get_elem? r.circle r'.idx_to_poll ≡ some slot)
unfolding poll
poll_idle r h some_there behind room =
    let following = (r.idx_to_poll + 1) % r.count in
    let low = mod_lt (r.idx_to_poll + 1) r.count some_there in
    let newest : r.idx_newest ≡ r.idx_oldest + r.count =
      h.newest ∙ mod_small (r.idx_oldest + r.count) r.capacity room in
    let not_newest : (following == r.idx_newest) ≡ false = ground (arith, newest, low, behind) in
    let not_empty : (r.count == 0) ≡ false = ground (arith, some_there) in
    let (slot, at) = get_elem?_inside r.circle following (omega (arith, low, h.slots, h.few)) in
    (
      slot,
      record r { idx_to_poll = following },
      rw (poll, not_empty, not_newest, at, not_newest) refl,
      omega (arith, low, behind),
      at,
    )
