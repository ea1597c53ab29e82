-- ===== src/RoundRobin/Queue.antt =====
-- The ring is a queue of descriptors.
use ucall.Prelude.{
  ℕ, zero, suc, ◌+◌, ◌-◌, ◌%◌, ◌^◌, ◌<◌, ◌≤◌, ◌≡◌, ◌≢◌, ◌⊎◌, inl, inr, refl, ap, sym, subst, ◌∙◌,
  some, List, [], ◌∷◌, ◌++◌, ℤ, arith, length, length-append, length-set, get_elem?, set, ltb,
  Bool-cases,
}
use mathlib.Core.Option
use ucall.Exchange.{sub_size}
use ucall.RoundRobin.{Slot, RoundRobin, update, without_tail, connected, drop_tail, push_ahead}

pub mod_small : (x n : ℕ) → x < n → x % n ≡ x
mod_small x n h = grind arith

pub mod_wrap : (x n : ℕ) → n ≤ x → x < n + n → x % n ≡ x - n
mod_wrap x n h k = grind arith

-- An index around the ring.
around_cases : (x n : ℕ) → x < n + n → ((x < n) × (x % n ≡ x)) ⊎ ((n ≤ x) × (x % n ≡ x - n))
around_cases x n h = elim (Bool-cases (ltb x n)) [
  | inl e ↦ let less : x < n = ground arith in inl (less, mod_small x n less)
  | inr e ↦ let more : n ≤ x = ground arith in inr (more, mod_wrap x n more h)
]

get_elem?-set :
    {A : Type 0} (xs : List A) (i j : ℕ) (v : A) → i ≢ j → get_elem? (set xs i v) j ≡ get_elem? xs j
get_elem?-set [] i j v h = refl
get_elem?-set (x ∷ xs) zero zero v h = absurd (h refl)
get_elem?-set (x ∷ xs) zero (suc j) v h = refl
get_elem?-set (x ∷ xs) (suc i) zero v h = refl
get_elem?-set (x ∷ xs) (suc i) (suc j) v h = get_elem?-set xs i j v (λ e. h (ap suc e))

get_elem?_of_set :
    {A : Type 0} (xs : List A) (i : ℕ) (v : A) → i < length xs → get_elem? (set xs i v) i ≡ some v
get_elem?_of_set [] i v h = absurd (omega arith)
get_elem?_of_set (x ∷ xs) zero v h = refl
get_elem?_of_set (x ∷ xs) (suc i) v h = get_elem?_of_set xs i v (omega arith)

pub get_elem?_inside :
    {A : Type 0} (xs : List A) (i : ℕ) → i < length xs → (x : A) × (get_elem? xs i ≡ some x)
get_elem?_inside [] i h = absurd (omega arith)
get_elem?_inside (x ∷ xs) zero h = (x, refl)
get_elem?_inside (x ∷ xs) (suc i) h = get_elem?_inside xs i (omega arith)

update_at :
    {A : Type 0} (xs : List A) (i : ℕ) (f : A → A) {x : A}
    → get_elem? xs i ≡ some x
    → update xs i f ≡ set xs i (f x)
update_at xs i f e = rw (update, e) refl

-- From the `i`-th slot behind the oldest on, the slots around the ring have these descriptors.
abbrev Lists : {A : Type 0} → List (Slot A) → ℕ → ℕ → ℕ → List ℤ → Type 0
Lists circle oldest capacity i [] = Unit {0}
Lists {A} circle oldest capacity i (d ∷ ds) =
    ((slot : Slot A) × (get_elem? circle ((oldest + i) % capacity) ≡ some slot)
      × (slot.descriptor ≡ d))
    × Lists circle oldest capacity (suc i) ds

-- Two places around the ring that are less than a round apart.
apart : (o i j n : ℕ) → o < n → i < j → j < n → (o + i) % n ≢ (o + j) % n
apart o i j n ho hi hj e = elim (around_cases (o + i) n (omega (arith, ho, hi, hj))) [
  | inl (a, x) ↦ elim (around_cases (o + j) n (omega (arith, ho, hj))) [
    | inl (b, y) ↦ omega (arith, e, x, y, hi)
    | inr (b, y) ↦ omega (arith, e, x, y, hj, hi, b)
  ]
  | inr (a, x) ↦ elim (around_cases (o + j) n (omega (arith, ho, hj))) [
    | inl (b, y) ↦ omega (arith, a, b, hi)
    | inr (b, y) ↦ omega (arith, e, x, y, hi, a, b)
  ]
]

-- One step around the ring and then some are these and one more.
around-suc : (o i n : ℕ) → o < n → i < n → ((o + 1) % n + i) % n ≡ (o + suc i) % n
around-suc o i n ho hi = elim (around_cases (o + 1) n (omega (arith, ho))) [
  | inl (a, x) ↦ ap (λ k. k % n) (omega (arith, x))
  | inr (a, x) ↦
      let z : (o + 1) % n + i ≡ i = omega (arith, x, a, ho) in
      ap (λ k. k % n) z
      ∙ mod_small i n hi
      ∙ sym
          (mod_wrap (o + suc i) n (omega (arith, a)) (omega (arith, ho, hi)) ∙ omega (arith, a, ho))
]

suc-around : (o c n : ℕ) → o < n → c < n → ((o + c) % n + 1) % n ≡ (o + (c + 1)) % n
suc-around o c n ho hc = elim (around_cases (o + c) n (omega (arith, ho, hc))) [
  | inl (a, x) ↦ ap (λ k. k % n) (omega (arith, x))
  | inr (a, x) ↦
      mod_small ((o + c) % n + 1) n (omega (arith, x, a, ho, hc))
      ∙ omega (arith, x, a)
      ∙ sym (mod_wrap (o + (c + 1)) n (omega (arith, a)) (omega (arith, ho, hc)))
]

mod_less : (o i n : ℕ) → o < n → i ≤ n → (o + i) % n < n
mod_less o i n ho hi = elim (around_cases (o + i) n (omega (arith, ho, hi))) [
  | inl (a, x) ↦ omega (arith, a, x)
  | inr (a, x) ↦ omega (arith, a, x, ho, hi)
]

module _ {A : Type 0} (circle : List (Slot A)) (oldest capacity : ℕ)
    (inside : oldest < capacity) where
  -- A slot that is not among those listed may change.
  Lists-set :
      (k i : ℕ) (v : Slot A) (ds : List ℤ)
      → i + length ds ≤ k
      → k < capacity
      → Lists circle oldest capacity i ds
      → Lists (set circle ((oldest + k) % capacity) v) oldest capacity i ds
  Lists-set k i v [] h few l = tt
  Lists-set k i v (d ∷ ds) h few ((slot, at, same), l) = (
    (
      slot,
      get_elem?-set circle ((oldest + k) % capacity) ((oldest + i) % capacity) v
            (λ e. apart oldest i k capacity inside (omega (arith, h)) few (sym e))
          ∙ at,
      same,
    ),
    Lists-set k (suc i) v ds (omega (arith, h)) few l,
  )

  Lists-snoc :
      (i k : ℕ) (ds : List ℤ) (d : ℤ)
      → i + length ds ≡ k
      → (slot : Slot A) → get_elem? circle ((oldest + k) % capacity) ≡ some slot
      → slot.descriptor ≡ d
      → Lists circle oldest capacity i ds
      → Lists circle oldest capacity i (ds ++ d ∷ [])
  Lists-snoc i k [] d e slot at same l = (
    (slot, ap (λ m. get_elem? circle ((oldest + m) % capacity)) (omega (arith, e)) ∙ at, same),
    tt,
  )
  Lists-snoc i k (x ∷ ds) d e slot at same (first, l) =
      (first, Lists-snoc (suc i) k ds d (omega (arith, e)) slot at same l)

  -- Without the oldest slot, which changes, the ring is listed from the next one on.
  Lists-next :
      (i : ℕ) (v : Slot A) (ds : List ℤ)
      → suc i + length ds ≤ capacity
      → Lists circle oldest capacity (suc i) ds
      → Lists (set circle oldest v) ((oldest + 1) % capacity) capacity i ds
  Lists-next i v [] h l = tt
  Lists-next i v (d ∷ ds) h ((slot, at, same), l) = (
    (
      slot,
      ap (get_elem? (set circle oldest v)) (around-suc oldest i capacity inside (omega (arith, h)))
          ∙ get_elem?-set circle oldest ((oldest + suc i) % capacity) v (λ e.
            apart oldest 0 (suc i) capacity inside (omega arith) (omega (arith, h))
              (mod_small (oldest + 0) capacity (omega (arith, inside)) ∙ omega arith ∙ e))
          ∙ at,
      same,
    ),
    Lists-next (suc i) v ds (omega (arith, h)) l,
  )

module _ {A : Type 0} where
  -- The ring has its slots, and the indices of its two ends lie in it, as far apart as there are connections.
  pub record IsRing (r : RoundRobin A) : Type 0 where
    pub slots : length r.circle ≡ r.capacity
    pub oldest : r.idx_oldest < r.capacity
    pub few : r.count ≤ r.capacity
    pub small : r.capacity < 2 ^ 63
    pub newest : r.idx_newest ≡ (r.idx_oldest + r.count) % r.capacity

  -- The ring is sound, and its connections have these descriptors, the oldest first.
  pub record Represents (r : RoundRobin A) (queue : List ℤ) : Type 0 where
    pub ring : IsRing r
    pub amount : r.count ≡ length queue
    pub lists : Lists r.circle r.idx_oldest r.capacity 0 queue

  -- A push is a push to the queue, and a drop takes its first element, while there is room for the one and something for the
  -- other.
  pub push_ahead-Represents :
      (r : RoundRobin A) (queue : List ℤ) (descriptor : ℤ)
      → Represents r queue
      → r.count < r.capacity
      → Represents (push_ahead r descriptor) (queue ++ descriptor ∷ [])
  unfolding push_ahead
  push_ahead-Represents r queue descriptor h room =
      let k = (r.idx_oldest + r.count) % r.capacity in
      let inside = mod_less r.idx_oldest r.count r.capacity h.ring.oldest h.ring.few in
      let (old, at) = get_elem?_inside r.circle k (omega (arith, inside, h.ring.slots)) in
      let new = connected descriptor old in
      let written : (push_ahead r descriptor).circle ≡ set r.circle k new =
        ap (λ i. update r.circle i (connected descriptor)) h.ring.newest
        ∙ update_at r.circle k (connected descriptor) at in
      let there = get_elem?_of_set r.circle k new (omega (arith, inside, h.ring.slots)) in
      record {
        ring = record {
          slots = ap length written ∙ length-set r.circle k new ∙ h.ring.slots;
          oldest = h.ring.oldest;
          few = omega (arith, room);
          small = h.ring.small;
          newest =
              ap (λ m. (m + 1) % r.capacity) h.ring.newest
              ∙ suc-around r.idx_oldest r.count r.capacity h.ring.oldest room;
        };
        amount = omega (arith, h.amount, length-append queue (descriptor ∷ []));
        lists =
            subst (λ c. Lists c r.idx_oldest r.capacity 0 (queue ++ descriptor ∷ [])) (sym written)
              (Lists-snoc (set r.circle k new) r.idx_oldest r.capacity h.ring.oldest 0 r.count queue
                descriptor (omega (arith, h.amount)) new there refl
                (Lists-set r.circle r.idx_oldest r.capacity h.ring.oldest r.count 0 new queue
                  (omega (arith, h.amount)) room h.lists));
      }

  pub drop_tail-Represents :
      (r : RoundRobin A) (descriptor : ℤ) (queue : List ℤ)
      → Represents r (descriptor ∷ queue)
      → (r' : RoundRobin A) × (drop_tail r ≡ some (descriptor, r'))
        × (r'.capacity ≡ r.capacity)
        × Represents r' queue
  unfolding drop_tail
  drop_tail-Represents r descriptor queue h =
      let ((old, at, same), rest) = h.lists in
      let n = r.capacity in
      let o = r.idx_oldest in
      let here : get_elem? r.circle o ≡ some old =
        ap (get_elem? r.circle)
          (sym (mod_small (o + 0) n (omega (arith, h.ring.oldest)) ∙ omega arith))
        ∙ at in
      let next =
        around-suc o (r.count - 1) n h.ring.oldest
          (omega (arith, h.ring.oldest, h.ring.few, h.amount)) in
      let fewer : sub_size r.count 1 ≡ length queue =
        omega (arith, h.amount, h.ring.few, h.ring.small) in
      let r' = (without_tail r old).1 in
      (
        r',
        ap (Option.map (without_tail r)) here ∙ ap (λ d. some (d, r')) same,
        refl,
        record {
          ring = record {
            slots = length-set r.circle o _ ∙ h.ring.slots;
            oldest = mod_less o 1 n h.ring.oldest (omega (arith, h.ring.oldest));
            few = omega (arith, fewer, h.amount, h.ring.few);
            small = h.ring.small;
            newest =
                h.ring.newest
                ∙ ap (λ m. (o + m) % n) (omega (arith, h.amount))
                ∙ sym next
                ∙ ap (λ m. ((o + 1) % n + m) % n) (omega (arith, fewer, h.amount));
          };
          amount = fewer;
          lists =
              Lists-next r.circle o n h.ring.oldest 0 _ queue (omega (arith, h.amount, h.ring.few))
                rest;
        },
      )
