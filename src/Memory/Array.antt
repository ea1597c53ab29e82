-- ===== src/Memory/Array.antt =====
-- `array_gt` of src/helpers/shared.hpp: a growing array that reports failed allocations.
-- The list holds the elements below `count_`; the room above them has no readable content.
pub mod Growth
use ucall.Prelude.{
  ℕ, ◌+◌, ◌-◌, ◌≤◌, Bool, true, false, List, [], ◌∷◌, ◌++◌, length, take, leb, if◌then◌else◌,
}
use ucall.Memory.Allocator.{Allocator}

pub record Array {ℓ} (A : Type ℓ) : Type ℓ where
  pub elements : List A
  -- whether `elements_` points to a block
  pub allocated : Bool
  pub capacity : ℕ

module _ {ℓ} {A : Type ℓ} where
  abbrev pub empty : Array A
  empty = record { elements = []; allocated = false; capacity = 0 }

  abbrev pub size : Array A → ℕ
  size a = length a.elements

  -- `free` and back to the null pointer.
  unfoldable pub reset : Array A → Array A
  reset a = empty

  -- At most the given room is used.
  unfoldable pub push_back_reserved : Array A → A → Array A
  push_back_reserved a x = record a { elements = a.elements ++ x ∷ [] }

  -- `count_ -= n`, for `n` no larger than the count.
  unfoldable pub pop_back : Array A → ℕ → Array A
  pop_back a n = record a { elements = take (size a - n) a.elements }

  module _ (heap : Allocator) where
    pub reserve : Array A → ℕ → Bool × Array A
    reserve a n =
        if leb n a.capacity
        then (true, a)
        else if (if a.allocated then heap.realloc n else heap.malloc n)
        then (true, record a { allocated = true; capacity = n })
        else (false, a)

    -- The elements lie in memory beside those of the array, so `size() + n` stays below `2 ^ 64`. The one caller
    -- with another count, a reception whose result is an error, is `received` of Uring.Automata.
    pub append_n : Array A → List A → Bool × Array A
    unfolding reserve
    append_n a xs =
        let (done, b) = reserve a (size a + length xs) in
        if done then (true, record b { elements = b.elements ++ xs }) else (false, b)
