-- ===== src/Memory/Array/Growth.antt =====
-- What `reserve` and `append_n` keep, and what they do where the heap gives out.
use ucall.Prelude.{
  ℕ, ◌+◌, ◌-◌, ◌≤◌, ◌<◌, ◌≡◌, ◌⊎◌, ap, true, false, List, [], ◌∷◌, ◌++◌, length, length-append,
  arith, take-length-append,
}
use ucall.Memory.Allocator.{Allocator, exhausted}
use ucall.Memory.Array.{Array, size, reserve, append_n, push_back_reserved, pop_back}

-- The elements lie within the block, and there is room only behind a pointer.
pub record IsValid {ℓ} {A : Type ℓ} (a : Array A) : Type 0 where
  pub fits : size a ≤ a.capacity
  pub backed : a.allocated ≡ false → a.capacity ≡ 0

module _ {ℓ} {A : Type ℓ} (heap : Allocator) where
  -- All elements are appended, or the heap refused and nothing changed.
  pub append_n_lem :
      (a : Array A) (xs : List A)
      → ((append_n heap a xs).0 ≡ true) × ((append_n heap a xs).1.elements ≡ a.elements ++ xs)
        ⊎ ((append_n heap a xs).0 ≡ false) × ((append_n heap a xs).1 ≡ a)
  unfolding append_n
  append_n_lem a xs = ground arith

  -- A heap that gives every block never fails an append.
  pub append_n_total :
      (a : Array A) (xs : List A)
      → ((n : ℕ) → heap.malloc n ≡ true)
      → ((n : ℕ) → heap.realloc n ≡ true)
      → (append_n heap a xs).0 ≡ true
  unfolding append_n
  append_n_total a xs m r = ground (arith, m (size a + length xs), r (size a + length xs))

  pub reserve_total :
      (a : Array A) (n : ℕ)
      → ((k : ℕ) → heap.malloc k ≡ true)
      → ((k : ℕ) → heap.realloc k ≡ true)
      → (reserve heap a n).0 ≡ true
  unfolding reserve
  reserve_total a n m r = ground (arith, m n, r n)

  -- No allocation is made where the capacity suffices.
  pub append_n_reserved :
      (a : Array A) (xs : List A)
      → size a + length xs ≤ a.capacity
      → append_n heap a xs ≡ (true, record a { elements = a.elements ++ xs })
  unfolding append_n
  append_n_reserved a xs h = ground arith

  -- After a successful `reserve` there is room, and the elements are the same.
  pub reserve_room :
      (a : Array A) (n : ℕ)
      → (reserve heap a n).0 ≡ true
      → (n ≤ (reserve heap a n).1.capacity) × ((reserve heap a n).1.elements ≡ a.elements)
  unfolding reserve
  reserve_room a n h = ground arith

  pub elements-reserve : (a : Array A) (n : ℕ) → (reserve heap a n).1.elements ≡ a.elements
  unfolding reserve
  elements-reserve a n = ground arith

  reserve-IsValid : (a : Array A) (n : ℕ) → IsValid a → IsValid (reserve heap a n).1
  unfolding reserve
  reserve-IsValid a n v = ground arith

  -- An append keeps the array valid, whether the heap refuses or not.
  append_n-IsValid : (a : Array A) (xs : List A) → IsValid a → IsValid (append_n heap a xs).1
  unfolding append_n
  append_n-IsValid a xs v = ground (arith, length-append a.elements xs)

-- A heap that gives nothing leaves the block as it is: an append does what fits, or fails.
pub append_n-exhausted {ℓ} :
    {A : Type ℓ} (a : Array A) (xs : List A)
    → ((append_n exhausted a xs).1.capacity ≡ a.capacity)
      × (size a ≤ size (append_n exhausted a xs).1)
      × (a.capacity < size a + length xs → append_n exhausted a xs ≡ (false, a))
unfolding append_n
append_n-exhausted a xs =
    (ground arith, ground (arith, length-append a.elements xs), λ h. ground arith)

-- `pop_back` undoes `push_back_reserved`, and while there is room both keep the array valid.
pub pop-push {ℓ} :
    {A : Type ℓ} (a : Array A) (x : A)
    → IsValid a
    → size a < a.capacity
    → (pop_back (push_back_reserved a x) 1 ≡ a) × IsValid (push_back_reserved a x)
unfolding pop_back push_back_reserved
pop-push a x v h =
    let len : length (a.elements ++ x ∷ []) ≡ length a.elements + 1 =
      length-append a.elements (x ∷ []) in
    let e : length (a.elements ++ x ∷ []) - 1 ≡ length a.elements = omega arith in
    (
      ap (λ es. record a { elements = es }) (rw e (take-length-append a.elements (x ∷ []))),
      record { fits = omega arith; backed = v.backed },
    )
