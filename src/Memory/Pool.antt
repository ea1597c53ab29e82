-- ===== src/Memory/Pool.antt =====
-- `pool_gt` of src/helpers/shared.hpp: a fixed number of slots and the stack of the free ones.
pub mod Ownership
mod Tests
use ucall.Prelude.{
  ℕ, zero, suc, ◌+◌, ◌-◌, Bool, true, false, Option, none, some, List, [], ◌∷◌, get_or, set, ◌==◌,
  if◌then◌else◌,
}
use ucall.Memory.Allocator.{Allocator}

-- The slots' own content is kept by the owner; a slot is its offset.
pub record Pool : Type 0 where
  pub capacity : ℕ
  pub free_count : ℕ
  pub free_offsets : List ℕ

-- `std::iota(p, p + n, i)`
abbrev pub iota : ℕ → ℕ → List ℕ
iota i zero = []
iota i (suc n) = i ∷ iota (i + 1) n

abbrev pub empty : Pool
empty = record { capacity = 0; free_count = 0; free_offsets = [] }

pub reserve : Allocator → Pool → ℕ → Bool × Pool
reserve heap p n =
    if heap.malloc n
    then (true, record { capacity = n; free_count = n; free_offsets = iota 0 n })
    else (false, p)

-- The offset of the slot that is handed out, `none` for the null pointer.
unfoldable pub alloc : Pool → Option ℕ × Pool
alloc p = if p.free_count == 0 then (none, p) else (
  some (get_or p.free_offsets (p.free_count - 1) 0),
  record p { free_count = p.free_count - 1 },
)

-- There is no check that the slot was handed out.
pub release : Pool → ℕ → Pool
release p offset = record p {
  free_count = p.free_count + 1;
  free_offsets = set p.free_offsets p.free_count offset;
}
