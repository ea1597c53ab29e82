-- ===== src/Memory/Buffer.antt =====
-- `buffer_gt` of src/helpers/shared.hpp: a block of a fixed number of elements.
use ucall.Prelude.{ℕ, zero, suc, Bool, true, false, List, [], ◌∷◌, if◌then◌else◌}
use ucall.Memory.Allocator.{Allocator}

-- `std::uninitialized_default_construct` of `n` elements.
abbrev pub replicate {ℓ} : {A : Type ℓ} → ℕ → A → List A
replicate zero a = []
replicate (suc n) a = a ∷ replicate n a

pub resize {ℓ} : {A : Type ℓ} → Allocator → A → ℕ → Bool × List A
resize heap fresh n = if heap.malloc n then (true, replicate n fresh) else (false, [])
