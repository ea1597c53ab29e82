-- ===== src/Memory/Pool/Tests.antt =====
use ucall.Prelude.{ℕ, ◌≤◌, ◌<◌, ◌≡◌, ◌⊎◌, refl, true, false, none, some, [], ◌∷◌, length}
use ucall.Memory.Allocator.{unlimited, exhausted}
use ucall.Memory.Pool.{empty, reserve, alloc, release}
use ucall.Memory.Pool.Ownership.{
  World, Reach, here, next, takes, gives, fresh, count, one_below, Reach-exclusive,
}

reserve_two : reserve unlimited empty 2 ≡ (true, (fresh 2).pool)
unfolding reserve
reserve_two = refl

reserve_refused : (reserve exhausted empty 2).0 ≡ false
unfolding reserve
reserve_refused = refl

-- Slot 1 is taken and slot 0 is taken, then slot 1 comes back.
abbrev held : World
held = record {
  pool = record { capacity = 2; free_count = 1; free_offsets = 1 ∷ 1 ∷ [] };
  lent = 0 ∷ [];
}

Reach-held : Reach (fresh 2) held
unfolding alloc release
Reach-held = next (next (next here (takes 1 refl)) (takes 0 refl)) (gives 1 (0 ∷ []) [] refl)

Reach-exclusive_example :
    ((a : ℕ) → count a (0 ∷ []) ≤ one_below 2 a)
    × (((alloc held.pool).0 ≡ none) × (length (held.lent) ≡ 2)
        ⊎ ((s : ℕ) × ((alloc held.pool).0 ≡ some s) × (s < 2) × (count s (held.lent) ≡ 0)))
Reach-exclusive_example = Reach-exclusive 2 held Reach-held
