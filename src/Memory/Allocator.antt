-- ===== src/Memory/Allocator.antt =====
-- The heap as the containers see it: a request for room for `n` elements is met or refused.
use ucall.Prelude.{ℕ, Bool, true, false}

pub record Allocator : Type 0 where
  pub malloc : ℕ → Bool
  pub realloc : ℕ → Bool

abbrev pub unlimited : Allocator
unlimited = record { malloc = λ n. true; realloc = λ n. true }

abbrev pub exhausted : Allocator
exhausted = record { malloc = λ n. false; realloc = λ n. false }
