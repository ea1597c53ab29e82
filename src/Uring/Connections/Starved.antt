-- ===== src/Uring/Connections/Starved.antt =====
-- What a full pool does to the acceptance of connections.
use ucall.Prelude.{ℕ, ◌≡◌, refl, false, Bool}
use ucall.Memory.Pool
use ucall.Uring.Engine.{Engine}
use ucall.Uring.Connections.{consider_accepting_new_connection, release_connection}

module _ {E T : Type 0} (submitted : ℕ → Bool) where
  -- If the engine looks for a connection while the pool has no free slot, it submits no acceptance, and yet
  -- counts one as reserved. The next look submits none, and neither does one after a
  -- connection has given its slot back.
  pub consider_accepting_starved :
      (e : Engine E T) (c : ℕ)
      → e.connections.free_count ≡ 0
      → e.reserved_connections ≡ 0
      → let (found, e') = consider_accepting_new_connection submitted e in
        (found ≡ false)
        × (e'.ring ≡ e.ring)
        × (e'.reserved_connections ≡ 1)
        × (consider_accepting_new_connection submitted e' ≡ (false, e'))
        × (consider_accepting_new_connection submitted (release_connection e' c)
            ≡ (false, release_connection e' c))
  unfolding consider_accepting_new_connection Pool.alloc release_connection
  consider_accepting_starved e c full idle =
      rw (full, idle, consider_accepting_new_connection, Pool.alloc) (refl, refl, refl, refl, refl)
