-- ===== src/Python/Server/Loop.antt =====
-- How many calls the loop serves.
use ucall.Prelude.{
  ℕ, zero, suc, ◌+◌, ◌<◌, ◌≤◌, ◌≡◌, refl, ap, ◌∙◌, Bool, true, false, some, arith, inl, inr,
  Bool-cases, ◌⊎◌, pos, neg, negsuc,
}
use mathlib.Core.Option
use ucall.Python.Server.{run_cycles, run_forever, server_run, Clock}

-- So many calls are served from the `k`-th check on: no signal before the last, and a signal then, or the limit is reached.
pub record Served (signal : ℕ → Bool) (limit k n : ℕ) : Type 0 where
  pub within : n ≤ limit
  pub quiet : (j : ℕ) → j < n → signal (k + j) ≡ false
  pub stops : (n ≡ limit) ⊎ (signal (k + n) ≡ true)

module _ (signal : ℕ → Bool) where
  at_first : (k : ℕ) {b : Bool} → signal k ≡ b → signal (k + 0) ≡ b
  at_first k e = ap signal (omega arith) ∙ e

  behind : (k j : ℕ) {b : Bool} → signal (suc k + j) ≡ b → signal (k + suc j) ≡ b
  behind k j e = ap signal (omega arith) ∙ e

  quiet_from :
      (k n : ℕ)
      → signal k ≡ false
      → ((j : ℕ) → j < n → signal (suc k + j) ≡ false)
      → (j : ℕ) → j < suc n
      → signal (k + j) ≡ false
  quiet_from k n e q zero h = at_first k e
  quiet_from k n e q (suc j) h = behind k j (q j (omega (arith, h)))

  run_cycles-Served : (limit k : ℕ) → Served signal limit k (run_cycles signal limit k)
  unfolding run_cycles
  run_cycles-Served zero k = record {
    within = omega arith;
    quiet = λ j h. absurd (omega (arith, h));
    stops = inl refl;
  }
  run_cycles-Served (suc limit) k = elim (Bool-cases (signal k)) [
    | inl e ↦
        rw (run_cycles, e)
          (record {
            within = omega arith;
            quiet = λ j h. absurd (omega (arith, h));
            stops = inr (at_first k e);
          })
    | inr e ↦
        let r = run_cycles-Served limit (suc k) in
        rw (run_cycles, e)
          (record {
            within = omega (arith, r.within);
            quiet = quiet_from k _ e r.quiet;
            stops = elim r.stops [ inl s ↦ inl (ap suc s) | inr s ↦ inr (behind k _ s) ];
          })
  ]

  run_forever_ends :
      (fuel k n : ℕ)
      → ((j : ℕ) → j < n → signal (k + j) ≡ false)
      → signal (k + n) ≡ true
      → n < fuel
      → run_forever signal fuel k ≡ some n
  unfolding run_forever
  run_forever_ends zero k n q e h = absurd (omega (arith, h))
  run_forever_ends (suc fuel) k zero q e h =
      let now : signal k ≡ true = ap signal (omega arith) ∙ e in rw (run_forever, now) refl
  run_forever_ends (suc fuel) k (suc n) q e h =
      let not_now : signal k ≡ false = ap signal (omega arith) ∙ q 0 (omega arith) in
      rw (run_forever, not_now)
        (ap (Option.map suc) (
          run_forever_ends fuel (suc k) n
            (λ j less. ap signal (omega arith) ∙ q (suc j) (omega (arith, less)))
            (ap signal (omega arith) ∙ e) (omega (arith, h))))

  module _ {F : Type 0} (clock : Clock F) where
    -- Without a limit in seconds: with `n` cycles the loop ends, and serves calls until a signal is there or `n` are served;
    -- with a negative number but -1 it serves none; with neither limit it serves calls until a signal is there, and ends then,
    -- where the fuel is more than the calls before it.
    pub server_run_lem :
        (fuel : ℕ) (max_seconds : F)
        → clock.is_default max_seconds ≡ true
        → ((limit : ℕ)
            → (n : ℕ) × (server_run signal clock fuel (pos limit) max_seconds ≡ some n)
              × Served signal limit 0 n)
          × ((m : ℕ) → server_run signal clock fuel (negsuc (suc m)) max_seconds ≡ some 0)
          × ((n : ℕ)
              → ((j : ℕ) → j < n → signal j ≡ false)
              → signal n ≡ true
              → n < fuel
              → server_run signal clock fuel (neg 1) max_seconds ≡ some n)
    unfolding server_run
    server_run_lem fuel max_seconds default =
        rw (server_run, default)
          (
            (λ limit. (run_cycles signal limit 0, refl, run_cycles-Served limit 0)),
            (λ m. refl),
            (λ n q e h.
                run_forever_ends fuel 0 n (λ j less. ap signal (omega arith) ∙ q j less)
                  (ap signal (omega arith) ∙ e) h),
          )
