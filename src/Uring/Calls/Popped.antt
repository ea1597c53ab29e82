-- ===== src/Uring/Calls/Popped.antt =====
-- No completion is lost or made up.
use ucall.Prelude.{
  subst, ℕ, zero, suc, ◌+◌, ◌≤◌, ◌<◌, ◌≡◌, refl, sym, inl, inr, Option-cases, ap, ◌∙◌, none, some,
  List, [], ◌∷◌, length, take, arith,
}
use ucall.Uring.Calls.{Cqe, CompletedEvent, pop_completed}

-- The event of each entry that names a connection, in order.
abbrev pub named : List Cqe → List CompletedEvent
named [] = []
named (cqe ∷ cqes) = elim cqe.user_data [
  | none ↦ named cqes
  | some c ↦ record { connection = c; result = cqe.res } ∷ named cqes
]

take_next : (cqe : Cqe) (cqes : List Cqe) (n : ℕ) → take (n + 1) (cqe ∷ cqes) ≡ cqe ∷ take n cqes
take_next cqe cqes n = ap (λ k. take k (cqe ∷ cqes)) {y = suc n} (omega arith)

-- What `pop_completed` promises of its result.
abbrev pub Popped : ℕ → List Cqe → List CompletedEvent × ℕ → Type 0
Popped room cqes (events, passed) =
    (events ≡ named (take passed cqes))
    × (length events ≤ room)
    × (length events < room → passed ≡ length cqes)

with_none-Popped :
    (room : ℕ) (cqe : Cqe) (cqes : List Cqe)
    → cqe.user_data ≡ none
    → (r : List CompletedEvent × ℕ) → Popped room cqes r
    → Popped room (cqe ∷ cqes) (r.0, r.1 + 1)
with_none-Popped room cqe cqes e (events, passed) (same, few, all) =
    (same ∙ sym (ap named (take_next cqe cqes passed) ∙ rw e refl), few, λ h. omega (arith, all h))

with_some-Popped :
    (room c : ℕ) (cqe : Cqe) (cqes : List Cqe)
    → cqe.user_data ≡ some c
    → (r : List CompletedEvent × ℕ) → Popped room cqes r
    → Popped (suc room) (cqe ∷ cqes) (record { connection = c; result = cqe.res } ∷ r.0, r.1 + 1)
with_some-Popped room c cqe cqes e (events, passed) (same, few, all) = (
  ap (λ t. record { connection = c; result = cqe.res } ∷ t) same
      ∙ sym (ap named (take_next cqe cqes passed) ∙ rw e refl),
  omega (arith, few),
  λ h. omega (arith, all (omega (arith, h))),
)

pop_completed-none :
    (room : ℕ) (cqe : Cqe) (cqes : List Cqe)
    → cqe.user_data ≡ none
    → pop_completed (suc room) (cqe ∷ cqes)
      ≡ ((pop_completed (suc room) cqes).0, (pop_completed (suc room) cqes).1 + 1)
unfolding pop_completed
pop_completed-none room cqe cqes e = rw (e, pop_completed) refl

pop_completed-some :
    (room c : ℕ) (cqe : Cqe) (cqes : List Cqe)
    → cqe.user_data ≡ some c
    → pop_completed (suc room) (cqe ∷ cqes) ≡ (
      record { connection = c; result = cqe.res } ∷ (pop_completed room cqes).0,
      (pop_completed room cqes).1 + 1,
    )
unfolding pop_completed
pop_completed-some room c cqe cqes e = rw (e, pop_completed) refl

-- The events are those of the entries that the queue is advanced by, in order; there are no more of them
-- than room, and where there are fewer, the whole queue was read.
pub pop_completed_lem : (room : ℕ) (cqes : List Cqe) → Popped room cqes (pop_completed room cqes)
unfolding pop_completed
pop_completed_lem zero cqes = (refl, omega arith, λ h. absurd (omega arith))
pop_completed_lem (suc room) [] = (refl, omega arith, λ h. refl)
pop_completed_lem (suc room) (cqe ∷ cqes) = elim (Option-cases cqe.user_data) [
  | inl e ↦ subst (Popped (suc room) (cqe ∷ cqes)) (sym (pop_completed-none room cqe cqes e)) (
      with_none-Popped (suc room) cqe cqes e (pop_completed (suc room) cqes)
        (pop_completed_lem (suc room) cqes))
  | inr (c, e) ↦
      subst (Popped (suc room) (cqe ∷ cqes)) (sym (pop_completed-some room c cqe cqes e))
        (with_some-Popped room c cqe cqes e (pop_completed room cqes) (pop_completed_lem room cqes))
]
