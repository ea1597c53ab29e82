-- ===== src/Init/Steps.antt =====
-- The `goto cleanup` of `ucall_init` in src/engine_posix.cpp and src/engine_uring.cpp.
use ucall.Prelude.{
  ◌≡◌, ◌⊎◌, inl, inr, refl, Bool, true, false, ◌&&◌, List, [], ◌∷◌, ◌++◌, Bool-cases, if◌then◌else◌,
}

-- What a failed set-up must give back. The containers free themselves, but not the mapping of the pages:
-- `memory_map_t::reserve` never sets the member `length`, so the destructor's `munmap(ptr, 0)` fails.
pub data Resource : Type 0 where
  server_memory socket ssl_context ring mapping : Resource

-- A call of the set-up: whether it succeeds, and what is held then.
pub record Step : Type 0 where
  pub answer : Bool
  pub gives : List Resource

abbrev pub check : Bool → Step
check answer = record { answer = answer; gives = [] }

abbrev pub acquire : Bool → Resource → Step
acquire answer r = record { answer = answer; gives = r ∷ [] }

-- Each of the tests at the label `cleanup` releases what it finds set; the mapping stays.
unfoldable pub cleanup : List Resource → List Resource
cleanup [] = []
cleanup (server_memory ∷ held) = cleanup held
cleanup (socket ∷ held) = cleanup held
cleanup (ssl_context ∷ held) = cleanup held
cleanup (ring ∷ held) = cleanup held
cleanup (mapping ∷ held) = mapping ∷ cleanup held

pub attempt : List Step → List Resource → Bool × List Resource
unfolding cleanup
attempt [] held = (true, held)
attempt (s ∷ steps) held =
    let rest = attempt steps (s.gives ++ held) in if s.answer then rest else (false, cleanup held)

abbrev pub all_answered : List Step → Bool
all_answered [] = true
all_answered (s ∷ steps) = s.answer && all_answered steps

abbrev pub gathered : List Step → List Resource → List Resource
gathered [] held = held
gathered (s ∷ steps) held = gathered steps (s.gives ++ held)

-- What the steps before the first failure leave behind.
unfoldable pub leaked : List Step → List Resource → List Resource
unfolding cleanup
leaked [] held = []
leaked (s ∷ steps) held =
    let rest = leaked steps (s.gives ++ held) in if s.answer then rest else cleanup held

-- Either every step succeeds and what they gave is held, or one fails and only what is leaked is.
pub attempt_lem :
    (steps : List Step) (held : List Resource)
    → ((all_answered steps ≡ true) × (attempt steps held ≡ (true, gathered steps held)))
      ⊎ ((all_answered steps ≡ false) × (attempt steps held ≡ (false, leaked steps held)))
unfolding attempt leaked
attempt_lem [] held = inl (refl, refl)
attempt_lem (s ∷ steps) held = elim (Bool-cases s.answer) [
  | inl a ↦ elim (attempt_lem steps (s.gives ++ held)) [
    | inl (all, run) ↦ inl (rw (a, all) refl, rw (a, run) refl)
    | inr (some_not, run) ↦ inr (rw (a, some_not) refl, rw (a, run) refl)
  ]
  | inr a ↦ inr (rw a refl, rw a refl)
]
