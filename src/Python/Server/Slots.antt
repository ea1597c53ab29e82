-- ===== src/Python/Server/Slots.antt =====
-- How many procedures a server has room for.
use ucall.Prelude.{
  Bytes, ap₂, suc, ℕ, ◌+◌, ◌*◌, ◌%◌, ◌^◌, ◌<◌, ◌≤◌, ◌≡◌, refl, ap, sym, ◌∙◌, true, false, some,
  List, [], ◌∷◌, ◌++◌, append-nil, append_assoc, arith, length, length-append, ltb, leb, inl, inr,
  Bool-cases,
}
use ucall.Memory.Allocator.{Allocator}
use ucall.Python.Signature.{Callable, Wrapper, prepare_wrapper}
use ucall.Python.Server.{Server, overrun, added, wrapper_size, grow, store, add_procedure, add_all}

-- The callables have these wrappers.
abbrev Prepared : {V T : Type 0} → List (Callable V T) → List (Wrapper V T) → Type 0
Prepared [] [] = Unit {0}
Prepared [] (w ∷ ws) = ⊥
Prepared (f ∷ fs) [] = ⊥
Prepared (f ∷ fs) (w ∷ ws) = (prepare_wrapper f ≡ some w) × Prepared fs ws

-- The names of the callables, with the places of their wrappers from `i` on.
abbrev pub numbered : {V T : Type 0} → ℕ → List (Callable V T) → List (Bytes × ℕ)
numbered i [] = []
numbered i (f ∷ fs) = (f.label, i) ∷ numbered (suc i) fs

abbrev pub extended :
    {V T : Type 0} → Server V T → List (Wrapper V T) → List (Bytes × ℕ) → Server V T
extended s ws labels = record s { wrappers = s.wrappers ++ ws; registered = s.registered ++ labels }

-- The block has room for all its wrappers.
pub record HasRoom {V T : Type 0} (s : Server V T) : Type 0 where
  pub bytes : s.block ≡ s.wrapper_capacity * wrapper_size
  pub some_room : 0 < s.wrapper_capacity
  pub small : s.wrapper_capacity * 2 < 2 ^ 64
  pub fits : length s.wrappers ≤ s.wrapper_capacity

module _ {V T : Type 0} (heap : Allocator) where
  add_within :
      (s : Server V T) (f : Callable V T) (w : Wrapper V T)
      → prepare_wrapper f ≡ some w
      → HasRoom s
      → length s.wrappers < s.wrapper_capacity
      → add_procedure heap s f ≡ added (extended s (w ∷ []) (numbered (length s.wrappers) (f ∷ [])))
  unfolding add_procedure grow store
  add_within s f w e h room =
      let free : ltb (length s.wrappers) s.wrapper_capacity ≡ true = ground arith in
      let inside : leb (length s.wrappers * wrapper_size + wrapper_size) s.block ≡ true =
        ground (arith, h.bytes) in
      rw (add_procedure, e, grow, free, store, inside) refl

  add_behind :
      (s : Server V T) (f : Callable V T) (w : Wrapper V T)
      → prepare_wrapper f ≡ some w
      → HasRoom s
      → length s.wrappers ≡ s.wrapper_capacity
      → ((n : ℕ) → heap.realloc n ≡ true)
      → add_procedure heap s f ≡ overrun
  unfolding add_procedure grow store
  add_behind s f w e h full given =
      let capacity = (s.wrapper_capacity * 2) % 2 ^ 64 in
      let none_free : ltb (length s.wrappers) s.wrapper_capacity ≡ false = ground arith in
      let outside : leb (length s.wrappers * wrapper_size + wrapper_size) capacity ≡ false =
        ground (arith, h.some_room, h.small) in
      rw (add_procedure, e, grow, none_free, given capacity, store, outside) refl

  -- From a server with room, where `realloc` gives every block: as many callables as the capacity allows are
  -- stored and registered in order, and one more makes a write behind the block, since it grows to as many bytes as there are to be wrappers.
  pub add_all_lem :
      (s : Server V T) (fs : List (Callable V T)) (ws : List (Wrapper V T))
      → Prepared fs ws
      → HasRoom s
      → ((n : ℕ) → heap.realloc n ≡ true)
      → (length s.wrappers + length fs ≤ s.wrapper_capacity
          → add_all heap s fs ≡ added (extended s ws (numbered (length s.wrappers) fs)))
        × (s.wrapper_capacity < length s.wrappers + length fs → add_all heap s fs ≡ overrun)
  unfolding add_all
  add_all_lem s [] [] p h given = (
    λ room.
        ap₂ (λ x y. added (record s { wrappers = x; registered = y })) (sym (append-nil s.wrappers))
          (sym (append-nil s.registered)),
    λ full. absurd (omega (arith, full, h.fits)),
  )
  add_all_lem s [] (w ∷ ws) p h given = elim p [ ]
  add_all_lem s (f ∷ fs) [] p h given = elim p [ ]
  add_all_lem s (f ∷ fs) (w ∷ ws) (e, p) h given =
      elim (Bool-cases (ltb (length s.wrappers) s.wrapper_capacity)) [
        | inl b ↦
            let free : length s.wrappers < s.wrapper_capacity = ground arith in
            let s' = extended s (w ∷ []) (numbered (length s.wrappers) (f ∷ [])) in
            let more = length-append s.wrappers (w ∷ []) in
            let h' : HasRoom s' = record {
              bytes = h.bytes;
              some_room = h.some_room;
              small = h.small;
              fits = omega (arith, more, free);
            } in
            let ih = add_all_lem s' fs ws p h' given in
            rw (add_all, add_within s f w e h free)
              (
                (λ room.
                    ih.0 (omega (arith, room, more))
                    ∙ ap₂ (λ x y. added (record s { wrappers = x; registered = y }))
                        (append_assoc s.wrappers (w ∷ []) ws)
                        (append_assoc s.registered (numbered (length s.wrappers) (f ∷ []))
                            (numbered (length s'.wrappers) fs)
                          ∙ ap (λ k. s.registered ++ (f.label, length s.wrappers) ∷ numbered k fs)
                              (omega (arith, more)))),
                (λ full. ih.1 (omega (arith, full, more))),
              )
        | inr b ↦
            let full : length s.wrappers ≡ s.wrapper_capacity = ground (arith, h.fits) in
            rw (add_all, add_behind s f w e h full given)
              ((λ room. absurd (omega (arith, room, full))), (λ more. refl))
      ]
