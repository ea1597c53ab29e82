-- ===== src/Exchange/Outputs.antt =====
-- `append_outputs`: a reply is appended whole or not at all, wherever the output lies.
use ucall.Prelude.{
  ℕ, ◌+◌, ◌≤◌, ◌<◌, ◌≡◌, ◌⊎◌, inl, inr, refl, sym, ap, ◌∙◌, Bool, true, false, ◌&&◌, List, [], ◌∷◌,
  ◌++◌, append-nil, append_assoc, arith, Bytes, length, length-append, length-take, take,
  eq-nil_of_length, Bool-cases, ltb, lt→ltb, ◌==◌, if◌then◌else◌,
}
use ucall.Memory.Allocator.{Allocator}
use ucall.Memory.Array.{append_n, Array, size, reserve}
use ucall.Memory.Array.Growth.{
  append_n_total, reserve_total, append_n_reserved, reserve_room, elements-reserve,
}
use ucall.Reply.{IoVec, iovecs_length, iovecs_memcpy}
use ucall.Reply.Gather.{gather, InBounds, iovecs_memcpy_lem}
use ucall.Exchange.{
  Pipes, ram_page_size, output_span, append_each, append_to_dynamic, with_dynamic, append_outputs,
}

-- The page has its size, and the used part lies in it.
pub record IsMounted (ps : Pipes) : Type 0 where
  pub page : length ps.output.embedded ≡ ram_page_size
  pub used : ps.output.embedded_used ≤ ram_page_size

-- What the pipe holds, by where it lies.
pub span_embedded :
    (ps : Pipes)
    → size ps.output.dynamic ≡ 0
    → output_span ps ≡ take ps.output.embedded_used ps.output.embedded
unfolding output_span
span_embedded ps e = rw e

span_dynamic :
    (ps : Pipes) → 0 < size ps.output.dynamic → output_span ps ≡ ps.output.dynamic.elements
unfolding output_span
span_dynamic ps h = ground arith

pub span_cleared :
    (ps : Pipes) → ps.output.embedded_used ≡ 0 → output_span ps ≡ ps.output.dynamic.elements
unfolding output_span
span_cleared ps e = elim (Bool-cases (size ps.output.dynamic == 0)) [
  | inl z ↦ rw (z, e) (sym (eq-nil_of_length ps.output.dynamic.elements (ground arith)))
  | inr z ↦ rw z
]

module _ (heap : Allocator) where
  append_each_reserved :
      (d : Array ℕ) (vs : List IoVec)
      → InBounds vs
      → size d + iovecs_length vs ≤ d.capacity
      → append_each heap d vs ≡ (true, record d { elements = d.elements ++ gather vs })
  unfolding append_each iovecs_length gather
  append_each_reserved d [] b h =
      ap (λ es. (true, record d { elements = es })) (sym (append-nil d.elements))
  append_each_reserved d (v ∷ vs) b h =
      let src : Bytes = take v.iov_len v.iov_base in
      let len : length src ≡ v.iov_len = omega (arith, length-take v.iov_len v.iov_base, b.0) in
      rw (append_n_reserved heap d src (omega (arith, len))) (
        append_each_reserved (record d { elements = d.elements ++ src }) vs b.1
          (omega (arith, len, length-append d.elements src))
        ∙ ap (λ es. (true, record d { elements = es })) (append_assoc d.elements src (gather vs)))

  abbrev cleared : Pipes → List ℕ → Pipes
  cleared ps es = record ps {
    output = record (ps.output) {
      embedded_used = 0;
      dynamic = record (ps.output.dynamic) { elements = es };
    };
  }

  to_dynamic_from_page :
      (ps : Pipes) (vs : List IoVec)
      → IsMounted ps
      → InBounds vs
      → size ps.output.dynamic + ps.output.embedded_used + iovecs_length vs
        ≤ ps.output.dynamic.capacity
      → size ps.output.dynamic ≡ 0
      → append_to_dynamic heap ps vs
        ≡ (true, cleared ps (take ps.output.embedded_used ps.output.embedded ++ gather vs))
  unfolding append_to_dynamic
  to_dynamic_from_page ps vs m b room e =
      let page : Bytes = take ps.output.embedded_used ps.output.embedded in
      let len = length-take ps.output.embedded_used ps.output.embedded in
      let none_yet = eq-nil_of_length ps.output.dynamic.elements e in
      rw (
        e,
        append_n_reserved heap ps.output.dynamic page (omega (arith, len)),
        append_each_reserved
            (record (ps.output.dynamic) { elements = ps.output.dynamic.elements ++ page }) vs b
            (omega (arith, len, length-append ps.output.dynamic.elements page)),
        none_yet,
      )

  to_dynamic_more :
      (ps : Pipes) (vs : List IoVec)
      → InBounds vs
      → size ps.output.dynamic + iovecs_length vs ≤ ps.output.dynamic.capacity
      → (size ps.output.dynamic == 0) ≡ false
      → append_to_dynamic heap ps vs ≡ (
        true,
        with_dynamic ps
            (record (ps.output.dynamic) { elements = ps.output.dynamic.elements ++ gather vs }),
      )
  unfolding append_to_dynamic
  to_dynamic_more ps vs b room e = rw (e, append_each_reserved ps.output.dynamic vs b room)

  -- Reserving room does not change what the pipe holds.
  span_with :
      (ps : Pipes) (d : Array ℕ)
      → d.elements ≡ ps.output.dynamic.elements
      → output_span (with_dynamic ps d) ≡ output_span ps
  unfolding output_span
  span_with ps d e = rw e

  abbrev pub in_page : Pipes → List IoVec → Pipes
  in_page ps vs = record ps {
    output = record (ps.output) {
      embedded = iovecs_memcpy vs ps.output.embedded ps.output.embedded_used;
      embedded_used = ps.output.embedded_used + iovecs_length vs;
    };
  }

  pub append_outputs-in_page :
      (ps : Pipes) (vs : List IoVec)
      → (size ps.output.dynamic == 0) ≡ true
      → ps.output.embedded_used + iovecs_length vs < ram_page_size
      → append_outputs heap ps vs ≡ (true, in_page ps vs)
  unfolding append_outputs
  append_outputs-in_page ps vs e h = rw (e, lt→ltb _ _ h)

  append_in_page :
      (ps : Pipes) (vs : List IoVec)
      → IsMounted ps
      → InBounds vs
      → size ps.output.dynamic ≡ 0
      → ps.output.embedded_used + iovecs_length vs < ram_page_size
      → (output_span (in_page ps vs) ≡ output_span ps ++ gather vs) × IsMounted (in_page ps vs)
  append_in_page ps vs m b e h =
      let (text, len) =
        iovecs_memcpy_lem vs ps.output.embedded ps.output.embedded_used b (omega (arith, m.page)) in
      (
        span_embedded (in_page ps vs) e
            ∙ text
            ∙ ap (λ t. t ++ gather vs) (sym (span_embedded ps e)),
        record { page = len ∙ m.page; used = omega arith },
      )

  append_on_heap :
      (ps : Pipes) (vs : List IoVec) (d : Array ℕ)
      → IsMounted ps
      → InBounds vs
      → size ps.output.dynamic + ps.output.embedded_used + iovecs_length vs ≤ d.capacity
      → d.elements ≡ ps.output.dynamic.elements
      → let (done, ps') = append_to_dynamic heap (with_dynamic ps d) vs in
        (done ≡ true) × (output_span ps' ≡ output_span ps ++ gather vs) × IsMounted ps'
  append_on_heap ps vs d m b room same =
      let ps₁ = with_dynamic ps d in
      let m₁ : IsMounted ps₁ = record { page = m.page; used = m.used } in
      let len : size d ≡ size ps.output.dynamic = ap length same in
      elim (Bool-cases (size d == 0)) [
        | inl e ↦
            let z : size d ≡ 0 = ground arith in
            rw (to_dynamic_from_page ps₁ vs m₁ b (omega arith) z) (
              refl,
              span_cleared (cleared ps₁ _) refl
                  ∙ ap (λ t. t ++ gather vs) (sym (span_embedded ps₁ z) ∙ span_with ps d same),
              record { page = m.page; used = omega arith },
            )
        | inr e ↦ rw (to_dynamic_more ps₁ vs b (omega arith) e) (
          refl,
          span_dynamic (with_dynamic ps₁ _)
                (omega (arith, length-append d.elements (gather vs), ground_pos d e))
              ∙ ap (λ t. t ++ gather vs)
                  (sym (span_dynamic ps₁ (ground_pos d e)) ∙ span_with ps d same),
          record { page = m.page; used = m.used },
        )
      ]
    where
      ground_pos : (a : Array ℕ) → (size a == 0) ≡ false → 0 < size a
      ground_pos a e = ground arith

  pub append_outputs_reserved :
      (ps : Pipes) (vs : List IoVec)
      → (size ps.output.dynamic == 0
          && ltb (ps.output.embedded_used + iovecs_length vs) ram_page_size)
        ≡ false
      → let (given, d) =
          reserve heap ps.output.dynamic
            (size ps.output.dynamic + ps.output.embedded_used + iovecs_length vs) in
        append_outputs heap ps vs ≡ (
          if given
          then append_to_dynamic heap (with_dynamic ps d) vs
          else (false, with_dynamic ps d))
  unfolding append_outputs
  append_outputs_reserved ps vs e = rw e

  -- What `append_outputs` promises of its result, with `reason` for a refusal.
  abbrev pub Appends : Pipes → Bytes → Type 0 → Bool × Pipes → Type 0
  Appends ps text reason r =
      IsMounted r.1
      × ((r.0 ≡ true) × (output_span r.1 ≡ output_span ps ++ text)
          ⊎ (r.0 ≡ false) × (output_span r.1 ≡ output_span ps) × reason)

  append_by_heap :
      (ps : Pipes) (vs : List IoVec) {reason : Type 0} (given : Bool) (d : Array ℕ)
      → IsMounted ps
      → InBounds vs
      → d.elements ≡ ps.output.dynamic.elements
      → (given ≡ true
          → size ps.output.dynamic + ps.output.embedded_used + iovecs_length vs ≤ d.capacity)
      → reason
      → Appends ps (gather vs) reason (
          if given
          then append_to_dynamic heap (with_dynamic ps d) vs
          else (false, with_dynamic ps d))
  append_by_heap ps vs true d m b same room why =
      let (done, text, m') = append_on_heap ps vs d m b (room refl) same in (m', inl (done, text))
  append_by_heap ps vs false d m b same room why =
      (record { page = m.page; used = m.used }, inr (refl, span_with ps d same, why))

  -- A reply is appended whole, or the heap refused the room for it and the output is as before. The
  -- heap is asked only where the output already lies there or the page is too small. Either way the
  -- page stays as large as it is, with its used part inside.
  pub append_outputs_lem :
      (ps : Pipes) (vs : List IoVec)
      → IsMounted ps
      → InBounds vs
      → Appends ps
          (gather vs)
          ((0 < size ps.output.dynamic)
            ⊎ (ram_page_size ≤ ps.output.embedded_used + iovecs_length vs))
          (append_outputs heap ps vs)
  append_outputs_lem ps vs m b = elim (Bool-cases stays) [
    | inl e ↦
        let in_page_eq = append_outputs-in_page ps vs (ground arith) (ground arith) in
        let (text, m') = append_in_page ps vs m b (ground arith) (ground arith) in
        rw in_page_eq (m', inl (refl, text))
    | inr e ↦
        let n = size ps.output.dynamic + ps.output.embedded_used + iovecs_length vs in
        rw (append_outputs_reserved ps vs e) (
          append_by_heap ps vs _ _ m b (elements-reserve heap ps.output.dynamic n)
            (λ g. (reserve_room heap ps.output.dynamic n g).0) (ground arith))
  ]
    where
      stays : Bool
      stays =
          size ps.output.dynamic == 0
          && ltb (ps.output.embedded_used + iovecs_length vs) ram_page_size

  append_each_total :
      (d : Array ℕ) (vs : List IoVec)
      → ((n : ℕ) → heap.malloc n ≡ true)
      → ((n : ℕ) → heap.realloc n ≡ true)
      → (append_each heap d vs).0 ≡ true
  unfolding append_each
  append_each_total d [] m r = refl
  append_each_total d (v ∷ vs) m r =
      let src : Bytes = take v.iov_len v.iov_base in
      rw (append_n_total heap d src m r) (append_each_total (append_n heap d src).1 vs m r)

  append_to_dynamic_total :
      (ps : Pipes) (vs : List IoVec)
      → ((n : ℕ) → heap.malloc n ≡ true)
      → ((n : ℕ) → heap.realloc n ≡ true)
      → (append_to_dynamic heap ps vs).0 ≡ true
  unfolding append_to_dynamic
  append_to_dynamic_total ps vs m r =
      let page : Bytes = take ps.output.embedded_used ps.output.embedded in
      ground (
        arith,
        append_n_total heap ps.output.dynamic page m r,
        append_each_total (append_n heap ps.output.dynamic page).1 vs m r,
        append_each_total ps.output.dynamic vs m r,
      )

  -- A heap that gives every block never refuses a reply.
  pub append_outputs_total :
      (ps : Pipes) (vs : List IoVec)
      → ((n : ℕ) → heap.malloc n ≡ true)
      → ((n : ℕ) → heap.realloc n ≡ true)
      → (append_outputs heap ps vs).0 ≡ true
  append_outputs_total ps vs m r = elim (Bool-cases (stays ps vs)) [
    | inl e ↦ rw (append_outputs-in_page ps vs (ground arith) (ground arith)) refl
    | inr e ↦
        rw (append_outputs_reserved ps vs e, reserve_total heap ps.output.dynamic _ m r)
          (append_to_dynamic_total _ vs m r)
  ]
    where
      stays : Pipes → List IoVec → Bool
      stays ps vs =
          size ps.output.dynamic == 0
          && ltb (ps.output.embedded_used + iovecs_length vs) ram_page_size
