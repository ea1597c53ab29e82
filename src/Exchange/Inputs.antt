-- ===== src/Exchange/Inputs.antt =====
-- Receiving a request in packets: the input holds the packets in order, wherever it lies.
use ucall.Prelude.{
  ℕ, ◌≤◌, ◌≡◌, ◌⊎◌, inl, inr, refl, sym, ap, subst, ◌∙◌, Bool, true, false, List, [], ◌∷◌, ◌++◌,
  append-nil, append_assoc, arith, Bytes, length, take, take-memcpy, length-memcpy, memcpy,
  eq-nil_of_length, Bool-cases, ◌==◌, if◌then◌else◌,
}
use ucall.Memory.Allocator.{Allocator}
use ucall.Memory.Array.{Array, size}
use ucall.Memory.Array.Growth.{append_n_lem, append_n_total}
use ucall.Exchange.{
  Pipes, ram_page_size, input_span, receive_into_page, absorb_input, shift_input_to_dynamic,
}

-- Ready for the next packet: nothing on the page that is still needed.
pub record IsReady (ps : Pipes) : Type 0 where
  pub page : length ps.input.embedded ≡ ram_page_size
  pub clear : ps.input.embedded_used ≡ 0

module _ (heap : Allocator) where
  -- One reception: the kernel fills the page, and `absorb_input` takes note.
  pub receive : Pipes → Bytes → Bool × Pipes
  receive ps packet = absorb_input heap (receive_into_page ps packet) (length packet)

  -- A request that is not complete yet: absorb, then make the page free again.
  receive_more : Pipes → Bytes → Bool × Pipes
  unfolding receive
  receive_more ps packet =
      let (absorbed, ps₁) = receive ps packet in
      let (shifted, ps₂) = shift_input_to_dynamic heap ps₁ in
      if absorbed then (shifted, ps₂) else (false, ps₁)

  -- Several packets, until the heap gives out.
  pub receive_all : Pipes → List Bytes → Bool × Pipes
  receive_all ps [] = (true, ps)
  receive_all ps (packet ∷ packets) =
      let (done, ps') = receive_more ps packet in
      let rest = receive_all ps' packets in if done then rest else (false, ps')

  page_holds : (mem packet : Bytes) → take (length packet) (memcpy mem 0 packet) ≡ packet
  page_holds mem packet =
      ap (λ k. take k (memcpy mem 0 packet)) {x = length packet} (omega arith)
      ∙ take-memcpy mem 0 packet (omega arith)

  abbrev on_page : Pipes → Bytes → Pipes
  on_page ps packet = record ps {
    input = record (ps.input) {
      embedded = memcpy ps.input.embedded 0 packet;
      embedded_used = length packet;
    };
  }

  receive_first :
      (ps : Pipes) (packet : Bytes)
      → (size ps.input.dynamic == 0) ≡ true
      → receive ps packet ≡ (true, on_page ps packet)
  unfolding receive absorb_input receive_into_page
  receive_first ps packet e = rw e

  receive_later :
      (ps : Pipes) (packet : Bytes)
      → (size ps.input.dynamic == 0) ≡ false
      → receive ps packet ≡ shift_input_to_dynamic heap (on_page ps packet)
  unfolding receive absorb_input receive_into_page
  receive_later ps packet e = rw e

  -- A shift moves the used part of the page behind the array, and frees the page.
  shift_lem :
      (ps : Pipes)
      → (shift_input_to_dynamic heap ps).0 ≡ true
      → let ps' = (shift_input_to_dynamic heap ps).1 in
        (ps'.input.dynamic.elements
          ≡ ps.input.dynamic.elements ++ take ps.input.embedded_used ps.input.embedded)
        × (ps'.input.embedded_used ≡ 0)
        × (ps'.input.embedded ≡ ps.input.embedded)
  unfolding shift_input_to_dynamic
  shift_lem ps h =
      ground
        (arith, append_n_lem heap ps.input.dynamic (take ps.input.embedded_used ps.input.embedded))

  span_first :
      (ps : Pipes)
      → (size ps.input.dynamic == 0) ≡ true
      → input_span ps ≡ take ps.input.embedded_used ps.input.embedded
  unfolding input_span
  span_first ps e = rw e

  -- With a free page the input is the array.
  span_free : (ps : Pipes) → ps.input.embedded_used ≡ 0 → input_span ps ≡ ps.input.dynamic.elements
  unfolding input_span
  span_free ps e = elim (Bool-cases (size ps.input.dynamic == 0)) [
    | inl z ↦ rw (z, e) (sym (eq-nil_of_length ps.input.dynamic.elements (ground arith)))
    | inr z ↦ rw z
  ]

  -- What a reception that succeeds has done: the input is what it was and the packet, and either the
  -- page is free or the array is empty.
  record Received (ps : Pipes) (packet : Bytes) (ps' : Pipes) : Type 0 where
    text : input_span ps' ≡ input_span ps ++ packet
    page : length ps'.input.embedded ≡ ram_page_size
    either : (ps'.input.embedded_used ≡ 0) ⊎ ((size ps'.input.dynamic == 0) ≡ true)

  receive-Received :
      (ps : Pipes) (packet : Bytes)
      → IsReady ps
      → length packet ≤ ram_page_size
      → (receive ps packet).0 ≡ true
      → Received ps packet (receive ps packet).1
  receive-Received ps packet v fits h = elim (Bool-cases (size ps.input.dynamic == 0)) [
    | inl e ↦ rw (receive_first ps packet e) (record {
      text =
          span_first (on_page ps packet) e
          ∙ page_holds ps.input.embedded packet
          ∙ sym (
              ap (λ t. t ++ packet) (span_first ps e ∙ ap (λ k. take k ps.input.embedded) v.clear));
      page = keeps;
      either = inr e;
    })
    | inr e ↦
        let (els, used, emb) =
          shift_lem (on_page ps packet)
            (subst (λ (r : Bool × Pipes). r.0 ≡ true) (receive_later ps packet e) h) in
        rw (receive_later ps packet e) (record {
          text =
              span_free _ used
              ∙ els
              ∙ ap (◌++◌ ps.input.dynamic.elements) (page_holds ps.input.embedded packet)
              ∙ sym (ap (λ t. t ++ packet) (span_free ps v.clear));
          page = ap length emb ∙ keeps;
          either = inl used;
        })
  ]
    where
      keeps : length (memcpy ps.input.embedded 0 packet) ≡ ram_page_size
      keeps = length-memcpy ps.input.embedded 0 packet (omega (arith, v.page)) ∙ v.page

  -- The shift that frees the page keeps the text.
  shift_text :
      (ps : Pipes)
      → (ps.input.embedded_used ≡ 0) ⊎ ((size ps.input.dynamic == 0) ≡ true)
      → (shift_input_to_dynamic heap ps).0 ≡ true
      → input_span (shift_input_to_dynamic heap ps).1 ≡ input_span ps
  shift_text ps (inl e) h =
      let (els, used, emb) = shift_lem ps h in
      span_free _ used
      ∙ els
      ∙ ap (λ k. ps.input.dynamic.elements ++ take k ps.input.embedded) e
      ∙ append-nil ps.input.dynamic.elements
      ∙ sym (span_free ps e)
  shift_text ps (inr e) h =
      let (els, used, emb) = shift_lem ps h in
      span_free _ used
      ∙ els
      ∙ ap (λ d. d ++ take ps.input.embedded_used ps.input.embedded)
          (eq-nil_of_length ps.input.dynamic.elements (ground arith))
      ∙ sym (span_first ps e)

  receive_more-true :
      (ps : Pipes) (packet : Bytes)
      → (receive_more ps packet).0 ≡ true
      → ((receive ps packet).0 ≡ true)
        × ((shift_input_to_dynamic heap (receive ps packet).1).0 ≡ true)
        × ((receive_more ps packet).1 ≡ (shift_input_to_dynamic heap (receive ps packet).1).1)
  unfolding receive_more
  receive_more-true ps packet h = ground arith

  receive_more_lem :
      (ps : Pipes) (packet : Bytes)
      → IsReady ps
      → length packet ≤ ram_page_size
      → (receive_more ps packet).0 ≡ true
      → (input_span (receive_more ps packet).1 ≡ input_span ps ++ packet)
        × IsReady (receive_more ps packet).1
  receive_more_lem ps packet v fits h =
      let (r, s, e) = receive_more-true ps packet h in
      let got = receive-Received ps packet v fits r in
      let (els, used, emb) = shift_lem (receive ps packet).1 s in
      rw e (
        shift_text (receive ps packet).1 got.either s ∙ got.text,
        record { page = ap length emb ∙ got.page; clear = used },
      )

  abbrev AllFit : List Bytes → Type 0
  AllFit [] = Unit {0}
  AllFit (p ∷ ps) = (length p ≤ ram_page_size) × AllFit ps

  abbrev pub concat : List Bytes → Bytes
  concat [] = []
  concat (p ∷ ps) = p ++ concat ps

  receive_all-true :
      (ps : Pipes) (p : Bytes) (packets : List Bytes)
      → (receive_all ps (p ∷ packets)).0 ≡ true
      → ((receive_more ps p).0 ≡ true)
        × ((receive_all (receive_more ps p).1 packets).0 ≡ true)
        × ((receive_all ps (p ∷ packets)).1 ≡ (receive_all (receive_more ps p).1 packets).1)
  unfolding receive_all
  receive_all-true ps p packets h = ground arith

  -- If the heap gives room for them, the input holds the packets of a request in the order of their
  -- arrival behind what it held before, and the page is free for the next one.
  pub receive_all_lem :
      (ps : Pipes) (packets : List Bytes)
      → IsReady ps
      → AllFit packets
      → (receive_all ps packets).0 ≡ true
      → (input_span (receive_all ps packets).1 ≡ input_span ps ++ concat packets)
        × IsReady (receive_all ps packets).1
  unfolding receive_all
  receive_all_lem ps [] v fits h = (sym (append-nil (input_span ps)), v)
  receive_all_lem ps (p ∷ packets) v fits h =
      let (first, rest, e) = receive_all-true ps p packets h in
      let (text, v') = receive_more_lem ps p v fits.0 first in
      let (more, v'') = receive_all_lem (receive_more ps p).1 packets v' fits.1 rest in
      rw e (
        more ∙ ap (λ t. t ++ concat packets) text ∙ append_assoc (input_span ps) p (concat packets),
        v'',
      )

  receive_more_total :
      (ps : Pipes) (p : Bytes)
      → ((n : ℕ) → heap.malloc n ≡ true)
      → ((n : ℕ) → heap.realloc n ≡ true)
      → (receive_more ps p).0 ≡ true
  unfolding receive_more receive absorb_input shift_input_to_dynamic
  receive_more_total ps p m r =
      grind (arith, λ (a : Array ℕ) (xs : List ℕ). append_n_total heap a xs m r)

  -- A heap that gives every block that is asked for lets every request in.
  pub receive_all_total :
      (ps : Pipes) (packets : List Bytes)
      → ((n : ℕ) → heap.malloc n ≡ true)
      → ((n : ℕ) → heap.realloc n ≡ true)
      → (receive_all ps packets).0 ≡ true
  unfolding receive_all
  receive_all_total ps [] m r = refl
  receive_all_total ps (p ∷ packets) m r =
      rw (receive_more_total ps p m r) (receive_all_total (receive_more ps p).1 packets m r)
