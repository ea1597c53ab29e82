-- ===== src/Exchange/Sending.antt =====
-- Sending a reply in parts: whatever number of bytes each submission delivers, the peer receives the
-- output in order, once and whole.
use ucall.Prelude.{
  ℕ, ◌+◌, ◌%◌, ◌-◌, ◌^◌, ◌≤◌, ◌<◌, ◌≡◌, ◌⊎◌, inl, inr, refl, sym, ap, ◌∙◌, true, false, [], ◌++◌,
  arith, Bytes, min, length, length-take, length-drop, take, drop, take-add, take-take, take_all,
  take-memcpy, length-memcpy, memcpy, Bool-cases, ◌==◌,
}
use ucall.Memory.Array.{Array, size}
use ucall.Exchange.{
  Pipes, sub_size, ram_page_size, output_span, mark_submitted_outputs, prepare_more_outputs,
  has_remaining_outputs, next_output_address, next_output_length,
}

-- The bytes that a submission takes if the kernel reports `n` of them sent.
pub packet : Pipes → ℕ → Bytes
packet ps n = take n (drop (next_output_address ps) ps.output.embedded)

-- A run of `send_next` and its completions on the pipes of a reply: the bytes on the wire, and the
-- pipes at the next submission.
pub data Sending (reply : Pipes) : Bytes → Pipes → Type 0 where
  start : Sending reply [] (prepare_more_outputs reply)
  sent :
      {wire : Bytes} {ps : Pipes} (n : ℕ)
      → Sending reply wire ps
      → n ≤ next_output_length ps
      → has_remaining_outputs (mark_submitted_outputs ps n) ≡ true
      → Sending reply (wire ++ packet ps n) (prepare_more_outputs (mark_submitted_outputs ps n))

-- A reply of which nothing has been sent yet.
pub record IsReply (reply : Pipes) : Type 0 where
  pub page : length reply.output.embedded ≡ ram_page_size
  pub used : reply.output.embedded_used ≤ ram_page_size
  pub fresh : reply.output_submitted ≡ 0
  pub small : size reply.output.dynamic < 2 ^ 64

-- The state of a run whose output lies on the page.
record OnPage (reply : Pipes) (wire : Bytes) (ps : Pipes) : Type 0 where
  same_page : ps.output.embedded ≡ reply.output.embedded
  same_used : ps.output.embedded_used ≡ reply.output.embedded_used
  nothing : size ps.output.dynamic ≡ 0
  nothing_replied : size reply.output.dynamic ≡ 0
  within : ps.output_submitted ≤ ps.output.embedded_used
  so_far : wire ≡ take ps.output_submitted reply.output.embedded

-- The state of a run whose output lies in the array.
record OnHeap (reply : Pipes) (wire : Bytes) (ps : Pipes) : Type 0 where
  same : ps.output.dynamic ≡ reply.output.dynamic
  page : length ps.output.embedded ≡ ram_page_size
  used :
      ps.output.embedded_used ≡ min (size reply.output.dynamic - ps.output_submitted) ram_page_size
  chunk :
      take ps.output.embedded_used ps.output.embedded
      ≡ take ps.output.embedded_used (drop ps.output_submitted reply.output.dynamic.elements)
  within : ps.output_submitted ≤ size reply.output.dynamic
  so_far : wire ≡ take ps.output_submitted reply.output.dynamic.elements

prepare_on_page : (ps : Pipes) → size ps.output.dynamic ≡ 0 → prepare_more_outputs ps ≡ ps
unfolding prepare_more_outputs
prepare_on_page ps e = rw e

packet_on_page :
    (ps : Pipes) (n : ℕ)
    → size ps.output.dynamic ≡ 0
    → packet ps n ≡ take n (drop ps.output_submitted ps.output.embedded)
unfolding packet next_output_address
packet_on_page ps n e = rw e

-- Below the size of a `std::size_t` nothing wraps.
wrapped : (n : ℕ) → n < 2 ^ 64 → n % 2 ^ 64 ≡ n
wrapped n h = omega arith

mark-OnPage :
    (reply ps : Pipes) (wire : Bytes) (n : ℕ)
    → IsReply reply
    → OnPage reply wire ps
    → n ≤ next_output_length ps
    → OnPage reply (wire ++ packet ps n) (mark_submitted_outputs ps n)
unfolding mark_submitted_outputs next_output_length
mark-OnPage reply ps wire n v s h =
    let le : ps.output_submitted + n ≤ ps.output.embedded_used =
      ground (arith, v.used, s.within, s.same_used, s.nothing) in
    let small : ps.output_submitted + n < 2 ^ 64 = omega (arith, v.used, s.same_used, le) in
    record {
      same_page = s.same_page;
      same_used = s.same_used;
      nothing = s.nothing;
      nothing_replied = s.nothing_replied;
      within = omega (arith, le, small);
      so_far =
          ap (λ t. t ++ packet ps n) s.so_far
          ∙ ap (λ t. take ps.output_submitted reply.output.embedded ++ t)
              (packet_on_page ps n s.nothing
                ∙ ap (λ t. take n (drop ps.output_submitted t)) s.same_page)
          ∙ sym (take-add ps.output_submitted n reply.output.embedded)
          ∙ ap (λ k. take k reply.output.embedded) (sym (wrapped (ps.output_submitted + n) small));
    }

packet_on_heap :
    (ps : Pipes) (n : ℕ) → 0 < size ps.output.dynamic → packet ps n ≡ take n ps.output.embedded
unfolding packet next_output_address
packet_on_heap ps n h = ground arith

abbrev next_used : Pipes → ℕ
next_used ps = min (size ps.output.dynamic - ps.output_submitted) ram_page_size

abbrev next_chunk : Pipes → Bytes
next_chunk ps = take (next_used ps) (drop ps.output_submitted ps.output.dynamic.elements)

-- `prepare_more_outputs` puts the next chunk of the array on the page.
prepare_on_heap :
    (ps : Pipes)
    → 0 < size ps.output.dynamic
    → size ps.output.dynamic < 2 ^ 64
    → ps.output_submitted ≤ size ps.output.dynamic
    → prepare_more_outputs ps ≡ record ps {
      output = record (ps.output) {
        embedded_used = next_used ps;
        embedded = memcpy ps.output.embedded 0 (next_chunk ps);
      };
    }
unfolding prepare_more_outputs
prepare_on_heap ps p small within =
    let full : (size ps.output.dynamic == 0) ≡ false = ground arith in
    let exact : sub_size (size ps.output.dynamic) ps.output_submitted
        ≡ size ps.output.dynamic - ps.output_submitted =
      omega arith in
    rw (full, exact)

length-next_chunk : (ps : Pipes) → length (next_chunk ps) ≡ next_used ps
length-next_chunk ps = omega (
  arith,
  length-take (next_used ps) (drop ps.output_submitted ps.output.dynamic.elements),
  length-drop ps.output_submitted ps.output.dynamic.elements,
)

page_chunk :
    (ps : Pipes) → take (next_used ps) (memcpy ps.output.embedded 0 (next_chunk ps)) ≡ next_chunk ps
page_chunk ps =
    ap (λ k. take k (memcpy ps.output.embedded 0 (next_chunk ps)))
      (sym (length-next_chunk ps) ∙ omega arith)
    ∙ take-memcpy ps.output.embedded 0 (next_chunk ps) (omega arith)

-- The array of the reply is not touched, so the facts may be stated of either.
prepare-OnHeap :
    (reply ps : Pipes) (wire : Bytes)
    → 0 < size ps.output.dynamic
    → size ps.output.dynamic < 2 ^ 64
    → ps.output.dynamic ≡ reply.output.dynamic
    → length ps.output.embedded ≡ ram_page_size
    → ps.output_submitted ≤ size ps.output.dynamic
    → wire ≡ take ps.output_submitted ps.output.dynamic.elements
    → OnHeap reply wire (prepare_more_outputs ps)
prepare-OnHeap reply ps wire p small same page within so_far =
    let len : size ps.output.dynamic ≡ size reply.output.dynamic = ap size same in
    rw (prepare_on_heap ps p small within) (record {
      same = same;
      page =
          length-memcpy ps.output.embedded 0 (next_chunk ps) (omega (arith, length-next_chunk ps))
          ∙ page;
      used = omega arith;
      chunk =
          page_chunk ps
          ∙ ap (λ (d : Array ℕ). take (next_used ps) (drop ps.output_submitted d.elements)) same;
      within = omega arith;
      so_far = so_far ∙ ap (λ (d : Array ℕ). take ps.output_submitted d.elements) same;
    })

-- The bytes of a packet are the next ones of the array.
packet_next :
    (reply ps : Pipes) (wire : Bytes) (n : ℕ)
    → OnHeap reply wire ps
    → 0 < size ps.output.dynamic
    → n ≤ ps.output.embedded_used
    → packet ps n ≡ take n (drop ps.output_submitted reply.output.dynamic.elements)
packet_next reply ps wire n s p h =
    packet_on_heap ps n p
    ∙ sym (take-take n ps.output.embedded_used ps.output.embedded h)
    ∙ ap (take n) s.chunk
    ∙ take-take n ps.output.embedded_used (drop ps.output_submitted reply.output.dynamic.elements) h

-- Together: what is on the wire is the start of the output, and it is short of the whole while the
-- run goes on.
abbrev State : Pipes → Bytes → Pipes → Type 0
State reply wire ps =
    OnPage reply wire ps ⊎ ((0 < size reply.output.dynamic) × OnHeap reply wire ps)

wire-OnHeap :
    (reply ps : Pipes) (wire : Bytes) (n : ℕ)
    → OnHeap reply wire ps
    → 0 < size reply.output.dynamic
    → n ≤ next_output_length ps
    → (wire ++ packet ps n ≡ take (ps.output_submitted + n) reply.output.dynamic.elements)
      × (ps.output_submitted + n ≤ size reply.output.dynamic)
unfolding next_output_length
wire-OnHeap reply ps wire n s p h =
    let len : size ps.output.dynamic ≡ size reply.output.dynamic = ap size s.same in
    let le : n ≤ ps.output.embedded_used = ground arith in
    (
      ap (λ t. t ++ packet ps n) s.so_far
          ∙ ap (λ t. take ps.output_submitted reply.output.dynamic.elements ++ t)
              (packet_next reply ps wire n s (omega arith) le)
          ∙ sym (take-add ps.output_submitted n reply.output.dynamic.elements),
      omega (arith, s.used, s.within),
    )

start-State : (reply : Pipes) → IsReply reply → State reply [] (prepare_more_outputs reply)
start-State reply v = elim (Bool-cases (size reply.output.dynamic == 0)) [
  | inl e ↦
      let z : size reply.output.dynamic ≡ 0 = ground arith in
      rw (prepare_on_page reply z) (
        inl (record {
          same_page = refl;
          same_used = refl;
          nothing = z;
          nothing_replied = z;
          within = omega arith;
          so_far = ap (λ k. take k reply.output.embedded) (sym v.fresh);
        }))
  | inr e ↦ inr (
    ground arith,
    prepare-OnHeap reply reply [] (ground arith) v.small refl v.page (omega arith)
        (ap (λ k. take k reply.output.dynamic.elements) (sym v.fresh)),
  )
]

next-State :
    (reply ps : Pipes) (wire : Bytes) (n : ℕ)
    → IsReply reply
    → State reply wire ps
    → n ≤ next_output_length ps
    → State reply (wire ++ packet ps n) (prepare_more_outputs (mark_submitted_outputs ps n))
unfolding mark_submitted_outputs
next-State reply ps wire n v (inl s) h =
    let s' = mark-OnPage reply ps wire n v s h in
    rw (prepare_on_page (mark_submitted_outputs ps n) s'.nothing) (inl s')
next-State reply ps wire n v (inr (p, s)) h =
    let len : size ps.output.dynamic ≡ size reply.output.dynamic = ap size s.same in
    let (text, le) = wire-OnHeap reply ps wire n s p h in
    inr (
      p,
      prepare-OnHeap reply (mark_submitted_outputs ps n) _ (omega arith) (omega (arith, v.small))
          s.same s.page (omega arith)
          (text
            ∙ ap (λ (d : Array ℕ). take (ps.output_submitted + n) d.elements) (sym s.same)
            ∙ ap (λ k. take k ps.output.dynamic.elements)
                (sym (wrapped (ps.output_submitted + n) (omega (arith, v.small))))),
    )

Sending-State :
    {reply : Pipes} {wire : Bytes} {ps : Pipes}
    → IsReply reply
    → Sending reply wire ps
    → State reply wire ps
Sending-State {reply} v start = start-State reply v
Sending-State {reply} v (sent {wire = wire} {ps = ps} n r h more) =
    next-State reply ps wire n v (Sending-State v r) h

-- The run is over when nothing remains: then all of the output has been sent.
done-OnPage :
    (reply ps : Pipes) (wire : Bytes)
    → OnPage reply wire ps
    → has_remaining_outputs ps ≡ false
    → wire ≡ output_span reply
unfolding has_remaining_outputs output_span
done-OnPage reply ps wire s h =
    let e : ps.output_submitted ≡ reply.output.embedded_used =
      ground (arith, s.within, s.same_used, s.nothing) in
    rw s.nothing_replied (s.so_far ∙ ap (λ k. take k reply.output.embedded) e)

done-OnHeap :
    (reply ps : Pipes) (wire : Bytes) (n : ℕ)
    → OnHeap reply wire ps
    → 0 < size reply.output.dynamic
    → n ≤ next_output_length ps
    → has_remaining_outputs (mark_submitted_outputs ps n) ≡ false
    → wire ++ packet ps n ≡ output_span reply
unfolding has_remaining_outputs mark_submitted_outputs output_span
done-OnHeap reply ps wire n s p h d =
    let (text, le) = wire-OnHeap reply ps wire n s p h in
    let full : (size reply.output.dynamic == 0) ≡ false = ground arith in
    let len : size ps.output.dynamic ≡ size reply.output.dynamic = ap size s.same in
    rw full (
      text ∙ take_all (ps.output_submitted + n) reply.output.dynamic.elements (ground (arith, len)))

-- When a completion leaves nothing to send, the bytes on the wire are the reply's output: no byte is
-- lost, doubled or reordered, however the kernel cut the reply into parts.
pub Sending-complete :
    {reply : Pipes} {wire : Bytes} {ps : Pipes} (n : ℕ)
    → IsReply reply
    → Sending reply wire ps
    → n ≤ next_output_length ps
    → has_remaining_outputs (mark_submitted_outputs ps n) ≡ false
    → wire ++ packet ps n ≡ output_span reply
Sending-complete {reply} {wire} {ps} n v r h d = go (Sending-State v r)
  where
    go : State reply wire ps → wire ++ packet ps n ≡ output_span reply
    go (inl s) =
        done-OnPage reply (mark_submitted_outputs ps n) (wire ++ packet ps n)
          (mark-OnPage reply ps wire n v s h) d
    go (inr (p, s)) = done-OnHeap reply ps wire n s p h d

-- While something remains the next submission is not empty, so that each completion that delivers
-- bytes brings the end closer.
pub Sending-progress :
    {reply : Pipes} {wire : Bytes} {ps : Pipes}
    → IsReply reply
    → Sending reply wire ps
    → has_remaining_outputs ps ≡ true
    → 0 < next_output_length ps
unfolding has_remaining_outputs next_output_length
Sending-progress {reply} {wire} {ps} v r more = go (Sending-State v r)
  where
    go : State reply wire ps → 0 < next_output_length ps
    go (inl s) = ground (arith, v.used, s.within, s.same_used, s.nothing)
    go (inr (p, s)) = ground (arith, ap size s.same, s.used, s.within)
