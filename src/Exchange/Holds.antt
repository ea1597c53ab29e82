-- ===== src/Exchange/Holds.antt =====
-- The output pipe as one text: what each of its operations does to it, wherever the text lies.
use ucall.Prelude.{
  ℕ, ◌+◌, ◌-◌, ◌≤◌, ◌<◌, ◌≡◌, ◌⊎◌, inl, inr, refl, sym, ap, ◌∙◌, Bool, true, false, ◌&&◌, List, [],
  ◌∷◌, ◌++◌, arith, Bytes, length, length-append, length-take, take, take-take, take-length-append,
  take-memcpy, length-memcpy, memcpy, Bool-cases, ltb, ◌==◌,
}
use ucall.Memory.Allocator.{Allocator}
use ucall.Memory.Array
use ucall.Memory.Array.{Array, size, reserve}
use ucall.Memory.Array.Growth.{elements-reserve, reserve_total, append_n_total}
use ucall.Reply.{IoVec, iovecs_length}
use ucall.Reply.Gather.{gather, InBounds}
use ucall.Exchange.{
  Pipes, ram_page_size, output_span, append_outputs, append_to_dynamic, append_embedded,
  push_back_reserved, output_pop_back, append_reserved, release_outputs, sub_size, with_dynamic,
  has_outputs,
}
use ucall.Exchange.Outputs.{
  append_outputs_lem, append_outputs_total, span_embedded, span_cleared, append_outputs-in_page,
  append_outputs_reserved,
}

-- The pipe is sound and holds this text: in the page, which has room for one more byte, or on the heap.
pub record Holds (ps : Pipes) (text : Bytes) : Type 0 where
  pub page : length ps.output.embedded ≡ ram_page_size
  pub used : ps.output.embedded_used < ram_page_size
  pub single : (size ps.output.dynamic ≡ 0) ⊎ (ps.output.embedded_used ≡ 0)
  pub content : output_span ps ≡ text

pub used-Holds : (ps : Pipes) (text : Bytes) → Holds ps text → ps.output.embedded_used ≤ length text
used-Holds ps text h = elim h.single [
  | inl e ↦ omega (
    arith,
    h.page,
    h.used,
    ap length (sym (span_embedded ps e) ∙ h.content),
    length-take ps.output.embedded_used ps.output.embedded,
  )
  | inr e ↦ omega arith
]

-- A released output is empty.
release-Holds :
    (ps : Pipes) → length ps.output.embedded ≡ ram_page_size → Holds (release_outputs ps) []
unfolding release_outputs Array.reset
release-Holds ps h = record {
  page = h;
  used = omega arith;
  single = inl refl;
  content = span_cleared (release_outputs ps) refl;
}

pub length-page :
    (ps : Pipes) (text : Bytes)
    → Holds ps text
    → size ps.output.dynamic ≡ 0
    → ps.output.embedded_used ≡ length text
length-page ps text h e = omega (
  arith,
  h.page,
  h.used,
  ap length (sym (span_embedded ps e) ∙ h.content),
  length-take ps.output.embedded_used ps.output.embedded,
)

pub has_outputs-Holds :
    (ps : Pipes) (c : ℕ) (text : Bytes) → Holds ps (c ∷ text) → has_outputs ps ≡ true
unfolding has_outputs
has_outputs-Holds ps c text h = elim (Bool-cases (size ps.output.dynamic == 0)) [
  | inl z ↦ ground (arith, length-page ps (c ∷ text) h (ground arith))
  | inr z ↦ ground arith
]

abbrev with_page : Pipes → Bytes → ℕ → Pipes
with_page ps page used = record ps {
  output = record (ps.output) { embedded = page; embedded_used = used };
}

-- A short text behind the used part of the page.
page-Holds :
    (ps : Pipes) (text s : Bytes)
    → Holds ps text
    → size ps.output.dynamic ≡ 0
    → ps.output.embedded_used + length s < ram_page_size
    → Holds
        (with_page ps
          (memcpy ps.output.embedded ps.output.embedded_used s)
          (ps.output.embedded_used + length s))
        (text ++ s)
page-Holds ps text s h e room = record {
  page =
      length-memcpy ps.output.embedded ps.output.embedded_used s (omega (arith, h.page)) ∙ h.page;
  used = room;
  single = inl e;
  content =
      span_embedded (with_page ps _ _) e
      ∙ take-memcpy ps.output.embedded ps.output.embedded_used s (omega (arith, h.page))
      ∙ ap (λ t. t ++ s) (sym (span_embedded ps e) ∙ h.content);
}

-- Other content on the heap, where the text lies there.
dynamic-Holds :
    (ps : Pipes) (text : Bytes) (d : Array ℕ)
    → length ps.output.embedded ≡ ram_page_size
    → ps.output.embedded_used ≡ 0
    → d.elements ≡ text
    → Holds (with_dynamic ps d) text
dynamic-Holds ps text d page e same = record {
  page = page;
  used = omega arith;
  single = inr e;
  content = span_cleared (with_dynamic ps d) e ∙ same;
}

pub on_heap :
    (ps : Pipes) (text : Bytes)
    → Holds ps text
    → (size ps.output.dynamic == 0) ≡ false
    → (ps.output.embedded_used ≡ 0) × (ps.output.dynamic.elements ≡ text)
on_heap ps text h z = elim h.single [
  | inl e ↦ absurd (ground arith)
  | inr e ↦ (e, sym (span_cleared ps e) ∙ h.content)
]

elements-push_back_reserved :
    (d : Array ℕ) (c : ℕ) → (Array.push_back_reserved d c).elements ≡ d.elements ++ c ∷ []
unfolding Array.push_back_reserved
elements-push_back_reserved d c = refl

elements-pop_back :
    (d : Array ℕ) (text : Bytes) (c : ℕ)
    → d.elements ≡ text ++ c ∷ []
    → (Array.pop_back d 1).elements ≡ text
unfolding Array.pop_back
elements-pop_back d text c h =
    let less : length (text ++ c ∷ []) - 1 ≡ length text =
      omega (arith, length-append text (c ∷ [])) in
    ap (λ t. take (length t - 1) t) h
    ∙ ap (λ k. take k (text ++ c ∷ [])) less
    ∙ take-length-append text (c ∷ [])

-- One more byte.
pub push-Holds :
    (ps : Pipes) (text : Bytes) (c : ℕ)
    → Holds ps text
    → ps.output.embedded_used + 1 < ram_page_size
    → Holds (push_back_reserved ps c) (text ++ c ∷ [])
unfolding push_back_reserved append_embedded
push-Holds ps text c h room = elim (Bool-cases (size ps.output.dynamic == 0)) [
  | inl z ↦ rw z (page-Holds ps text (c ∷ []) h (ground arith) room)
  | inr z ↦
      let (e, same) = on_heap ps text h z in
      rw z (
        dynamic-Holds ps (text ++ c ∷ []) (Array.push_back_reserved ps.output.dynamic c) h.page e
          (elements-push_back_reserved _ c ∙ ap (λ t. t ++ c ∷ []) same))
]

-- The last byte is taken back, and there is room for it again.
pub pop-Holds :
    (ps : Pipes) (text : Bytes) (c : ℕ)
    → Holds ps (text ++ c ∷ [])
    → Holds (output_pop_back ps) text
      × ((output_pop_back ps).output.embedded_used + 1 < ram_page_size)
unfolding output_pop_back
pop-Holds ps text c h = elim (Bool-cases (size ps.output.dynamic == 0)) [
  | inl z ↦
      let e : size ps.output.dynamic ≡ 0 = ground arith in
      let used : ps.output.embedded_used ≡ length text + 1 =
        omega (arith, length-page ps _ h e, length-append text (c ∷ [])) in
      let less : sub_size ps.output.embedded_used 1 ≡ length text = omega (arith, used, h.used) in
      rw (z, less)
        (
          record {
            page = h.page;
            used = omega (arith, used, h.used);
            single = inl e;
            content =
                span_embedded (with_page ps ps.output.embedded (length text)) e
                ∙ sym (
                    take-take (length text) ps.output.embedded_used ps.output.embedded
                      (omega arith))
                ∙ ap (take (length text)) (sym (span_embedded ps e) ∙ h.content)
                ∙ take-length-append text (c ∷ []);
          },
          omega (arith, used, h.used),
        )
  | inr z ↦
      let (e, same) = on_heap ps _ h z in
      rw z (
        dynamic-Holds ps text (Array.pop_back ps.output.dynamic 1) h.page e
            (elements-pop_back ps.output.dynamic text c same),
        omega arith,
      )
]

-- A closing byte in the place of the last one.
pub replace-Holds :
    (ps : Pipes) (text : Bytes) (c d : ℕ)
    → Holds ps (text ++ c ∷ [])
    → Holds (push_back_reserved (output_pop_back ps) d) (text ++ d ∷ [])
replace-Holds ps text c d h =
    let (popped, room) = pop-Holds ps text c h in push-Holds (output_pop_back ps) text d popped room

-- A text that the page has room for.
pub append_reserved-Holds :
    (heap : Allocator) (ps : Pipes) (text s : Bytes)
    → Holds ps text
    → size ps.output.dynamic ≡ 0
    → ps.output.embedded_used + length s < ram_page_size
    → Holds (append_reserved heap ps s) (text ++ s)
      × (size (append_reserved heap ps s).output.dynamic ≡ 0)
unfolding append_reserved append_embedded
append_reserved-Holds heap ps text s h e room =
    let z : (size ps.output.dynamic == 0) ≡ true = ground arith in
    rw z (page-Holds ps text s h e room, e)

module _ (heap : Allocator) (malloc : (n : ℕ) → heap.malloc n ≡ true)
    (realloc : (n : ℕ) → heap.realloc n ≡ true) where
  to_dynamic_single :
      (ps : Pipes) (vs : List IoVec)
      → (size ps.output.dynamic ≡ 0) ⊎ (ps.output.embedded_used ≡ 0)
      → (append_to_dynamic heap ps vs).1.output.embedded_used ≡ 0
  unfolding append_to_dynamic
  to_dynamic_single ps vs single = elim (Bool-cases (size ps.output.dynamic == 0)) [
    | inl z ↦
        rw
          (
            z,
            append_n_total heap ps.output.dynamic (take ps.output.embedded_used ps.output.embedded)
                malloc realloc,
          )
          refl
    | inr z ↦ rw z (elim single [ inl e ↦ absurd (ground arith) | inr e ↦ e ])
  ]

  append_single :
      (ps : Pipes) (vs : List IoVec)
      → ps.output.embedded_used < ram_page_size
      → (size ps.output.dynamic ≡ 0) ⊎ (ps.output.embedded_used ≡ 0)
      → let ps' = (append_outputs heap ps vs).1 in
        (ps'.output.embedded_used < ram_page_size)
        × ((size ps'.output.dynamic ≡ 0) ⊎ (ps'.output.embedded_used ≡ 0))
  append_single ps vs used single = elim (Bool-cases stays) [
    | inl e ↦
        rw (append_outputs-in_page heap ps vs (ground arith) (ground arith))
          (ground arith, inl (ground arith))
    | inr e ↦
        let n = size ps.output.dynamic + ps.output.embedded_used + iovecs_length vs in
        let z =
          to_dynamic_single (with_dynamic ps (reserve heap ps.output.dynamic n).1) vs (elim single [
            | inl e ↦ inl (ap length (elements-reserve heap ps.output.dynamic n) ∙ e)
            | inr e ↦ inr e
          ]) in
        rw
          (
            append_outputs_reserved heap ps vs e,
            reserve_total heap ps.output.dynamic n malloc realloc,
          )
          (omega (arith, z), inr z)
  ]
    where
      stays : Bool
      stays =
          size ps.output.dynamic == 0
          && ltb (ps.output.embedded_used + iovecs_length vs) ram_page_size

  -- A reply goes behind the text, wherever that lies.
  pub append-Holds :
      (ps : Pipes) (text : Bytes) (vs : List IoVec)
      → Holds ps text
      → InBounds vs
      → Holds (append_outputs heap ps vs).1 (text ++ gather vs)
  append-Holds ps text vs h b =
      let (mounted, result) =
        append_outputs_lem heap ps vs (record { page = h.page; used = omega (arith, h.used) }) b in
      let (used, single) = append_single ps vs h.used h.single in
      record {
        page = mounted.page;
        used = used;
        single = single;
        content = elim result [
          | inl r ↦ r.1 ∙ ap (λ t. t ++ gather vs) h.content
          | inr r ↦ absurd (ground (arith, append_outputs_total heap ps vs malloc realloc))
        ];
      }
