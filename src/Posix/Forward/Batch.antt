-- ===== src/Posix/Forward/Batch.antt =====
-- What a whole batch sends, where the heap and the network do their part.
use ucall.Prelude.{
  subst, ℕ, suc, ◌-◌, ◌≡◌, refl, sym, ap, ap₂, ◌∙◌, Bool, true, false, Option, some, List, [], ◌∷◌,
  ◌++◌, append-nil, append_assoc, arith, Bytes, codes, length, length-append, take,
  take-length-append, get_or, ◌==◌, if◌then◌else◌,
}
use ucall.Memory.Allocator.{Allocator}
use ucall.Memory.Array
use ucall.Memory.Array.{Array, size}
use ucall.Memory.Array.Growth.{append_n_lem, append_n_total}
use ucall.Reply.{http_header, http_header_size, set_http_content_length}
use ucall.Parse.Dom.{Dom}
use ucall.Parse.Callback.{Scratch}
use ucall.Posix.Engine.{Sent, Engine}
use ucall.Posix.Engine.Transport.{IsWilling}
use ucall.Posix.Fill.Text.{response}
use ucall.Posix.Reply.{reply_error_out_of_memory}
use ucall.Posix.Reply.Delivered.{send_message_willing}
use ucall.Posix.Forward.{
  append, drop_comma, close_batch, open_batch, forward_batch, ◌>>=◌, patch, seal,
}
use ucall.Posix.Forward.Texts.{batch_texts, commas, join, commas-join, last-append}
use ucall.Posix.Forward.Calls.{AllServe, each-Waits}

-- The comma behind the last text is taken back.
drop_comma_last :
    {E T : Type 0} (e : Engine E T) (s : Bytes)
    → e.buffer.elements ≡ s ++ codes ","
    → drop_comma e ≡ some (record e { buffer = record (e.buffer) { elements = s } })
unfolding drop_comma Array.pop_back
drop_comma_last e s h =
    let last : (get_or e.buffer.elements (size e.buffer - 1) 0 == b',') ≡ true =
      ap (λ x. get_or x (length x - 1) 0 == b',') h ∙ ap (λ c. c == b',') (last-append s b',') in
    let one : length (s ++ codes ",") - 1 ≡ length s = omega (arith, length-append s (codes ",")) in
    let some_byte : (size e.buffer == 0) ≡ false =
      ground (arith, ap length h, length-append s (codes ",")) in
    rw (some_byte, last, drop_comma)
      (ap (λ x. some (record e { buffer = record (e.buffer) { elements = x } }))
        (ap (λ x. take (length x - 1) x) h
          ∙ ap (λ k. take k (s ++ codes ",")) one
          ∙ take-length-append s (codes ",")))

-- Where no text was appended, there is none.
drop_comma_plain :
    {E T : Type 0} (e : Engine E T) (s : Bytes)
    → e.buffer.elements ≡ s ++ codes "["
    → drop_comma e ≡ some e
unfolding drop_comma
drop_comma_plain e s h =
    let last : (get_or e.buffer.elements (size e.buffer - 1) 0 == b',') ≡ false =
      ap (λ x. get_or x (length x - 1) 0 == b',') h ∙ ap (λ c. c == b',') (last-append s b'[') in
    let some_byte : (size e.buffer == 0) ≡ false =
      ground (arith, ap length h, length-append s (codes "[")) in
    rw (some_byte, last, drop_comma) refl

drop_comma-join :
    {E T : Type 0} (e : Engine E T) (pre : Bytes) (texts : List Bytes)
    → e.buffer.elements ≡ (pre ++ codes "[") ++ commas texts
    → drop_comma e
      ≡ some
          (record e { buffer = record (e.buffer) { elements = (pre ++ codes "[") ++ join texts } })
drop_comma-join e pre [] h =
    let plain = h ∙ append-nil (pre ++ codes "[") in
    drop_comma_plain e pre plain
    ∙ ap (λ x. some (record e { buffer = record (e.buffer) { elements = x } })) h
drop_comma-join e pre (t ∷ ts) h = drop_comma_last e ((pre ++ codes "[") ++ join (t ∷ ts)) (
    h
    ∙ ap (◌++◌ (pre ++ codes "[")) (commas-join t ts)
    ∙ sym (append_assoc (pre ++ codes "[") (join (t ∷ ts)) (codes ",")))

module _ {E D T : Type 0} (dom : Dom E D) (heap : Allocator) (net : ℕ → Sent) where
  module _ (malloc : (n : ℕ) → heap.malloc n ≡ true) (realloc : (n : ℕ) → heap.realloc n ≡ true)
      (w : IsWilling net) where
    append_full :
        (res : Bool) (e : Engine E T) (s : Bytes)
        → ((append dom heap net (res, e) s).0 ≡ res)
          × ((append dom heap net (res, e) s).1.buffer.elements ≡ e.buffer.elements ++ s)
          × ((append dom heap net (res, e) s).1.scratch ≡ e.scratch)
          × ((append dom heap net (res, e) s).1.callbacks ≡ e.callbacks)
          × ((append dom heap net (res, e) s).1.wire ≡ e.wire)
    unfolding append
    append_full res e s =
        let total = append_n_total heap e.buffer s malloc realloc in
        let effect = append_n_lem heap e.buffer s in
        (ground (arith, total), ground (arith, total, effect), refl, refl, refl)

    open_with :
        (http : Bool) (b : Engine E T)
        → b.buffer.elements ≡ []
        → let (opened, e') =
            append dom heap net
              (if http then append dom heap net (true, b) http_header else (true, b))
              (codes "[") in
          (opened ≡ true)
          × (e'.buffer.elements ≡ (if http then http_header else []) ++ codes "[")
          × (e'.scratch ≡ b.scratch)
          × (e'.callbacks ≡ b.callbacks)
          × (e'.wire ≡ b.wire)
    open_with true b h =
        let first = append dom heap net (true, b) http_header in
        let (r₁, b₁, s₁, c₁, w₁) = append_full true b http_header in
        let (r₂, b₂, s₂, c₂, w₂) = append_full first.0 first.1 (codes "[") in
        (
          r₂ ∙ r₁,
          b₂ ∙ ap (λ x. x ++ codes "[") (b₁ ∙ ap (λ x. x ++ http_header) h),
          s₂ ∙ s₁,
          c₂ ∙ c₁,
          w₂ ∙ w₁,
        )
    open_with false b h =
        let (r₁, b₁, s₁, c₁, w₁) = append_full true b (codes "[") in
        (r₁, b₁ ∙ ap (λ x. x ++ codes "[") h, s₁, c₁, w₁)

    elements-patch :
        (http : Bool) (e : Engine E T) (text : Bytes)
        → e.buffer.elements ≡ (if http then http_header else []) ++ text
        → ((patch http e).buffer.elements ≡ response http text) × ((patch http e).wire ≡ e.wire)
    unfolding patch
    elements-patch false e text h = (h, refl)
    elements-patch true e text h =
        let n : size e.buffer - http_header_size ≡ length text =
          omega (arith, ap length h, length-append http_header text) in
        (ap₂ (λ x k. (set_http_content_length x k).1) h n, refl)

    seal_lem :
        (fuel : ℕ) (r : Bool × Engine E T) (text : Bytes)
        → r.0 ≡ true
        → r.1.buffer.elements ≡ (if r.1.scratch.is_http then http_header else []) ++ text
        → (e' : Engine E T) × (seal dom heap net fuel r ≡ some e')
          × (e'.buffer.elements ≡ [])
          × (e'.wire ≡ r.1.wire ++ response r.1.scratch.is_http text)
    unfolding seal Array.reset
    seal_lem fuel r text done h =
        let http = r.1.scratch.is_http in
        let (buffer, wire) = elements-patch http r.1 text h in
        let (e', run, sent, same, callbacks, packets, sizes) =
          send_message_willing heap net (reply_error_out_of_memory heap net fuel) (patch http r.1)
            w in
        (
          record e' { buffer = Array.reset e'.buffer },
          rw (done, seal)
              (ap
                (λ (o : Option (Engine E T)).
                  o >>= λ (x : Engine E T). some (record x { buffer = Array.reset x.buffer }))
                run),
          refl,
          sent ∙ ap₂ (λ x y. x ++ y) wire buffer,
        )

    close_lem :
        (fuel : ℕ) (opened : Bool) (e : Engine E T) (http : Bool) (texts : List Bytes)
        → opened ≡ true
        → e.scratch.is_http ≡ http
        → e.buffer.elements ≡ ((if http then http_header else []) ++ codes "[") ++ commas texts
        → (e' : Engine E T) × (close_batch dom heap net fuel (opened, e) ≡ some e')
          × (e'.buffer.elements ≡ [])
          × (e'.wire ≡ e.wire ++ response http (codes "[" ++ (join texts ++ codes "]")))
    unfolding close_batch
    close_lem fuel opened e http texts o same h =
        let head = if http then http_header else [] in
        let d = record e {
          buffer = record (e.buffer) { elements = (head ++ codes "[") ++ join texts };
        } in
        let dropped = drop_comma-join e head texts h in
        let (ra, ba, sa, ca, wa) = append_full opened d (codes "]") in
        let mode : (append dom heap net (opened, d) (codes "]")).1.scratch.is_http ≡ http =
          ap (λ (s : Scratch E). s.is_http) sa ∙ same in
        let text = codes "[" ++ (join texts ++ codes "]") in
        let (e', run, empty, wire) =
          seal_lem fuel (append dom heap net (opened, d) (codes "]")) text (ra ∙ o) (
            ba
            ∙ append_assoc (head ++ codes "[") (join texts) (codes "]")
            ∙ append_assoc head (codes "[") (join texts ++ codes "]")
            ∙ ap (λ m. (if m then http_header else []) ++ text) (sym mode)) in
        (
          e',
          ap (λ o. o >>= λ x. seal dom heap net fuel (append dom heap net (opened, x) (codes "]")))
                dropped
              ∙ run,
          empty,
          wire ∙ ap₂ (λ x m. x ++ response m text) wa mode,
        )

    -- Where the heap gives every block, the peer takes something of every message, the callbacks report
    -- C integers and the buffer is empty: a batch ends with fuel for one round of replies, and what the peer gets is
    -- the replies of its calls in order, in square brackets with commas between them and with ids as `find_callback` notes them, behind a header with its length where HTTP is
    -- spoken. The buffer is empty again.
    pub forward_batch_lem :
        (fuel : ℕ) (e : Engine E T) (many : List E)
        → e.buffer.elements ≡ []
        → AllServe e.callbacks
        → (e' : Engine E T) × (forward_batch dom heap net (suc fuel) e many ≡ some e')
          × (e'.buffer.elements ≡ [])
          × (e'.wire
              ≡ e.wire
                ++ response e.scratch.is_http (
                    codes "["
                    ++ (join (
                          batch_texts dom e.callbacks (record (e.scratch) { is_batch = true }) many)
                        ++ codes "]")))
    unfolding forward_batch open_batch
    forward_batch_lem fuel e many h serve =
        let http = e.scratch.is_http in
        let b = record e { scratch = record (e.scratch) { is_batch = true } } in
        let (r₁, b₁, s₁, c₁, w₁) = open_with http b h in
        let e₁ = (open_batch dom heap net e).1 in
        let (e₂, run₂, http₂, b₂, w₂) =
          each-Waits dom heap net malloc realloc w fuel e₁ many
            (ap (λ (s : Scratch E). s.is_batch) s₁) (subst AllServe (sym c₁) serve) in
        let texts = batch_texts dom e.callbacks b.scratch many in
        let (e', run, empty, wire) =
          close_lem (suc fuel) (open_batch dom heap net e).0 e₂ http texts r₁
            (http₂ ∙ ap (λ (s : Scratch E). s.is_http) s₁)
            (b₂ ∙ ap₂ (λ x t. x ++ commas t) b₁ (ap₂ (λ c s. batch_texts dom c s many) c₁ s₁)) in
        (
          e',
          ap
                (λ o.
                  o >>= λ x. close_batch dom heap net (suc fuel) ((open_batch dom heap net e).0, x))
                run₂
              ∙ run,
          empty,
          wire ∙ ap (λ x. x ++ response http (codes "[" ++ (join texts ++ codes "]"))) (w₂ ∙ w₁),
        )
