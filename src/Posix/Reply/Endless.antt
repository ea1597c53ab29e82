-- ===== src/Posix/Reply/Endless.antt =====
-- A reply that cannot be built is answered by another reply, which cannot be built either.
use ucall.Prelude.{
  ℕ, zero, suc, ◌≡◌, ◌≢◌, refl, Bool, true, false, Option, none, some, ap, [], Bytes, codes, ℤ, neg,
  inl, inr, ◌∙◌, if◌then◌else◌, Bool-cases, Option-cases,
}
use ucall.Charconv.{to_chars_int}
use ucall.Memory.Allocator.{exhausted}
use ucall.Memory.Array.{Array}
use ucall.Posix.Fill.{◌>>=◌}
use ucall.Posix.Fill.Full.{IsFull, fill_with_error-IsFull}
use ucall.Posix.Engine.{Sent, Engine}
use ucall.Posix.Reply.{view, finish, reply_error}
use ucall.Posix.Reply.Delivered.{not_empty}

abbrev Refused : Option (Bool × Array ℕ) → Type 0
Refused r = (b : Array ℕ) × (r ≡ some (false, b)) × IsFull b

picked-Refused :
    (b : Bool) (x y : Option (Bool × Array ℕ))
    → Refused x
    → Refused y
    → Refused (if b then x else y)
picked-Refused true x y p q = p
picked-Refused false x y p q = q

module _ {E T : Type 0} (net : ℕ → Sent) where
  finish_refused :
      (oom : Engine E T → Option (Engine E T)) (e : Engine E T) (r : Bool × Array ℕ)
      → r.0 ≡ false
      → finish exhausted net oom e r ≡ oom (record e { buffer = r.1 })
  unfolding finish
  finish_refused oom e r d = elim (Bool-cases e.scratch.is_batch) [
    | inl b ↦ rw (b, d, finish)
    | inr b ↦ rw (b, d, finish)
  ]

  -- When the heap gives nothing and the buffer has no room for a reply, an error reply to a request
  -- that has an id, over plain JSON-RPC, never ends: no number of rounds is enough, since each failure
  -- is answered by another error reply.
  pub reply_error_endless :
      (fuel : ℕ) (e : Engine E T) (code : ℤ) (note : Bytes) (len : ℕ)
      → e.scratch.dynamic_id ≢ []
      → e.scratch.is_http ≡ false
      → IsFull e.buffer
      → reply_error exhausted net fuel e code note len ≡ none
  unfolding reply_error
  reply_error_endless zero e code note len h p f = refl
  reply_error_endless (suc fuel) e code note len h p f =
      let again = λ (e' : Engine E T).
        reply_error exhausted net fuel e' (neg 32000) (codes "Out of memory.") 14 in
      elim (Option-cases (to_chars_int 32 code)) [
        | inl n ↦
            rw (not_empty e.scratch.dynamic_id h, n, reply_error)
              (reply_error_endless fuel e (neg 32603) (codes "Unknown error.") 14 h p f)
        | inr (text, n) ↦
            let s = e.scratch in
            let waiting =
              fill_with_error-IsFull e.buffer s.dynamic_id text (view note len) false true refl f in
            let alone =
              fill_with_error-IsFull e.buffer s.dynamic_id text (view note len) s.is_http false p
                f in
            let (b, run, f') = picked-Refused s.is_batch _ _ waiting alone in
            rw (not_empty s.dynamic_id h, n, reply_error)
              (ap (λ o. o >>= finish exhausted net again e) run
                ∙ finish_refused again e (false, b) refl
                ∙ reply_error_endless fuel _ (neg 32000) (codes "Out of memory.") 14 h p f')
      ]
