-- ===== src/Posix/Take/Bounds.antt =====
-- When `ucall_take_call` keeps to its buffers, and when it does not.
use ucall.Prelude.{
  ℕ, ◌+◌, ◌^◌, ◌≤◌, ◌<◌, ◌≡◌, inl, refl, true, some, ◌++◌, Bytes, length, length-append, arith, leb,
  lt→ltb, if◌then◌else◌,
}
use ucall.Memory.Allocator.{Allocator}
use ucall.Parse.Dom.{Dom, PhrResult}
use ucall.Parse.Http.{ParsedRequest, split_body_headers}
use ucall.Exchange.{ram_page_size, sub_size}
use ucall.Posix.Engine.{Sent, Engine, recv_all}
use ucall.Posix.Engine.Transport.{recv_all_full}
use ucall.Posix.Take.{World, overrun, bytes_expected, take_short, take_long, take_first, take_call}

module _ {E D T : Type 0} (dom : Dom E D) (heap : Allocator) (net : ℕ → Sent)
    (phr : Bytes → PhrResult) where
  take_first-expected :
      (fuel : ℕ) (e : Engine E T) (w : World) (first : Bytes) (request : ParsedRequest)
      → split_body_headers phr first ≡ inl request
      → let expected = bytes_expected request w.waiting (length first) in
        take_first dom heap net phr fuel e w first ≡ (
          if leb expected ram_page_size
          then take_short dom heap net phr fuel e w first expected
          else take_long dom heap net phr fuel e w first expected)
  unfolding take_first
  take_first-expected fuel e w first request s = rw (s, take_first)

  -- When more has arrived than the request declares, the number of bytes that are left wraps around: while
  -- the peer goes on sending, the engine writes past its buffer.
  pub take_call_overrun :
      (fuel : ℕ) (e : Engine E T) (w : World) (first : Bytes) (request : ParsedRequest)
      → w.accepted ≡ true
      → w.first ≡ some first
      → split_body_headers phr first ≡ inl request
      → bytes_expected request w.waiting (length first) < length first
      → length first ≤ ram_page_size
      → w.padding < 2 ^ 32
      → ((k : ℕ) → 0 < length (w.source k))
      → take_call dom heap net phr fuel e w ≡ some overrun
  unfolding take_call take_short
  take_call_overrun fuel e w first request a f s h page pad more =
      let expected = bytes_expected request w.waiting (length first) in
      let left = sub_size expected (length first) in
      let text = first ++ (recv_all w.source left e.clock).0 in
      let len = recv_all_full w.source left e.clock more in
      let long : ram_page_size + w.padding < length text =
        omega (arith, length-append first (recv_all w.source left e.clock).0, len) in
      let short : leb expected ram_page_size ≡ true = ground arith in
      rw
        (
          a,
          f,
          take_first-expected fuel _ w first request s,
          short,
          lt→ltb (ram_page_size + w.padding) (length text) long,
          take_call,
        )
        refl
