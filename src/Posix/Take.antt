-- ===== src/Posix/Take.antt =====
-- `ucall_take_call` of src/engine_posix.cpp: one connection, from `accept` to `close`.
pub mod Bounds
use ucall.Prelude.{
  ℕ, ◌+◌, ◌%◌, ◌^◌, Bool, true, false, not, ◌||◌, ◌⊎◌, inl, inr, Option, none, some, [], ◌∷◌, ◌++◌,
  Bytes, codes, length, leb, ltb, ◌==◌, if◌then◌else◌,
}
use ucall.Charconv.{FromChars, ok, invalid_argument, out_of_range, from_chars}
use ucall.Memory.Allocator.{Allocator}
use ucall.Parse.Dom.{Dom, PhrResult}
use ucall.Parse.Http.{DefaultError, ParsedRequest, split_body_headers}
use ucall.Parse.Callback.{parsed_over}
use ucall.Parse.Pointer.{round_up_to}
use ucall.Exchange.{ram_page_size, sub_size}
use ucall.Posix.Engine.{Sent, Engine, recv_all}
use ucall.Posix.Reply.{reply_error, reply_error_out_of_memory}
use ucall.Posix.Forward.{forward_packet}

-- What the operating system, mbedTLS and simdjson answer to a call: whether a connection was accepted
-- and its handshake made, what the first `recv` gives (`none` for an error), how many bytes `ioctl`
-- says are waiting, what each later `recv` gives, whether a parser and a block of so many bytes can be
-- had, and the padding behind the static buffer.
pub record World : Type 0 where
  pub accepted : Bool
  pub first : Option Bytes
  pub waiting : Option ℕ
  pub source : ℕ → Bytes
  pub allocate : ℕ → Bool
  pub aligned_alloc : ℕ → Bool
  pub padding : ℕ

-- The call ends, or has read or written outside of the buffer that packets are received in.
pub data Outcome (E T : Type 0) : Type 0 where
  served : Engine E T → Outcome E T
  overrun : Outcome E T

-- `TODO what?`: where nothing tells the length, what has arrived is taken to be all.
abbrev what_waits : Option ℕ → ℕ → ℕ
what_waits none received = received
what_waits (some n) received = if n == 0 then received else n

abbrev declared : FromChars → ℕ
declared (ok n) = n
declared invalid_argument = 0
declared out_of_range = 0

abbrev is_invalid : FromChars → Bool
is_invalid (ok n) = false
is_invalid invalid_argument = true
is_invalid out_of_range = false

-- `bytes_expected`
unfoldable pub bytes_expected : ParsedRequest → Option ℕ → ℕ → ℕ
bytes_expected request waiting received =
    let res = from_chars request.content_length in
    let n = (declared res + request.body_offset) % 2 ^ 64 in
    if is_invalid res || n == 0 then what_waits waiting received else n

module _ {E D T : Type 0} (dom : Dom E D) (heap : Allocator) (net : ℕ → Sent)
    (phr : Bytes → PhrResult) where
  pub serve : Option (Engine E T) → Option (Outcome E T)
  serve none = none
  serve (some e) = some (served e)

  -- The packet has arrived in the buffer.
  pub forward_arrived : ℕ → Engine E T → Bytes → Option (Outcome E T)
  unfolding serve
  forward_arrived fuel e text = serve (
      forward_packet dom heap net phr fuel (record e {
        scratch = record (e.scratch) { dynamic_packet = text };
        stats = record (e.stats) {
          bytes_received = e.stats.bytes_received + length text;
          packets_received = e.stats.packets_received + 1;
        };
      }))

  -- The parser of a long packet is destroyed, and what the id points to with it.
  pub parser_destroyed : Option (Outcome E T) → Option (Outcome E T)
  parser_destroyed none = none
  parser_destroyed (some overrun) = some overrun
  parser_destroyed (some (served e)) =
      some (served (record e { scratch = parsed_over dom e.scratch }))

  pub take_short : ℕ → Engine E T → World → Bytes → ℕ → Option (Outcome E T)
  unfolding forward_arrived
  take_short fuel e w first expected =
      let text = first ++ (recv_all w.source (sub_size expected (length first)) e.clock).0 in
      if ltb (ram_page_size + w.padding) (length text)
      then some overrun
      else forward_arrived fuel e text

  pub take_long : ℕ → Engine E T → World → Bytes → ℕ → Option (Outcome E T)
  unfolding forward_arrived parser_destroyed
  take_long fuel e w first expected =
      let block = round_up_to 64 (expected + w.padding) in
      let text = first ++ (recv_all w.source (sub_size expected (length first)) e.clock).0 in
      let oom = serve (reply_error_out_of_memory heap net fuel e) in
      if not (w.allocate expected)
      then oom
      else if not (w.aligned_alloc block)
      then oom
      else if ltb block (length text)
      then some overrun
      else parser_destroyed (forward_arrived fuel e text)

  pub take_first : ℕ → Engine E T → World → Bytes → Option (Outcome E T)
  unfolding take_short take_long
  take_first fuel e w first = elim (split_body_headers phr first) [
    | inr err ↦ serve (reply_error heap net fuel e err.code err.note (length err.note))
    | inl request ↦
        let expected = bytes_expected request w.waiting (length first) in
        if leb expected ram_page_size
        then take_short fuel e w first expected
        else take_long fuel e w first expected
  ]

  -- The connection counts as closed when it is added. The result of `recv` is used unchecked.
  pub take_call : ℕ → Engine E T → World → Option (Outcome E T)
  unfolding take_first
  take_call fuel e w =
      let e' = record e {
        stats = record (e.stats) {
          added_connections = e.stats.added_connections + 1;
          closed_connections = e.stats.closed_connections + 1;
        };
      } in
      if not w.accepted
      then some (served e)
      else elim w.first [ none ↦ some overrun | some first ↦ take_first fuel e' w first ]
