-- ===== src/Posix/Engine.antt =====
-- The state of src/engine_posix.cpp and its ways to the network.
pub mod Transport
use ucall.Prelude.{
  ℕ, zero, suc, ◌+◌, ◌-◌, Bool, true, false, Option, none, some, List, [], ◌∷◌, ◌++◌, Bytes, ℤ,
  length, take, drop, if◌then◌else◌, ◌==◌,
}
use ucall.Memory.Array
use ucall.Memory.Array.{Array}
use ucall.Parse.Callback.{Scratch, NamedCallback}

-- What a callback does with its call, through the functions of ucall.h; a length of 0 asks for
-- `strlen`.
pub data Answer : Type 0 where
  content : Bytes → ℕ → Answer
  error : ℤ → Bytes → ℕ → Answer
  invalid_params unknown out_of_memory : Answer

-- A callback reads its parameters from the tree of its call.
abbrev pub Callback : Type 0 → Type 0 → Type 0
Callback E T = E → T → List Answer

-- What `send` or `mbedtls_ssl_write` answers: so many bytes taken (0 when the peer is gone), or an
-- error, which may be `EMSGSIZE`.
pub data Sent : Type 0 where
  bytes : ℕ → Sent
  failed : Bool → Sent

-- `stats_t`
pub record Stats : Type 0 where
  pub added_connections : ℕ
  pub closed_connections : ℕ
  pub bytes_received : ℕ
  pub bytes_sent : ℕ
  pub packets_received : ℕ
  pub packets_sent : ℕ

-- `engine_t`; `wire` is what the peer was sent, and `clock` counts the answers of the network.
pub record Engine (E T : Type 0) : Type 0 where
  pub callbacks : List (NamedCallback (Callback E T) T)
  pub scratch : Scratch E
  pub buffer : Array ℕ
  pub stats : Stats
  pub wire : Bytes
  pub clock : ℕ

-- The end of a loop of sends: the bytes taken, the last answer, and the clock.
pub record Delivery : Type 0 where
  pub taken : Bytes
  pub last : Sent
  pub clock : ℕ

-- `while (idx < len && (res = send(…)) > 0) idx += res;` over the bytes that are left. Each round
-- takes a byte at least, so their number is fuel enough.
pub send_loop : (ℕ → Sent) → ℕ → Bytes → Sent → ℕ → Delivery
send_loop net zero rest last clock = record { taken = []; last = last; clock = clock }
send_loop net (suc fuel) [] last clock = record { taken = []; last = last; clock = clock }
send_loop net (suc fuel) (x ∷ xs) last clock = elim (net clock) [
  | failed big ↦ record { taken = []; last = failed big; clock = clock + 1 }
  | bytes zero ↦ record { taken = []; last = bytes 0; clock = clock + 1 }
  | bytes (suc n) ↦
      let d = send_loop net fuel (drop (suc n) (x ∷ xs)) (bytes (suc n)) (clock + 1) in
      record d { taken = take (suc n) (x ∷ xs) ++ d.taken }
]

-- `recv_all`: the same with `recv`, which gives no more than it is asked for; an empty chunk stands
-- for the end or an error. Every round but the last takes a byte at least.
pub recv_loop : (ℕ → Bytes) → ℕ → ℕ → ℕ → Bytes × ℕ
recv_loop source zero left clock = ([], clock)
recv_loop source (suc fuel) left clock =
    let chunk = take left (source clock) in
    let (more, clock') = recv_loop source fuel (left - length chunk) (clock + 1) in
    if left == 0
    then ([], clock)
    else if length chunk == 0
    then ([], clock + 1)
    else (chunk ++ more, clock')

unfoldable pub recv_all : (ℕ → Bytes) → ℕ → ℕ → Bytes × ℕ
unfolding recv_loop
recv_all source len clock = recv_loop source len len clock
