-- ===== src/Python/Server.antt =====
-- `py_server_t`: its set-up, its procedures and its loop.
pub mod Fields
pub mod Loop
pub mod Slots
use ucall.Prelude.{
  ℕ, zero, suc, ◌-◌, ◌+◌, ◌*◌, ◌/◌, ◌%◌, ◌^◌, Bool, true, false, not, ◌&&◌, Option, none, some,
  List, [], ◌∷◌, ◌++◌, Bytes, codes, ℤ, pos, negsuc, length, memcpy, get_or, ltb, leb, ◌==◌,
  if◌then◌else◌,
}
use mathlib.Core.Option
use ucall.Memory.Allocator.{Allocator}
use ucall.Init.{Config}
use ucall.Python.Signature.{Callable, Wrapper, prepare_wrapper}

-- `sizeof(py_wrapper_t)` on a 64-bit machine.
abbrev pub wrapper_size : ℕ
wrapper_size = 24

-- The wrappers are those below `count_added`; `block` is the size of their memory in bytes, 0 for a null pointer.
-- `registered` are the calls of `ucall_add_procedure` in order: the name, and the index of the wrapper that the tag points to.
pub record Server (V T : Type 0) : Type 0 where
  pub wrappers : List (Wrapper V T)
  pub block : ℕ
  pub wrapper_capacity : ℕ
  pub registered : List (Bytes × ℕ)

-- A Python exception, a server, a null pointer that is written to, or a write behind the block.
pub data Added (V T : Type 0) : Type 0 where
  exception null_written overrun : Added V T
  added : Server V T → Added V T

module _ {V T : Type 0} (heap : Allocator) where
  -- `realloc` is asked for as many bytes as there are to be wrappers.
  unfoldable pub grow : Server V T → Option (Server V T)
  grow s =
      let capacity = (s.wrapper_capacity * 2) % 2 ^ 64 in
      if ltb (length s.wrappers) s.wrapper_capacity
      then some s
      else if heap.realloc capacity
      then some (record s { block = capacity; wrapper_capacity = capacity })
      else none

  unfoldable pub store : Server V T → Bytes → Wrapper V T → Added V T
  store s label wrap =
      let i = length s.wrappers in
      if leb (i * wrapper_size + wrapper_size) s.block
      then added (record s {
        wrappers = s.wrappers ++ wrap ∷ [];
        registered = s.registered ++ (label, i) ∷ [];
      })
      else overrun

  unfoldable pub add_procedure : Server V T → Callable V T → Added V T
  add_procedure s callable = elim (prepare_wrapper callable) [
    | none ↦ exception
    | some wrap ↦ elim (grow s) [ none ↦ null_written | some s' ↦ store s' callable.label wrap ]
  ]

  -- One procedure after the other.
  unfoldable pub add_all : Server V T → List (Callable V T) → Added V T
  add_all s [] = added s
  add_all s (f ∷ fs) = elim (add_procedure s f) [
    | added s' ↦ add_all s' fs
    | exception ↦ exception
    | null_written ↦ null_written
    | overrun ↦ overrun
  ]

-- Python's doubles as `max_seconds` uses them, and the readings of the clock.
pub record Clock (F : Type 0) : Type 0 where
  pub is_default : F → Bool
  pub positive : F → Bool
  pub minus : F → F → F
  -- `difftime` of the reading behind the `k`-th call and the one before it
  pub elapsed : ℕ → F

-- The loops. `signal k` tells whether the `k`-th check finds a signal; a result counts the calls of
-- `ucall_take_call`, and is `none` where the loop still runs when the fuel is used up.
module _ (signal : ℕ → Bool) where
  unfoldable pub run_forever : ℕ → ℕ → Option ℕ
  run_forever zero k = none
  run_forever (suc fuel) k = elim (signal k) [
    | true ↦ some 0
    | false ↦ Option.map suc (run_forever fuel (suc k))
  ]

  unfoldable pub run_cycles : ℕ → ℕ → ℕ
  run_cycles zero k = 0
  run_cycles (suc max_cycles) k = elim (signal k) [
    | true ↦ 0
    | false ↦ suc (run_cycles max_cycles (suc k))
  ]

  module _ {F : Type 0} (clock : Clock F) where
    unfoldable pub run_seconds : ℕ → ℕ → F → Option ℕ
    run_seconds zero k max_seconds = none
    run_seconds (suc fuel) k max_seconds = elim (clock.positive max_seconds && not (signal k)) [
      | false ↦ some 0
      | true ↦ Option.map suc (run_seconds fuel (suc k) (clock.minus max_seconds (clock.elapsed k)))
    ]

    unfoldable pub run_both : ℕ → ℕ → F → ℕ
    run_both zero k max_seconds = 0
    run_both (suc max_cycles) k max_seconds = elim (clock.positive max_seconds && not (signal k)) [
      | false ↦ 0
      | true ↦ suc (run_both max_cycles (suc k) (clock.minus max_seconds (clock.elapsed k)))
    ]

    -- A negative number of cycles ends the loops at once, except for the default -1.
    unfoldable pub server_run : ℕ → ℤ → F → Option ℕ
    server_run fuel max_cycles max_seconds = elim (clock.is_default max_seconds) [
      | true ↦ without_seconds max_cycles
      | false ↦ with_seconds max_cycles
    ]
      where
        without_seconds : ℤ → Option ℕ
        without_seconds (pos n) = some (run_cycles n 0)
        without_seconds (negsuc zero) = run_forever fuel 0
        without_seconds (negsuc (suc n)) = some 0

        with_seconds : ℤ → Option ℕ
        with_seconds (pos n) = some (run_both n 0 max_seconds)
        with_seconds (negsuc zero) = run_seconds fuel 0 max_seconds
        with_seconds (negsuc (suc n)) = some 0

-- The arguments of `server_init` as they were parsed, less `count_threads` and `quiet`, which are only kept;
-- `ssl_certs` is `none` where it is no sequence.
pub record Arguments : Type 0 where
  pub parsed : Bool
  pub hostname : Option Bytes
  pub port : Option ℕ
  pub queue_depth : Option ℕ
  pub max_callbacks : Option ℕ
  pub max_threads : Option ℕ
  pub ssl_pk : Option Bytes
  pub ssl_certs : Option (List Bytes)

-- The `n` lowest bytes of a number.
unfoldable pub little_endian : ℕ → ℕ → Bytes
little_endian zero v = []
little_endian (suc n) v = v % 256 ∷ little_endian n (v / 256)

-- The 16 bytes of the configuration that begin with the four `uint16_t` fields.
unfoldable pub words : ℕ → ℕ → ℕ → ℕ → Bytes
words port queue_depth max_callbacks max_threads =
    little_endian 2 port
    ++ (little_endian 2 queue_depth
        ++ (little_endian 2 max_callbacks ++ (little_endian 2 max_threads ++ little_endian 8 0)))

-- The format `n` writes a whole `Py_ssize_t`.
unfoldable pub parse_n : Bytes → ℕ → Option ℕ → Bytes
parse_n block at none = block
parse_n block at (some v) = memcpy block at (little_endian 8 v)

unfoldable pub parse_fields : Arguments → Bytes
parse_fields args =
    let block₁ = parse_n (words 8545 4096 65535 16) 0 args.port in
    let block₂ = parse_n block₁ 2 args.queue_depth in
    let block₃ = parse_n block₂ 4 args.max_callbacks in parse_n block₃ 6 args.max_threads

abbrev pub field : Bytes → ℕ → ℕ
field block at = get_or block at 0 + 256 * get_or block (at + 1) 0

unfoldable pub server_config : Arguments → Config
server_config args =
    let block = parse_fields args in
    let certs : Option (List Bytes) = elim args.ssl_pk [
      | none ↦ none
      | some path ↦ args.ssl_certs
    ] in
    record {
      hostname = elim args.hostname [ none ↦ some (codes "0.0.0.0") | some name ↦ some name ];
      port = field block 0;
      queue_depth = field block 2;
      max_callbacks = field block 4;
      max_threads = field block 6;
      max_concurrent_connections = 1024;
      max_lifetime_micro_seconds = 0;
      max_lifetime_exchanges = 2 ^ 32 - 1;
      use_ssl = elim certs [ none ↦ false | some paths ↦ true ];
      ssl_private_key_path = args.ssl_pk;
      ssl_certificates_paths = elim certs [ none ↦ [] | some paths ↦ paths ];
      ssl_certificates_count = elim certs [ none ↦ 0 | some paths ↦ length paths ];
    }

-- `none` for the result -1; `ucall_init` tells whether there is a server in the end. The memory for the wrappers is
-- not checked.
unfoldable pub server_init :
    {V T : Type 0} → Allocator → (Config → Bool) → Arguments → Option (Server V T)
server_init heap ucall_init args =
    if args.parsed && ucall_init (server_config args)
    then some (record {
      wrappers = [];
      block = if heap.malloc (16 * wrapper_size) then 16 * wrapper_size else 0;
      wrapper_capacity = 16;
      registered = [];
    })
    else none
