-- ===== src/Init.antt =====
-- `ucall_init` of src/engine_posix.cpp and src/engine_uring.cpp: a server is set up in steps, and a step
-- that fails undoes those before it.
pub mod Steps
pub mod Answers
pub mod Outcomes
use ucall.Prelude.{
  ℕ, Bool, true, false, not, ◌&&◌, ◌||◌, Option, none, some, List, [], ◌∷◌, ◌++◌, Bytes, codes, ltb,
  ◌==◌, if◌then◌else◌,
}
use ucall.Init.Steps.{
  Step, Resource, server_memory, socket, ssl_context, ring, mapping, attempt, check, acquire,
}

-- `ucall_config_t`, less the logs.
pub record Config : Type 0 where
  pub hostname : Option Bytes
  pub port : ℕ
  pub queue_depth : ℕ
  pub max_callbacks : ℕ
  pub max_threads : ℕ
  pub max_concurrent_connections : ℕ
  pub max_lifetime_micro_seconds : ℕ
  pub max_lifetime_exchanges : ℕ
  pub use_ssl : Bool
  pub ssl_private_key_path : Option Bytes
  pub ssl_certificates_paths : List Bytes
  pub ssl_certificates_count : ℕ

-- What the system and the libraries answer to the calls of the set-up, true for success.
pub record System : Type 0 where
  pub malloc_server : Bool
  pub reserve_buffer : Bool
  pub reserve_callbacks : Bool
  pub open_socket : Bool
  pub bind : Bool
  pub listen : Bool
  pub ssl_init : Bool
  pub allocate_parsers : Bool
  pub queue_init : Bool
  pub map_buffers : Bool
  pub reserve_connections : Bool
  pub resize_spaces : Bool
  pub resize_registered : Bool
  pub register_files : Bool
  pub register_buffers : Bool

-- `*server_out` is left alone, set to null with what is still held then, or set to a server that holds its
-- resources; or a null pointer is followed.
pub data Outcome : Type 0 where
  untouched crash : Outcome
  null_server : List Resource → Outcome
  server : Config → List Resource → Outcome

abbrev default : ℕ → ℕ → ℕ
default n value = if n == 0 then value else n

abbrev is_some : {A : Type 0} → Option A → Bool
is_some none = false
is_some (some a) = true

abbrev is_cons : {A : Type 0} → List A → Bool
is_cons [] = false
is_cons (a ∷ s) = true

abbrev host : Option Bytes → Option Bytes
host none = some (codes "0.0.0.0")
host (some name) = some name

pub finish : Config → Bool × List Resource → Outcome
finish config (true, held) = server config held
finish config (false, held) = null_server held

unfoldable pub posix_config : Config → Config
posix_config c = record c {
  port = default c.port 8545;
  queue_depth = default c.queue_depth 128;
  max_callbacks = default c.max_callbacks 128;
  hostname = host c.hostname;
  max_threads = 1;
  max_concurrent_connections = 1;
  max_lifetime_micro_seconds = 0;
  max_lifetime_exchanges = 1;
}

-- One of the paths or the count is enough.
unfoldable pub ssl_missing : Config → Bool
ssl_missing c =
    c.use_ssl
    && not (
        is_some c.ssl_private_key_path
        || is_cons c.ssl_certificates_paths
        || ltb 0 c.ssl_certificates_count)

unfoldable pub posix_steps : System → Config → List Step
posix_steps s c =
    acquire s.malloc_server server_memory
      ∷ check s.reserve_buffer
      ∷ check s.reserve_callbacks
      ∷ acquire s.open_socket socket
      ∷ check s.bind
      ∷ check s.listen
      ∷ (if c.use_ssl then acquire true ssl_context ∷ check s.ssl_init ∷ [] else [])
    ++ check s.allocate_parsers ∷ []

-- `present` tells whether `server_out` is not null.
pub posix_init : System → Bool → Option Config → Outcome
unfolding finish
posix_init s present none = untouched
posix_init s false (some c) = untouched
posix_init s true (some c) =
    if ssl_missing c
    then untouched
    else finish (posix_config c) (attempt (posix_steps s (posix_config c)) [])

unfoldable pub uring_config : Config → Config
uring_config c = record c {
  port = default c.port 8545;
  queue_depth = default c.queue_depth 4096;
  max_callbacks = default c.max_callbacks 128;
  max_concurrent_connections = default c.max_concurrent_connections 1024;
  max_threads = default c.max_threads 1;
  max_lifetime_micro_seconds = default c.max_lifetime_micro_seconds 100000;
  max_lifetime_exchanges = default c.max_lifetime_exchanges 100;
  hostname = host c.hostname;
}

unfoldable pub uring_steps : System → List Step
uring_steps s =
    acquire s.queue_init ring
    ∷ acquire s.malloc_server server_memory
    ∷ check s.reserve_callbacks
    ∷ acquire s.map_buffers mapping
    ∷ check s.reserve_connections
    ∷ check s.resize_spaces
    ∷ check s.allocate_parsers
    ∷ check s.resize_registered
    ∷ check s.register_files
    ∷ check s.register_buffers
    ∷ acquire s.open_socket socket
    ∷ check s.bind
    ∷ check s.listen
    ∷ []

-- The check at the start lets one null pointer through.
pub uring_init : System → Bool → Option Config → Outcome
unfolding finish
uring_init s false none = untouched
uring_init s true none = crash
uring_init s false (some c) = crash
uring_init s true (some c) = finish (uring_config c) (attempt (uring_steps s) [])
