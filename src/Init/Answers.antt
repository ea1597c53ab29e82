-- ===== src/Init/Answers.antt =====
-- The calls that the set-ups of src/engine_posix.cpp and src/engine_uring.cpp make, one by one.
use ucall.Prelude.{◌++◌, ◌&&◌, ◌≡◌, refl, arith, Bool, true, false, List, [], ◌∷◌, if◌then◌else◌}
use ucall.Init.Steps.{acquire, check, Step, ssl_context, all_answered}
use ucall.Init.{Config, System, posix_config, posix_steps, uring_steps}

-- Every call that the set-up of the POSIX engine makes succeeds.
pub record PosixAnswers (s : System) (use_ssl : Bool) : Type 0 where
  pub malloc_server : s.malloc_server ≡ true
  pub reserve_buffer : s.reserve_buffer ≡ true
  pub reserve_callbacks : s.reserve_callbacks ≡ true
  pub open_socket : s.open_socket ≡ true
  pub bind : s.bind ≡ true
  pub listen : s.listen ≡ true
  pub ssl_init : use_ssl ≡ true → s.ssl_init ≡ true
  pub allocate_parsers : s.allocate_parsers ≡ true

-- Every call that the set-up of the io_uring engine makes succeeds.
pub record UringAnswers (s : System) : Type 0 where
  pub queue_init : s.queue_init ≡ true
  pub malloc_server : s.malloc_server ≡ true
  pub reserve_callbacks : s.reserve_callbacks ≡ true
  pub map_buffers : s.map_buffers ≡ true
  pub reserve_connections : s.reserve_connections ≡ true
  pub resize_spaces : s.resize_spaces ≡ true
  pub allocate_parsers : s.allocate_parsers ≡ true
  pub resize_registered : s.resize_registered ≡ true
  pub register_files : s.register_files ≡ true
  pub register_buffers : s.register_buffers ≡ true
  pub open_socket : s.open_socket ≡ true
  pub bind : s.bind ≡ true
  pub listen : s.listen ≡ true

abbrev tail_steps : System → Bool → List Step
tail_steps s use_ssl =
    (if use_ssl then acquire true ssl_context ∷ check s.ssl_init ∷ [] else [])
    ++ check s.allocate_parsers ∷ []

tail_answered :
    (s : System) (use_ssl : Bool)
    → all_answered (tail_steps s use_ssl) ≡ true
    → (use_ssl ≡ true → s.ssl_init ≡ true) × (s.allocate_parsers ≡ true)
tail_answered s true h = ((λ _. ground arith), ground arith)
tail_answered s false h = ((λ q. cc q), ground arith)

tail_answers :
    (s : System) (use_ssl : Bool)
    → (use_ssl ≡ true → s.ssl_init ≡ true)
    → s.allocate_parsers ≡ true
    → all_answered (tail_steps s use_ssl) ≡ true
tail_answers s true h p = rw (h refl, p) refl
tail_answers s false h p = rw p refl

and_true : (a b : Bool) → (a && b) ≡ true → (a ≡ true) × (b ≡ true)
and_true a b h = ground arith

pub posix_answered :
    (s : System) (c : Config)
    → all_answered (posix_steps s (posix_config c)) ≡ true
    → PosixAnswers s c.use_ssl
unfolding posix_steps posix_config
posix_answered s c h =
    let (a, h₁) = and_true s.malloc_server _ h in
    let (b, h₂) = and_true s.reserve_buffer _ h₁ in
    let (d, h₃) = and_true s.reserve_callbacks _ h₂ in
    let (e, h₄) = and_true s.open_socket _ h₃ in
    let (f, h₅) = and_true s.bind _ h₄ in
    let (g, h₆) = and_true s.listen _ h₅ in
    let (t, p) = tail_answered s c.use_ssl h₆ in
    record {
      malloc_server = a;
      reserve_buffer = b;
      reserve_callbacks = d;
      open_socket = e;
      bind = f;
      listen = g;
      ssl_init = t;
      allocate_parsers = p;
    }

pub posix_answers :
    (s : System) (c : Config)
    → PosixAnswers s c.use_ssl
    → all_answered (posix_steps s (posix_config c)) ≡ true
unfolding posix_steps posix_config
posix_answers s c r =
    rw (r.malloc_server, r.reserve_buffer, r.reserve_callbacks, r.open_socket, r.bind, r.listen)
      (tail_answers s c.use_ssl r.ssl_init r.allocate_parsers)

pub uring_answered : (s : System) → all_answered (uring_steps s) ≡ true → UringAnswers s
unfolding uring_steps
uring_answered s h =
    let (a₁, h₁) = and_true s.queue_init _ h in
    let (a₂, h₂) = and_true s.malloc_server _ h₁ in
    let (a₃, h₃) = and_true s.reserve_callbacks _ h₂ in
    let (a₄, h₄) = and_true s.map_buffers _ h₃ in
    let (a₅, h₅) = and_true s.reserve_connections _ h₄ in
    let (a₆, h₆) = and_true s.resize_spaces _ h₅ in
    let (a₇, h₇) = and_true s.allocate_parsers _ h₆ in
    let (a₈, h₈) = and_true s.resize_registered _ h₇ in
    let (a₉, h₉) = and_true s.register_files _ h₈ in
    let (b₁, k₁) = and_true s.register_buffers _ h₉ in
    let (b₂, k₂) = and_true s.open_socket _ k₁ in
    let (b₃, k₃) = and_true s.bind _ k₂ in
    let (b₄, k₄) = and_true s.listen _ k₃ in
    record {
      queue_init = a₁;
      malloc_server = a₂;
      reserve_callbacks = a₃;
      map_buffers = a₄;
      reserve_connections = a₅;
      resize_spaces = a₆;
      allocate_parsers = a₇;
      resize_registered = a₈;
      register_files = a₉;
      register_buffers = b₁;
      open_socket = b₂;
      bind = b₃;
      listen = b₄;
    }

pub uring_answers : (s : System) → UringAnswers s → all_answered (uring_steps s) ≡ true
unfolding uring_steps
uring_answers s r =
    rw
      (
        r.queue_init, r.malloc_server, r.reserve_callbacks, r.map_buffers, r.reserve_connections,
        r.resize_spaces, r.allocate_parsers, r.resize_registered, r.register_files,
        r.register_buffers, r.open_socket, r.bind, r.listen,
      )
      refl
