-- ===== src/Init/Outcomes.antt =====
-- What a set-up leaves behind: a whole server, or nothing but what is leaked.
use ucall.Prelude.{◌++◌, ◌&&◌, ◌≡◌, ◌⊎◌, Bool, List, [], ◌∷◌, if◌then◌else◌}
use ucall.Init.Steps.{
  cleanup, acquire, check, Step, Resource, server_memory, socket, ssl_context, mapping,
}
use ucall.Init.{Config, System, Outcome, null_server, server}

-- A set-up gives a server that holds these resources if all calls succeed, and otherwise null, with what has leaked.
abbrev pub Whole : Type 0 → Config → List Resource → List Resource → Outcome → Type 0
Whole Answers config held leak r =
    Answers × (r ≡ server config held) ⊎ (¬ Answers) × (r ≡ null_server leak)

abbrev pub posix_held : Bool → List Resource
posix_held use_ssl =
    if use_ssl then ssl_context ∷ socket ∷ server_memory ∷ [] else socket ∷ server_memory ∷ []

-- The mapping of the pages stays, where a failed set-up has come that far.
abbrev pub uring_leak : System → List Resource
uring_leak s =
    if s.queue_init && s.malloc_server && s.reserve_callbacks && s.map_buffers
    then mapping ∷ []
    else []

-- The steps behind the mapping.
abbrev later_steps : System → List Step
later_steps s =
    check s.reserve_connections
    ∷ check s.resize_spaces
    ∷ check s.allocate_parsers
    ∷ check s.resize_registered
    ∷ check s.register_files
    ∷ check s.register_buffers
    ∷ acquire s.open_socket socket
    ∷ check s.bind
    ∷ check s.listen
    ∷ []

-- What these steps give is released.
abbrev AllReleased : List Step → Type 0
AllReleased [] = Unit {0}
AllReleased (s ∷ steps) =
    ((held : List Resource) → cleanup (s.gives ++ held) ≡ cleanup held) × AllReleased steps
