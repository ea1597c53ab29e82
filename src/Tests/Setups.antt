-- ===== src/Tests/Setups.antt =====
-- Set-ups in which every call succeeds, and in which one fails.
use ucall.Prelude.{true, false, none, []}
use ucall.Init.{Config, System}

abbrev config : Config
config = record {
  hostname = none;
  port = 0;
  queue_depth = 0;
  max_callbacks = 0;
  max_threads = 0;
  max_concurrent_connections = 0;
  max_lifetime_micro_seconds = 0;
  max_lifetime_exchanges = 0;
  use_ssl = false;
  ssl_private_key_path = none;
  ssl_certificates_paths = [];
  ssl_certificates_count = 0;
}

-- The port is taken.
abbrev busy : System
busy = record {
  malloc_server = true;
  reserve_buffer = true;
  reserve_callbacks = true;
  open_socket = true;
  bind = false;
  listen = true;
  ssl_init = true;
  allocate_parsers = true;
  queue_init = true;
  map_buffers = true;
  reserve_connections = true;
  resize_spaces = true;
  resize_registered = true;
  register_files = true;
  register_buffers = true;
}
