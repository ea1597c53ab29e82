-- ===== src/Lib.antt =====
-- The request and reply core of UCall, a JSON-RPC server over TCP.
--
-- The program's parts and where they are modelled:
-- - src/helpers/shared.hpp, the containers: Memory.antt and below. `array_gt` is Memory.Array,
--   `pool_gt` Memory.Pool, `buffer_gt` Memory.Buffer. What `malloc` and `realloc` answer is a
--   parameter, the record `Allocator`.
-- - src/helpers/parse.hpp: Parse.antt and below. `split_body_headers` is in Parse.Http,
--   `find_callback` in Parse.Callback, `point_to_param` and `round_up_to` in Parse.Pointer. The JSON
--   parser and the HTTP parser are no part of the repository: Parse.Dom states what is asked of them.
-- - src/helpers/reply.hpp: Reply.antt and below.
-- - src/helpers/exchange.hpp: Exchange.antt and below; a connection's pipes, each a page that the
--   kernel reads or writes and an array on the heap.
-- - src/engine_posix.cpp: Posix.antt and below; the replies, and the way from a packet to them. A
--   callback is a function from its call to the list of the functions of ucall.h that it calls.
--   What the network answers is a parameter, indexed by a clock in the engine's state.
-- - src/engine_uring.cpp: Uring.antt and below. Uring.Engine is the state: connections by their offset
--   in the pool, and the entries of the submission queue in order. Uring.Connections submits,
--   Uring.Requests answers a request into the connection's pipes, and Uring.Automata is
--   `automata_t::operator()` on one completion. The queue is taken to have room, and one thread is
--   looked at: the mutexes are not modelled.
--   Uring.Requests.Bodies states the text that answers a request, and Exchange.Holds what each operation
--   of a pipe does to its text.
-- - src/helpers/log.hpp: Log.antt and below. How a double is printed, and the conversion of a counter to
--   a rate per second, are parameters.
-- - src/helpers/py_to_json.h: PyJson.antt and below; the objects of the interpreter are a data type with
--   a constructor for each branch of the code.
-- - src/python.c: Python.antt and below. Python.Signature is `prepare_wrapper`, Python.Wrapper is
--   `wrapper`, whose answers are those that the engines give to a callback, and Python.Server has
--   `server_init`, `server_add_procedure` and `server_run`. What the interpreter shows of a function, and
--   what a call of it returns, are parameters; the layout of the structures is that of a 64-bit
--   little-endian machine.
-- - src/helpers/round_robin.hpp: RoundRobin.antt and below; no engine uses it.
-- - `ucall_init` of both engines: Init.antt and below, as steps that succeed or fail and the resources they
--   give.
-- - std::to_chars and std::from_chars: Charconv.antt.
--
-- Numbers are natural numbers; `std::size_t` wraps around where the code may subtract too much. The
-- loop of sends has as much fuel as the message has bytes, since each round takes one at least. The
-- error replies of the POSIX engine call each other without end; their fuel counts these rounds, and
-- one is enough where the heap and the peer do their part, and two in the io_uring engine, where a
-- code that cannot be printed is answered by another error. The loop of the Python server without a limit
-- has fuel for its calls; more than there are calls before the signal that ends it is enough.
--
-- Memory that the code may read or write wrongly: where a step would leave its block, its result is `none` or
-- `overrun`. That is a packet outside of its buffer, a reception of more bytes than the page holds, the length of a
-- refused header, the last character of an empty buffer, a Python value that is longer than its block, and a
-- pointer of `wrapper` that was never set. The view of an id points into the memory of a parser: what it shows
-- once that memory was used again is a parameter, `overwritten` of Parse.Dom. A list stands for bytes that
-- lie in memory beside those that it is appended to, so the sum of their lengths does not wrap.
--
-- Not modelled: the inside of TLS, sockets and clocks, which the code only calls; the reference counts and
-- the module tables of the Python binding; the examples, which only call the library; and
-- include/mbedtls/config.h, a copy of the configuration of another project.
pub mod Charconv
pub mod Exchange
pub mod Init
pub mod Log
pub mod Memory
pub mod Parse
pub mod Posix
pub mod Prelude
pub mod PyJson
pub mod Python
pub mod Reply
pub mod RoundRobin
pub mod Tests
pub mod Uring
