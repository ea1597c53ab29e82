-- ===== src/Tests/Procedures.antt =====
-- A Python function `f(a, b: int, /, c: int = 7)` and a server of such functions.
use ucall.Prelude.{
  ℕ, suc, ◌+◌, ◌<◌, ◌^◌, ◌≤◌, ◌≡◌, ◌↔◌, refl, Bool, true, false, Option, none, some, List, [], ◌∷◌,
  codes, pos, neg, negsuc, length, arith, ltb, ◌==◌, if◌then◌else◌,
}
use ucall.Memory.Allocator.{unlimited}
use ucall.Posix.Engine.{content}
use ucall.PyJson.{
  Value, value, no_values, py_unicode, py_sequence, Encoders, escape, escape_char, to_string,
  bracketed,
}
use ucall.PyJson.Grammar.{IsJson, IsPlain}
use ucall.PyJson.Size.{extra}
use ucall.PyJson.Fits.{terminator}
use ucall.Python.Signature.{
  Callable, Code, Param, Wrapper, positional_only, positional_or_keyword, keyword_only,
  var_positional, var_keyword, code_params, total_params, prepare_wrapper,
}
use ucall.Python.Signature.Slots.{length-code_params}
use ucall.Python.Wrapper.{Types, unset, Called, returned, fetch, arguments, wrapper}
use ucall.Python.Wrapper.Kinds.{fetch_lem, either_way, named_or_unset}
use ucall.Python.Wrapper.Replies.{wrapper_returned}
use ucall.Python.Server.{
  Server, added, overrun, add_all, server_run, Clock, Arguments, parse_fields, field,
}
use ucall.Python.Server.Slots.{numbered, extended, add_all_lem}
use ucall.Python.Server.Loop.{server_run_lem, Served}
use ucall.Python.Server.Fields.{parse_fields_lem}
use ucall.Tests.Requests.{number, toy_dom}

-- The objects and the types are numbers.
abbrev f_code : Code ℕ ℕ
f_code = record {
  co_varnames = codes "a" ∷ codes "b" ∷ codes "c" ∷ [];
  has_vararg = false;
  has_varkeyarg = false;
  co_argcount = 3;
  co_posonlyargcount = 2;
  co_kwonlyargcount = 0;
  defaults = 7 ∷ [];
  kwdefaults = λ name. none;
  annotations = λ name. some 1;
}

length-code_params_example :
    (length (code_params f_code) ≤ total_params f_code) ↔ (length f_code.defaults ≤ 3 + 3)
length-code_params_example = length-code_params f_code

abbrev five : Option ℕ
five = some 5

abbrev missing : Option ℕ
missing = none

fetch_lem_example :
    (fetch positional_or_keyword 1 missing five ≡ either_way missing five)
    × (fetch var_positional 1 missing five ≡ either_way missing five)
    × (fetch keyword_only 1 missing five ≡ either_way missing five)
    × (fetch positional_only 1 missing five ≡ unset)
    × (fetch var_keyword 1 missing five ≡ named_or_unset missing)
fetch_lem_example = fetch_lem 1 missing five (omega arith)

-- Every type is `int`.
abbrev ints : Types ℕ
ints = record {
  is_bool = λ t. false;
  is_long = λ t. true;
  is_float = λ t. false;
  is_unicode = λ t. false;
  tb64dec = λ s. s;
}

abbrev mute : Encoders ℕ
mute = record { float_text = λ x. []; tb64enc = λ s. []; tb64enclen = λ n. 0 }

abbrev c_param : Param ℕ ℕ
c_param = record { name = codes "c"; value = some 7; type = some 1; kind = positional_or_keyword }

abbrev two_names : Value ℕ
two_names = py_sequence (value (py_unicode (codes "a")) (value (py_unicode (codes "b")) no_values))

-- A function of no arguments.
abbrev naming : List (Option (Value ℕ)) → Called ℕ
naming args = returned two_names

abbrev no_params : List (Param ℕ ℕ)
no_params = []

two_names-IsPlain : IsPlain two_names
unfolding IsPlain
two_names-IsPlain = (tt, (tt, tt))

two_names_short : length (to_string mute two_names).text + 1 < 2 ^ 64
unfolding to_string bracketed escape escape_char
two_names_short = omega arith

no_arguments : arguments toy_dom ints (number 4) [] 0 no_params ≡ some (some [])
unfolding arguments
no_arguments = refl

wrapper_returned_example :
    let text = (to_string mute two_names).text in
    IsJson text two_names
    × ((extra two_names ≡ 0) × (terminator two_names ≡ 0)
        → wrapper toy_dom ints (number 4) [] mute unlimited naming no_params
          ≡ some (content text (length text) ∷ []))
    × (¬ ((extra two_names ≡ 0) × (terminator two_names ≡ 0))
        → wrapper toy_dom ints (number 4) [] mute unlimited naming no_params ≡ none)
wrapper_returned_example =
    wrapper_returned mute unlimited toy_dom ints (number 4) [] (λ s. refl) naming no_params []
      two_names no_arguments refl two_names-IsPlain refl two_names_short

abbrev f_callable : Callable ℕ ℕ
f_callable = record { label = codes "f"; signature = some (some (c_param ∷ [])); code = none }

abbrev f_wrapper : Wrapper ℕ ℕ
f_wrapper = record { u_params = c_param ∷ []; params_cnt = 1 }

abbrev server : Server ℕ ℕ
server = record {
  wrappers = f_wrapper ∷ [];
  block = 48;
  wrapper_capacity = 2;
  registered = (codes "f", 0) ∷ [];
}

prepares : prepare_wrapper f_callable ≡ some f_wrapper
unfolding prepare_wrapper
prepares = refl

add_all_lem_example :
    (1 + length (f_callable ∷ f_callable ∷ []) ≤ 2
      → add_all unlimited server (f_callable ∷ f_callable ∷ [])
        ≡ added (
            extended server
              (f_wrapper ∷ f_wrapper ∷ [])
              (numbered 1 (f_callable ∷ f_callable ∷ []))))
    × (2 < 1 + length (f_callable ∷ f_callable ∷ [])
        → add_all unlimited server (f_callable ∷ f_callable ∷ []) ≡ overrun)
add_all_lem_example =
    add_all_lem unlimited server (f_callable ∷ f_callable ∷ []) (f_wrapper ∷ f_wrapper ∷ [])
      (prepares, (prepares, tt))
      (record { bytes = refl; some_room = omega arith; small = omega arith; fits = omega arith })
      (λ n. refl)

-- A signal is found from the tenth check on.
abbrev late : ℕ → Bool
late k = if ltb k 10 then false else true

-- Seconds are numbers, and 0 stands for -1.
abbrev clock : Clock ℕ
clock = record {
  is_default = λ s. s == 0;
  positive = λ s. ltb 0 s;
  minus = λ a b. a;
  elapsed = λ k. 1;
}

server_run_lem_example :
    ((limit : ℕ)
      → (n : ℕ) × (server_run late clock 20 (pos limit) 0 ≡ some n) × Served late limit 0 n)
    × ((m : ℕ) → server_run late clock 20 (negsuc (suc m)) 0 ≡ some 0)
    × ((n : ℕ)
        → ((j : ℕ) → j < n → late j ≡ false)
        → late n ≡ true
        → n < 20
        → server_run late clock 20 (neg 1) 0 ≡ some n)
server_run_lem_example = server_run_lem late clock 20 0 refl

-- Only the port is given.
abbrev port_only : Arguments
port_only = record {
  parsed = true;
  hostname = none;
  port = some 8080;
  queue_depth = none;
  max_callbacks = none;
  max_threads = none;
  ssl_pk = none;
  ssl_certs = none;
}

parse_fields_lem_example :
    let block = parse_fields port_only in
    (field block 0 ≡ 8080) × (field block 2 ≡ 0) × (field block 4 ≡ 0) × (field block 6 ≡ 0)
parse_fields_lem_example = parse_fields_lem port_only (omega arith) tt tt tt
