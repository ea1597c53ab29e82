-- ===== src/Exchange.antt =====
-- src/helpers/exchange.hpp: the pipes of a connection. Each has an embedded page and an array on the
-- heap; the kernel reads and writes the pages.
pub mod Inputs
pub mod Outputs
pub mod Holds
pub mod Sending
use ucall.Prelude.{
  ℕ, zero, suc, ◌+◌, ◌-◌, ◌%◌, ◌^◌, ◌≡◌, Bool, true, false, not, ◌&&◌, List, [], ◌∷◌, ◌++◌, Bytes,
  length, take, drop, memcpy, min, max, ltb, ◌==◌, if◌then◌else◌,
}
use ucall.Memory.Allocator.{Allocator}
use ucall.Memory.Array
use ucall.Memory.Array.{Array, size}
use ucall.Reply.{IoVec, iovecs_length, iovecs_memcpy}

abbrev pub ram_page_size : ℕ
ram_page_size = 4096

-- `exchange_pipe_t`; `embedded` is the page that the pointer is mounted on.
pub record Pipe : Type 0 where
  pub embedded : Bytes
  pub embedded_used : ℕ
  pub dynamic : Array ℕ

-- `span()`: the bytes that the pipe holds.
pub span : Pipe → Bytes
span p = if size p.dynamic == 0 then take p.embedded_used p.embedded else p.dynamic.elements

-- `exchange_pipes_t`
pub record Pipes : Type 0 where
  pub input : Pipe
  pub output : Pipe
  pub output_submitted : ℕ

pub mount : Pipes → Bytes → Bytes → Pipes
mount ps inputs outputs = record ps {
  input = record (ps.input) { embedded = inputs };
  output = record (ps.output) { embedded = outputs };
}

release : Pipe → Pipe
release p = record p { dynamic = Array.reset p.dynamic; embedded_used = 0 }

pub release_inputs : Pipes → Pipes
unfolding release
release_inputs ps = record ps { input = release ps.input }

pub release_outputs : Pipes → Pipes
unfolding release
release_outputs ps = record ps { output = release ps.output; output_submitted = 0 }

pub input_span : Pipes → Bytes
unfolding span
input_span ps = span ps.input

pub output_span : Pipes → Bytes
unfolding span
output_span ps = span ps.output

-- Piping inputs. The kernel has put its bytes at the start of the page.
pub receive_into_page : Pipes → Bytes → Pipes
receive_into_page ps packet = record ps {
  input = record (ps.input) { embedded = memcpy ps.input.embedded 0 packet };
}

pub shift_input_to_dynamic : Allocator → Pipes → Bool × Pipes
shift_input_to_dynamic heap ps =
    let (done, d) =
      Array.append_n heap ps.input.dynamic (take ps.input.embedded_used ps.input.embedded) in
    if done
    then (true, record ps { input = record (ps.input) { dynamic = d; embedded_used = 0 } })
    else (false, record ps { input = record (ps.input) { dynamic = d } })

pub absorb_input : Allocator → Pipes → ℕ → Bool × Pipes
unfolding shift_input_to_dynamic
absorb_input heap ps embedded_used =
    let ps' = record ps { input = record (ps.input) { embedded_used = embedded_used } } in
    if size ps.input.dynamic == 0 then (true, ps') else shift_input_to_dynamic heap ps'

-- Piping outputs.
unfoldable pub mark_submitted_outputs : Pipes → ℕ → Pipes
mark_submitted_outputs ps n = record ps { output_submitted = (ps.output_submitted + n) % 2 ^ 64 }

-- `std::size_t` subtraction wraps.
abbrev pub sub_size : ℕ → ℕ → ℕ
sub_size a b = (a + 2 ^ 64 - b) % 2 ^ 64

unfoldable pub prepare_more_outputs : Pipes → Pipes
prepare_more_outputs ps =
    let used = min (sub_size (size ps.output.dynamic) ps.output_submitted) ram_page_size in
    let chunk = take used (drop ps.output_submitted ps.output.dynamic.elements) in
    if size ps.output.dynamic == 0 then ps else record ps {
      output = record (ps.output) {
        embedded_used = used;
        embedded = memcpy ps.output.embedded 0 chunk;
      };
    }

abbrev outputs_length : Pipes → ℕ
outputs_length ps = max ps.output.embedded_used (size ps.output.dynamic)

pub has_outputs : Pipes → Bool
has_outputs ps = not (outputs_length ps == 0)

unfoldable pub has_remaining_outputs : Pipes → Bool
has_remaining_outputs ps = ltb ps.output_submitted (outputs_length ps)

-- An address in the page, as its offset.
pub next_output_address : Pipes → ℕ
next_output_address ps = if size ps.output.dynamic == 0 then ps.output_submitted else 0

unfoldable pub next_output_length : Pipes → ℕ
next_output_length ps =
    if size ps.output.dynamic == 0
    then sub_size ps.output.embedded_used ps.output_submitted
    else ps.output.embedded_used

-- Replacing. There is no check that the page has room.
pub output_pop_back : Pipes → Pipes
output_pop_back ps =
    if size ps.output.dynamic == 0
    then record ps {
      output = record (ps.output) { embedded_used = sub_size ps.output.embedded_used 1 };
    }
    else record ps { output = record (ps.output) { dynamic = Array.pop_back ps.output.dynamic 1 } }

-- Both `push_back_reserved` and `append_reserved` write behind the used part of the page.
append_embedded : Pipe → Bytes → Pipe
append_embedded p s = record p {
  embedded = memcpy p.embedded p.embedded_used s;
  embedded_used = p.embedded_used + length s;
}

pub push_back_reserved : Pipes → ℕ → Pipes
unfolding append_embedded
push_back_reserved ps c =
    if size ps.output.dynamic == 0
    then record ps { output = append_embedded ps.output (c ∷ []) }
    else record ps {
      output = record (ps.output) { dynamic = Array.push_back_reserved ps.output.dynamic c };
    }

pub append_reserved : Allocator → Pipes → Bytes → Pipes
unfolding append_embedded
append_reserved heap ps s =
    if size ps.output.dynamic == 0
    then record ps { output = append_embedded ps.output s }
    else record ps {
      output = record (ps.output) { dynamic = (Array.append_n heap ps.output.dynamic s).1 };
    }

-- The vectors one by one; a refusal leaves those before it.
pub append_each : Allocator → Array ℕ → List IoVec → Bool × Array ℕ
append_each heap d [] = (true, d)
append_each heap d (v ∷ vs) =
    let (done, d') = Array.append_n heap d (take v.iov_len v.iov_base) in
    let rest = append_each heap d' vs in if done then rest else (false, d')

abbrev with_dynamic : Pipes → Array ℕ → Pipes
with_dynamic ps d = record ps { output = record (ps.output) { dynamic = d } }

-- `append_outputs` once the dynamic part has been reserved.
pub append_to_dynamic : Allocator → Pipes → List IoVec → Bool × Pipes
append_to_dynamic heap ps vs =
    let (moved, d) =
      Array.append_n heap ps.output.dynamic (take ps.output.embedded_used ps.output.embedded) in
    let cleared = record ps { output = record (ps.output) { dynamic = d; embedded_used = 0 } } in
    let (done, e) = append_each heap d vs in
    let (done', e') = append_each heap ps.output.dynamic vs in
    if size ps.output.dynamic == 0
    then if moved then (done, with_dynamic cleared e) else (false, with_dynamic ps d)
    else (done', with_dynamic ps e')

pub append_outputs : Allocator → Pipes → List IoVec → Bool × Pipes
append_outputs heap ps vs =
    let added_length = iovecs_length vs in
    let was_in_embedded = size ps.output.dynamic == 0 in
    let fit_into_embedded = ltb (ps.output.embedded_used + added_length) ram_page_size in
    let (reserved, d) =
      Array.reserve heap ps.output.dynamic
        (size ps.output.dynamic + ps.output.embedded_used + added_length) in
    if was_in_embedded && fit_into_embedded
    then (
      true,
      record ps {
        output = record (ps.output) {
          embedded = iovecs_memcpy vs ps.output.embedded ps.output.embedded_used;
          embedded_used = ps.output.embedded_used + added_length;
        };
      },
    )
    else if reserved
    then append_to_dynamic heap (with_dynamic ps d) vs
    else (false, with_dynamic ps d)
