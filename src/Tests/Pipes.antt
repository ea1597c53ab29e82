-- ===== src/Tests/Pipes.antt =====
-- Pipes and arrays at concrete contents.
use ucall.Prelude.{List, ℕ, ◌+◌, ◌≤◌, ◌<◌, ◌≡◌, ◌⊎◌, refl, true, [], ◌∷◌, ◌++◌, Bytes, codes, arith}
use ucall.Memory.Allocator.{unlimited, exhausted}
use ucall.Memory.Array.{Array, size}
use ucall.Memory.Array.Growth.{IsValid}
use ucall.Memory.Buffer.{replicate}
use ucall.Reply.{IoVec, iovecs_length}
use ucall.Reply.Gather.{gather}
use ucall.Exchange.{
  Pipes, Pipe, ram_page_size, append_outputs, output_span, input_span, mark_submitted_outputs,
  prepare_more_outputs, has_remaining_outputs, next_output_length,
}
use ucall.Exchange.Sending.{
  Sending, start, sent, packet, IsReply, Sending-complete, Sending-progress,
}
use ucall.Exchange.Inputs.{IsReady, receive_all, receive_all_lem, receive_all_total}
use ucall.Exchange.Outputs.{IsMounted, Appends, append_outputs_lem}

abbrev page : Bytes
page = replicate 4096 0

abbrev on_heap : Bytes → Array ℕ
on_heap s = record { elements = s; allocated = true; capacity = 16 }

abbrev idle : Pipe
idle = record { embedded = page; embedded_used = 0; dynamic = on_heap [] }

abbrev reply : Pipes
reply = record {
  input = idle;
  output = record idle { dynamic = on_heap (codes "hello") };
  output_submitted = 0;
}

reply-IsReply : IsReply reply
reply-IsReply = record { page = refl; used = omega arith; fresh = refl; small = omega arith }

three_sent :
    Sending reply
      ([] ++ packet (prepare_more_outputs reply) 3)
      (prepare_more_outputs (mark_submitted_outputs (prepare_more_outputs reply) 3))
unfolding prepare_more_outputs next_output_length has_remaining_outputs mark_submitted_outputs
three_sent = sent 3 start (omega arith) refl

Sending-complete_example :
    ([] ++ packet (prepare_more_outputs reply) 3)
      ++ packet (prepare_more_outputs (mark_submitted_outputs (prepare_more_outputs reply) 3)) 2
    ≡ output_span reply
unfolding prepare_more_outputs next_output_length has_remaining_outputs mark_submitted_outputs
Sending-complete_example = Sending-complete 2 reply-IsReply three_sent (omega arith) refl

Sending-progress_example :
    0
    < next_output_length
        (prepare_more_outputs (mark_submitted_outputs (prepare_more_outputs reply) 3))
unfolding prepare_more_outputs has_remaining_outputs mark_submitted_outputs
Sending-progress_example = Sending-progress reply-IsReply three_sent refl

abbrev waiting : Pipes
waiting = record { input = idle; output = idle; output_submitted = 0 }

waiting-IsReady : IsReady waiting
waiting-IsReady = record { page = refl; clear = refl }

receive_all_lem_example :
    (input_span (receive_all unlimited waiting (codes "{\"id\"" ∷ codes ":1}" ∷ [])).1
      ≡ input_span waiting ++ codes "{\"id\":1}")
    × IsReady (receive_all unlimited waiting (codes "{\"id\"" ∷ codes ":1}" ∷ [])).1
receive_all_lem_example =
    receive_all_lem unlimited waiting (codes "{\"id\"" ∷ codes ":1}" ∷ []) waiting-IsReady
      (omega arith, (omega arith, tt))
      (receive_all_total unlimited waiting (codes "{\"id\"" ∷ codes ":1}" ∷ []) (λ n. refl)
        (λ n. refl))

abbrev pieces : List IoVec
pieces =
    record { iov_base = codes "{}"; iov_len = 2 }
    ∷ record { iov_base = codes "},"; iov_len = 1 }
    ∷ []

reply-IsMounted : IsMounted reply
reply-IsMounted = record { page = refl; used = omega arith }

append_outputs_lem_example :
    Appends exhausted reply
      (gather pieces)
      ((0 < size reply.output.dynamic)
        ⊎ (ram_page_size ≤ reply.output.embedded_used + iovecs_length pieces))
      (append_outputs exhausted reply pieces)
append_outputs_lem_example =
    append_outputs_lem exhausted reply pieces reply-IsMounted (omega arith, (omega arith, tt))

abbrev hello : Array ℕ
hello = on_heap (codes "hello")

hello-IsValid : IsValid hello
hello-IsValid = record { fits = omega arith; backed = λ h. cc }
