-- ===== src/Tests/Replies.antt =====
-- Engines over the documents of the tests, and the replies that they send.
use ucall.Prelude.{
  ℕ, zero, suc, ◌+◌, ◌≡◌, ◌≢◌, refl, true, false, none, some, List, [], ◌∷◌, ◌++◌, codes, length,
  arith, take, drop, neg,
}
use ucall.Charconv.{from_chars, ok, print_int}
use ucall.Memory.Allocator.{unlimited, exhausted}
use ucall.Memory.Array
use ucall.Memory.Array.{Array}
use ucall.Reply.{http_header, http_header_size, set_http_content_length}
use ucall.Reply.Header.{set_http_content_length_lem}
use ucall.Reply.Gather.{content_text, error_text}
use ucall.Posix.Engine.{content, invalid_params, Callback, Engine, Sent, bytes, failed, send_loop}
use ucall.Posix.Engine.Transport.{IsWilling, send_loop_all}
use ucall.Posix.Fill.Text.{response}
use ucall.Posix.Reply.{reply_error, reply_content, view}
use ucall.Posix.Reply.Delivered.{Replied, reply_error-Replied, reply_content-Replied}
use ucall.Posix.Reply.Endless.{reply_error_endless}
use ucall.Posix.Forward.{forward_batch}
use ucall.Posix.Forward.Texts.{batch_texts, join}
use ucall.Posix.Forward.Batch.{forward_batch_lem}
use ucall.Tests.Requests.{Toy, call, notice, toy_dom, asked}

abbrev sum : Callback Toy ℕ
sum tree tag = content (codes "5") 1 ∷ []

abbrev strict : Callback Toy ℕ
strict tree tag = invalid_params ∷ []

abbrev pub server : Engine Toy ℕ
server = record {
  callbacks =
      record { name = codes "sum"; callback = sum; callback_tag = 0 }
      ∷ record { name = codes "strict"; callback = strict; callback_tag = 0 }
      ∷ [];
  scratch = asked;
  buffer = Array.empty;
  stats = record {
    added_connections = 0;
    closed_connections = 0;
    bytes_received = 0;
    bytes_sent = 0;
    packets_received = 0;
    packets_sent = 0;
  };
  wire = [];
  clock = 0;
}

-- Ten bytes of every message are taken.
abbrev pub slow : ℕ → Sent
slow k = bytes 10

pub slow-IsWilling : IsWilling slow
slow-IsWilling k = (9, refl)

abbrev calls : List Toy
calls =
    call (codes "sum") 1
    ∷ notice (codes "sum")
    ∷ call (codes "strict") 2
    ∷ call (codes "none") 3
    ∷ []

forward_batch_lem_example :
    (e' : Engine Toy ℕ) × (forward_batch toy_dom unlimited slow 1 server calls ≡ some e')
    × (e'.buffer.elements ≡ [])
    × (e'.wire
        ≡ []
          ++ response false (
              codes "["
              ++ (join
                    (batch_texts toy_dom server.callbacks (record asked { is_batch = true }) calls)
                  ++ codes "]")))
forward_batch_lem_example =
    forward_batch_lem toy_dom unlimited slow (λ n. refl) (λ n. refl) slow-IsWilling 0 server calls
      refl ((λ tree. tt), ((λ tree. tt), tt))

seven : server.scratch.dynamic_id ≢ []
seven h = cc

reply_content-Replied_example :
    (e' : Engine Toy ℕ) × (reply_content unlimited slow 0 server (codes "5") 1 ≡ some e')
    × Replied server (content_text (codes "7") (view (codes "5") 1)) e'
reply_content-Replied_example =
    reply_content-Replied unlimited slow (λ n. refl) (λ n. refl) slow-IsWilling 0 server (codes "5")
      1 seven

reply_error-Replied_example :
    (e' : Engine Toy ℕ) × (reply_error unlimited slow 1 server
        (neg 32601)
        (codes "Method not found.")
        17
      ≡ some e')
    × Replied server
        (error_text (codes "7") (print_int (neg 32601)) (view (codes "Method not found.") 17))
        e'
reply_error-Replied_example =
    reply_error-Replied unlimited slow (λ n. refl) (λ n. refl) slow-IsWilling 0 server (neg 32601)
      (codes "Method not found.") 17 seven (omega arith)

abbrev notified : Engine Toy ℕ
notified = record server { scratch = record asked { dynamic_id = [] } }

reply_error_endless_example :
    reply_error exhausted slow 1000 server (neg 32000) (codes "Out of memory.") 14 ≡ none
reply_error_endless_example =
    reply_error_endless slow 1000 server (neg 32000) (codes "Out of memory.") 14 seven refl
      (omega arith)

-- The peer takes two bytes, and then is gone.
abbrev leaving : ℕ → Sent
leaving zero = bytes 2
leaving (suc k) = failed false

send_loop_all_example :
    ((send_loop slow 5 (codes "hello") (bytes 0) 0).taken ≡ codes "hello")
    × ((m : ℕ) × ((send_loop slow 5 (codes "hello") (bytes 0) 0).last ≡ bytes m))
send_loop_all_example = send_loop_all slow 5 (codes "hello") 0 0 slow-IsWilling (omega arith)

set_http_content_length_lem_example :
    ((set_http_content_length (http_header ++ codes "{}") 2).0 ≡ true)
    × (from_chars (drop 33 (set_http_content_length (http_header ++ codes "{}") 2).1) ≡ ok 2)
    × (take 33 (set_http_content_length (http_header ++ codes "{}") 2).1 ≡ take 33 http_header)
    × (drop 42 (set_http_content_length (http_header ++ codes "{}") 2).1
        ≡ drop 42 http_header ++ codes "{}")
    × (length (set_http_content_length (http_header ++ codes "{}") 2).1 ≡ http_header_size + 2)
set_http_content_length_lem_example = set_http_content_length_lem (codes "{}") 2 (omega arith)
