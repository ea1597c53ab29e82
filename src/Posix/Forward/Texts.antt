-- ===== src/Posix/Forward/Texts.antt =====
-- The replies that a batch should get, and how they are joined.
use ucall.Prelude.{
  ℕ, suc, ◌-◌, ◌≡◌, refl, sym, ap, ◌∙◌, ◌⊎◌, inl, inr, List, [], ◌∷◌, ◌++◌, append-nil,
  append_assoc, arith, Bytes, ◌==◌, false, codes, neg, length, get_or, length-append, take_all, map,
}
use ucall.Charconv.{print_int}
use ucall.Charconv.RoundTrip.{IsInt64}
use ucall.Parse.Dom.{Dom}
use ucall.Parse.Http.{DefaultError}
use ucall.Parse.Callback.{Scratch, NamedCallback, find_callback}
use ucall.Reply.Gather.{content_text, error_text}
use ucall.Posix.Engine.{Answer, content, error, invalid_params, unknown, out_of_memory, Callback}
use ucall.Posix.Reply.{view, c_string}

-- The text of one answer to a call with this id.
unfoldable pub answer_text : Bytes → Answer → Bytes
answer_text id (content body len) = content_text id (view body len)
answer_text id (error code note len) = error_text id (print_int code) (view note len)
answer_text id invalid_params =
    error_text id (print_int (neg 32602)) (view (codes "Invalid method param(s).") 24)
answer_text id unknown = error_text id (print_int (neg 32603)) (view (codes "Unknown error.") 14)
answer_text id out_of_memory =
    error_text id (print_int (neg 32000)) (view (codes "Out of memory.") 14)

unfoldable pub answer_texts : Bytes → List Answer → List Bytes
answer_texts [] answers = []
answer_texts (c ∷ id) answers = map (answer_text (c ∷ id)) answers

-- The codes that callbacks report are C integers.
abbrev pub AllInts : List Answer → Type 0
AllInts [] = Unit {0}
AllInts (error code note len ∷ answers) = IsInt64 code × AllInts answers
AllInts (a ∷ answers) = AllInts answers

module _ {E D T : Type 0} (dom : Dom E D) (callbacks : List (NamedCallback (Callback E T) T)) where
  -- What the callback that was found answers, or the error.
  abbrev pub found_answers : NamedCallback (Callback E T) T ⊎ DefaultError → Scratch E → List Answer
  found_answers (inr err) s = error err.code err.note (length err.note) ∷ []
  found_answers (inl c) s = c.callback s.tree c.callback_tag

  -- The replies to the call in the scratch.
  unfoldable pub call_texts : Scratch E → List Bytes
  call_texts s =
      let (found, s') = find_callback dom callbacks s in
      answer_texts s'.dynamic_id (found_answers found s')

  -- The replies to the elements of a batch, in order.
  unfoldable pub batch_texts : Scratch E → List E → List Bytes
  batch_texts s [] = []
  batch_texts s (one ∷ many) =
      let s₁ = record s { tree = one } in
      call_texts s₁ ++ batch_texts (find_callback dom callbacks s₁).1 many

-- Each text with a comma behind it, as the buffer holds them.
abbrev pub commas : List Bytes → Bytes
commas [] = []
commas (t ∷ ts) = (t ++ codes ",") ++ commas ts

-- The texts with commas between them, as a JSON array wants them.
abbrev pub join : List Bytes → Bytes
join [] = []
join (t ∷ []) = t
join (t ∷ u ∷ ts) = t ++ (codes "," ++ join (u ∷ ts))

pub commas-append : (ts us : List Bytes) → commas (ts ++ us) ≡ commas ts ++ commas us
commas-append [] us = refl
commas-append (t ∷ ts) us =
    ap (◌++◌ (t ++ codes ",")) (commas-append ts us)
    ∙ sym (append_assoc (t ++ codes ",") (commas ts) (commas us))

pub commas-join : (t : Bytes) (ts : List Bytes) → commas (t ∷ ts) ≡ join (t ∷ ts) ++ codes ","
commas-join t [] = append-nil (t ++ codes ",")
commas-join t (u ∷ ts) = ap (◌++◌ (t ++ codes ",")) (commas-join u ts) ∙ simp append_assoc

pub last-append : (s : Bytes) (c : ℕ) → get_or (s ++ c ∷ []) (length (s ++ c ∷ []) - 1) 0 ≡ c
last-append s c =
    ap (λ k. get_or (s ++ c ∷ []) k 0) {y = length s} (omega (arith, length-append s (c ∷ [])))
    ∙ at_end s
  where
    at_end : (s : Bytes) → get_or (s ++ c ∷ []) (length s) 0 ≡ c
    at_end [] = refl
    at_end (x ∷ s) = at_end s

pub view-length : (s : Bytes) → view s (length s) ≡ s
unfolding view c_string
view-length [] = refl
view-length (c ∷ s) =
    let some_left : (suc (length s) == 0) ≡ false = ground arith in
    rw some_left (take_all (suc (length s)) (c ∷ s) (omega arith))
