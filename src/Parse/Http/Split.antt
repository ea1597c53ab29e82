-- ===== src/Parse/Http/Split.antt =====
-- Where `split_body_headers` finds the body of a packet.
use ucall.Prelude.{
  ℕ, suc, ◌+◌, ◌≤◌, ◌≡◌, inl, inr, refl, sym, ap, ◌∙◌, true, false, some, List, [], ◌∷◌, ◌++◌,
  arith, Bytes, codes, length, drop, drop_add-append, view_eq, view_eq_refl, ltb, ◌&&◌, Bool-cases,
  Option-cases,
}
use ucall.Parse.Dom.{Header, PhrResult, request, partial, failed}
use ucall.Parse.Http.{
  ParsedRequest, no_request, set_header, set_headers, with_body, starts_with, find, blank_line,
  split_body_headers,
}

starts_with-append : (needle s : Bytes) → starts_with needle (needle ++ s) ≡ true
unfolding starts_with
starts_with-append [] s = refl
starts_with-append (x ∷ xs) s = ground (arith, starts_with-append xs s)

starts_with_sound :
    (needle s : Bytes) → starts_with needle s ≡ true → s ≡ needle ++ drop (length needle) s
unfolding starts_with
starts_with_sound [] s h = refl
starts_with_sound (x ∷ xs) [] h = cc
starts_with_sound (x ∷ xs) (y ∷ ys) h = ground (arith, starts_with_sound xs ys)

-- `find` reports a place where the needle stands,
find_sound :
    (needle s : Bytes) (i : ℕ)
    → find needle s ≡ some i
    → (before after : Bytes) × (s ≡ before ++ (needle ++ after)) × (length before ≡ i)
unfolding find
find_sound needle [] i h = elim (Bool-cases (starts_with needle [])) [
  | inl e ↦ ([], drop (length needle) [], starts_with_sound needle [] e, ground (arith, e))
  | inr e ↦ absurd (ground (arith, e))
]
find_sound needle (x ∷ xs) i h = elim (Bool-cases (starts_with needle (x ∷ xs))) [
  | inl e ↦
      ([], drop (length needle) (x ∷ xs), starts_with_sound needle (x ∷ xs) e, ground (arith, e))
  | inr e ↦ elim (Option-cases (find needle xs)) [
    | inl n ↦ absurd (ground (arith, e, n))
    | inr (k, n) ↦
        let (before, after, split, len) = find_sound needle xs k n in
        (x ∷ before, after, ap (◌∷◌ x) split, ground (arith, e, n, len))
  ]
]

find_now : (needle s : Bytes) → starts_with needle s ≡ true → find needle s ≡ some 0
unfolding find
find_now needle [] h = rw h
find_now needle (x ∷ xs) h = rw h

find_after :
    (needle : Bytes) (x : ℕ) (xs : Bytes) (k : ℕ)
    → starts_with needle (x ∷ xs) ≡ false
    → find needle xs ≡ some k
    → find needle (x ∷ xs) ≡ some (suc k)
unfolding find
find_after needle x xs k e n = rw (e, n)

-- and no later one than any place where it stands.
find_least :
    (needle before after : Bytes)
    → (i : ℕ) × (find needle (before ++ (needle ++ after)) ≡ some i) × (i ≤ length before)
find_least needle [] after =
    (0, find_now needle (needle ++ after) (starts_with-append needle after), omega arith)
find_least needle (x ∷ before) after = elim (Bool-cases (starts_with needle whole)) [
  | inl e ↦ (0, find_now needle whole e, omega arith)
  | inr e ↦
      let (k, n, le) = find_least needle before after in
      (suc k, find_after needle x (before ++ (needle ++ after)) k e n, omega arith)
]
  where
    whole : Bytes
    whole = x ∷ (before ++ (needle ++ after))

-- No header of the list has this name.
abbrev pub NoneNamed : Bytes → List Header → Type 0
NoneNamed n [] = Unit {0}
NoneNamed n (h ∷ hs) = (view_eq h.name n ≡ false) × NoneNamed n hs

method-set_header : (req : ParsedRequest) (h : Header) → (set_header req h).type ≡ req.type
unfolding set_header
method-set_header req h = ground arith

method-set_headers : (req : ParsedRequest) (hs : List Header) → (set_headers req hs).type ≡ req.type
unfolding set_headers
method-set_headers req [] = refl
method-set_headers req (h ∷ hs) = method-set_headers (set_header req h) hs ∙ method-set_header req h

with_body_post :
    (req : ParsedRequest) (packet : Bytes) (i : ℕ)
    → req.type ≡ codes "POST"
    → find blank_line packet ≡ some i
    → with_body req packet ≡ inl (record req { body = drop (i + 4) packet; body_offset = i + 4 })
unfolding with_body
with_body_post req packet i t f =
    let post : (ltb 0 (length req.type) && view_eq req.type (codes "POST")) ≡ true =
      rw t (view_eq_refl (codes "POST")) in
    rw (post, f)

drop-blank :
    (before after : Bytes) (i : ℕ)
    → length before ≡ i
    → drop (i + 4) (before ++ (blank_line ++ after)) ≡ after
drop-blank before after i e = rw (← e) (drop_add-append 4 before (blank_line ++ after))

-- The body of a POST request that has a blank line is all that follows its first blank line, and the
-- offset that is reported is where the body begins.
pub split_body_headers_post :
    (phr : Bytes → PhrResult) (before after : Bytes) (headers : List Header)
    → phr (before ++ (blank_line ++ after)) ≡ request (codes "POST") headers
    → (req : ParsedRequest) × (head : Bytes) × (split_body_headers phr
          (before ++ (blank_line ++ after))
        ≡ inl req)
      × (before ++ (blank_line ++ after) ≡ head ++ (blank_line ++ req.body))
      × (length head ≤ length before)
      × (req.body_offset ≡ length head + 4)
      × (req.type ≡ codes "POST")
unfolding split_body_headers
split_body_headers_post phr before after headers h =
    let packet : Bytes = before ++ (blank_line ++ after) in
    let parsed = set_headers (record no_request { type = codes "POST" }) headers in
    let (i, found, le) = find_least blank_line before after in
    let (head, rest, split, len) = find_sound blank_line packet i found in
    let method = method-set_headers (record no_request { type = codes "POST" }) headers in
    (
      record parsed { body = drop (i + 4) packet; body_offset = i + 4 },
      head,
      rw (h, split_body_headers) (with_body_post parsed packet i method found),
      split
          ∙ ap (λ t. head ++ (blank_line ++ t))
              (sym (ap (drop (i + 4)) split ∙ drop-blank head rest i len)),
      omega arith,
      omega arith,
      method,
    )

with_body_suffix :
    (req r : ParsedRequest) (packet : Bytes)
    → with_body req packet ≡ inl r
    → r.body ≡ drop r.body_offset packet
unfolding with_body
with_body_suffix req r packet h = ground arith

-- Whatever the packet, the body that is reported is the end of the packet from the reported offset.
split_body_headers_suffix :
    (phr : Bytes → PhrResult) (packet : Bytes) (req : ParsedRequest)
    → split_body_headers phr packet ≡ inl req
    → req.body ≡ drop req.body_offset packet
unfolding split_body_headers
split_body_headers_suffix phr packet req h = go (phr packet) refl
  where
    go : (r : PhrResult) → phr packet ≡ r → req.body ≡ drop req.body_offset packet
    go (request method headers) e =
        with_body_suffix (set_headers (record no_request { type = method }) headers) req packet
          (rw (e, split_body_headers) at h)
    go partial e = cc (rw (e, split_body_headers) at h)
    go failed e = with_body_suffix no_request req packet (rw (e, split_body_headers) at h)

abbrev content_length_of : ParsedRequest → List Header → Bytes
content_length_of req hs = (set_headers req hs).content_length

named_length :
    (req : ParsedRequest) (value : Bytes)
    → (set_header req (record { name = codes "Content-Length"; value = value })).content_length
      ≡ value
unfolding set_header view_eq
named_length req value = refl

other_length :
    (req : ParsedRequest) (h : Header)
    → view_eq h.name (codes "Content-Length") ≡ false
    → (set_header req h).content_length ≡ req.content_length
unfolding set_header
other_length req h e = rw e (ground arith)

length_kept :
    (req : ParsedRequest) (hs : List Header)
    → NoneNamed (codes "Content-Length") hs
    → content_length_of req hs ≡ req.content_length
unfolding set_headers
length_kept req [] n = refl
length_kept req (h ∷ hs) n = length_kept (set_header req h) hs n.1 ∙ other_length req h n.0

-- A header named so, followed by none of that name, gives the length of the content.
content_length-set_headers :
    (req : ParsedRequest) (before after : List Header) (value : Bytes)
    → NoneNamed (codes "Content-Length") after
    → content_length_of req
        (before ++ record { name = codes "Content-Length"; value = value } ∷ after)
      ≡ value
unfolding set_headers
content_length-set_headers req [] after value h =
    length_kept (set_header req (record { name = codes "Content-Length"; value = value })) after h
    ∙ named_length req value
content_length-set_headers req (b ∷ before) after value h =
    content_length-set_headers (set_header req b) before after value h
