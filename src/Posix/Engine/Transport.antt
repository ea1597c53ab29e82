-- ===== src/Posix/Engine/Transport.antt =====
-- The loops over `send` and `recv`: what they deliver.
use ucall.Prelude.{
  Bool-cases, inl, inr, false, ◌<◌, ◌-◌, length-take, length-append, ◌==◌, ℕ, zero, suc, ◌+◌, ◌≤◌,
  ◌≡◌, refl, sym, ap, ◌∙◌, [], ◌∷◌, ◌++◌, append_assoc, arith, Bytes, length, length-drop, take,
  drop, take-append-drop,
}
use ucall.Posix.Engine.{Sent, bytes, failed, send_loop, recv_loop, recv_all}

-- The peer is there and takes something of every message.
abbrev pub IsWilling : (ℕ → Sent) → Type 0
IsWilling net = (k : ℕ) → (n : ℕ) × (net k ≡ bytes (suc n))

-- Whatever the network answers, what was taken is the start of the message.
send_loop-prefix :
    (net : ℕ → Sent) (fuel : ℕ) (rest : Bytes) (last : Sent) (clock : ℕ)
    → (left : Bytes) × (rest ≡ (send_loop net fuel rest last clock).taken ++ left)
unfolding send_loop
send_loop-prefix net zero rest last clock = (rest, refl)
send_loop-prefix net (suc fuel) [] last clock = ([], refl)
send_loop-prefix net (suc fuel) (x ∷ xs) last clock =
    go (net clock) refl
      (λ m. send_loop-prefix net fuel (drop (suc m) (x ∷ xs)) (bytes (suc m)) (clock + 1))
  where
    go :
        (r : Sent)
        → net clock ≡ r
        → ((m : ℕ)
            → (left : Bytes) × (drop (suc m) (x ∷ xs)
                ≡ (send_loop net fuel (drop (suc m) (x ∷ xs)) (bytes (suc m)) (clock + 1)).taken
                  ++ left))
        → (left : Bytes) × (x ∷ xs ≡ (send_loop net (suc fuel) (x ∷ xs) last clock).taken ++ left)
    go (failed big) e ih = (x ∷ xs, rw (e, send_loop))
    go (bytes zero) e ih = (x ∷ xs, rw (e, send_loop))
    go (bytes (suc m)) e ih =
        let (left, split) = ih m in
        let d = send_loop net fuel (drop (suc m) (x ∷ xs)) (bytes (suc m)) (clock + 1) in
        (
          left,
          rw (e, send_loop)
              (sym (take-append-drop (suc m) (x ∷ xs))
                ∙ ap (◌++◌ (take (suc m) (x ∷ xs))) split
                ∙ sym (append_assoc (take (suc m) (x ∷ xs)) d.taken left)),
        )

-- With a peer that takes something of every message and one round for each byte, all of the
-- message is taken, and the loop ends with no error.
pub send_loop_all :
    (net : ℕ → Sent) (fuel : ℕ) (rest : Bytes) (n clock : ℕ)
    → IsWilling net
    → length rest ≤ fuel
    → ((send_loop net fuel rest (bytes n) clock).taken ≡ rest)
      × ((m : ℕ) × ((send_loop net fuel rest (bytes n) clock).last ≡ bytes m))
unfolding send_loop
send_loop_all net zero [] n clock w h = (refl, (n, refl))
send_loop_all net zero (x ∷ xs) n clock w h = absurd (omega arith)
send_loop_all net (suc fuel) [] n clock w h = (refl, (n, refl))
send_loop_all net (suc fuel) (x ∷ xs) n clock w h =
    let (m, e) = w clock in
    let (text, (k, last)) =
      send_loop_all net fuel (drop (suc m) (x ∷ xs)) (suc m) (clock + 1) w
        (omega (arith, length-drop m xs)) in
    rw (e, send_loop)
      (ap (λ t. take (suc m) (x ∷ xs) ++ t) text ∙ take-append-drop (suc m) (x ∷ xs), (k, last))

recv_loop-le :
    (source : ℕ → Bytes) (fuel left clock : ℕ) → length (recv_loop source fuel left clock).0 ≤ left
unfolding recv_loop
recv_loop-le source zero left clock = omega arith
recv_loop-le source (suc fuel) left clock =
    let chunk = take left (source clock) in
    let more = (recv_loop source fuel (left - length chunk) (clock + 1)).0 in
    ground (
      arith,
      length-take left (source clock),
      length-append chunk more,
      recv_loop-le source fuel (left - length chunk) (clock + 1),
    )

-- No more is received than was asked for.
pub recv_all-le : (source : ℕ → Bytes) (len clock : ℕ) → length (recv_all source len clock).0 ≤ len
unfolding recv_all
recv_all-le source len clock = recv_loop-le source len len clock

recv_loop_full :
    (source : ℕ → Bytes) (fuel left clock : ℕ)
    → ((k : ℕ) → 0 < length (source k))
    → left ≤ fuel
    → length (recv_loop source fuel left clock).0 ≡ left
unfolding recv_loop
recv_loop_full source zero left clock h le = omega arith
recv_loop_full source (suc fuel) left clock h le =
    let chunk = take left (source clock) in
    let more = (recv_loop source fuel (left - length chunk) (clock + 1)).0 in
    elim (Bool-cases (left == 0)) [
      | inl z ↦ rw z (ground arith)
      | inr z ↦
          let len = length-take left (source clock) in
          let some_left : 0 < left = ground arith in
          let got : (length chunk == 0) ≡ false = ground (arith, len, h clock, some_left) in
          let rest =
            recv_loop_full source fuel (left - length chunk) (clock + 1) h
              (ground (arith, len, h clock, some_left)) in
          rw (z, got) (omega (arith, length-append chunk more, rest, len))
    ]

-- While the peer goes on sending, as many bytes are received as were asked for.
pub recv_all_full :
    (source : ℕ → Bytes) (len clock : ℕ)
    → ((k : ℕ) → 0 < length (source k))
    → length (recv_all source len clock).0 ≡ len
unfolding recv_all
recv_all_full source len clock h = recv_loop_full source len len clock h (omega arith)
