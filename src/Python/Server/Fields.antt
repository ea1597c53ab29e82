-- ===== src/Python/Server/Fields.antt =====
-- What the parsed numbers leave in the configuration.
use ucall.Prelude.{
  ℕ, ◌/◌, ◌^◌, ◌<◌, ◌≡◌, refl, subst, ap, sym, ◌∙◌, Option, none, some, [], ◌∷◌, ◌++◌, arith,
  memcpy,
}
use ucall.Python.Server.{Arguments, little_endian, words, parse_n, parse_fields, field}

-- A number of 16 bits is followed by zeros.
little_endian_word :
    (v : ℕ) → v < 2 ^ 16 → little_endian 8 v ≡ little_endian 2 v ++ (0 ∷ 0 ∷ 0 ∷ 0 ∷ 0 ∷ 0 ∷ [])
unfolding little_endian
little_endian_word v h = let high : v / 256 / 256 ≡ 0 = omega (arith, h) in rw high refl

-- The numbers that are given fit 16 bits.
abbrev Fits16 : Option ℕ → Type 0
Fits16 none = Unit {0}
Fits16 (some v) = v < 2 ^ 16

-- The value that is given, or what is there.
abbrev given_or : Option ℕ → ℕ → ℕ
given_or none old = old
given_or (some v) old = v

-- Zero once a field before this one was given.
abbrev cleared_by : Option ℕ → ℕ → ℕ
cleared_by none old = old
cleared_by (some v) old = 0

module _ (a b c d : ℕ) where
  parse_first :
      (v : Option ℕ)
      → Fits16 v
      → parse_n (words a b c d) 0 v
        ≡ words (given_or v a) (cleared_by v b) (cleared_by v c) (cleared_by v d)
  unfolding parse_n words little_endian
  parse_first none h = refl
  parse_first (some v) h = ap (λ s. memcpy (words a b c d) 0 s) (little_endian_word v h)

  parse_second :
      (v : Option ℕ)
      → Fits16 v
      → parse_n (words a b c d) 2 v ≡ words a (given_or v b) (cleared_by v c) (cleared_by v d)
  unfolding parse_n words little_endian
  parse_second none h = refl
  parse_second (some v) h = ap (λ s. memcpy (words a b c d) 2 s) (little_endian_word v h)

  parse_third :
      (v : Option ℕ)
      → Fits16 v
      → parse_n (words a b c d) 4 v ≡ words a b (given_or v c) (cleared_by v d)
  unfolding parse_n words little_endian
  parse_third none h = refl
  parse_third (some v) h = ap (λ s. memcpy (words a b c d) 4 s) (little_endian_word v h)

  parse_fourth :
      (v : Option ℕ) → Fits16 v → parse_n (words a b c d) 6 v ≡ words a b c (given_or v d)
  unfolding parse_n words little_endian
  parse_fourth none h = refl
  parse_fourth (some v) h = ap (λ s. memcpy (words a b c d) 6 s) (little_endian_word v h)

field-words :
    (a b c d : ℕ)
    → a < 2 ^ 16
    → b < 2 ^ 16
    → c < 2 ^ 16
    → d < 2 ^ 16
    → (field (words a b c d) 0 ≡ a)
      × (field (words a b c d) 2 ≡ b)
      × (field (words a b c d) 4 ≡ c)
      × (field (words a b c d) 6 ≡ d)
unfolding words little_endian
field-words a b c d ha hb hc hd =
    (omega (arith, ha), omega (arith, hb), omega (arith, hc), omega (arith, hd))

given_small : (v : Option ℕ) (old : ℕ) → Fits16 v → old < 2 ^ 16 → given_or v old < 2 ^ 16
given_small none old h k = k
given_small (some v) old h k = h

cleared_small : (v : Option ℕ) (old : ℕ) → old < 2 ^ 16 → cleared_by v old < 2 ^ 16
cleared_small none old k = k
cleared_small (some v) old k = omega arith

-- Where the numbers that are given fit the 16 bits of their fields: each is read back from its field, and the fields behind it that
-- are not given are zero instead of their defaults, since the format writes eight bytes for each number.
pub parse_fields_lem :
    (args : Arguments)
    → Fits16 args.port
    → Fits16 args.queue_depth
    → Fits16 args.max_callbacks
    → Fits16 args.max_threads
    → let block = parse_fields args in
      (field block 0 ≡ given_or args.port 8545)
      × (field block 2 ≡ given_or args.queue_depth (cleared_by args.port 4096))
      × (field block 4
          ≡ given_or args.max_callbacks (cleared_by args.queue_depth (cleared_by args.port 65535)))
      × (field block 6
          ≡ given_or args.max_threads (
              cleared_by args.max_callbacks
                (cleared_by args.queue_depth (cleared_by args.port 16))))
unfolding parse_fields
parse_fields_lem args hp hq hc ht =
    let p = args.port in
    let q = args.queue_depth in
    let c = args.max_callbacks in
    let t = args.max_threads in
    let c₁ = cleared_small p 65535 (omega arith) in
    let t₁ = cleared_small p 16 (omega arith) in
    let whole : parse_fields args
        ≡ words (given_or p 8545) (given_or q (cleared_by p 4096))
            (given_or c (cleared_by q (cleared_by p 65535)))
            (given_or t (cleared_by c (cleared_by q (cleared_by p 16)))) =
      ap (λ x. parse_n (parse_n (parse_n x 2 q) 4 c) 6 t) (parse_first 8545 4096 65535 16 p hp)
      ∙ ap (λ x. parse_n (parse_n x 4 c) 6 t) (parse_second _ _ _ _ q hq)
      ∙ ap (λ x. parse_n x 6 t) (parse_third _ _ _ _ c hc)
      ∙ parse_fourth _ _ _ _ t ht in
    subst
      (λ x.
        (field x 0 ≡ given_or p 8545)
        × (field x 2 ≡ given_or q (cleared_by p 4096))
        × (field x 4 ≡ given_or c (cleared_by q (cleared_by p 65535)))
        × (field x 6 ≡ given_or t (cleared_by c (cleared_by q (cleared_by p 16)))))
      (sym whole)
      (field-words _ _ _ _ (given_small p 8545 hp (omega arith))
        (given_small q _ hq (cleared_small p 4096 (omega arith)))
        (given_small c _ hc (cleared_small q _ c₁))
        (given_small t _ ht (cleared_small c _ (cleared_small q _ t₁))))
