-- ===== src/PyJson/Escape.antt =====
-- A printed string is read back by a JSON reader.
use ucall.Prelude.{
  ℕ, zero, suc, ◌+◌, ◌*◌, ◌-◌, ◌/◌, ◌%◌, ◌<◌, ◌≡◌, refl, sym, ap, subst, ltb→lt, lt→ltb, ◌∙◌, true,
  Option, none, some, [], ◌∷◌, ◌++◌, append_assoc, arith, Bytes, codes, get_or, inl, inr, ltb, leb,
  ◌==◌, ◌&&◌, if◌then◌else◌, Bool-cases,
}
use ucall.PyJson.{char_to_hex, escape_char, escape}

-- The value of a hexadecimal digit.
unfoldable pub hex_value : ℕ → Option ℕ
hex_value c =
    if leb 48 c && leb c 57
    then some (c - 48)
    else if leb 65 c && leb c 70
    then some (c - 55)
    else if leb 97 c && leb c 102
    then some (c - 87)
    else none

-- Where a reader of a string literal stands: between characters, behind a backslash, or in a code of
-- which so many digits are left.
pub data Reading : Type 0 where
  plain escaped : Reading
  hex : ℕ → ℕ → Reading

abbrev put : ℕ → Option (Bytes × Bytes) → Option (Bytes × Bytes)
put c none = none
put c (some (s, rest)) = some (c ∷ s, rest)

-- What a letter behind a backslash stands for.
unfoldable pub unescaped : ℕ → Option ℕ
unescaped c =
    if c == 34
    then some 34
    else if c == 92
    then some 92
    else if c == 47
    then some 47
    else if c == b'b'
    then some 8
    else if c == b'f'
    then some 12
    else if c == b'n'
    then some 10
    else if c == b'r'
    then some 13
    else if c == b't'
    then some 9
    else none

-- The characters up to the closing quote and what follows it, as RFC 8259 has it. Codes above 127 are not
-- read.
unfoldable pub read : Reading → Bytes → Option (Bytes × Bytes)
read state [] = none
read plain (c ∷ cs) =
    let inside = read plain cs in
    let behind = read escaped cs in
    if c == 34
    then some ([], cs)
    else if c == 92
    then behind
    else if ltb c 32
    then none
    else put c inside
read escaped (c ∷ cs) =
    let inside = read plain cs in
    let code = read (hex 0 3) cs in
    if c == b'u' then code else elim (unescaped c) [ none ↦ none | some d ↦ put d inside ]
read (hex v zero) (c ∷ cs) =
    let inside = read plain cs in
    elim (hex_value c) [
      | none ↦ none
      | some d ↦ if ltb (v * 16 + d) 128 then put (v * 16 + d) inside else none
    ]
read (hex v (suc n)) (c ∷ cs) = elim (hex_value c) [
  | none ↦ none
  | some d ↦ read (hex (v * 16 + d) n) cs
]

hex_value-digit : (d : ℕ) → d < 16 → hex_value (get_or (codes "0123456789ABCDEF") d 0) ≡ some d
unfolding hex_value
hex_value-digit zero h = refl
hex_value-digit (suc zero) h = refl
hex_value-digit (suc (suc zero)) h = refl
hex_value-digit (suc (suc (suc zero))) h = refl
hex_value-digit (suc (suc (suc (suc zero)))) h = refl
hex_value-digit (suc (suc (suc (suc (suc zero))))) h = refl
hex_value-digit (suc (suc (suc (suc (suc (suc zero)))))) h = refl
hex_value-digit (suc (suc (suc (suc (suc (suc (suc zero))))))) h = refl
hex_value-digit (suc (suc (suc (suc (suc (suc (suc (suc zero)))))))) h = refl
hex_value-digit (suc (suc (suc (suc (suc (suc (suc (suc (suc zero))))))))) h = refl
hex_value-digit (suc (suc (suc (suc (suc (suc (suc (suc (suc (suc zero)))))))))) h = refl
hex_value-digit (suc (suc (suc (suc (suc (suc (suc (suc (suc (suc (suc zero))))))))))) h = refl
hex_value-digit (suc (suc (suc (suc (suc (suc (suc (suc (suc (suc (suc (suc zero)))))))))))) h =
    refl
hex_value-digit (suc (suc (suc (suc (suc (suc (suc (suc (suc (suc (suc (suc (suc zero)))))))))))))
      h =
    refl
hex_value-digit
      (suc (suc (suc (suc (suc (suc (suc (suc (suc (suc (suc (suc (suc (suc zero)))))))))))))) h =
    refl
hex_value-digit
      (suc (suc (suc (suc (suc (suc (suc (suc (suc (suc (suc (suc (suc (suc (suc zero)))))))))))))))
      h =
    refl
hex_value-digit
      (suc
        (suc (suc (suc (suc (suc (suc (suc (suc (suc (suc (suc (suc (suc (suc (suc d))))))))))))))))
      h =
    absurd (omega arith)

abbrev Reads : ℕ → Bytes → Type 0
Reads c cs = read plain (escape_char c ++ cs) ≡ put c (read plain cs)

same_char : (c k : ℕ) (cs : Bytes) → (c == k) ≡ true → Reads k cs → Reads c cs
same_char c k cs e h = let e' : c ≡ k = ground arith in subst (λ x. Reads x cs) (sym e') h

-- The code of a control character.
read-code :
    (c : ℕ) (cs : Bytes) → c < 32 → read (hex 0 1) (char_to_hex c ++ cs) ≡ put c (read plain cs)
unfolding read char_to_hex
read-code c cs h =
    let low : (ltb ((0 * 16 + c / 16) * 16 + c % 16) 128) ≡ true = lt→ltb _ _ (omega arith) in
    let value : (0 * 16 + c / 16) * 16 + c % 16 ≡ c = omega arith in
    rw
      (
        hex_value-digit (c / 16) (omega arith),
        hex_value-digit (c % 16) (omega arith),
        read,
        low,
        value,
      )
      refl

read-escape_char : (c : ℕ) (cs : Bytes) → Reads c cs
unfolding read escape_char unescaped hex_value
read-escape_char c cs = elim (Bool-cases (c == 34)) [
  | inl e ↦ same_char c 34 cs e refl
  | inr quote ↦ elim (Bool-cases (c == 92)) [
    | inl e ↦ same_char c 92 cs e refl
    | inr backslash ↦ elim (Bool-cases (c == 8)) [
      | inl e ↦ same_char c 8 cs e refl
      | inr backspace ↦ elim (Bool-cases (c == 9)) [
        | inl e ↦ same_char c 9 cs e refl
        | inr tab ↦ elim (Bool-cases (c == 10)) [
          | inl e ↦ same_char c 10 cs e refl
          | inr line ↦ elim (Bool-cases (c == 12)) [
            | inl e ↦ same_char c 12 cs e refl
            | inr feed ↦ elim (Bool-cases (c == 13)) [
              | inl e ↦ same_char c 13 cs e refl
              | inr return ↦ elim (Bool-cases (ltb c 32)) [
                | inl e ↦
                    rw (quote, backslash, backspace, tab, line, feed, return, e)
                      (read-code c cs (ltb→lt c 32 e))
                | inr e ↦
                    rw
                      (quote, backslash, backspace, tab, line, feed, return, e, quote, backslash, e)
                      refl
              ]
            ]
          ]
        ]
      ]
    ]
  ]
]

-- A string that is printed with a quote behind it is read back, whatever follows.
pub read-escape : (s rest : Bytes) → read plain (escape s ++ 34 ∷ rest) ≡ some (s, rest)
unfolding escape read
read-escape [] rest = refl
read-escape (c ∷ s) rest =
    ap (read plain) (append_assoc (escape_char c) (escape s) (34 ∷ rest))
    ∙ read-escape_char c (escape s ++ 34 ∷ rest)
    ∙ ap (put c) (read-escape s rest)
