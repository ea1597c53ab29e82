-- ===== src/Memory/Pool/Ownership.antt =====
-- Who holds a slot: over any history in which a slot is released only by its holder, every slot is
-- free once or lent once.
use mathlib.Core.Path.{subst₂}
use ucall.Prelude.{
  ℕ, zero, suc, ◌+◌, ◌-◌, ◌≤◌, ◌<◌, ◌≡◌, ◌⊎◌, refl, sym, ap, subst, ◌∙◌, inl, inr, Bool-cases, none,
  some, List, [], ◌∷◌, ◌++◌, arith, length, take, take_all, get_or, set, length-set, length-append,
  ltb, ◌==◌, if◌then◌else◌,
}
use ucall.Memory.Pool.{Pool, iota, alloc, release}

abbrev pub count : ℕ → List ℕ → ℕ
count a [] = 0
count a (x ∷ xs) = if x == a then suc (count a xs) else count a xs

count-append : (a : ℕ) (xs ys : List ℕ) → count a (xs ++ ys) ≡ count a xs + count a ys
count-append a [] ys = omega arith
count-append a (x ∷ xs) ys = ground (arith, count-append a xs ys)

-- 1 for a slot of a pool of this capacity, 0 for another number.
abbrev pub one_below : ℕ → ℕ → ℕ
one_below cap a = if ltb a cap then 1 else 0

count-iota : (a i n : ℕ) → count a (iota i n) ≡ (if ltb a i then 0 else one_below (i + n) a)
count-iota a i zero = ground arith
count-iota a i (suc n) = ground (arith, count-iota a (i + 1) n)

length-iota : (i n : ℕ) → length (iota i n) ≡ n
length-iota i zero = refl
length-iota i (suc n) = ap suc (length-iota (i + 1) n)

take-suc : (xs : List ℕ) (k : ℕ) → k < length xs → take (suc k) xs ≡ take k xs ++ get_or xs k 0 ∷ []
take-suc [] k h = absurd (omega arith)
take-suc (x ∷ xs) zero h = refl
take-suc (x ∷ xs) (suc k) h = ap (◌∷◌ x) (take-suc xs k (omega arith))

take-set : (xs : List ℕ) (k v : ℕ) → k < length xs → take (suc k) (set xs k v) ≡ take k xs ++ v ∷ []
take-set [] k v h = absurd (omega arith)
take-set (x ∷ xs) zero v h = refl
take-set (x ∷ xs) (suc k) v h = ap (◌∷◌ x) (take-set xs k v (omega arith))

-- The part of the stack that is in use.
abbrev pub free : Pool → List ℕ
free p = take p.free_count p.free_offsets

-- A pool and the slots that its clients hold.
pub record World : Type 0 where
  pub pool : Pool
  pub lent : List ℕ

-- The clients' moves: take a slot, be refused one, or give back one that is held.
pub data Step (w : World) : World → Type 0 where
  takes :
      {p : Pool} (s : ℕ)
      → alloc w.pool ≡ (some s, p)
      → Step w (record { pool = p; lent = s ∷ w.lent })
  refused : {p : Pool} → alloc w.pool ≡ (none, p) → Step w (record { pool = p; lent = w.lent })
  gives :
      (s : ℕ) (xs ys : List ℕ)
      → w.lent ≡ xs ++ s ∷ ys
      → Step w (record { pool = release w.pool s; lent = xs ++ ys })

pub data Reach (w : World) : World → Type 0 where
  here : Reach w w
  next : {t u : World} → Reach w t → Step t u → Reach w u

pub record Inv (cap : ℕ) (w : World) : Type 0 where
  pub stack : length w.pool.free_offsets ≡ cap
  pub sum : w.pool.free_count + length w.lent ≡ cap
  pub once : (a : ℕ) → count a (free w.pool) + count a w.lent ≡ one_below cap a

-- A pool that has just been reserved, with nothing lent.
abbrev pub fresh : ℕ → World
fresh n = record {
  pool = record { capacity = n; free_count = n; free_offsets = iota 0 n };
  lent = [];
}

fresh-Inv : (n : ℕ) → Inv n (fresh n)
fresh-Inv n = record {
  stack = length-iota 0 n;
  sum = omega arith;
  once = λ a. ground (
    arith,
    count-iota a 0 n,
    ap (count a) (take_all n (iota 0 n) (omega (arith, length-iota 0 n))),
  );
}

free_top :
    (xs : List ℕ) (k : ℕ)
    → 0 < k
    → k ≤ length xs
    → take k xs ≡ take (k - 1) xs ++ get_or xs (k - 1) 0 ∷ []
free_top xs zero p h = absurd (omega arith)
free_top xs (suc k) p h = let e : suc k - 1 ≡ k = omega arith in rw e (take-suc xs k (omega arith))

free_push :
    (xs : List ℕ) (k v : ℕ) → k < length xs → take (k + 1) (set xs k v) ≡ take k xs ++ v ∷ []
free_push xs k v h = let e : k + 1 ≡ suc k = omega arith in rw e (take-set xs k v h)

alloc-some :
    (q p : Pool) (s : ℕ)
    → alloc q ≡ (some s, p)
    → (0 < q.free_count)
      × (s ≡ get_or q.free_offsets (q.free_count - 1) 0)
      × (p ≡ record q { free_count = q.free_count - 1 })
unfolding alloc
alloc-some q p s e = ground arith

alloc-none : (q p : Pool) → alloc q ≡ (none, p) → (q.free_count ≡ 0) × (p ≡ q)
unfolding alloc
alloc-none q p e = ground arith

taken-Inv :
    (cap : ℕ) (w : World)
    → Inv cap w
    → 0 < w.pool.free_count
    → Inv cap (record {
      pool = record (w.pool) { free_count = w.pool.free_count - 1 };
      lent = get_or w.pool.free_offsets (w.pool.free_count - 1) 0 ∷ w.lent;
    })
taken-Inv cap w v h = record {
  stack = v.stack;
  sum = omega (arith, v.sum);
  once = λ a. ground (
    arith,
    v.once a,
    ap (count a) (free_top fo fc h (omega (arith, v.sum, v.stack))),
    count-append a (take (fc - 1) fo) (get_or fo (fc - 1) 0 ∷ []),
  );
}
  where
    fo : List ℕ
    fo = w.pool.free_offsets

    fc : ℕ
    fc = w.pool.free_count

given-Inv :
    (cap : ℕ) (w : World) (s : ℕ) (xs ys : List ℕ)
    → Inv cap w
    → w.lent ≡ xs ++ s ∷ ys
    → Inv cap (record { pool = release w.pool s; lent = xs ++ ys })
unfolding release
given-Inv cap w s xs ys v e = record {
  stack = length-set w.pool.free_offsets w.pool.free_count s ∙ v.stack;
  sum = omega (arith, v.sum, len, length-append xs ys);
  once = λ a. ground (
    arith,
    v.once a,
    ap (count a) e,
    count-append a xs (s ∷ ys),
    count-append a xs ys,
    ap (count a) (free_push w.pool.free_offsets w.pool.free_count s room),
    count-append a (free w.pool) (s ∷ []),
  );
}
  where
    len : length w.lent ≡ length xs + suc (length ys)
    len = ap length e ∙ length-append xs (s ∷ ys)

    room : w.pool.free_count < length w.pool.free_offsets
    room = omega (arith, v.sum, v.stack, len)

Step-Inv : {w u : World} (cap : ℕ) → Step w u → Inv cap w → Inv cap u
Step-Inv {w} cap (takes {p = p} s e) v =
    let (pos, hs, hp) = alloc-some w.pool p s e in
    subst₂ (λ x q. Inv cap (record { pool = q; lent = x ∷ w.lent })) (sym hs) (sym hp)
      (taken-Inv cap w v pos)
Step-Inv {w} cap (refused {p = p} e) v =
    let hp = (alloc-none w.pool p e).1 in
    subst (λ q. Inv cap (record { pool = q; lent = w.lent })) (sym hp) v
Step-Inv {w} cap (gives s xs ys e) v = given-Inv cap w s xs ys v e

Reach-Inv : {w u : World} (cap : ℕ) → Inv cap w → Reach w u → Inv cap u
Reach-Inv cap v here = v
Reach-Inv cap v (next r st) = Step-Inv cap st (Reach-Inv cap v r)

exclusive_slot :
    (n : ℕ) (w : World)
    → Inv n w
    → 0 < w.pool.free_count
    → let s = get_or w.pool.free_offsets (w.pool.free_count - 1) 0 in
      ((alloc w.pool).0 ≡ some s) × (s < n) × (count s w.lent ≡ 0)
unfolding alloc
exclusive_slot n w v h =
    let s = get_or w.pool.free_offsets (w.pool.free_count - 1) 0 in
    let t = (taken-Inv n w v h).once s in (ground arith, ground (arith, t), ground (arith, t))

-- After any history that starts with a reserved pool of `n` slots, in which clients release only
-- what they hold: no slot is lent twice, every lent slot is below `n`, and the next `alloc` is
-- refused exactly if all `n` slots are lent, and otherwise hands out a slot below `n` that is not
-- lent.
pub Reach-exclusive :
    (n : ℕ) (w : World)
    → Reach (fresh n) w
    → ((a : ℕ) → count a w.lent ≤ one_below n a)
      × (((alloc w.pool).0 ≡ none) × (length w.lent ≡ n)
          ⊎ ((s : ℕ) × ((alloc w.pool).0 ≡ some s) × (s < n) × (count s w.lent ≡ 0)))
unfolding alloc
Reach-exclusive n w r = (
  λ a. omega (arith, v.once a),
  elim (Bool-cases (w.pool.free_count == 0)) [
    | inl e ↦ inl (ground arith, ground (arith, v.sum))
    | inr e ↦
        let (a, b, c) = exclusive_slot n w v (ground arith) in
        inr (get_or w.pool.free_offsets (w.pool.free_count - 1) 0, a, b, c)
  ],
)
  where
    v : Inv n w
    v = Reach-Inv n (fresh-Inv n) r
