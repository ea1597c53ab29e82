-- ===== src/Prelude/Block.antt =====
-- Bytes in memory: literals, comparison of views, and `memcpy` into a block.
use Prim.Native.Char.{code}
use Prim.Native.String.{String}
use Prim.Native.Nat.{ℕ, ◌+◌, ◌≤◌}
use mathlib.Core.Path.{◌≡◌, refl}
use mathlib.Core.Bool.{Bool, true, false, ◌&&◌}
use mathlib.Core.List.{List, [], ◌∷◌, ◌++◌, append_assoc}
use native.Mathlib.Omega.{arith}
use ucall.Prelude.Tests.{◌==◌}
use ucall.Prelude.Lists.{
  length, take, drop, length-append, length-take, length-drop, take-length-append,
}

abbrev pub Bytes : Type 0
Bytes = List ℕ

-- The bytes of an ASCII literal.
abbrev pub codes : String → Bytes
codes String.[] = []
codes (String.◌∷◌ c s) = code c ∷ codes s

-- `==` of two string views.
unfoldable pub view_eq : Bytes → Bytes → Bool
view_eq [] [] = true
view_eq [] (y ∷ ys) = false
view_eq (x ∷ xs) [] = false
view_eq (x ∷ xs) (y ∷ ys) = x == y && view_eq xs ys

pub view_eq_sound : (xs ys : Bytes) → view_eq xs ys ≡ true → xs ≡ ys
unfolding view_eq
view_eq_sound [] [] h = refl
view_eq_sound [] (y ∷ ys) h = cc
view_eq_sound (x ∷ xs) [] h = cc
view_eq_sound (x ∷ xs) (y ∷ ys) h = ground (arith, view_eq_sound xs ys)

pub view_eq_refl : (xs : Bytes) → view_eq xs xs ≡ true
unfolding view_eq
view_eq_refl [] = refl
view_eq_refl (x ∷ xs) = ground (arith, view_eq_refl xs)

-- `memcpy(mem + at, src, length src)`. Past the end of `mem` the block would grow: `length-memcpy`
-- says when it does not.
abbrev pub memcpy : Bytes → ℕ → Bytes → Bytes
memcpy mem at src = take at mem ++ (src ++ drop (at + length src) mem)

pub length-memcpy :
    (mem : Bytes) (at : ℕ) (src : Bytes)
    → at + length src ≤ length mem
    → length (memcpy mem at src) ≡ length mem
length-memcpy mem at src h = omega (
  arith,
  length-append (take at mem) (src ++ drop (at + length src) mem),
  length-append src (drop (at + length src) mem),
  length-take at mem,
  length-drop (at + length src) mem,
)

-- What the block holds up to the end of the copy.
pub take-memcpy :
    (mem : Bytes) (at : ℕ) (src : Bytes)
    → at ≤ length mem
    → take (at + length src) (memcpy mem at src) ≡ take at mem ++ src
take-memcpy mem at src h =
    rw (← append_assoc (take at mem) src (drop (at + length src) mem), ← len)
      (take-length-append (take at mem ++ src) _)
  where
    len : length (take at mem ++ src) ≡ at + length src
    len = omega (arith, length-append (take at mem) src, length-take at mem)
