-- ===== src/Python/Signature/Slots.antt =====
-- How many parameters are stored, and which.
use ucall.Prelude.{
  ℕ, zero, suc, ◌+◌, ◌-◌, ◌≤◌, ◌≡◌, ◌↔◌, refl, length, length-append, arith, ◌++◌, Option, none,
  get_elem?, ltb, if◌then◌else◌,
}
use ucall.Python.Signature.{
  Code, count, without_defaults, with_defaults, keyword_params, vararg, varkeyarg, code_params,
  total_params, non_default_count,
}

module _ {V T : Type 0} (c : Code V T) where
  length-without_defaults : (from n : ℕ) → length (without_defaults c from n) ≡ n
  unfolding without_defaults
  length-without_defaults from zero = refl
  length-without_defaults from (suc n) = omega (arith, length-without_defaults (suc from) n)

  length-with_defaults : (from n : ℕ) → length (with_defaults c from n) ≡ n
  unfolding with_defaults
  length-with_defaults from zero = refl
  length-with_defaults from (suc n) = omega (arith, length-with_defaults (suc from) n)

  length-keyword_params : (from n : ℕ) → length (keyword_params c from n) ≡ n
  unfolding keyword_params
  length-keyword_params from zero = refl
  length-keyword_params from (suc n) = omega (arith, length-keyword_params (suc from) n)

  length-vararg : length (vararg c) ≡ count c.has_vararg
  unfolding vararg
  length-vararg = ground arith

  length-varkeyarg : length (varkeyarg c) ≡ count c.has_varkeyarg
  unfolding varkeyarg
  length-varkeyarg = ground arith

  length_split :
      length (code_params c)
      ≡ non_default_count c
        + (c.co_argcount - non_default_count c)
        + count c.has_vararg
        + c.co_kwonlyargcount
        + count c.has_varkeyarg
  unfolding code_params
  length_split =
      let n = non_default_count c in
      let tail = keyword_params c c.co_argcount c.co_kwonlyargcount ++ varkeyarg c in
      let rest = vararg c ++ tail in
      omega (
        arith,
        length-append (without_defaults c 0 n) (with_defaults c n (c.co_argcount - n) ++ rest),
        length-append (with_defaults c n (c.co_argcount - n)) rest,
        length-append (vararg c) tail,
        length-append (keyword_params c c.co_argcount c.co_kwonlyargcount) (varkeyarg c),
        length-without_defaults 0 n,
        length-with_defaults n (c.co_argcount - n),
        length-keyword_params c.co_argcount c.co_kwonlyargcount,
        length-vararg,
        length-varkeyarg,
      )

  -- What is stored stays within the block for the parameters exactly if there are at most twice as many defaults as
  -- positional parameters.
  pub length-code_params :
      (length (code_params c) ≤ total_params c)
      ↔ (length c.defaults ≤ c.co_argcount + c.co_argcount)
  length-code_params = (λ h. omega (arith, h, length_split), λ h. omega (arith, h, length_split))

  -- As Python has it: the defaults are those of the last positional parameters.
  abbrev pub default_of : ℕ → Option V
  default_of i =
      if ltb (i + length c.defaults) c.co_argcount
      then none
      else get_elem? c.defaults (i + length c.defaults - c.co_argcount)
