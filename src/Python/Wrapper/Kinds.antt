-- ===== src/Python/Wrapper/Kinds.antt =====
-- How a parameter's kind decides where its argument is looked for.
use ucall.Prelude.{ℕ, ◌≡◌, refl, Option, none, some, ltb, lt→ltb, true, ◌<◌}
use ucall.Python.Signature.{
  positional_only, positional_or_keyword, var_positional, keyword_only, var_keyword,
}
use ucall.Python.Wrapper.{Fetched, got, unset, refused, may_have_name, may_have_pos, fetch}

-- By name, or else at the position, or else the call is refused.
abbrev pub either_way : {A : Type 0} → Option A → Option A → Fetched A
either_way (some a) positional = got a
either_way none (some a) = got a
either_way none none = refused

-- By name, or never.
abbrev pub named_or_unset : {A : Type 0} → Option A → Fetched A
named_or_unset (some a) = got a
named_or_unset none = unset

-- With a name, a parameter that may be positional or named is looked for by name and then at its position,
-- and so are `*args` and keyword-only ones. A positional-only one is never looked for, whether it is there or not, and
-- `**kwargs` only by name: the argument is then an uninitialised variable.
pub fetch_lem :
    {A : Type 0} (name_len : ℕ) (named positional : Option A)
    → 0 < name_len
    → (fetch positional_or_keyword name_len named positional ≡ either_way named positional)
      × (fetch var_positional name_len named positional ≡ either_way named positional)
      × (fetch keyword_only name_len named positional ≡ either_way named positional)
      × (fetch positional_only name_len named positional ≡ unset)
      × (fetch var_keyword name_len named positional ≡ named_or_unset named)
unfolding fetch may_have_name may_have_pos
fetch_lem name_len none none h =
    let e : ltb 0 name_len ≡ true = lt→ltb 0 name_len h in
    rw (e, fetch) (refl, refl, refl, refl, refl)
fetch_lem name_len none (some a) h =
    let e : ltb 0 name_len ≡ true = lt→ltb 0 name_len h in
    rw (e, fetch) (refl, refl, refl, refl, refl)
fetch_lem name_len (some a) positional h =
    let e : ltb 0 name_len ≡ true = lt→ltb 0 name_len h in
    rw (e, fetch) (refl, refl, refl, refl, refl)
