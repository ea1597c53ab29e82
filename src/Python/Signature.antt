-- ===== src/Python/Signature.antt =====
-- `prepare_wrapper`: the parameters of a Python function, from its signature or from its code.
pub mod Slots
use ucall.Prelude.{
  ℕ, suc, ◌+◌, ◌-◌, Bool, true, false, Option, none, some, List, [], ◌∷◌, ◌++◌, Bytes, length, map,
  get_or, get_elem?, drop, ltb, if◌then◌else◌,
}

-- `py_param_kind_t`
pub data ParamKind : Type 0 where
  positional_only positional_or_keyword var_positional keyword_only var_keyword : ParamKind

-- `py_param_t`; `V` and `T` are Python's objects and types, `none` a null pointer.
pub record Param (V T : Type 0) : Type 0 where
  pub name : Bytes
  pub value : Option V
  pub type : Option T
  pub kind : ParamKind

-- What a callable shows of itself. An attribute that is missing is `none`.
pub record Code (V T : Type 0) : Type 0 where
  pub co_varnames : List Bytes
  pub has_vararg : Bool
  pub has_varkeyarg : Bool
  pub co_argcount : ℕ
  pub co_posonlyargcount : ℕ
  pub co_kwonlyargcount : ℕ
  -- empty where `__defaults__` is no tuple
  pub defaults : List V
  pub kwdefaults : Bytes → Option V
  pub annotations : Bytes → Option T

pub record Callable (V T : Type 0) : Type 0 where
  -- `__name__`
  pub label : Bytes
  -- inside, `none` for a `__signature__` without `parameters`
  pub signature : Option (Option (List (Param V T)))
  pub code : Option (Code V T)

-- `py_wrapper_t`: the block of the parameters and `params_cnt`. The callable is an argument of `wrapper`.
pub record Wrapper (V T : Type 0) : Type 0 where
  pub u_params : List (Param V T)
  pub params_cnt : ℕ

abbrev count : Bool → ℕ
count b = if b then 1 else 0

-- `abs`
abbrev distance : ℕ → ℕ → ℕ
distance a b = (a - b) + (b - a)

module _ {V T : Type 0} (c : Code V T) where
  abbrev name_at : ℕ → Bytes
  name_at i = get_or c.co_varnames i []

  abbrev pub non_default_count : ℕ
  non_default_count = distance c.co_argcount (length c.defaults)

  abbrev pub total_params : ℕ
  total_params = c.co_argcount + count c.has_vararg + c.co_kwonlyargcount + count c.has_varkeyarg

  abbrev pub param : ℕ → Option V → ParamKind → Param V T
  param i value kind = record {
    name = name_at i;
    value = value;
    type = c.annotations (name_at i);
    kind = kind;
  }

  -- `posonly_left` is lowered once for each parameter.
  abbrev pub positional_kind : ℕ → ParamKind
  positional_kind i = if ltb i c.co_posonlyargcount then positional_only else positional_or_keyword

  -- `for (i = from; i < from + n; ++i)`
  unfoldable pub without_defaults : ℕ → ℕ → List (Param V T)
  without_defaults from ℕ.zero = []
  without_defaults from (suc n) =
      param from none (positional_kind from) ∷ without_defaults (suc from) n

  unfoldable pub with_defaults : ℕ → ℕ → List (Param V T)
  with_defaults from ℕ.zero = []
  with_defaults from (suc n) =
      param from (get_elem? c.defaults (from - non_default_count)) (positional_kind from)
      ∷ with_defaults (suc from) n

  unfoldable pub keyword_params : ℕ → ℕ → List (Param V T)
  keyword_params from ℕ.zero = []
  keyword_params from (suc n) =
      param from (c.kwdefaults (name_at from)) keyword_only ∷ keyword_params (suc from) n

  unfoldable pub vararg : List (Param V T)
  vararg =
      if c.has_vararg
      then param (c.co_argcount + c.co_kwonlyargcount) none var_positional ∷ []
      else []

  unfoldable pub varkeyarg : List (Param V T)
  varkeyarg =
      if c.has_varkeyarg
      then param (c.co_argcount + c.co_kwonlyargcount + count c.has_vararg) none var_keyword ∷ []
      else []

  -- The parameters in the order in which they are stored.
  unfoldable pub code_params : List (Param V T)
  code_params =
      without_defaults 0 non_default_count
      ++ (with_defaults non_default_count (c.co_argcount - non_default_count)
          ++ (vararg ++ (keyword_params c.co_argcount c.co_kwonlyargcount ++ varkeyarg)))

-- `none` for the result -1.
unfoldable pub prepare_wrapper : {V T : Type 0} → Callable V T → Option (Wrapper V T)
prepare_wrapper f = elim f.signature [
  | some none ↦ none
  | some (some items) ↦ some (record { u_params = items; params_cnt = length items })
  | none ↦ elim f.code [
    | none ↦ none
    | some c ↦ some (record { u_params = code_params c; params_cnt = total_params c })
  ]
]
