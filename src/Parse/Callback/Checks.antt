-- ===== src/Parse/Callback/Checks.antt =====
-- Which requests `find_callback` serves, and what it does to the id.
use ucall.Prelude.{
  ◌≡◌, ◌⊎◌, inl, inr, sym, ap, ◌∙◌, true, false, none, some, List, [], ◌∷◌, ◌++◌, arith, Bytes,
  codes, view_eq, view_eq_sound, view_eq_refl, Bool-cases, Option-cases,
}
use ucall.Parse.Dom.{Dom, holds}
use ucall.Parse.Callback.Ids.{
  ShowsId, AreParams, shows, accepted, shown, are_params, params_accepted,
}
use ucall.Parse.Callback.{
  NamedCallback, Scratch, bad_request, method_not_found, find_named, text_of, version_invalid,
  id_invalid, method_invalid, params_invalid, print_id, find_method, find_callback,
}

-- No callback of the list has this name.
abbrev pub NoneNamed : {C T : Type 0} → Bytes → List (NamedCallback C T) → Type 0
NoneNamed name [] = Unit {0}
NoneNamed name (c ∷ cs) = (view_eq c.name name ≡ false) × NoneNamed name cs

module _ {C T : Type 0} where
  -- The first callback of that name is taken.
  find_named-some :
      (cs : List (NamedCallback C T)) (name : Bytes) (c : NamedCallback C T)
      → find_named cs name ≡ some c
      → (before after : List (NamedCallback C T)) × (cs ≡ before ++ c ∷ after)
        × NoneNamed name before
        × (c.name ≡ name)
  unfolding find_named
  find_named-some [] name c h = cc
  find_named-some (d ∷ cs) name c h = elim (Bool-cases (view_eq d.name name)) [
    | inl e ↦
        let same : d ≡ c = ground (arith, e) in
        (
          [],
          cs,
          ap (λ x. x ∷ cs) same,
          tt,
          ap (λ (x : NamedCallback C T). x.name) (sym same) ∙ view_eq_sound d.name name e,
        )
    | inr e ↦
        let (before, after, split, other, named) = find_named-some cs name c (ground (arith, e)) in
        (d ∷ before, after, ap (◌∷◌ d) split, (e, other), named)
  ]

  find_named-none :
      (cs : List (NamedCallback C T)) (name : Bytes) → find_named cs name ≡ none → NoneNamed name cs
  unfolding find_named
  find_named-none [] name h = tt
  find_named-none (d ∷ cs) name h = elim (Bool-cases (view_eq d.name name)) [
    | inl e ↦ cc (rw (e, find_named) at h)
    | inr e ↦ (e, find_named-none cs name (ground (arith, e)))
  ]

module _ {E D C T : Type 0} (dom : Dom E D) (callbacks : List (NamedCallback C T))
    (s : Scratch E) where
  -- A request that passes the checks, with the id that its reply shows.
  pub record IsRequest (id : Bytes) : Type 0 where
    pub object : dom.is_object s.tree ≡ true
    pub version_string : holds dom.is_string (dom.at_key s.tree (codes "jsonrpc")) ≡ true
    pub version_text : text_of dom (dom.at_key s.tree (codes "jsonrpc")) ≡ codes "2.0"
    pub id_shown : ShowsId dom (dom.at_key s.tree (codes "id")) id
    pub method_string : holds dom.is_string (dom.at_key s.tree (codes "method")) ≡ true
    pub params_ok : AreParams dom (dom.at_key s.tree (codes "params"))

  abbrev pub method : Bytes
  method = text_of dom (dom.at_key s.tree (codes "method"))

  version_accepted :
      version_invalid dom s.tree ≡ false
      → (holds dom.is_string (dom.at_key s.tree (codes "jsonrpc")) ≡ true)
        × (text_of dom (dom.at_key s.tree (codes "jsonrpc")) ≡ codes "2.0")
  unfolding version_invalid
  version_accepted h = (
    ground arith,
    view_eq_sound (text_of dom (dom.at_key s.tree (codes "jsonrpc"))) (codes "2.0") (ground arith),
  )

  version_of_request : {id : Bytes} → IsRequest id → version_invalid dom s.tree ≡ false
  unfolding version_invalid
  version_of_request r = rw (r.version_string, r.version_text, view_eq_refl (codes "2.0"))

  method_accepted :
      method_invalid dom s.tree ≡ false
      → holds dom.is_string (dom.at_key s.tree (codes "method")) ≡ true
  unfolding method_invalid
  method_accepted h = ground arith

  method_of_request : {id : Bytes} → IsRequest id → method_invalid dom s.tree ≡ false
  unfolding method_invalid
  method_of_request r = rw r.method_string

  id_of_request : {id : Bytes} → IsRequest id → id_invalid dom s.tree ≡ false
  unfolding id_invalid
  id_of_request {id} r = accepted dom (dom.at_key s.tree (codes "id")) id r.id_shown

  text_of_request :
      {id : Bytes} → IsRequest id → print_id dom (dom.at_key s.tree (codes "id")) ≡ some id
  text_of_request {id} r = shown dom (dom.at_key s.tree (codes "id")) id r.id_shown

  id_accepted :
      (id : Bytes)
      → id_invalid dom s.tree ≡ false
      → print_id dom (dom.at_key s.tree (codes "id")) ≡ some id
      → ShowsId dom (dom.at_key s.tree (codes "id")) id
  unfolding id_invalid
  id_accepted id h t = shows dom (dom.at_key s.tree (codes "id")) id h t

  params_of_request : {id : Bytes} → IsRequest id → params_invalid dom s.tree ≡ false
  unfolding params_invalid
  params_of_request r = params_accepted dom (dom.at_key s.tree (codes "params")) r.params_ok

  params_read :
      params_invalid dom s.tree ≡ false → AreParams dom (dom.at_key s.tree (codes "params"))
  unfolding params_invalid
  params_read h = are_params dom (dom.at_key s.tree (codes "params")) h

  abbrev pub Served : Type 0
  Served =
      (c : NamedCallback C T) × (before after : List (NamedCallback C T)) × (id : Bytes)
      × (find_callback dom callbacks s ≡ (inl c, record s { dynamic_id = id }))
      × IsRequest id
      × (callbacks ≡ before ++ c ∷ after)
      × NoneNamed method before
      × (c.name ≡ method)

  abbrev pub Unknown : Type 0
  Unknown =
      (id : Bytes) × (find_callback dom callbacks s
        ≡ (inr method_not_found, record s { dynamic_id = id }))
      × IsRequest id
      × NoneNamed method callbacks

  abbrev pub Refused : Type 0
  Refused =
      (note : Bytes) × (find_callback dom callbacks s ≡ (inr (bad_request note), s))
      × ((id : Bytes) → ¬ (IsRequest id))

  find_method_cases :
      find_callback dom callbacks s ≡ find_method dom callbacks s
      → ((id : Bytes) → print_id dom (dom.at_key s.tree (codes "id")) ≡ some id → IsRequest id)
      → Served ⊎ (Unknown ⊎ Refused)
  unfolding find_method
  find_method_cases h req = elim (Option-cases (print_id dom (dom.at_key s.tree (codes "id")))) [
    | inl e ↦ inr (
        inr (
          codes "The request ID is invalid integer.",
          h ∙ rw (e, find_method),
          λ id r. cc (sym (text_of_request r) ∙ e),
        ))
    | inr (id, e) ↦ elim (Option-cases (find_named callbacks method)) [
      | inl n ↦
          inr (inl (id, h ∙ rw (e, n, find_method), req id e, find_named-none callbacks method n))
      | inr (c, n) ↦
          let (before, after, split, other, named) = find_named-some callbacks method c n in
          inl (c, before, after, id, h ∙ rw (e, n, find_method), req id e, split, other, named)
    ]
  ]

  pub find_callback_cases : Served ⊎ (Unknown ⊎ Refused)
  unfolding find_callback
  find_callback_cases = elim (Bool-cases (dom.is_object s.tree)) [
    | inr o ↦ inr (
        inr (
          codes "The JSON sent is not a valid request object.",
          rw (o, find_callback),
          λ id r. cc (sym r.object ∙ o),
        ))
    | inl o ↦ elim (Bool-cases (version_invalid dom s.tree)) [
      | inl v ↦ inr (
          inr (
            codes "The request doesn't specify the 2.0 version.",
            rw (o, v, find_callback),
            λ id r. cc (sym (version_of_request r) ∙ v),
          ))
      | inr v ↦ elim (Bool-cases (id_invalid dom s.tree)) [
        | inl i ↦ inr (
            inr (
              codes "The request must have integer or string id.",
              rw (o, v, i, find_callback),
              λ id r. cc (sym (id_of_request r) ∙ i),
            ))
        | inr i ↦ elim (Bool-cases (method_invalid dom s.tree)) [
          | inl m ↦ inr (
              inr (
                codes "The method must be a string.",
                rw (o, v, i, m, find_callback),
                λ id r. cc (sym (method_of_request r) ∙ m),
              ))
          | inr m ↦ elim (Bool-cases (params_invalid dom s.tree)) [
            | inl p ↦ inr (
                inr (
                  codes "Parameters can only be passed in arrays or objects.",
                  rw (o, v, i, m, p, find_callback),
                  λ id r. cc (sym (params_of_request r) ∙ p),
                ))
            | inr p ↦ find_method_cases (rw (o, v, i, m, p, find_callback)) (λ id t. record {
              object = o;
              version_string = (version_accepted v).0;
              version_text = (version_accepted v).1;
              id_shown = id_accepted id i t;
              method_string = method_accepted m;
              params_ok = params_read p;
            })
          ]
        ]
      ]
    ]
  ]
