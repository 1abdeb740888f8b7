-- ===== src/Gotype/Registry/Names.antt =====
-- gotype/registry.go: what the registry holds under a type name.
use Prim.Native.Char.{Char}
use go_typeql.Base.{
  String, Bool, false, List, [], ◌∷◌, none, some, ◌==◌, eqb, lookup, insert, lookup-insert_cases,
  ap, subst, ◌⊎◌, ◌≡◌, refl, sym, ◌∙◌, inl, inr, arith, Bool-cases, Option-cases, Result-cases,
}
use go_typeql.Gotype.Registry.Identifiers.{IsAllowed, HasAllowed, validate_model_names-IsAllowed}
use go_typeql.Gotype.Registry.{
  Registered, Registry, Candidate, clear_registry, validate_model_names, override_name, add_model,
  register, register_each, lookup_model,
}

module _ (is_letter is_digit : Char → Bool) (lower_go_name : String → String) where
  -- What is found under a type name is a model of that name, whose own name and attributes are allowed.
  abbrev pub IsNamed : Registry → Type 0
  IsNamed reg =
      (name : String) (r : Registered)
      → lookup_model name reg ≡ some r
      → (r.info.type_name ≡ name)
        × IsAllowed is_letter is_digit name
        × HasAllowed is_letter is_digit r.info.fields

  -- What was found under a type name is found there later, for the same Go type.
  abbrev pub Holds : Registry → Registry → Type 0
  Holds reg reg' =
      (name : String) (r : Registered)
      → lookup_model name reg ≡ some r
      → (r' : Registered) × (lookup_model name reg' ≡ some r') × (r'.go_type.id ≡ r.go_type.id)

  abbrev Keeps : Registry → Registry → Type 0
  Keeps reg reg' = (IsNamed reg → IsNamed reg') × Holds reg reg'

  stays : (reg : Registry) → Keeps reg reg
  stays reg = ((λ h. h), (λ name r h. (r, h, refl)))

  -- A model that is written under its name, where nothing or a model of its type stood.
  written-Keeps :
      (r : Registered) (reg reg' : Registry)
      → reg'.by_name ≡ insert r.info.type_name r reg.by_name
      → validate_model_names is_letter is_digit r.info ≡ none
      → ((old : Registered)
          → lookup r.info.type_name reg.by_name ≡ some old
          → r.go_type.id ≡ old.go_type.id)
      → Keeps reg reg'
  unfolding lookup_model
  written-Keeps r reg reg' e valid same =
      let behind : (name : String)
          → ((r.info.type_name ≡ name) × (lookup name reg'.by_name ≡ some r))
            ⊎ ((r.info.type_name == name ≡ false)
                × (lookup name reg'.by_name ≡ lookup name reg.by_name)) =
        λ name. rw e (lookup-insert_cases r.info.type_name name r reg.by_name) in
      (
        (λ named name x h. elim (behind name) [
          | inl (at, found) ↦
              let is : r ≡ x = cc in
              let (own, attributes) =
                validate_model_names-IsAllowed is_letter is_digit r.info valid in
              (
                ap (λ y. y.info.type_name) (sym is) ∙ at,
                subst (IsAllowed is_letter is_digit) at own,
                subst (λ y. HasAllowed is_letter is_digit y.info.fields) is attributes,
              )
          | inr (_, found) ↦ named name x (sym found ∙ h)
        ]),
        (λ name x h. elim (behind name) [
          | inl (at, found) ↦ (r, found, same x (rw at h))
          | inr (_, found) ↦ (x, found ∙ h, refl)
        ]),
      )

  add_model-Keeps :
      (r : Registered) (reg : Registry)
      → validate_model_names is_letter is_digit r.info ≡ none
      → Keeps reg (add_model is_letter is_digit lower_go_name r reg).1
  unfolding add_model
  add_model-Keeps r reg valid = elim (Option-cases (lookup r.info.type_name reg.by_name)) [
    | inl l ↦ rw (add_model, l) (written-Keeps r reg _ refl valid (λ old h. absurd (cc)))
    | inr (existing, l) ↦ elim (Bool-cases (eqb existing.go_type.id r.go_type.id)) [
      | inl e ↦
          rw (add_model, l, e)
            (written-Keeps r reg _ refl valid
              (λ old h. let is : existing ≡ old = cc in ground arith))
      | inr e ↦ rw (add_model, l, e) (stays reg)
    ]
  ]

  register-Keeps :
      (c : Candidate) (reg : Registry)
      → Keeps reg (register is_letter is_digit lower_go_name c reg).1
  unfolding register
  register-Keeps c reg = elim (Result-cases c.model) [
    | inr (e, m) ↦ rw (register, m) (stays reg)
    | inl (r, m) ↦
        let named : Registered = record r {
          info = record r.info { type_name = override_name c.raw_tags r.info.type_name };
        } in
        elim (Option-cases (validate_model_names is_letter is_digit named.info)) [
          | inr (e, v) ↦ rw (register, m) (rw v (stays reg))
          | inl v ↦ rw (register, m) (rw v (add_model-Keeps named reg v))
        ]
  ]

  register_each-Keeps :
      (cs : List Candidate) (reg : Registry)
      → Keeps reg (register_each is_letter is_digit lower_go_name cs reg)
  unfolding register_each
  register_each-Keeps [] reg = stays reg
  register_each-Keeps (c ∷ cs) reg =
      let reg₁ = (register is_letter is_digit lower_go_name c reg).1 in
      let (named, holds) = register-Keeps c reg in
      let (named', holds') = register_each-Keeps cs reg₁ in
      (
        (λ h. named' (named h)),
        (λ name r h.
            let (r₁, found, same) = holds name r h in
            let (r₂, found', same') = holds' name r₁ found in (r₂, found', same' ∙ same)),
      )

  -- Whatever is registered in whatever order from an empty registry on, and whichever calls fail: what is
  -- found under a type name is a model of that name; the name and those of the attributes of its fields are
  -- no reserved words, whatever their case, and consist of a letter or an underscore and behind it letters,
  -- digits, dashes and underscores. Whatever is registered afterwards, the name stays with the Go type that
  -- it was found for.
  pub register_each-IsNamed :
      (cs later : List Candidate)
      → let reg = register_each is_letter is_digit lower_go_name cs clear_registry in
        IsNamed reg × Holds reg (register_each is_letter is_digit lower_go_name later reg)
  unfolding lookup_model lookup
  register_each-IsNamed cs later = (
    (register_each-Keeps cs clear_registry).0 (λ name r h. absurd (cc)),
    (register_each-Keeps later _).1,
  )
