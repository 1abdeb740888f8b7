-- ===== src/Gotype/Registry/Identifiers.antt =====
-- gotype/reserved.go and gotype/registry.go: what a name is that the checks of a model let through.
use Prim.Native.Char.{Char, code}
use go_typeql.Base.{
  String, Bool, true, false, ◌||◌, List, [], ◌∷◌, All, Chars, ℕ, none, ◌==◌, eqb, eqb_iff,
  equals_lower, ◌⊎◌, ◌+◌, ◌≡◌, inl, inr, Bool-cases, Option-cases,
}
use go_typeql.Gotype.Models.{ModelInfo, FieldInfo}
use go_typeql.Gotype.Registry.{
  reserved_words, is_among, is_reserved_word, width, later_characters, validate_identifier,
  check_name, check_fields, kind_str, validate_model_names,
}

-- No reserved word, in lower or upper case.
abbrev pub IsUnreserved : String → Type 0
IsUnreserved name = All (λ word. equals_lower word name ≡ false) reserved_words

module _ (is_letter is_digit : Char → Bool) where
  abbrev IsStart : Char → Type 0
  IsStart c = (is_letter c ≡ true) ⊎ (code c ≡ b'_')

  abbrev IsLater : Char → Type 0
  IsLater c = (is_letter c ≡ true) ⊎ (is_digit c ≡ true) ⊎ (code c ≡ b'-') ⊎ (code c ≡ b'_')

  -- A letter or an underscore, then letters, digits, dashes and underscores.
  abbrev pub IsIdentifier : String → Type 0
  IsIdentifier String.[] = ⊥
  IsIdentifier (String.◌∷◌ c s) = IsStart c × Chars IsLater s

  abbrev pub IsAllowed : String → Type 0
  IsAllowed name = IsUnreserved name × IsIdentifier name

  -- The fields whose attribute has a name have an allowed one.
  abbrev pub HasAllowed : List FieldInfo → Type 0
  HasAllowed fields = All (λ f. f.tag.name == "" ≡ false → IsAllowed f.tag.name) fields

  is_among-All :
      (words : List String) (name : String)
      → is_among words name ≡ false
      → All (λ word. equals_lower word name ≡ false) words
  unfolding is_among
  is_among-All [] name h = tt
  is_among-All (word ∷ words) name h = elim (Bool-cases (equals_lower word name)) [
    | inl e ↦ cc (rw (is_among, e) at h)
    | inr e ↦ (e, is_among-All words name (rw (is_among, e) at h))
  ]

  later_characters-IsLater :
      (i : ℕ) (s : String) → later_characters is_letter is_digit i s ≡ none → Chars IsLater s
  unfolding later_characters
  later_characters-IsLater i String.[] h = tt
  later_characters-IsLater i (String.◌∷◌ c s) h =
      let later = later_characters-IsLater (i + width c) s in
      elim (Bool-cases (is_letter c)) [
        | inl e ↦ (inl e, later (rw e at h))
        | inr e ↦ elim (Bool-cases (is_digit c)) [
          | inl d ↦ (inr (inl d), later (rw (e, d) at h))
          | inr d ↦ elim (Bool-cases (eqb (code c) b'-')) [
            | inl k ↦ (inr (inr (inl ((eqb_iff (code c) b'-').0 k))), later (rw (e, d, k) at h))
            | inr k ↦ elim (Bool-cases (eqb (code c) b'_')) [
              | inl u ↦
                  (inr (inr (inr ((eqb_iff (code c) b'_').0 u))), later (rw (e, d, k, u) at h))
              | inr u ↦ cc (rw (e, d, k, u) at h)
            ]
          ]
        ]
      ]

  validate_identifier-IsIdentifier :
      (name context : String)
      → validate_identifier is_letter is_digit name context ≡ none
      → IsIdentifier name
  unfolding validate_identifier
  validate_identifier-IsIdentifier String.[] context h = cc h
  validate_identifier-IsIdentifier (String.◌∷◌ c s) context h =
      elim (Option-cases (later_characters is_letter is_digit (width c) s)) [
        | inr (e, l) ↦ elim (Bool-cases (is_letter c || eqb (code c) b'_')) [
          | inl k ↦ cc (rw (validate_identifier, k, l) at h)
          | inr k ↦ cc (rw (validate_identifier, k) at h)
        ]
        | inl l ↦
            let later = later_characters-IsLater (width c) s l in
            elim (Bool-cases (is_letter c)) [
              | inl e ↦ (inl e, later)
              | inr e ↦ elim (Bool-cases (eqb (code c) b'_')) [
                | inl u ↦ (inr ((eqb_iff (code c) b'_').0 u), later)
                | inr u ↦ cc (rw (validate_identifier, e, u) at h)
              ]
            ]
      ]

  pub check_name-IsAllowed :
      (name context : String) → check_name is_letter is_digit name context ≡ none → IsAllowed name
  unfolding is_reserved_word
  check_name-IsAllowed name context h = elim (Bool-cases (is_reserved_word name)) [
    | inl e ↦ cc (rw (check_name, e) at h)
    | inr e ↦ (
      is_among-All reserved_words name e,
      validate_identifier-IsIdentifier name context (rw (check_name, e) at h),
    )
  ]

  check_fields-HasAllowed :
      (context : String) (fields : List FieldInfo)
      → check_fields is_letter is_digit (λ t. t.name) context fields ≡ none
      → HasAllowed fields
  unfolding check_fields
  check_fields-HasAllowed context [] h = tt
  check_fields-HasAllowed context (f ∷ fs) h = elim (Bool-cases (f.tag.name == "")) [
    | inl e ↦ ((λ n. absurd (cc)), check_fields-HasAllowed context fs (rw (check_fields, e) at h))
    | inr e ↦ elim (Option-cases (check_name is_letter is_digit f.tag.name context)) [
      | inr (why, c) ↦ cc (rw (check_fields, e, c) at h)
      | inl c ↦ (
        (λ n. check_name-IsAllowed f.tag.name context c),
        check_fields-HasAllowed context fs (rw (check_fields, e, c) at h),
      )
    ]
  ]

  -- What validation asks of a model's name and of its attributes.
  pub validate_model_names-IsAllowed :
      (info : ModelInfo)
      → validate_model_names is_letter is_digit info ≡ none
      → IsAllowed info.type_name × HasAllowed info.fields
  unfolding validate_model_names
  validate_model_names-IsAllowed info h =
      elim (Option-cases
        (check_name is_letter is_digit info.type_name (kind_str is_letter is_digit info.kind))) [
          | inr (e, c) ↦ cc (rw (validate_model_names, c) at h)
          | inl c ↦
              elim (Option-cases
                (check_fields is_letter is_digit (λ t. t.name) "attribute" info.fields)) [
                  | inr (e, k) ↦ cc (rw (validate_model_names, c, k) at h)
                  | inl k ↦ (
                    check_name-IsAllowed info.type_name (kind_str is_letter is_digit info.kind) c,
                    check_fields-HasAllowed "attribute" info.fields k,
                  )
                ]
        ]
