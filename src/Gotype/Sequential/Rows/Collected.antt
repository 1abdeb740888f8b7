-- ===== src/Gotype/Sequential/Rows/Collected.antt =====
-- gotype/seq_migrate_state.go: what the loop over the rows collects.
use go_typeql.Base.{
  String, true, false, ◌==◌, eq_iff, List, [], ◌∷◌, ◌++◌, Option, none, some, if◌then◌else◌, Dict,
  lookup, insert, lookup-insert, ◌≡◌, refl, sym, ap, ◌∙◌, inl, inr, Bool-cases,
}
use go_typeql.Gotype.Migrate.Define.{is_set}
use go_typeql.Gotype.Sequential.Model.{SeqMigrationRecord}
use go_typeql.Gotype.Sequential.Queries.{Cell, text, unwrap_value, text_of, record_of, collect}
use go_typeql.Gotype.Sequential.Rows.{cell_text, name_of, without, Shows, unset}

module _ (parse_time : String → Option String) where
  abbrev step : Dict SeqMigrationRecord → Dict Cell → Dict SeqMigrationRecord
  step d row = if name_of row == "" then d else insert (name_of row) (record_of parse_time row) d

  text_of-cell_text : (c : Cell) → text_of parse_time c ≡ cell_text c
  unfolding text_of
  text_of-cell_text (text s) = refl
  text_of-cell_text _ = refl

  collect-step :
      (d : Dict SeqMigrationRecord) (row : Dict Cell) (more : List (Dict Cell))
      → collect parse_time d (row ∷ more) ≡ collect parse_time (step d row) more
  unfolding collect
  collect-step d row more =
      ap
        (λ n.
          collect parse_time (if n == "" then d else insert n (record_of parse_time row) d) more)
        (text_of-cell_text (unwrap_value (lookup "name" row)))

  pub collect-append :
      (xs ys : List (Dict Cell)) (d : Dict SeqMigrationRecord)
      → collect parse_time d (xs ++ ys) ≡ collect parse_time (collect parse_time d xs) ys
  unfolding collect
  collect-append [] ys d = refl
  collect-append (x ∷ xs) ys d = collect-append xs ys _

  -- A dictionary that is another one without a name.
  abbrev pub Lacks : String → Dict SeqMigrationRecord → Dict SeqMigrationRecord → Type 0
  Lacks name d d' = (k : String) → lookup k d' ≡ (if name == k then none else lookup k d)

  step-gone :
      (name : String) (d d' : Dict SeqMigrationRecord) (row : Dict Cell)
      → name == name_of row ≡ true
      → Lacks name d d'
      → Lacks name (step d row) d'
  step-gone name d d' row at h k =
      let n = name_of row in
      let same : name ≡ n = (eq_iff name n).0 at in
      elim (Bool-cases (n == "")) [
        | inl e ↦ rw e (h k)
        | inr e ↦ rw e (
            rw (lookup-insert d (record_of parse_time row) n k) (elim (Bool-cases (name == k)) [
              | inl p ↦ rw p (h k ∙ rw p refl)
              | inr p ↦
                  let q : n == k ≡ false = ap (λ m. m == k) (sym same) ∙ p in
                  rw (p, q) (h k ∙ rw p refl)
            ]))
      ]

  step-kept :
      (name : String) (d d' : Dict SeqMigrationRecord) (row : Dict Cell)
      → name == name_of row ≡ false
      → Lacks name d d'
      → Lacks name (step d row) (step d' row)
  step-kept name d d' row other h k =
      let n = name_of row in
      let r = record_of parse_time row in
      elim (Bool-cases (n == "")) [
        | inl e ↦ rw e (h k)
        | inr e ↦ rw e (
            rw (lookup-insert d r n k, lookup-insert d' r n k)
              (elim (Bool-cases (n == k)) [
                | inl p ↦
                    let q : name == k ≡ false =
                      ap (λ m. name == m) (sym ((eq_iff n k).0 p)) ∙ other in
                    rw (p, q) refl
                | inr p ↦ rw p (h k)
              ]))
      ]

  -- Without the rows of a name, what is collected lacks that name.
  pub collect-without :
      (name : String) (xs : List (Dict Cell)) (d d' : Dict SeqMigrationRecord)
      → Lacks name d d'
      → Lacks name (collect parse_time d xs) (collect parse_time d' (without name xs))
  collect-without name [] d d' h k = unfold collect in h k
  collect-without name (x ∷ xs) d d' h k =
      let onwards = ap (λ r. if name == k then none else lookup k r) (collect-step d x xs) in
      elim (Bool-cases (name == name_of x)) [
        | inl e ↦
            rw e (collect-without name xs (step d x) d' (step-gone name d d' x e h) k ∙ sym onwards)
        | inr e ↦ rw e (
            ap (lookup k) (collect-step d' x (without name xs))
            ∙ collect-without name xs (step d x) (step d' x) (step-kept name d d' x e h) k
            ∙ sym onwards)
      ]

  pub checksum_of :
      (name sum : String) (row : Dict Cell)
      → Shows name sum row
      → (record_of parse_time row).checksum ≡ sum
  unfolding record_of text_of unwrap_value
  checksum_of name sum row (_, shown) = elim (Bool-cases (is_set sum)) [
    | inl e ↦ rw shown (rw e refl)
    | inr e ↦ rw shown (rw e (sym (unset sum e)))
  ]

  pub shown-lookup :
      (name sum : String) (d : Dict SeqMigrationRecord) (row : Dict Cell)
      → name == "" ≡ false
      → Shows name sum row
      → (k : String)
      → lookup k (collect parse_time d (row ∷ []))
        ≡ (if name == k then some (record_of parse_time row) else lookup k d)
  unfolding unwrap_value
  shown-lookup name sum d row full (named, _) k =
      let is : name_of row ≡ name = ap (λ c. cell_text (unwrap_value c)) named in
      let steps : step d row ≡ insert name (record_of parse_time row) d =
        ap (λ n. if n == "" then d else insert n (record_of parse_time row) d) is ∙ rw full refl in
      ap (lookup k) (collect-step d row [])
      ∙ unfold collect in (ap (lookup k) steps) ∙ lookup-insert d (record_of parse_time row) name k

  -- The records in the rows.
  abbrev pub held : {W : Type 0} → (W → List (Dict Cell)) → W → Dict SeqMigrationRecord
  held rows w = collect parse_time [] (rows w)
