-- ===== src/Gotype/Sequential/Rollback.antt =====
-- `RollbackSequentialMigration` and `SeqMigrationStatus` of gotype/seq_migrate.go.
use go_typeql.Base.{
  String, Bool, true, false, ℕ, zero, suc, ℤ, pos, negsuc, List, [], ◌∷◌, ◌++◌, append_assoc,
  append-nil, map, Option, none, some, Result, ok, err, if◌then◌else◌, Dict, lookup, keys, index,
  take, ◌≡◌, refl, sym, ap, ◌∙◌, inl, inr, Option-cases, Bool-cases,
}
use go_typeql.Gotype.Sequential.Model.{
  SequentialMigration, SeqMigrationRecord, less, sort_by_name, is_nil,
}
use go_typeql.Gotype.Sequential.Run.{StateStore, SeqError, load_applied, call}

-- sort.Sort(sort.Reverse(sort.StringSlice(names))).
unfoldable pub insert_descending : String → List String → List String
insert_descending k [] = k ∷ []
insert_descending k (j ∷ js) =
    let rest = insert_descending k js in if less k j then j ∷ rest else k ∷ j ∷ js

unfoldable pub sort_descending : List String → List String
unfolding insert_descending
sort_descending [] = []
sort_descending (k ∷ ks) = insert_descending k (sort_descending ks)

pub record SeqMigrationInfo : Type 0 where
  pub name : String
  pub applied : Bool
  pub applied_at : String

module _ {W : Type 0} where
  unfoldable pub status_of : Dict SeqMigrationRecord → SequentialMigration W → SeqMigrationInfo
  status_of applied m = elim (lookup m.name applied) [
    | none ↦ record { name = m.name; applied = false; applied_at = "" }
    | some rec ↦ record {
      name = m.name;
      applied = true;
      applied_at = elim rec.applied_at [ none ↦ "" | some t ↦ t ];
    }
  ]

module _ (sha256_hex : String → String) {W : Type 0} (store : StateStore W) where
  unfoldable pub seq_migration_status :
      List (SequentialMigration W) → W → Result SeqError (List SeqMigrationInfo) × W
  unfolding status_of
  seq_migration_status ms w =
      let (loaded, w₁) = load_applied sha256_hex store w in
      elim loaded [
        | err e ↦ (err e, w₁)
        | ok applied ↦ (ok (map (status_of applied) (sort_by_name ms)), w₁)
      ]

  -- The loop over the names to roll back, with the migrations by name.
  unfoldable pub rollback_each :
      Dict (SequentialMigration W)
      → List String
      → List String
      → W
      → List String × Option SeqError × W
  rollback_each by_name done [] w = (done, none, w)
  rollback_each by_name done (name ∷ names) w = elim (lookup name by_name) [
    | none ↦ (done, some (SeqError.not_found name), w)
    | some m ↦ elim (is_nil m.down) [
      | true ↦ (done, some (SeqError.no_down name), w)
      | false ↦
          let (failed, w₁) = call m.down w in
          elim failed [
            | some cause ↦ (done, some (SeqError.migration_failed name cause), w₁)
            | none ↦
                let (undeleted, w₂) = store.delete_ name w₁ in
                elim undeleted [
                  | some cause ↦ (done, some (SeqError.delete_failed name cause), w₂)
                  | none ↦ rollback_each by_name (done ++ name ∷ []) names w₂
                ]
          ]
    ]
  ]

  -- `steps` above the number of applied names is cut to it, which `take` does.
  unfoldable pub rollback_steps :
      List (SequentialMigration W) → ℕ → W → List String × Option SeqError × W
  unfolding rollback_each
  rollback_steps ms steps w =
      let (loaded, w₁) = load_applied sha256_hex store w in
      elim loaded [
        | err e ↦ ([], some e, w₁)
        | ok applied ↦
            rollback_each (index (λ m. SequentialMigration.name m) ms []) []
              (take steps (sort_descending (keys applied))) w₁
      ]

  unfoldable pub rollback_sequential_migration :
      List (SequentialMigration W) → ℤ → W → List String × Option SeqError × W
  unfolding rollback_steps
  rollback_sequential_migration ms (negsuc n) w = ([], none, w)
  rollback_sequential_migration ms (pos zero) w = ([], none, w)
  rollback_sequential_migration ms (pos (suc n)) w = rollback_steps ms (suc n) w

  -- The names rolled back are the first of those asked for, all of them where no error is returned,
  -- and an error is returned wherever the loop stopped early.
  pub rollback_each-names :
      (by_name : Dict (SequentialMigration W)) (done names : List String) (w : W)
      → (taken rest : List String) × (names ≡ taken ++ rest)
        × ((rollback_each by_name done names w).0 ≡ done ++ taken)
        × ((rollback_each by_name done names w).1 ≡ none → rest ≡ [])
  unfolding rollback_each
  rollback_each-names by_name done [] w = ([], [], refl, sym (append-nil done), (λ _. refl))
  rollback_each-names by_name done (name ∷ names) w = elim (Option-cases (lookup name by_name)) [
    | inl e ↦ rw (e, rollback_each) ([], name ∷ names, refl, sym (append-nil done), (λ h. cc h))
    | inr (m, e) ↦ elim (Bool-cases (is_nil m.down)) [
      | inl d ↦
          rw (e, d, rollback_each) ([], name ∷ names, refl, sym (append-nil done), (λ h. cc h))
      | inr d ↦ elim (Option-cases (call m.down w).0) [
        | inr (cause, f) ↦
            rw (e, d, f, rollback_each) ([], name ∷ names, refl, sym (append-nil done), (λ h. cc h))
        | inl f ↦
            let deleted = store.delete_ name (call m.down w).1 in
            elim (Option-cases deleted.0) [
              | inr (cause, g) ↦
                  rw (e, d, f, g, rollback_each)
                    ([], name ∷ names, refl, sym (append-nil done), (λ h. cc h))
              | inl g ↦
                  let (taken, rest, split, got, all) =
                    rollback_each-names by_name (done ++ name ∷ []) names deleted.1 in
                  rw (e, d, f, g, rollback_each)
                    (
                      name ∷ taken,
                      rest,
                      ap (λ ns. name ∷ ns) split,
                      got ∙ append_assoc done (name ∷ []) taken,
                      all,
                    )
            ]
      ]
    ]
  ]
