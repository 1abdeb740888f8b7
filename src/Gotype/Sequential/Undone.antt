-- ===== src/Gotype/Sequential/Undone.antt =====
-- Which migrations `RollbackSequentialMigration` of gotype/seq_migrate.go rolls back.
use go_typeql.Base.{
  contains-append, String, true, ◌||◌, ◌==◌, ℕ, suc, pos, List, [], ◌∷◌, ◌++◌, Option, none, some,
  if◌then◌else◌, Dict, lookup, keys, index, take, contains, ◌≡◌, refl, ap, ◌∙◌, inl, inr, arith,
  Bool-cases, Option-cases,
}
use go_typeql.Gotype.Sequential.Model.{SequentialMigration, SeqMigrationRecord, is_nil}
use go_typeql.Gotype.Sequential.Run.{StateStore, SeqError, call}
use go_typeql.Gotype.Sequential.Store.{IsLawful}
use go_typeql.Gotype.Sequential.Cases.{load_applied-cases}
use go_typeql.Gotype.Sequential.Kept.{parts}
use go_typeql.Gotype.Sequential.Rollback.{
  rollback_each, rollback_steps, rollback_sequential_migration, sort_descending,
  rollback_each-names,
}

-- A record deleted is found no more, and a failed deletion changes nothing.
pub record DeletesRecords {W : Type 0} (store : StateStore W) (view : W → Dict SeqMigrationRecord)
    : Type 0 where
  pub deleted :
      (name : String) (w w₁ : W)
      → store.delete_ name w ≡ (none, w₁)
      → (k : String) → lookup k (view w₁) ≡ (if name == k then none else lookup k (view w))
  pub undeleted :
      (name cause : String) (w w₁ : W) → store.delete_ name w ≡ (some cause, w₁) → view w₁ ≡ view w

-- The Down of the migration of every name leaves the records alone.
abbrev pub DownsKeepRecords :
    {W : Type 0} → (W → Dict SeqMigrationRecord) → Dict (SequentialMigration W) → Type 0
DownsKeepRecords {W} view by_name =
    (name : String) (m : SequentialMigration W)
    → lookup name by_name ≡ some m
    → (w : W) → view (call m.down w).1 ≡ view w

module _ (sha256_hex : String → String) {W : Type 0} (store : StateStore W)
    (view : W → Dict SeqMigrationRecord) (deletes : DeletesRecords store view) where
  abbrev outcome :
      Dict (SequentialMigration W)
      → List String
      → List String
      → W
      → List String × Option SeqError × W
  outcome by_name done names w = rollback_each sha256_hex store by_name done names w

  names-contains :
      (by_name : Dict (SequentialMigration W)) (done names : List String) (w : W) (k : String)
      → contains done k ≡ true
      → contains (outcome by_name done names w).0 k ≡ true
  names-contains by_name done names w k h =
      let (taken, rest, split, got, all) =
        rollback_each-names sha256_hex store by_name done names w in
      rw got (contains-append done taken k ∙ ground arith)

  rollback_each-deleted :
      (by_name : Dict (SequentialMigration W)) (done names : List String) (w : W)
      → DownsKeepRecords view by_name
      → ((k : String) → contains done k ≡ true → is_nil (lookup k (view w)) ≡ true)
      → (k : String)
      → is_nil (lookup k (view (outcome by_name done names w).2))
        ≡ is_nil (lookup k (view w)) || contains (outcome by_name done names w).0 k
  unfolding rollback_each
  rollback_each-deleted by_name done [] w keeps gone k = ground (arith, gone k)
  rollback_each-deleted by_name done (name ∷ names) w keeps gone k =
      elim (Option-cases (lookup name by_name)) [
        | inl e ↦ rw (e, rollback_each) (ground (arith, gone k))
        | inr (m, e) ↦ elim (Bool-cases (is_nil m.down)) [
          | inl d ↦ rw (e, d, rollback_each) (ground (arith, gone k))
          | inr d ↦
              let called = call m.down w in
              let same = keeps name m e w in
              elim (Option-cases called.0) [
                | inr (cause, f) ↦ rw (e, d, f, rollback_each) (rw same (ground (arith, gone k)))
                | inl f ↦
                    let deleted = store.delete_ name called.1 in
                    elim (Option-cases deleted.0) [
                      | inr (cause, g) ↦
                          rw (e, d, f, g, rollback_each)
                            (rw
                              (deletes.undeleted name cause called.1 deleted.1
                                  (λ i. (g i, deleted.1))
                                ∙ same)
                              (ground (arith, gone k)))
                      | inl g ↦
                          let done' = done ++ name ∷ [] in
                          let found : (j : String)
                              → lookup j (view deleted.1)
                                ≡ (if name == j then none else lookup j (view w)) =
                            λ j.
                              deletes.deleted name called.1 deleted.1 (λ i. (g i, deleted.1)) j
                              ∙ ap (λ v. if name == j then none else lookup j v) same in
                          let gone' : (j : String)
                              → contains done' j ≡ true
                              → is_nil (lookup j (view deleted.1)) ≡ true =
                            λ j h. rw (found j) (elim (Bool-cases (name == j)) [
                              | inl p ↦ rw p refl
                              | inr p ↦
                                  rw p (gone j (ground (arith, contains-append done (name ∷ []) j)))
                            ]) in
                          rw (e, d, f, g, rollback_each)
                            (rollback_each-deleted by_name done' names deleted.1 keeps gone' k
                              ∙ rw (found k) (elim (Bool-cases (name == k)) [
                                | inl p ↦
                                    let got =
                                      names-contains by_name done' names deleted.1 k
                                        (contains-append done (name ∷ []) k ∙ ground arith) in
                                    rw (p, got) (ground arith)
                                | inr p ↦ rw p refl
                              ]))
                    ]
              ]
        ]
      ]

  -- On a lawful store whose deletions are lawful, with Downs that leave the records alone, a rollback
  -- of a positive number of steps returns the first names, all where it returns no error, of the
  -- applied names in descending order, cut to that number; and whatever it returns, a name has no
  -- record behind it exactly where it had none before or is among the names returned.
  pub rollback-deleted :
      IsLawful store view
      → (ms : List (SequentialMigration W)) (n : ℕ) (w : W)
      → DownsKeepRecords view (index (λ m. SequentialMigration.name m) ms [])
      → ((taken rest : List String) × (take (suc n) (sort_descending (keys (view w)))
            ≡ taken ++ rest)
          × ((rollback_sequential_migration sha256_hex store ms (pos (suc n)) w).0 ≡ taken)
          × ((rollback_sequential_migration sha256_hex store ms (pos (suc n)) w).1 ≡ none
              → rest ≡ []))
        × ((k : String)
            → is_nil (
                lookup k
                  (view (rollback_sequential_migration sha256_hex store ms (pos (suc n)) w).2))
              ≡ is_nil (lookup k (view w))
                || contains (rollback_sequential_migration sha256_hex store ms (pos (suc n)) w).0 k)
  unfolding rollback_sequential_migration rollback_steps
  rollback-deleted lawful ms n w keeps =
      let by_name = index (λ m. SequentialMigration.name m) ms [] in
      let names = take (suc n) (sort_descending (keys (view w))) in
      let (w₁, same, loaded) = load_applied-cases sha256_hex store view lawful w in
      elim loaded [
        | inr (e, l) ↦
            let (l₀, l₁) = parts l in
            let refused : rollback_sequential_migration sha256_hex store ms (pos (suc n)) w
                ≡ ([], some e, w₁) =
              rw (rollback_sequential_migration, rollback_steps, l₀, l₁) refl in
            rw refused (([], names, refl, refl, (λ h. cc h)), (λ k. rw same (ground arith)))
        | inl l ↦
            let (l₀, l₁) = parts l in
            let whole : rollback_sequential_migration sha256_hex store ms (pos (suc n)) w
                ≡ outcome by_name [] names w₁ =
              rw (rollback_sequential_migration, rollback_steps, l₀, l₁) refl in
            rw whole (
              rollback_each-names sha256_hex store by_name [] names w₁,
              (λ k.
                  rollback_each-deleted by_name [] names w₁ keeps (λ j h. cc h) k
                  ∙ ap (λ v. is_nil (lookup k v) || contains (outcome by_name [] names w₁).0 k)
                      same),
            )
      ]
