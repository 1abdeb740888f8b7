-- ===== src/Gotype/Sequential/Cases.antt =====
-- gotype/seq_migrate.go: how a run of `RunSequentialMigrations` on a lawful store comes out.
use go_typeql.Base.{
  String, true, false, ◌==◌, List, [], ◌∷◌, Option, none, some, ok, err, ◌⊎◌, Result-cases, Dict,
  All, ◌≡◌, refl, ap, ◌∙◌, inl, inr, Bool-cases, Option-cases,
}
use go_typeql.Gotype.Sequential.Model.{
  SequentialMigration, SeqMigrationRecord, sort_by_name, validate_sequential_migrations,
  has_validation_errors, format_issues,
}
use go_typeql.Gotype.Sequential.Run.{
  StateStore, SeqError, SeqOptions, apply_pending, load_applied, run_sequential_migrations,
  prepare_seq_migrations, verify_seq_checksums, pending_seq_migrations,
}
use go_typeql.Gotype.Sequential.Validation.{valid-named}
use go_typeql.Gotype.Sequential.Store.{IsLawful}
use go_typeql.Gotype.Sequential.Records.{KeepsRecords, IsFit}
use go_typeql.Gotype.Sequential.Kept.{parts}

module _ (sha256_hex : String → String) {W : Type 0} (store : StateStore W)
    (view : W → Dict SeqMigrationRecord) (lawful : IsLawful store view) where
  -- The records loaded are those of the store, and an error leaves them as they were.
  pub load_applied-cases :
      (w : W)
      → (w₁ : W) × (view w₁ ≡ view w)
        × ((load_applied sha256_hex store w ≡ (ok (view w), w₁))
            ⊎ (e : SeqError) × (load_applied sha256_hex store w ≡ (err e, w₁)))
  unfolding load_applied
  load_applied-cases w =
      let ready = store.ensure_schema w in
      let answer = store.applied ready.1 in
      elim (Option-cases ready.0) [
        | inr (cause, e) ↦ (
          ready.1,
          lawful.ensured w,
          inr (SeqError.ensure_failed cause, rw (load_applied, e) refl),
        )
        | inl e ↦ elim (Result-cases answer.0) [
          | inr (cause, f) ↦ (
            answer.1,
            lawful.read ready.1 ∙ lawful.ensured w,
            inr (SeqError.query_failed cause, rw (load_applied, e) (rw f refl)),
          )
          | inl (d, f) ↦
              let whole : d ≡ view w = lawful.answered ready.1 d f ∙ lawful.ensured w in
              (
                answer.1,
                lawful.read ready.1 ∙ lawful.ensured w,
                inl (rw (load_applied, e) (rw f (ap (λ x. (ok x, answer.1)) whole))),
              )
        ]
      ]

  module _ (opts : SeqOptions W) where
    abbrev pub run : List (SequentialMigration W) → W → List String × Option SeqError × W
    run ms w = run_sequential_migrations sha256_hex store opts ms w

    abbrev pub pending_in : List (SequentialMigration W) → W → List (SequentialMigration W)
    pending_in ms w = pending_seq_migrations (sort_by_name ms) (view w) opts.target

    -- What refuses a run: the validation, the loading of the records, or a checksum.
    abbrev Refuses : List (SequentialMigration W) → W → SeqError → Type 0
    Refuses ms w e =
        (has_validation_errors (validate_sequential_migrations ms) ≡ true)
        ⊎ ((load_applied sha256_hex store w).0 ≡ err e)
        ⊎ (verify_seq_checksums sha256_hex (sort_by_name ms) (view w) ≡ some e)

    -- A run is refused with no names and the records as they were, or it is the loop over what is
    -- pending.
    pub run-cases :
        (ms : List (SequentialMigration W)) (w : W)
        → opts.dry_run ≡ false
        → ((e : SeqError) × (w₁ : W) × (view w₁ ≡ view w)
            × (run ms w ≡ ([], some e, w₁))
            × Refuses ms w e)
          ⊎ ((w₁ : W) × (view w₁ ≡ view w)
              × (run ms w ≡ apply_pending sha256_hex store opts.logger [] (pending_in ms w) w₁)
              × (has_validation_errors (validate_sequential_migrations ms) ≡ false)
              × (verify_seq_checksums sha256_hex (sort_by_name ms) (view w) ≡ none))
    unfolding run_sequential_migrations prepare_seq_migrations
    run-cases ms w dry =
        elim (Bool-cases (has_validation_errors (validate_sequential_migrations ms))) [
          | inl v ↦ inl (
            SeqError.validation_failed (format_issues (validate_sequential_migrations ms)),
            w,
            refl,
            rw (run_sequential_migrations, prepare_seq_migrations, v, prepare_seq_migrations, v)
                refl,
            inl v,
          )
          | inr v ↦
              let (w₁, same, loaded) = load_applied-cases w in
              elim loaded [
                | inr (e, l) ↦
                    let (l₀, l₁) = parts l in
                    inl (
                      e,
                      w₁,
                      same,
                      rw
                          (
                            run_sequential_migrations, prepare_seq_migrations, v, l₀,
                            prepare_seq_migrations, v, l₀, l₁,
                          )
                          refl,
                      inr (inl l₀),
                    )
                | inl l ↦
                    let (l₀, l₁) = parts l in
                    elim (Option-cases
                      (verify_seq_checksums sha256_hex (sort_by_name ms) (view w))) [
                        | inr (c, f) ↦ inl (
                          c,
                          w₁,
                          same,
                          rw
                              (
                                run_sequential_migrations, prepare_seq_migrations, v, l₀, f,
                                prepare_seq_migrations, v, l₀, l₁,
                              )
                              refl,
                          inr (inr f),
                        )
                        | inl f ↦ inr (
                          w₁,
                          same,
                          rw
                              (
                                run_sequential_migrations, prepare_seq_migrations, v, l₀, f, dry,
                                prepare_seq_migrations, v, l₀, l₁,
                              )
                              refl,
                          v,
                          f,
                        )
                      ]
              ]
        ]

    pub valid-IsFit :
        (ms : List (SequentialMigration W))
        → has_validation_errors (validate_sequential_migrations ms) ≡ false
        → All (KeepsRecords view) ms
        → All (IsFit view) ms
    valid-IsFit ms valid keeps = both ms (valid-named ms valid) keeps
      where
        both :
            (ns : List (SequentialMigration W))
            → All (λ m. SequentialMigration.name m == "" ≡ false) ns
            → All (KeepsRecords view) ns
            → All (IsFit view) ns
        both [] a b = tt
        both (n ∷ ns) a b = ((a.0, b.0), both ns a.1 b.1)
