-- ===== src/Gotype/Sequential/Outcomes.antt =====
-- What `RunSequentialMigrations` of gotype/seq_migrate.go returns, recorded and reported by a dry run.
use go_typeql.Base.{
  ◌==◌, String, false, not, ◌&&◌, List, [], ◌∷◌, ◌++◌, Option, none, Dict, lookup, contains, All,
  ◌≡◌, refl, sym, ap, ◌∙◌, inl, inr, arith, Bool-cases,
}
use go_typeql.Gotype.Migrate.Define.{is_set}
use go_typeql.Gotype.Sequential.Model.{
  SequentialMigration, SeqMigrationRecord, is_nil, sort_by_name,
}
use go_typeql.Gotype.Sequential.Run.{
  StateStore, SeqError, SeqOptions, apply_pending, names_of, run_sequential_migrations,
  pending_seq_migrations,
}
use go_typeql.Gotype.Sequential.Pending.{unapplied, through, pending_seq_migrations-through}
use go_typeql.Gotype.Sequential.Store.{IsLawful, apply_pending-names}
use go_typeql.Gotype.Sequential.Records.{KeepsRecords, IsFit, apply_pending-recorded}
use go_typeql.Gotype.Sequential.Cases.{run-cases, valid-IsFit}
use go_typeql.Gotype.Sequential.Again.{Quiet}
use go_typeql.Gotype.Sequential.Kept.{All-sort_by_name, All-unapplied}

module _ {W : Type 0} (P : SequentialMigration W → Type 0) where
  All-pending :
      (d : Dict SeqMigrationRecord) (target : String) (ms : List (SequentialMigration W))
      → All P ms
      → All P (pending_seq_migrations ms d target)
  All-pending d target ms h =
      rw (pending_seq_migrations-through d ms target)
        (cut (unapplied d ms) (All-unapplied P d ms h))
    where
      cut : (ns : List (SequentialMigration W)) → All P ns → All P (through target ns)
      cut [] k = tt
      cut (n ∷ ns) k = elim (Bool-cases (is_set target && n.name == target)) [
        | inl e ↦ rw e (k.0, tt)
        | inr e ↦ rw e (k.0, cut ns k.1)
      ]

module _ (sha256_hex : String → String) {W : Type 0} (store : StateStore W)
    (view : W → Dict SeqMigrationRecord) (lawful : IsLawful store view) (opts : SeqOptions W) where
  abbrev result : List (SequentialMigration W) → W → List String × Option SeqError × W
  result ms w = run_sequential_migrations sha256_hex store opts ms w

  -- On a lawful store, with migrations and a logger that leave the records alone, and whatever the
  -- run returns, an error or none: a name has a record behind it exactly where it had one before or is
  -- among the names returned.
  pub run-recorded :
      (ms : List (SequentialMigration W)) (w : W)
      → Quiet sha256_hex store view lawful opts.logger
      → All (KeepsRecords view) ms
      → opts.dry_run ≡ false
      → (k : String)
      → is_nil (lookup k (view (result ms w).2))
        ≡ is_nil (lookup k (view w)) && not (contains (result ms w).0 k)
  run-recorded ms w quiet keeps dry k =
      elim (run-cases sha256_hex store view lawful opts ms w dry) [
        | inl (e, w₁, same, r, _) ↦ rw r (rw same (ground arith))
        | inr (w₁, same, r, valid, _) ↦
            let pending = pending_seq_migrations (sort_by_name ms) (view w) opts.target in
            let all = All-pending (IsFit view) (view w) opts.target (sort_by_name ms) (
              All-sort_by_name (IsFit view) ms
                (valid-IsFit sha256_hex store view lawful opts ms valid keeps)) in
            rw r (
              apply_pending-recorded sha256_hex store view lawful opts.logger quiet [] pending w₁
                all (λ j h. cc h) k
              ∙ ap
                  (λ v.
                    is_nil (lookup k v)
                    && not
                        (contains (apply_pending sha256_hex store opts.logger [] pending w₁).0 k))
                  same)
      ]

  -- What a run applies, in order: on a lawful store, and for a run that is no dry run, the names
  -- returned are those of the first migrations of the list of migrations by name that have no record,
  -- cut behind the target; of all of them where no error is returned.
  pub run-order :
      (ms : List (SequentialMigration W)) (w : W)
      → opts.dry_run ≡ false
      → (taken rest : List (SequentialMigration W)) × (through opts.target
            (unapplied (view w) (sort_by_name ms))
          ≡ taken ++ rest)
        × ((result ms w).0 ≡ names_of taken)
        × ((result ms w).1 ≡ none → rest ≡ [])
  run-order ms w dry = elim (run-cases sha256_hex store view lawful opts ms w dry) [
    | inl (e, w₁, same, r, _) ↦
        rw r
          ([], through opts.target (unapplied (view w) (sort_by_name ms)), refl, refl, (λ h. cc h))
    | inr (w₁, same, r, _, _) ↦
        let pending = pending_seq_migrations (sort_by_name ms) (view w) opts.target in
        let (taken, rest, split, names, all, fine) =
          apply_pending-names sha256_hex store opts.logger [] pending w₁ in
        rw r (
          taken,
          rest,
          sym (pending_seq_migrations-through (view w) (sort_by_name ms) opts.target) ∙ split,
          names,
          all,
        )
  ]
