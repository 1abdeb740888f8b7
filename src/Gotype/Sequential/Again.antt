-- ===== src/Gotype/Sequential/Again.antt =====
-- Two runs of `RunSequentialMigrations` of gotype/seq_migrate.go on one lawful store.
use go_typeql.Base.{
  String, true, false, ◌<>◌, ◌==◌, eq_refl, List, [], ◌∷◌, ◌++◌, Option, none, some, ok, ◌≢◌, Dict,
  lookup, contains, Distinct, All, ◌≡◌, refl, sym, ap, subst, ◌∙◌, inl, inr, arith, Option-cases,
}
use go_typeql.Gotype.Sequential.Model.{
  SequentialMigration, SeqMigrationRecord, is_nil, sort_by_name, validate_sequential_migrations,
  has_validation_errors,
}
use go_typeql.Gotype.Sequential.Run.{
  StateStore, SeqError, SeqOptions, migration_checksum, apply_pending, call, names_of, load_applied,
}
use go_typeql.Gotype.Sequential.Validation.{valid-Distinct}
use go_typeql.Gotype.Sequential.Pending.{
  unapplied, through, pending_seq_migrations-through, through_all, contains-unapplied,
  record_agrees, verify_seq_checksums_iff,
}
use go_typeql.Gotype.Sequential.Store.{IsLawful}
use go_typeql.Gotype.Sequential.Records.{KeepsRecords, IsFit, next-lookup}
use go_typeql.Gotype.Sequential.Kept.{
  All-sort_by_name, All-unapplied, unapplied-Distinct, Settled, Settled-none,
}
use go_typeql.Gotype.Sequential.Cases.{run, pending_in, run-cases, valid-IsFit}

module _ (sha256_hex : String → String) {W : Type 0} (store : StateStore W)
    (view : W → Dict SeqMigrationRecord) (lawful : IsLawful store view) where
  abbrev pub Quiet : (String → W → W) → Type 0
  Quiet log = (s : String) (w : W) → view (log s w) ≡ view w

  agrees_self :
      (m : SequentialMigration W) (r : SeqMigrationRecord)
      → r.checksum ≡ migration_checksum sha256_hex m
      → record_agrees sha256_hex m (some r) ≡ true
  agrees_self m r e = rw (e, eq_refl (migration_checksum sha256_hex m)) (ground arith)

  -- What a loop over `ms` that started in `w` and ended in `w'` has done to the records.
  abbrev Finished : List (SequentialMigration W) → W → W → Type 0
  Finished ms w w' =
      All (Settled sha256_hex (view w')) ms
      × ((k : String) → contains (names_of ms) k ≡ false → lookup k (view w') ≡ lookup k (view w))

  apply_pending-next :
      (log : String → W → W) (done : List String) (m : SequentialMigration W)
      (ms : List (SequentialMigration W)) (w : W)
      → (call m.up (log ("applying: " <> m.name) w)).0 ≡ none
      → (store.record_ m.name
          (migration_checksum sha256_hex m)
          (call m.up (log ("applying: " <> m.name) w)).1).0
        ≡ none
      → apply_pending sha256_hex store log done (m ∷ ms) w
        ≡ apply_pending sha256_hex store log (done ++ m.name ∷ []) ms (
            log
              ("applied: " <> m.name)
              (store.record_ m.name
                (migration_checksum sha256_hex m)
                (call m.up (log ("applying: " <> m.name) w)).1).1)
  unfolding apply_pending
  apply_pending-next log done m ms w e f = rw (e, f, apply_pending) refl

  -- A loop that comes to its end has settled each migration and touched no other name.
  apply_pending-Settled :
      (log : String → W → W) (done : List String) (ms : List (SequentialMigration W)) (w : W)
      → Quiet log
      → All (IsFit view) ms
      → Distinct (names_of ms)
      → (apply_pending sha256_hex store log done ms w).1 ≡ none
      → Finished ms w (apply_pending sha256_hex store log done ms w).2
  unfolding apply_pending
  apply_pending-Settled log done [] w quiet keeps d h = (tt, (λ k _. refl))
  apply_pending-Settled log done (m ∷ ms) w quiet keeps d h =
      let tried = call m.up (log ("applying: " <> m.name) w) in
      let written = store.record_ m.name (migration_checksum sha256_hex m) tried.1 in
      elim (Option-cases tried.0) [
        | inr (cause, e) ↦ cc (rw (e, apply_pending) at h)
        | inl e ↦ elim (Option-cases written.0) [
          | inr (cause, f) ↦ cc (rw (e, f, apply_pending) at h)
          | inl f ↦
              let (r, sum, found) =
                next-lookup sha256_hex store view lawful log quiet m w keeps.0 f in
              let (settled, others) =
                apply_pending-Settled log (done ++ m.name ∷ []) ms
                  (log ("applied: " <> m.name) written.1) quiet keeps.1 d.1
                  (rw (e, f, apply_pending) at h) in
              subst (λ out. Finished (m ∷ ms) w out.2)
                (sym (apply_pending-next log done m ms w e f))
                (
                  (
                    (
                      r,
                      others m.name d.0 ∙ found m.name ∙ rw (eq_refl m.name) refl,
                      agrees_self m r sum,
                    ),
                    settled,
                  ),
                  (λ k c.
                      let other : m.name == k ≡ false = ground arith in
                      others k (ground arith) ∙ found k ∙ rw other refl),
                )
        ]
      ]

  module _ (opts : SeqOptions W) where
    abbrev result : List (SequentialMigration W) → W → List String × Option SeqError × W
    result ms w = run sha256_hex store view lawful opts ms w

    -- Behind a successful run with no target every migration is valid and settled.
    run-Settled :
        (ms : List (SequentialMigration W)) (w : W)
        → Quiet opts.logger
        → All (KeepsRecords view) ms
        → opts.dry_run ≡ false
        → opts.target ≡ ""
        → (result ms w).1 ≡ none
        → (has_validation_errors (validate_sequential_migrations ms) ≡ false)
          × All (Settled sha256_hex (view (result ms w).2)) (sort_by_name ms)
    run-Settled ms w quiet keeps dry all_of h =
        elim (run-cases sha256_hex store view lawful opts ms w dry) [
          | inl (e, w₁, same, r, why) ↦ absurd (failed_apart (sym (ap (λ out. out.1) r) ∙ h))
          | inr (w₁, same, applies, valid, agree) ↦
              let sorted = sort_by_name ms in
              let d = view w in
              let pending : pending_in sha256_hex store view lawful opts ms w ≡ unapplied d sorted =
                pending_seq_migrations-through d sorted opts.target
                ∙ ap (λ t. through t (unapplied d sorted)) all_of
                ∙ through_all d (unapplied d sorted) in
              let whole : result ms w
                  ≡ apply_pending sha256_hex store opts.logger [] (unapplied d sorted) w₁ =
                applies ∙ ap (λ p. apply_pending sha256_hex store opts.logger [] p w₁) pending in
              let (settled, others) =
                apply_pending-Settled opts.logger [] (unapplied d sorted) w₁ quiet
                  (All-unapplied (IsFit view) d sorted (
                    All-sort_by_name (IsFit view) ms
                      (valid-IsFit sha256_hex store view lawful opts ms valid keeps)))
                  (unapplied-Distinct d sorted (valid-Distinct ms valid))
                  (sym (ap (λ out. out.1) whole) ∙ h) in
              let end = apply_pending sha256_hex store opts.logger [] (unapplied d sorted) w₁ in
              (
                valid,
                subst (λ out. All (Settled sha256_hex (view out.2)) sorted) (sym whole)
                    (both d (view end.2) sorted
                      ((verify_seq_checksums_iff sha256_hex sorted d).0 agree) settled
                      (λ k c. others k (contains-unapplied d sorted k c) ∙ ap (lookup k) same)),
              )
        ]
      where
        both :
            (d d' : Dict SeqMigrationRecord) (ns : List (SequentialMigration W))
            → All
                (λ m. record_agrees sha256_hex m (lookup (SequentialMigration.name m) d) ≡ true)
                ns
            → All (Settled sha256_hex d') (unapplied d ns)
            → ((k : String) → is_nil (lookup k d) ≡ false → lookup k d' ≡ lookup k d)
            → All (Settled sha256_hex d') ns
        both d d' [] a s o = tt
        both d d' (n ∷ ns) a s o = elim (Option-cases (lookup n.name d)) [
          | inl e ↦ let s' = rw e at s in (s'.0, both d d' ns a.1 s'.1 o)
          | inr (r, e) ↦
              ((r, o n.name (rw e refl) ∙ e, rw e at a.0), both d d' ns a.1 (rw e at s) o)
        ]

        failed_apart : {e : SeqError} → ◌≢◌ {A = Option SeqError} (some e) none
        failed_apart e = cc e

    -- On a lawful store, with migrations and a logger that leave the records alone, a second run
    -- behind a successful run with no target and no dry run applies nothing and leaves the records as
    -- they are; and where it can load the records it returns no error: its checksums agree and nothing
    -- is pending.
    pub run-again :
        (ms : List (SequentialMigration W)) (w : W)
        → Quiet opts.logger
        → All (KeepsRecords view) ms
        → opts.dry_run ≡ false
        → opts.target ≡ ""
        → (result ms w).1 ≡ none
        → ((result ms (result ms w).2).0 ≡ [])
          × (view (result ms (result ms w).2).2 ≡ view (result ms w).2)
          × ((d : Dict SeqMigrationRecord)
              → (load_applied sha256_hex store (result ms w).2).0 ≡ ok d
              → (result ms (result ms w).2).1 ≡ none)
    run-again ms w quiet keeps dry all_of h =
        let w' = (result ms w).2 in
        let sorted = sort_by_name ms in
        let (valid, settled) = run-Settled ms w quiet keeps dry all_of h in
        let (agree, nothing) = Settled-none sha256_hex (view w') sorted settled in
        elim (run-cases sha256_hex store view lawful opts ms w' dry) [
          | inl (e, w₁, same, r, why) ↦
              let loads : (d : Dict SeqMigrationRecord)
                  → (load_applied sha256_hex store w').0 ≡ ok d
                  → (result ms w').1 ≡ none =
                λ d l. elim why [ inl v ↦ cc | inr (inl f) ↦ cc | inr (inr f) ↦ cc ] in
              (ap (λ out. out.0) r, ap (λ out. view out.2) r ∙ same, loads)
          | inr (w₁, same, applies, _, _) ↦
              let whole : result ms w' ≡ ([], none, w₁) =
                applies
                ∙ ap (λ p. apply_pending sha256_hex store opts.logger [] p w₁)
                    (pending_seq_migrations-through (view w') sorted opts.target
                      ∙ ap (through opts.target) nothing)
                ∙ unfold apply_pending in refl in
              (
                ap (λ out. out.0) whole,
                ap (λ out. view out.2) whole ∙ same,
                (λ d l. ap (λ out. out.1) whole),
              )
        ]
