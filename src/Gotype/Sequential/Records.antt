-- ===== src/Gotype/Sequential/Records.antt =====
-- Which records the apply loop of gotype/seq_migrate.go leaves in a lawful store.
use go_typeql.Base.{
  contains-append, String, true, false, not, ◌&&◌, ◌<>◌, ◌==◌, List, [], ◌∷◌, ◌++◌, Option, none,
  some, if◌then◌else◌, Dict, lookup, contains, All, ◌≡◌, refl, ap, ◌∙◌, inl, inr, arith, Bool-cases,
  Option-cases,
}
use go_typeql.Gotype.Sequential.Model.{SequentialMigration, SeqMigrationRecord, is_nil}
use go_typeql.Gotype.Sequential.Run.{
  StateStore, SeqError, migration_checksum, apply_pending, call, names_of,
}
use go_typeql.Gotype.Sequential.Store.{IsLawful, apply_pending-names}

-- A migration whose Up leaves the records alone.
abbrev pub KeepsRecords :
    {W : Type 0} → (W → Dict SeqMigrationRecord) → SequentialMigration W → Type 0
KeepsRecords {W} view m = (w : W) → view (call m.up w).1 ≡ view w

-- And that has a name.
abbrev pub IsFit : {W : Type 0} → (W → Dict SeqMigrationRecord) → SequentialMigration W → Type 0
IsFit view m = (m.name == "" ≡ false) × KeepsRecords view m

module _ (sha256_hex : String → String) {W : Type 0} (store : StateStore W)
    (view : W → Dict SeqMigrationRecord) (lawful : IsLawful store view) (log : String → W → W)
    (quiet : (s : String) (w : W) → view (log s w) ≡ view w) where
  abbrev outcome :
      List String → List (SequentialMigration W) → W → List String × Option SeqError × W
  outcome done ms w = apply_pending sha256_hex store log done ms w

  names-contains :
      (done : List String) (ms : List (SequentialMigration W)) (w : W) (k : String)
      → contains done k ≡ true
      → contains (outcome done ms w).0 k ≡ true
  names-contains done ms w k h =
      let (taken, rest, split, names, all, fine) =
        apply_pending-names sha256_hex store log done ms w in
      rw names (contains-append done (names_of taken) k ∙ ground arith)

  abbrev tried : SequentialMigration W → W → Option String × W
  tried m w = call m.up (log ("applying: " <> m.name) w)

  abbrev written : SequentialMigration W → W → Option String × W
  written m w = store.record_ m.name (migration_checksum sha256_hex m) (tried m w).1

  abbrev next : SequentialMigration W → W → W
  next m w = log ("applied: " <> m.name) (written m w).1

  tried-view :
      (m : SequentialMigration W) (w : W) → KeepsRecords view m → view (tried m w).1 ≡ view w
  tried-view m w keeps = keeps _ ∙ quiet ("applying: " <> m.name) w

  unwritten-view :
      (m : SequentialMigration W) (w : W) (cause : String)
      → KeepsRecords view m
      → (written m w).0 ≡ some cause
      → view (written m w).1 ≡ view w
  unwritten-view m w cause keeps f =
      lawful.unrecorded m.name (migration_checksum sha256_hex m) cause (tried m w).1 (written m w).1
        (λ i. (f i, (written m w).1))
      ∙ tried-view m w keeps

  -- One round that succeeds: the migration has its record, and every other name has what it had.
  pub next-lookup :
      (m : SequentialMigration W) (w : W)
      → IsFit view m
      → (written m w).0 ≡ none
      → (r : SeqMigrationRecord) × (r.checksum ≡ migration_checksum sha256_hex m)
        × ((k : String)
            → lookup k (view (next m w)) ≡ (if m.name == k then some r else lookup k (view w)))
  next-lookup m w keeps f =
      let (r, sum, found) =
        lawful.recorded m.name (migration_checksum sha256_hex m) (tried m w).1 (written m w).1
          keeps.0 (λ i. (f i, (written m w).1)) in
      (
        r,
        sum,
        (λ k.
            ap (lookup k) (quiet ("applied: " <> m.name) (written m w).1)
            ∙ found k
            ∙ ap (λ v. if m.name == k then some r else lookup k v) (tried-view m w keeps.1)),
      )

  -- The names returned are the names recorded: whether or not the loop comes to its end, a name has
  -- a record behind it exactly where it had one before or is among the names returned.
  pub apply_pending-recorded :
      (done : List String) (ms : List (SequentialMigration W)) (w : W)
      → All (IsFit view) ms
      → ((k : String) → contains done k ≡ true → is_nil (lookup k (view w)) ≡ false)
      → (k : String)
      → is_nil (lookup k (view (outcome done ms w).2))
        ≡ is_nil (lookup k (view w)) && not (contains (outcome done ms w).0 k)
  unfolding apply_pending
  apply_pending-recorded done [] w keeps known k = ground (arith, known k)
  apply_pending-recorded done (m ∷ ms) w keeps known k = elim (Option-cases (tried m w).0) [
    | inr (cause, e) ↦
        rw (e, apply_pending) (rw (tried-view m w keeps.0.1) (ground (arith, known k)))
    | inl e ↦ elim (Option-cases (written m w).0) [
      | inr (cause, f) ↦
          rw (e, f, apply_pending)
            (rw (unwritten-view m w cause keeps.0.1 f) (ground (arith, known k)))
      | inl f ↦
          let (r, sum, found) = next-lookup m w keeps.0 f in
          let done' = done ++ m.name ∷ [] in
          let known' : (j : String)
              → contains done' j ≡ true
              → is_nil (lookup j (view (next m w))) ≡ false =
            λ j h. rw (found j) (elim (Bool-cases (m.name == j)) [
              | inl p ↦ rw p refl
              | inr p ↦ rw p (known j (ground (arith, contains-append done (m.name ∷ []) j)))
            ]) in
          rw (e, f, apply_pending)
            (apply_pending-recorded done' ms (next m w) keeps.1 known' k
              ∙ rw (found k) (elim (Bool-cases (m.name == k)) [
                | inl p ↦
                    let got =
                      names-contains done' ms (next m w) k
                        (contains-append done (m.name ∷ []) k ∙ ground arith) in
                    rw (p, got) (ground arith)
                | inr p ↦ rw p refl
              ]))
    ]
  ]
