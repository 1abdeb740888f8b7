-- ===== src/Gotype/Sequential/Pending.antt =====
-- `pendingSeqMigrations` and `verifySeqChecksums` of gotype/seq_migrate.go.
use go_typeql.Base.{
  String, Bool, true, false, not, ◌&&◌, ◌||◌, ◌==◌, eq_iff, List, [], ◌∷◌, Option, none, some,
  if◌then◌else◌, Dict, lookup, contains, All, ◌≡◌, ◌↔◌, refl, ap, inl, inr, Bool-cases,
  Option-cases,
}
use go_typeql.Gotype.Migrate.Define.{is_set}
use go_typeql.Gotype.Sequential.Model.{SequentialMigration, SeqMigrationRecord, is_nil}
use go_typeql.Gotype.Sequential.Run.{
  migration_checksum, verify_seq_checksums, pending_seq_migrations, names_of,
}

module _ {W : Type 0} (applied : Dict SeqMigrationRecord) where
  -- The migrations that have no record.
  abbrev pub unapplied : List (SequentialMigration W) → List (SequentialMigration W)
  unapplied [] = []
  unapplied (m ∷ ms) =
      let rest = unapplied ms in if is_nil (lookup m.name applied) then m ∷ rest else rest

-- A list up to and with the first migration of a name; all of it where the name is empty.
abbrev pub through :
    {W : Type 0} → String → List (SequentialMigration W) → List (SequentialMigration W)
through target [] = []
through target (m ∷ ms) =
    let rest = through target ms in if is_set target && m.name == target then m ∷ [] else m ∷ rest

module _ {W : Type 0} (applied : Dict SeqMigrationRecord) where
  -- The pending migrations are the sorted ones without a record, up to and with the target where
  -- one is given. A target that has a record already, or that is no migration's name, stops nothing.
  pub pending_seq_migrations-through :
      (ms : List (SequentialMigration W)) (target : String)
      → pending_seq_migrations ms applied target ≡ through target (unapplied applied ms)
  unfolding pending_seq_migrations
  pending_seq_migrations-through [] target = refl
  pending_seq_migrations-through (m ∷ ms) target =
      let ih = pending_seq_migrations-through ms target in
      elim (Bool-cases (is_nil (lookup m.name applied))) [
        | inr e ↦ rw e ih
        | inl e ↦ elim (Bool-cases (target == "")) [
          | inl t ↦ rw (e, t) (ap (λ ns. m ∷ ns) ih)
          | inr t ↦ elim (Bool-cases (m.name == target)) [
            | inl n ↦ rw (e, t, n) refl
            | inr n ↦ rw (e, t, n) (ap (λ ns. m ∷ ns) ih)
          ]
        ]
      ]

  pub through_all : (ms : List (SequentialMigration W)) → through "" ms ≡ ms
  through_all [] = refl
  through_all (m ∷ ms) = ap (λ ns. m ∷ ns) (through_all ms)

  -- A pending migration has no record.
  pub contains-unapplied :
      (ms : List (SequentialMigration W)) (k : String)
      → is_nil (lookup k applied) ≡ false
      → contains (names_of (unapplied applied ms)) k ≡ false
  contains-unapplied [] k h = refl
  contains-unapplied (m ∷ ms) k h = elim (Bool-cases (is_nil (lookup m.name applied))) [
    | inl e ↦ rw e (elim (Bool-cases (m.name == k)) [
      | inl p ↦
          let same = ap (λ j. is_nil (lookup j applied)) ((eq_iff m.name k).0 p) in cc (h, e, same)
      | inr p ↦ rw p (contains-unapplied ms k h)
    ])
    | inr e ↦ rw e (contains-unapplied ms k h)
  ]

-- A record agrees with a checksum, or one of the two is missing.
abbrev pub agrees : String → SeqMigrationRecord → Bool
agrees current rec = not (is_set rec.checksum) || (not (is_set current) || current == rec.checksum)

module _ (sha256_hex : String → String) {W : Type 0} where
  abbrev pub record_agrees : SequentialMigration W → Option SeqMigrationRecord → Bool
  record_agrees m none = true
  record_agrees m (some rec) = agrees (migration_checksum sha256_hex m) rec

  -- The check of the checksums passes exactly where the record of each migration agrees with it.
  pub verify_seq_checksums_iff :
      (ms : List (SequentialMigration W)) (applied : Dict SeqMigrationRecord)
      → (verify_seq_checksums sha256_hex ms applied ≡ none)
        ↔ All (λ m. record_agrees m (lookup (SequentialMigration.name m) applied) ≡ true) ms
  unfolding verify_seq_checksums
  verify_seq_checksums_iff [] applied = ((λ _. tt), (λ _. refl))
  verify_seq_checksums_iff (m ∷ ms) applied =
      let ih = verify_seq_checksums_iff ms applied in
      let current = migration_checksum sha256_hex m in
      elim (Option-cases (lookup m.name applied)) [
        | inl e ↦ rw (e, verify_seq_checksums) ((λ h. (refl, ih.0 h)), (λ h. ih.1 h.1))
        | inr (rec, e) ↦ elim (Bool-cases (rec.checksum == "")) [
          | inl r ↦ rw (e, verify_seq_checksums, r) ((λ h. (refl, ih.0 h)), (λ h. ih.1 h.1))
          | inr r ↦ elim (Bool-cases (current == "")) [
            | inl c ↦ rw (e, verify_seq_checksums, r, c) ((λ h. (refl, ih.0 h)), (λ h. ih.1 h.1))
            | inr c ↦ elim (Bool-cases (current == rec.checksum)) [
              | inl a ↦
                  rw (e, verify_seq_checksums, r, c, a) ((λ h. (refl, ih.0 h)), (λ h. ih.1 h.1))
              | inr a ↦ rw (e, verify_seq_checksums, r, c, a) ((λ h. cc h), (λ h. cc h.0))
            ]
          ]
        ]
      ]
