-- ===== src/Gotype/Sequential/Kept.antt =====
-- What sorting and filtering keep of a list of migrations, and settled migrations.
use go_typeql.Base.{
  String, true, false, List, [], ◌∷◌, none, some, Dict, lookup, contains, Distinct, All, All-mono,
  ◌≡◌, refl, ap, inl, inr, arith, Bool-cases,
}
use go_typeql.Gotype.Sequential.Model.{
  SequentialMigration, SeqMigrationRecord, is_nil, sort_by_name, insert_by_name, less,
}
use go_typeql.Gotype.Sequential.Run.{names_of, verify_seq_checksums}
use go_typeql.Gotype.Sequential.Pending.{unapplied, record_agrees, verify_seq_checksums_iff}

pub parts : {A B : Type 0} {x y : A × B} → x ≡ y → (x.0 ≡ y.0) × (x.1 ≡ y.1)
parts e = (ap (λ p. p.0) e, ap (λ p. p.1) e)

module _ {W : Type 0} (P : SequentialMigration W → Type 0) where
  pub All-insert_by_name :
      (m : SequentialMigration W) (ms : List (SequentialMigration W))
      → P m
      → All P ms
      → All P (insert_by_name m ms)
  unfolding insert_by_name
  All-insert_by_name m [] p h = (p, tt)
  All-insert_by_name m (n ∷ ns) p h = elim (Bool-cases (less n.name m.name)) [
    | inl e ↦ rw e (h.0, All-insert_by_name m ns p h.1)
    | inr e ↦ rw e (p, h)
  ]

  pub All-sort_by_name : (ms : List (SequentialMigration W)) → All P ms → All P (sort_by_name ms)
  unfolding sort_by_name
  All-sort_by_name [] h = tt
  All-sort_by_name (m ∷ ms) h = All-insert_by_name m (sort_by_name ms) h.0 (All-sort_by_name ms h.1)

  pub All-unapplied :
      (d : Dict SeqMigrationRecord) (ms : List (SequentialMigration W))
      → All P ms
      → All P (unapplied d ms)
  All-unapplied d [] h = tt
  All-unapplied d (m ∷ ms) h = elim (Bool-cases (is_nil (lookup m.name d))) [
    | inl e ↦ rw e (h.0, All-unapplied d ms h.1)
    | inr e ↦ rw e (All-unapplied d ms h.1)
  ]

module _ {W : Type 0} (d : Dict SeqMigrationRecord) where
  pub contains_other :
      (ms : List (SequentialMigration W)) (k : String)
      → contains (names_of ms) k ≡ false
      → contains (names_of (unapplied d ms)) k ≡ false
  contains_other [] k h = refl
  contains_other (m ∷ ms) k h = elim (Bool-cases (is_nil (lookup m.name d))) [
    | inl e ↦ rw e (ground (arith, contains_other ms k))
    | inr e ↦ rw e (contains_other ms k (ground arith))
  ]

  pub unapplied-Distinct :
      (ms : List (SequentialMigration W))
      → Distinct (names_of ms)
      → Distinct (names_of (unapplied d ms))
  unapplied-Distinct [] h = tt
  unapplied-Distinct (m ∷ ms) h = elim (Bool-cases (is_nil (lookup m.name d))) [
    | inl e ↦ rw e (contains_other ms m.name h.0, unapplied-Distinct ms h.1)
    | inr e ↦ rw e (unapplied-Distinct ms h.1)
  ]

module _ (sha256_hex : String → String) {W : Type 0} where
  -- A migration has a record with its checksum.
  abbrev pub Settled : Dict SeqMigrationRecord → SequentialMigration W → Type 0
  Settled d m =
      (r : SeqMigrationRecord) × (lookup m.name d ≡ some r)
      × (record_agrees sha256_hex m (some r) ≡ true)

  pub Settled-none :
      (d : Dict SeqMigrationRecord) (ms : List (SequentialMigration W))
      → All (Settled d) ms
      → (verify_seq_checksums sha256_hex ms d ≡ none) × (unapplied d ms ≡ [])
  Settled-none d ms h = (
    (verify_seq_checksums_iff sha256_hex ms d).1
        (All-mono (Settled d) _ (λ m s. rw (s.1, s.2) refl) ms h),
    nothing ms h,
  )
    where
      nothing : (ns : List (SequentialMigration W)) → All (Settled d) ns → unapplied d ns ≡ []
      nothing [] k = refl
      nothing (n ∷ ns) k = rw ((k.0).1, nothing ns k.1) refl
