-- ===== src/Gotype/Sequential/Rows/Lawful.antt =====
-- gotype/seq_migrate_state.go: the laws of the store on a database that holds rows.
use go_typeql.Base.{
  String, false, ◌==◌, List, [], ◌∷◌, Option, none, some, ok, if◌then◌else◌, Dict, lookup, ◌≡◌,
  refl, sym, ap, ◌∙◌, inl, inr, Bool-cases, Result-cases,
}
use go_typeql.Gotype.Sequential.Model.{SeqMigrationRecord}
use go_typeql.Gotype.Sequential.Run.{StateStore}
use go_typeql.Gotype.Sequential.Kept.{parts}
use go_typeql.Gotype.Sequential.Store.{IsLawful}
use go_typeql.Gotype.Sequential.Undone.{DeletesRecords}
use go_typeql.Gotype.Sequential.Queries.{
  Cell, Session, applied_query, record_query, delete_query, record_of, collect, seq_migration_state,
}
use go_typeql.Gotype.Sequential.Rows.{KeepsRows, record_query-Inserts, delete_query-Removes}
use go_typeql.Gotype.Sequential.Rows.Collected.{
  Lacks, held, collect-append, collect-without, checksum_of, shown-lookup,
}

module _ (parse_time : String → Option String) where
  module _ {W : Type 0} (db : Session W) (rows : W → List (Dict Cell))
      (keeps : KeepsRows db rows) where
    abbrev store : StateStore W
    store = seq_migration_state parse_time db

    store-read : (w : W) → held parse_time rows (store.applied w).1 ≡ held parse_time rows w
    unfolding seq_migration_state
    store-read w = elim (Result-cases (db.execute_read applied_query w).0) [
      | inl (_, e) ↦ rw e (ap (collect parse_time []) (keeps.fetched w))
      | inr (_, e) ↦ rw e (ap (collect parse_time []) (keeps.fetched w))
    ]

    store-answered :
        (w : W) (d : Dict SeqMigrationRecord)
        → (store.applied w).0 ≡ ok d
        → d ≡ held parse_time rows w
    unfolding seq_migration_state
    store-answered w d h = elim (Result-cases (db.execute_read applied_query w).0) [
      | inl (found, e) ↦
          let is : collect parse_time [] found ≡ d = cc (rw e at h) in
          sym is ∙ ap (collect parse_time []) (keeps.answered w found e)
      | inr (_, e) ↦ cc (rw e at h)
    ]

    store-recorded :
        (name sum : String) (w w₁ : W)
        → name == "" ≡ false
        → store.record_ name sum w ≡ (none, w₁)
        → (r : SeqMigrationRecord) × (r.checksum ≡ sum)
          × ((k : String)
              → lookup k (held parse_time rows w₁)
                ≡ (if name == k then some r else lookup k (held parse_time rows w)))
    unfolding seq_migration_state
    store-recorded name sum w w₁ full h =
        let query = record_query name sum (db.now w) in
        let (h₀, h₁) = parts h in
        elim (Result-cases (db.execute_write query w).0) [
          | inr (_, e) ↦ cc (rw e at h₀)
          | inl (out, e) ↦
              let (row, shown, grown) =
                keeps.inserted name sum query w out (record_query-Inserts name sum (db.now w)) e in
              (
                record_of parse_time row,
                checksum_of parse_time name sum row shown,
                (λ k.
                    ap (λ v. lookup k (held parse_time rows v)) (sym h₁)
                    ∙ ap (λ rs. lookup k (collect parse_time [] rs)) grown
                    ∙ ap (lookup k) (collect-append parse_time (rows w) (row ∷ []) [])
                    ∙ shown-lookup parse_time name sum (held parse_time rows w) row full shown k),
              )
        ]

    store-unrecorded :
        (name sum cause : String) (w w₁ : W)
        → store.record_ name sum w ≡ (some cause, w₁)
        → held parse_time rows w₁ ≡ held parse_time rows w
    unfolding seq_migration_state
    store-unrecorded name sum cause w w₁ h =
        let query = record_query name sum (db.now w) in
        let (h₀, h₁) = parts h in
        elim (Result-cases (db.execute_write query w).0) [
          | inl (_, e) ↦ cc (rw e at h₀)
          | inr (why, e) ↦
              ap (held parse_time rows) (sym h₁)
              ∙ ap (collect parse_time []) (keeps.unwritten query why w e)
        ]

    -- On a database that keeps rows, the store of the program is lawful.
    pub seq_migration_state-IsLawful : IsLawful store (held parse_time rows)
    unfolding seq_migration_state
    seq_migration_state-IsLawful = record {
      ensured = λ w. ap (collect parse_time []) (keeps.defined w);
      read = store-read;
      answered = store-answered;
      recorded = store-recorded;
      unrecorded = store-unrecorded;
    }

    store-deleted :
        (name : String) (w w₁ : W)
        → store.delete_ name w ≡ (none, w₁)
        → (k : String)
        → lookup k (held parse_time rows w₁)
          ≡ (if name == k then none else lookup k (held parse_time rows w))
    unfolding seq_migration_state lookup
    store-deleted name w w₁ h k =
        let query = delete_query name in
        let (h₀, h₁) = parts h in
        elim (Result-cases (db.execute_write query w).0) [
          | inr (_, e) ↦ cc (rw e at h₀)
          | inl (out, e) ↦
              ap (λ v. lookup k (held parse_time rows v)) (sym h₁)
              ∙ ap (λ rs. lookup k (collect parse_time [] rs))
                  (keeps.removed name query w out (delete_query-Removes name) e)
              ∙ collect-without parse_time name (rows w) [] [] nothing k
        ]
      where
        nothing : Lacks parse_time name [] []
        nothing j = elim (Bool-cases (name == j)) [ inl e ↦ rw e refl | inr e ↦ rw e refl ]

    store-undeleted :
        (name cause : String) (w w₁ : W)
        → store.delete_ name w ≡ (some cause, w₁)
        → held parse_time rows w₁ ≡ held parse_time rows w
    unfolding seq_migration_state
    store-undeleted name cause w w₁ h =
        let query = delete_query name in
        let (h₀, h₁) = parts h in
        elim (Result-cases (db.execute_write query w).0) [
          | inl (_, e) ↦ cc (rw e at h₀)
          | inr (why, e) ↦
              ap (held parse_time rows) (sym h₁)
              ∙ ap (collect parse_time []) (keeps.unwritten query why w e)
        ]

    pub seq_migration_state-DeletesRecords : DeletesRecords store (held parse_time rows)
    seq_migration_state-DeletesRecords = record {
      deleted = store-deleted;
      undeleted = store-undeleted;
    }
