-- ===== src/Gotype/Sequential/Store.antt =====
-- What the apply loop of gotype/seq_migrate.go does to the records of a store.
use go_typeql.Base.{
  String, false, ◌<>◌, ◌==◌, List, [], ◌∷◌, ◌++◌, append_assoc, append-nil, none, some, ok,
  if◌then◌else◌, Dict, lookup, ◌≡◌, refl, sym, ap, ◌∙◌, inl, inr, Option-cases,
}
use go_typeql.Gotype.Sequential.Model.{SequentialMigration, SeqMigrationRecord}
use go_typeql.Gotype.Sequential.Run.{StateStore, migration_checksum, apply_pending, call, names_of}

-- A store of which `view` is what it holds: a read that succeeds returns it, no read changes it, a record
-- written under a name that is not empty is found under its name with its checksum, and a failed write
-- changes nothing. Every operation may fail.
pub record IsLawful {W : Type 0} (store : StateStore W) (view : W → Dict SeqMigrationRecord)
    : Type 0 where
  pub ensured : (w : W) → view (store.ensure_schema w).1 ≡ view w
  pub read : (w : W) → view (store.applied w).1 ≡ view w
  pub answered : (w : W) (d : Dict SeqMigrationRecord) → (store.applied w).0 ≡ ok d → d ≡ view w
  pub recorded :
      (name sum : String) (w w₁ : W)
      → name == "" ≡ false
      → store.record_ name sum w ≡ (none, w₁)
      → (r : SeqMigrationRecord) × (r.checksum ≡ sum)
        × ((k : String) → lookup k (view w₁) ≡ (if name == k then some r else lookup k (view w)))
  pub unrecorded :
      (name sum cause : String) (w w₁ : W)
      → store.record_ name sum w ≡ (some cause, w₁)
      → view w₁ ≡ view w

module _ (sha256_hex : String → String) {W : Type 0} (store : StateStore W) where
  -- What the loop has done behind it: the names it returns are those of the first migrations, of all
  -- of them where it returns no error, and it returns an error wherever it stopped early.
  pub apply_pending-names :
      (log : String → W → W) (done : List String) (ms : List (SequentialMigration W)) (w : W)
      → (taken rest : List (SequentialMigration W)) × (ms ≡ taken ++ rest)
        × ((apply_pending sha256_hex store log done ms w).0 ≡ done ++ names_of taken)
        × ((apply_pending sha256_hex store log done ms w).1 ≡ none → rest ≡ [])
        × (rest ≡ [] → (apply_pending sha256_hex store log done ms w).1 ≡ none)
  unfolding apply_pending
  apply_pending-names log done [] w =
      ([], [], refl, sym (append-nil done), (λ _. refl), (λ _. refl))
  apply_pending-names log done (m ∷ ms) w =
      let w₁ = log ("applying: " <> m.name) w in
      let failed = call m.up w₁ in
      elim (Option-cases failed.0) [
        | inr (cause, e) ↦
            rw (e, apply_pending)
              ([], m ∷ ms, refl, sym (append-nil done), (λ h. cc h), (λ h. cc h))
        | inl e ↦
            let written = store.record_ m.name (migration_checksum sha256_hex m) failed.1 in
            elim (Option-cases written.0) [
              | inr (cause, f) ↦
                  rw (e, f, apply_pending)
                    ([], m ∷ ms, refl, sym (append-nil done), (λ h. cc h), (λ h. cc h))
              | inl f ↦
                  let (taken, rest, split, names, all, fine) =
                    apply_pending-names log (done ++ m.name ∷ []) ms
                      (log ("applied: " <> m.name) written.1) in
                  rw (e, f, apply_pending)
                    (
                      m ∷ taken,
                      rest,
                      ap (λ ns. m ∷ ns) split,
                      names ∙ append_assoc done (m.name ∷ []) (names_of taken),
                      all,
                      fine,
                    )
            ]
      ]
