-- ===== src/Gotype/Sequential/Model.antt =====
-- The types of gotype/seq_migrate.go, and its validation of a list of migrations.
use go_typeql.Base.{
  String, code, Bool, true, false, not, ◌&&◌, ◌||◌, ◌<>◌, ◌==◌, ℕ, suc, List, [], ◌∷◌, ◌++◌, Option,
  none, some, if◌then◌else◌, ltb, length, contains, join, itoa, pos,
}

-- What a function of type `func(ctx, db) error` does to the world: an error, or none.
abbrev pub Effect : Type 0 → Type 0
Effect W = W → Option String × W

pub record TqlStatements : Type 0 where
  pub up : List String
  pub down : List String

pub record SequentialMigration (W : Type 0) : Type 0 where
  pub name : String
  pub up : Option (Effect W)
  pub down : Option (Effect W)
  pub statements : Option TqlStatements

pub record SeqMigrationRecord : Type 0 where
  pub applied_at : Option String
  pub checksum : String

pub data Severity : Type 0 where
  error warning : Severity

pub record SeqValidationIssue : Type 0 where
  pub name : String
  pub message : String
  pub severity : Severity

-- `a < b` on Go strings, character by character.
unfoldable pub less : String → String → Bool
less String.[] String.[] = false
less String.[] (String.◌∷◌ d t) = true
less (String.◌∷◌ c s) String.[] = false
less (String.◌∷◌ c s) (String.◌∷◌ d t) =
    let rest = less s t in
    if ltb (code c) (code d) then true else not (ltb (code d) (code c)) && rest

abbrev pub is_nil {ℓ} : {A : Type ℓ} → Option A → Bool
is_nil none = true
is_nil (some a) = false

abbrev pub problem : String → String → SeqValidationIssue
problem name message = record { name = name; message = message; severity = error }

module _ {W : Type 0} where
  -- sort.Slice by name.
  unfoldable pub insert_by_name :
      SequentialMigration W → List (SequentialMigration W) → List (SequentialMigration W)
  insert_by_name m [] = m ∷ []
  insert_by_name m (n ∷ ns) =
      let rest = insert_by_name m ns in if less n.name m.name then n ∷ rest else m ∷ n ∷ ns

  unfoldable pub sort_by_name : List (SequentialMigration W) → List (SequentialMigration W)
  unfolding insert_by_name
  sort_by_name [] = []
  sort_by_name (m ∷ ms) = insert_by_name m (sort_by_name ms)

  -- sort.SliceIsSorted by name.
  unfoldable pub is_sorted : List (SequentialMigration W) → Bool
  is_sorted [] = true
  is_sorted (m ∷ []) = true
  is_sorted (m ∷ n ∷ ns) = not (less n.name m.name) && is_sorted (n ∷ ns)

  -- What one round of the loop appends for a named migration.
  unfoldable pub migration_issues : List String → SequentialMigration W → List SeqValidationIssue
  migration_issues seen m =
      (if contains seen m.name then problem m.name "duplicate migration name" ∷ [] else [])
      ++ (if is_nil m.up then problem m.name "Up function is nil" ∷ [] else [])

  -- The loop, from index `i` on, with the names seen.
  unfoldable pub loop_issues :
      ℕ → List String → List (SequentialMigration W) → List SeqValidationIssue
  unfolding migration_issues
  loop_issues i seen [] = []
  loop_issues i seen (m ∷ ms) =
      let unnamed = loop_issues (suc i) seen ms in
      let named = loop_issues (suc i) (seen ++ m.name ∷ []) ms in
      if m.name == ""
      then problem ("[index " <> (itoa (pos i) <> "]")) "migration name is empty" ∷ unnamed
      else migration_issues seen m ++ named

  unfoldable pub validate_sequential_migrations :
      List (SequentialMigration W) → List SeqValidationIssue
  unfolding loop_issues is_sorted
  validate_sequential_migrations ms =
      loop_issues 0 [] ms
      ++ (if not (is_sorted ms) && ltb 1 (length ms)
          then record {
            name = "";
            message = "migrations are not in sorted order; they will be sorted automatically";
            severity = warning;
          }
            ∷ []
          else [])

abbrev pub is_error : SeqValidationIssue → Bool
is_error i = elim i.severity [ error ↦ true | warning ↦ false ]

unfoldable pub has_validation_errors : List SeqValidationIssue → Bool
has_validation_errors [] = false
has_validation_errors (i ∷ is) = is_error i || has_validation_errors is

issue_part : SeqValidationIssue → String
issue_part i = (if i.name == "" then "(global)" else i.name) <> (": " <> i.message)

issue_parts : List SeqValidationIssue → List String
unfolding issue_part
issue_parts [] = []
issue_parts (i ∷ is) = let rest = issue_parts is in if is_error i then issue_part i ∷ rest else rest

unfoldable pub format_issues : List SeqValidationIssue → String
unfolding issue_parts
format_issues is = join "; " (issue_parts is)
