-- ===== src/Gotype/Manager/Puts.antt =====
-- gotype/crud.go: `Put`, and the calls for several instances that open a transaction of their own.
use go_typeql.Base.{
  String, List, [], ◌∷◌, ◌++◌, ℕ, ◌+◌, pos, itoa, Option, none, some, ok, err, ◌<>◌, ◌==◌,
  if◌then◌else◌,
}
use go_typeql.Ast.Compiler.{CompileError}
use go_typeql.Gotype.Session.{Driver, execute_read}
use go_typeql.Gotype.Models.{Instance}
use go_typeql.Gotype.Models.Strategy.{build_insert_query, build_put_query, build_match_by_key}
use go_typeql.Gotype.Manager.{
  RowReader, Manager, context, context_at, check_ctx, new_write_tx, write_tx, with_write_tx,
}
use go_typeql.Gotype.Manager.Writes.{returned_iid, with_returned}

abbrev pub var_at : ℕ → String
var_at i = "e" <> itoa (pos i)

abbrev iid_text : String → String
iid_text match_query = match_query <> "\nfetch { \"_iid\": iid($e) };"

-- `setIIDOnInfo` for each IID that is not empty.
unfoldable pub set_iids : List String → List (Option Instance) → List (Option Instance)
set_iids (i ∷ is) (some x ∷ xs) =
    some (if i == "" then x else record x { iid = i }) ∷ set_iids is xs
set_iids (i ∷ is) (none ∷ xs) = none ∷ set_iids is xs
set_iids _ xs = xs

module _ {W Tx Row : Type 0} (driver : Driver W Tx Row) (rows : RowReader Row)
    (explain : CompileError → String) (m : Manager Tx) where
  -- The end of `Put`'s function: the IID is fetched by the key.
  unfoldable pub fetch_iid : Tx → Instance → W → Option String × Instance × W
  fetch_iid tx inst w = elim m.info.key_fields [
    | [] ↦ (none, inst, w)
    | key ∷ keys ↦ elim (build_match_by_key m.info inst "e") [
      | err e ↦ (some (context "put" m.info <> ("build iid query: " <> explain e)), inst, w)
      | ok match_query ↦
          let (answer, w₁) = driver.query tx (iid_text match_query) w in
          elim answer [
            | err e ↦ (some (context "put" m.info <> ("fetch iid: " <> e)), inst, w₁)
            | ok found ↦ (none, with_returned driver rows explain m found inst, w₁)
          ]
    ]
  ]

  unfoldable pub put : Option Instance → W → Option String × Option Instance × W
  unfolding fetch_iid
  put none w = (some ("put " <> (m.info.type_name <> ": instance must not be nil")), none, w)
  put (some inst) w = elim (check_ctx driver m "put" w) [
    | some e ↦ (some e, some inst, w)
    | none ↦ elim (build_put_query m.info inst "e") [
      | err e ↦ (some (context "put" m.info <> ("build query: " <> explain e)), some inst, w)
      | ok q ↦
          let (failed, inst', w₁) =
            with_write_tx driver m "put" (write_tx driver m) inst
              (λ tx w₂.
                let (answer, w₃) = driver.query tx q w₂ in
                elim answer [
                  | err e ↦ (some (context "put" m.info <> e), inst, w₃)
                  | ok _ ↦ fetch_iid tx inst w₃
                ])
              w in
          (failed, some inst', w₁)
    ]
  ]

  -- The loop of `InsertMany`, with the IIDs that are pending; the number is the index.
  unfoldable pub insert_each :
      Tx → ℕ → List (Option Instance) → List String → W → Option String × List String × W
  insert_each tx i [] pending w = (none, pending, w)
  insert_each tx i (none ∷ xs) pending w =
      (some (context_at "insert_many" m.info i <> "instance must not be nil"), pending, w)
  insert_each tx i (some inst ∷ xs) pending w = elim (build_insert_query m.info inst (var_at i)) [
    | err e ↦
        (some (context_at "insert_many" m.info i <> ("build query: " <> explain e)), pending, w)
    | ok q ↦
        let (answer, w₁) = driver.query tx q w in
        elim answer [
          | err e ↦ (some (context_at "insert_many" m.info i <> e), pending, w₁)
          | ok found ↦
              insert_each tx (i + 1) xs (pending ++ returned_iid driver rows explain m found ∷ [])
                w₁
        ]
  ]

  unfoldable pub insert_many :
      List (Option Instance) → W → Option String × List (Option Instance) × W
  unfolding insert_each set_iids
  insert_many [] w = (none, [], w)
  insert_many (x ∷ xs) w =
      let (failed, pending, w₁) =
        with_write_tx driver m "insert_many" (new_write_tx driver m) []
          (λ tx. insert_each tx 0 (x ∷ xs) []) w in
      elim failed [ some e ↦ (some e, x ∷ xs, w₁) | none ↦ (none, set_iids pending (x ∷ xs), w₁) ]

  unfoldable pub put_each : Tx → ℕ → List (Option Instance) → W → Option String × W
  put_each tx i [] w = (none, w)
  put_each tx i (none ∷ xs) w =
      (some (context_at "put_many" m.info i <> "instance must not be nil"), w)
  put_each tx i (some inst ∷ xs) w = elim (build_put_query m.info inst (var_at i)) [
    | err e ↦ (some (context_at "put_many" m.info i <> ("build query: " <> explain e)), w)
    | ok q ↦
        let (answer, w₁) = driver.query tx q w in
        elim answer [
          | err e ↦ (some (context_at "put_many" m.info i <> e), w₁)
          | ok _ ↦ put_each tx (i + 1) xs w₁
        ]
  ]

  -- The loop behind the commit, which reads each IID in a transaction of its own.
  unfoldable pub read_iids : List (Option Instance) → W → Option String × List (Option Instance) × W
  read_iids [] w = (none, [], w)
  read_iids (none ∷ xs) w = let (failed, ys, w₁) = read_iids xs w in (failed, none ∷ ys, w₁)
  read_iids (some inst ∷ xs) w = elim m.info.key_fields [
    | [] ↦ let (failed, ys, w₁) = read_iids xs w in (failed, some inst ∷ ys, w₁)
    | key ∷ keys ↦ elim (build_match_by_key m.info inst "e") [
      | err e ↦ (
        some (context "put_many" m.info <> ("build iid query: " <> explain e)),
        some inst ∷ xs,
        w,
      )
      | ok match_query ↦
          let (answer, w₁) = execute_read driver (iid_text match_query) w in
          elim answer [
            | err e ↦ (some (context "put_many" m.info <> ("fetch iid: " <> e)), some inst ∷ xs, w₁)
            | ok found ↦
                let (failed, ys, w₂) = read_iids xs w₁ in
                (failed, some (with_returned driver rows explain m found inst) ∷ ys, w₂)
          ]
    ]
  ]

  unfoldable pub put_many : List (Option Instance) → W → Option String × List (Option Instance) × W
  unfolding put_each read_iids
  put_many [] w = (none, [], w)
  put_many (x ∷ xs) w =
      let (failed, _, w₁) =
        with_write_tx driver m "put_many" (new_write_tx driver m) tt
          (λ tx w₂. let (e, w₃) = put_each tx 0 (x ∷ xs) w₂ in (e, tt, w₃)) w in
      elim failed [ some e ↦ (some e, x ∷ xs, w₁) | none ↦ read_iids (x ∷ xs) w₁ ]
