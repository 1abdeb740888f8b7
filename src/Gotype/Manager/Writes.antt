-- ===== src/Gotype/Manager/Writes.antt =====
-- gotype/crud.go: the calls that write. A pointer to an instance is `none` where it is nil.
use go_typeql.Base.{
  String, Bool, List, [], ◌∷◌, ℕ, ◌+◌, pos, ℤ, Option, none, some, Result, ok, err, ◌<>◌, ◌==◌,
  if◌then◌else◌, eqb_ℤ,
}
use go_typeql.Ast.Compiler.{CompileError}
use go_typeql.Gotype.Session.{Driver, execute_write}
use go_typeql.Gotype.Models.{ModelInfo, Instance}
use go_typeql.Gotype.Models.Strategy.{build_insert_query}
use go_typeql.Gotype.Manager.{
  RowReader, Manager, context, context_at, match_iid, check_ctx, write_tx, finish, close_if,
  with_write_tx, read_query, update_instance_in_tx,
}

-- The loop over the instances of a call, which stops at the first error; the number is the index.
unfoldable pub each_instance :
    {X W : Type 0} → (ℕ → X → W → Option String × W) → ℕ → List X → W → Option String × W
each_instance f i [] w = (none, w)
each_instance f i (x ∷ xs) w =
    let (failed, w₁) = f i x w in
    elim failed [ some e ↦ (some e, w₁) | none ↦ each_instance f (i + 1) xs w₁ ]

-- The instances behind the pointers, or the error at the first that is nil or has no IID.
unfoldable pub with_iids :
    String → ModelInfo → ℕ → List (Option Instance) → Result String (List Instance)
with_iids op info i [] = ok []
with_iids op info i (none ∷ xs) = err (context_at op info i <> "instance must not be nil")
with_iids op info i (some x ∷ xs) =
    let rest = with_iids op info (i + 1) xs in
    if x.iid == ""
    then err (context_at op info i <> "instance has no IID")
    else elim rest [ err e ↦ err e | ok ys ↦ ok (x ∷ ys) ]

abbrev pub delete_text : ModelInfo → String → String
delete_text info i = match_iid info.type_name i <> "\ndelete $e;"

abbrev no_change : Unit {0}
no_change = tt

module _ {W Tx Row : Type 0} (driver : Driver W Tx Row) (rows : RowReader Row)
    (explain : CompileError → String) (m : Manager Tx) where
  abbrev pub WriteCall : Type 0
  WriteCall = W → Option String × W

  -- The IID of the only row, where it has one.
  unfoldable pub returned_iid : List Row → String
  returned_iid [] = ""
  returned_iid (row ∷ []) = rows.iid_of row
  returned_iid (row ∷ second ∷ more) = ""

  abbrev pub with_returned : List Row → Instance → Instance
  with_returned answer inst =
      let i = returned_iid answer in if i == "" then inst else record inst { iid = i }

  unfoldable pub count_by_iid : String → W → Result String ℤ × W
  count_by_iid i w =
      let q = match_iid m.info.type_name i <> "\nreduce $count = count($e);" in
      let (answer, w₁) = read_query driver m q w in
      elim answer [
        | err e ↦ (err e, w₁)
        | ok found ↦ elim found [ [] ↦ (ok (pos 0), w₁) | row ∷ _ ↦ (ok (rows.count_of row), w₁) ]
      ]

  unfoldable pub insert : Option Instance → W → Option String × Option Instance × W
  unfolding returned_iid
  insert none w = (some ("insert " <> (m.info.type_name <> ": instance must not be nil")), none, w)
  insert (some inst) w = elim (check_ctx driver m "insert" w) [
    | some e ↦ (some e, some inst, w)
    | none ↦ elim (build_insert_query m.info inst "e") [
      | err e ↦ (some (context "insert" m.info <> ("build query: " <> explain e)), some inst, w)
      | ok q ↦
          let (opened, w₁) = write_tx driver m w in
          elim opened [
            | err e ↦ (some (context "insert" m.info <> e), some inst, w₁)
            | ok (tx, auto_commit) ↦
                let (answer, w₂) = driver.query tx q w₁ in
                elim answer [
                  | err e ↦ (
                    some (context "insert" m.info <> e),
                    some inst,
                    close_if driver m auto_commit tx w₂,
                  )
                  | ok found ↦
                      finish driver m "insert" tx auto_commit (some (with_returned found inst)) w₂
                ]
          ]
    ]
  ]

  -- The transaction is opened before the call that uses it.
  unfoldable pub update : Option Instance → WriteCall
  update none w = (some ("update " <> (m.info.type_name <> ": instance must not be nil")), w)
  update (some inst) w = elim (check_ctx driver m "update" w) [
    | some e ↦ (some e, w)
    | none ↦
        if inst.iid == ""
        then (some ("update " <> (m.info.type_name <> ": instance has no IID")), w)
        else let (failed, _, w₁) =
            with_write_tx driver m "update" (write_tx driver m) no_change
              (λ tx w₂.
                let (e, w₃) = update_instance_in_tx driver m tx inst w₂ in (e, no_change, w₃))
              w in
          (failed, w₁)
  ]

  -- The strict check of `Delete` and of one instance in `DeleteMany`.
  unfoldable pub check_exists : String → Instance → WriteCall
  unfolding count_by_iid
  check_exists prefix inst w =
      let (counted, w₁) = count_by_iid inst.iid w in
      elim counted [
        | err e ↦ (some (prefix <> ("strict check: " <> e)), w₁)
        | ok n ↦
            if eqb_ℤ n (pos 0)
            then (some (prefix <> "instance not found (strict mode)"), w₁)
            else (none, w₁)
      ]

  unfoldable pub send_delete : Instance → WriteCall
  send_delete inst w = elim m.tx [
    | some tx ↦
        let (answer, w₁) = driver.query tx (delete_text m.info inst.iid) w in
        elim answer [ err e ↦ (some (context "delete" m.info <> e), w₁) | ok _ ↦ (none, w₁) ]
    | none ↦
        let (answer, w₁) = execute_write driver (delete_text m.info inst.iid) w in
        elim answer [ err e ↦ (some (context "delete" m.info <> e), w₁) | ok _ ↦ (none, w₁) ]
  ]

  unfoldable pub delete : Bool → Option Instance → WriteCall
  unfolding check_exists send_delete
  delete strict none w = (some ("delete " <> (m.info.type_name <> ": instance must not be nil")), w)
  delete strict (some inst) w = elim (check_ctx driver m "delete" w) [
    | some e ↦ (some e, w)
    | none ↦
        if inst.iid == ""
        then (some ("delete " <> (m.info.type_name <> ": instance has no IID")), w)
        else let (failed, w₁) =
            if strict then check_exists (context "delete" m.info) inst w else (none, w) in
          elim failed [ some e ↦ (some e, w₁) | none ↦ send_delete inst w₁ ]
  ]

  -- The body of a loop that sends one query for each instance in a transaction.
  unfoldable pub delete_in_tx : Tx → ℕ → Instance → WriteCall
  delete_in_tx tx i inst w =
      let (answer, w₁) = driver.query tx (delete_text m.info inst.iid) w in
      elim answer [
        | err e ↦ (some (context_at "delete_many" m.info i <> e), w₁)
        | ok _ ↦ (none, w₁)
      ]

  unfoldable pub update_in_tx : Tx → ℕ → Instance → WriteCall
  update_in_tx tx i inst w =
      let (failed, w₁) = update_instance_in_tx driver m tx inst w in
      elim failed [
        | some e ↦ (some (context_at "update_many" m.info i <> e), w₁)
        | none ↦ (none, w₁)
      ]

  -- `withWriteTx` around a loop over the instances.
  unfoldable pub write_each : String → (Tx → ℕ → Instance → WriteCall) → List Instance → WriteCall
  unfolding each_instance
  write_each op body instances w =
      let (failed, _, w₁) =
        with_write_tx driver m op (write_tx driver m) no_change
          (λ tx w₂. let (e, w₃) = each_instance (body tx) 0 instances w₂ in (e, no_change, w₃)) w in
      (failed, w₁)

  unfoldable pub delete_many : Bool → List (Option Instance) → WriteCall
  unfolding with_iids each_instance check_exists write_each
  delete_many strict [] w = (none, w)
  delete_many strict (x ∷ xs) w = elim (with_iids "delete_many" m.info 0 (x ∷ xs)) [
    | err e ↦ (some e, w)
    | ok instances ↦
        let (failed, w₁) =
          if strict
          then each_instance (λ i inst. check_exists (context_at "delete_many" m.info i) inst) 0
              instances w
          else (none, w) in
        elim failed [
          | some e ↦ (some e, w₁)
          | none ↦ write_each "delete_many" delete_in_tx instances w₁
        ]
  ]

  unfoldable pub update_many : List (Option Instance) → WriteCall
  unfolding with_iids write_each
  update_many [] w = (none, w)
  update_many (x ∷ xs) w = elim (with_iids "update_many" m.info 0 (x ∷ xs)) [
    | err e ↦ (some e, w)
    | ok instances ↦ write_each "update_many" update_in_tx instances w
  ]
