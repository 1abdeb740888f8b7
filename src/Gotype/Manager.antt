-- ===== src/Gotype/Manager.antt =====
-- gotype/crud.go: `Manager`, the texts of its queries and its transactions. The driver is that of
-- Gotype/Session; what is read of a row (its IID, its count, the instance that it hydrates to) and the
-- texts of the compiler's errors are parameters. A call returns an error or none, what it has changed of
-- its instances, and the world behind it.
pub mod Writes
pub mod Puts
pub mod Reads
pub mod Sent
mod Together
mod Tests
use mathlib.Core.Option
use go_typeql.Base.{
  String, Bool, true, false, List, [], ◌∷◌, ◌++◌, map, ℕ, zero, suc, ◌+◌, pos, ℤ, itoa, Option,
  none, some, Result, ok, err, ◌<>◌, ◌==◌, join, if◌then◌else◌,
}
use go_typeql.Ast.Nodes.{GoValue}
use go_typeql.Ast.Literals.{format_go_value}
use go_typeql.Ast.Compiler.{Compiled, CompileError}
use go_typeql.Ast.Builders.{Argument, go_value}
use go_typeql.Gotype.Session.{Driver, write, execute_read}
use go_typeql.Gotype.Models.{ModelInfo, FieldInfo, Instance, single_value, Held}
use go_typeql.Gotype.Models.Strategy.{build_match_all}

-- What the manager reads of a row.
pub record RowReader (Row : Type 0) : Type 0 where
  pub iid_of : Row → String
  pub count_of : Row → ℤ
  pub hydrate : Row → Result String Instance

pub record Manager (Tx : Type 0) : Type 0 where
  pub info : ModelInfo
  pub tx : Option Tx

-- `try { $e has <attribute> $old<i>; };`, and its deletion.
try_matches : ℕ → List String → String
try_matches i [] = ""
try_matches i (attr ∷ attrs) =
    "try { $e has "
    <> (attr <> (" $old" <> (itoa (pos i) <> ("; };\n" <> try_matches (i + 1) attrs))))

try_deletes : ℕ → List String → String
try_deletes i [] = ""
try_deletes i (attr ∷ attrs) =
    "try { $old" <> (itoa (pos i) <> (" of $e; };\n" <> try_deletes (i + 1) attrs))

abbrev pub match_iid : String → String → String
match_iid type_name i = "match\n$e isa " <> (type_name <> (", iid " <> (i <> ";")))

unfoldable pub build_batch_update : String → String → List String → List String → String
unfolding try_matches try_deletes
build_batch_update type_name i del_attrs ins_has =
    let deletes = elim del_attrs as (λ _. String) [
      | [] ↦ ""
      | attr ∷ attrs ↦ "delete\n" <> try_deletes 0 (attr ∷ attrs)
    ] in
    let inserts = elim ins_has as (λ _. String) [
      | [] ↦ ""
      | part ∷ parts ↦ "insert $e " <> (join ", " (part ∷ parts) <> ";")
    ] in
    match_iid type_name i <> ("\n" <> (try_matches 0 del_attrs <> (deletes <> inserts)))

-- The loop of `updateInstanceInTx` over the fields: the attributes to delete and the parts to insert.
add_update : FieldInfo → Option Argument → List String → List String
add_update f none parts = parts
add_update f (some a) parts =
    ("has " <> (f.tag.name <> (" " <> format_go_value (go_value a)))) ∷ parts

pub update_parts : (ℕ → Held) → List FieldInfo → List String × List String
unfolding add_update single_value
update_parts field [] = ([], [])
update_parts field (f ∷ fs) =
    let rest = update_parts field fs in
    if f.tag.key
    then rest
    else (f.tag.name ∷ rest.0, add_update f (single_value (field f.field_index)) rest.1)

-- The query of an update, `none` where there is nothing to delete or insert.
unfoldable pub update_text : ModelInfo → Instance → Option String
unfolding build_batch_update update_parts
update_text info inst =
    let (del_attrs, ins_has) = update_parts inst.field info.fields in
    let q = build_batch_update info.type_name inst.iid del_attrs ins_has in
    elim del_attrs [
      | [] ↦ elim ins_has [ [] ↦ none | part ∷ parts ↦ some q ]
      | attr ∷ attrs ↦ some q
    ]

filter_lines : List (String × GoValue) → String
filter_lines [] = ""
filter_lines ((attr, v) ∷ filters) =
    ",\nhas " <> (attr <> (" " <> (format_go_value v <> filter_lines filters)))

-- The filters in the order in which the code ranges over the map.
unfoldable pub build_filtered_match : ModelInfo → String → List (String × GoValue) → Compiled
unfolding filter_lines build_match_all
build_filtered_match info var_name filters = elim filters [
  | [] ↦ build_match_all info var_name
  | f ∷ fs ↦
      ok (
        "match\n$" <> (var_name <> (" isa " <> (info.type_name <> (filter_lines (f ∷ fs) <> ";")))))
]

-- `<operation> <type>: `, and with the index of an instance.
abbrev pub context : String → ModelInfo → String
context op info = op <> (" " <> (info.type_name <> ": "))

abbrev pub context_at : String → ModelInfo → ℕ → String
context_at op info i = op <> (" " <> (info.type_name <> ("[" <> (itoa (pos i) <> "]: "))))

module _ {W Tx Row : Type 0} (driver : Driver W Tx Row) (m : Manager Tx) where
  unfoldable pub check_ctx : String → W → Option String
  check_ctx op w =
      Option.map (λ e. op <> (" " <> (m.info.type_name <> (": context cancelled: " <> e))))
        (driver.cancelled w)

  unfoldable pub new_write_tx : W → Result String (Tx × Bool) × W
  new_write_tx w =
      let (opened, w₁) = driver.open_ write w in
      elim opened [ err e ↦ (err e, w₁) | ok tx ↦ (ok (tx, true), w₁) ]

  unfoldable pub write_tx : W → Result String (Tx × Bool) × W
  unfolding new_write_tx
  write_tx w = elim m.tx [ some tx ↦ (ok (tx, false), w) | none ↦ new_write_tx w ]

  -- The commit of a transaction that the call has opened, and its deferred close.
  unfoldable pub finish : {A : Type 0} → String → Tx → Bool → A → W → Option String × A × W
  finish op tx false a w = (none, a, w)
  finish op tx true a w =
      let (failed, w₁) = driver.commit tx w in
      elim failed [
        | some e ↦ (some (context op m.info <> ("commit: " <> e)), a, driver.close_ tx w₁)
        | none ↦ (none, a, driver.close_ tx w₁)
      ]

  abbrev pub close_if : Bool → Tx → W → W
  close_if auto_commit tx w = if auto_commit then driver.close_ tx w else w

  -- `withWriteTx` behind the opening of the transaction. The function returns what it has changed, also
  -- where it fails.
  unfoldable pub run_opened :
      {A : Type 0}
      → String
      → A
      → (Tx → W → Option String × A × W)
      → Result String (Tx × Bool) × W
      → Option String × A × W
  unfolding finish
  run_opened op unchanged fn (err e, w) = (some (context op m.info <> e), unchanged, w)
  run_opened op unchanged fn (ok (tx, auto_commit), w) =
      let (failed, a, w₁) = fn tx w in
      elim failed [
        | some e ↦ (some e, a, close_if auto_commit tx w₁)
        | none ↦ finish op tx auto_commit a w₁
      ]

  unfoldable pub with_write_tx :
      {A : Type 0}
      → String
      → (W → Result String (Tx × Bool) × W)
      → A
      → (Tx → W → Option String × A × W)
      → W
      → Option String × A × W
  unfolding run_opened
  with_write_tx op open_tx unchanged fn w = run_opened op unchanged fn (open_tx w)

  unfoldable pub read_query : String → W → Result String (List Row) × W
  read_query q w = elim m.tx [ some tx ↦ driver.query tx q w | none ↦ execute_read driver q w ]

  unfoldable pub update_instance_in_tx : Tx → Instance → W → Option String × W
  unfolding update_text
  update_instance_in_tx tx inst w =
      if inst.iid == ""
      then (some ("update " <> (m.info.type_name <> ": instance has no IID")), w)
      else elim (update_text m.info inst) [
        | none ↦ (none, w)
        | some q ↦
            let (answer, w₁) = driver.query tx q w in
            elim answer [ err e ↦ (some (context "update" m.info <> e), w₁) | ok rows ↦ (none, w₁) ]
      ]
