-- ===== src/Gotype/Manager/Tests.antt =====
-- Runs of gotype/crud.go on a driver that answers every query with its text, and on one whose commits
-- fail.
use go_typeql.Base.{
  String, true, false, [], ◌∷◌, ℕ, zero, suc, pos, Option, none, some, ok, ◌≡◌, refl, join, itoa,
  map_result,
}
use go_typeql.Ast.Nodes.{str}
use go_typeql.Ast.Escape.{escape_string}
use go_typeql.Ast.Literals.{format_literal, format_go_value}
use go_typeql.Ast.Compiler.{
  CompileError, compile, compile_clause, compile_stmt_block, compile_statement, compile_value,
  compile_fetch_item, join_compiled,
}
use go_typeql.Ast.Builders.{plain, value_from_go}
use go_typeql.Gotype.Tags.{empty_tag}
use go_typeql.Gotype.Session.{Driver, write}
use go_typeql.Gotype.Session.Trace.{tracing, opens, queries, commits, closes}
use go_typeql.Gotype.Models.{
  ModelInfo, FieldInfo, Held, Instance, entity_kind, nil_pointer, value, slice, nil_player,
  field_values, single_value,
}
use go_typeql.Gotype.Models.Strategy.{build_insert_query, entity_insert_or_put}
use go_typeql.Gotype.Manager.{
  RowReader, Manager, finish, write_tx, new_write_tx, with_write_tx, run_opened, check_ctx,
  update_text,
}
use go_typeql.Gotype.Manager.Writes.{insert, update_many, delete_many}
use go_typeql.Gotype.Manager.Puts.{insert_many}
use go_typeql.Gotype.Manager.Sent.{updates}
use go_typeql.Gotype.Manager.Together.{Together, deletes, update_many-Together}

abbrev echo : Option String → Driver Unit Unit String
echo commit_error = record {
  cancelled = λ w. none;
  open_ = λ t w. (ok tt, w);
  query = λ tx q w. (ok ("0x1" ∷ []), w);
  commit = λ tx w. (commit_error, w);
  close_ = λ tx w. w;
}

abbrev field : String → ℕ → FieldInfo
field name i = record {
  tag = record empty_tag { name = name };
  field_name = name;
  field_index = i;
  is_slice = false;
}

abbrev person : ModelInfo
person = record {
  kind = entity_kind;
  type_name = "person";
  fields = field "name" 1 ∷ record (field "tag" 2) { is_slice = true } ∷ [];
  roles = [];
  key_fields = [];
}

abbrev ada_field : ℕ → Held
ada_field zero = nil_pointer
ada_field (suc zero) = value (plain (str "Ada"))
ada_field (suc (suc i)) = slice "[a b]" (plain (str "a") ∷ plain (str "b") ∷ [])

abbrev ada : String → Instance
ada i = record { iid = i; field = ada_field; player_of = λ k. nil_player }

abbrev reader : RowReader String
reader = record { iid_of = λ row. row; count_of = λ row. pos 1; hydrate = λ row. ok (ada row) }

abbrev manager : Option (Unit {0}) → Manager Unit
manager tx = record { info = person; tx = tx }

abbrev explain : CompileError → String
explain e = "compile"

-- An update writes a slice as one string, where an insert writes its items.
update_of_slice :
    update_text person (ada "0x9")
    ≡ some (
        join "\n" (
          "match\n$e isa person, iid 0x9;" ∷ "try { $e has name $old0; };"
          ∷ "try { $e has tag $old1; };" ∷ "delete" ∷ "try { $old0 of $e; };"
          ∷ "try { $old1 of $e; };" ∷ "insert $e has name \"Ada\", has tag \"[a b]\";" ∷ []))
unfolding update_text single_value format_go_value escape_string itoa join
update_of_slice = refl

-- Where the commit fails, the instance has its IID all the same.
insert_uncommitted :
    insert (echo (some "lost")) reader explain (manager none) (some (ada "")) tt
    ≡ (some "insert person: commit: lost", some (ada "0x1"), tt)
unfolding insert check_ctx write_tx new_write_tx finish build_insert_query entity_insert_or_put
    field_values value_from_go compile compile_clause compile_stmt_block compile_statement
    compile_value compile_fetch_item join_compiled map_result
insert_uncommitted = refl

-- A manager that is bound to a transaction opens another one for InsertMany.
insert_many_bound :
    (insert_many
      (tracing (echo none))
      reader
      explain
      (manager (some tt))
      (some (ada "") ∷ [])
      ([], tt)).2.0
    ≡ opens write true
      ∷ queries
          (join "\n" (
            "insert\n$e0 isa person;" ∷ "$e0 has name \"Ada\";" ∷ "$e0 has tag \"a\";"
            ∷ "$e0 has tag \"b\";" ∷ "fetch {\n  \"_iid\": iid($e0)\n};" ∷ []))
          true
      ∷ commits true
      ∷ closes
      ∷ []
unfolding insert_many with_write_tx new_write_tx run_opened finish build_insert_query
    entity_insert_or_put field_values value_from_go compile compile_clause compile_stmt_block
    compile_statement compile_value compile_fetch_item join_compiled format_literal escape_string
    itoa join map_result
insert_many_bound = refl

update_many-Together_example :
    Together
      (updates person)
      (some (ada "0x1") ∷ [])
      []
      (update_many
        (tracing (echo none))
        reader
        explain
        (manager none)
        (some (ada "0x1") ∷ [])
        ([], tt)).1.0
      (update_many
        (tracing (echo none))
        reader
        explain
        (manager none)
        (some (ada "0x1") ∷ [])
        ([], tt)).0
    × Together
        (deletes (echo none) reader explain (manager none) refl)
        (some (ada "0x1") ∷ [])
        []
        (delete_many
          (tracing (echo none))
          reader
          explain
          (manager none)
          false
          (some (ada "0x1") ∷ [])
          ([], tt)).1.0
        (delete_many
          (tracing (echo none))
          reader
          explain
          (manager none)
          false
          (some (ada "0x1") ∷ [])
          ([], tt)).0
update_many-Together_example =
    update_many-Together (echo none) reader explain (manager none) refl (some (ada "0x1") ∷ []) []
      tt
