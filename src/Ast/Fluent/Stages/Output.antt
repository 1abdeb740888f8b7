-- ===== src/Ast/Fluent/Stages/Output.antt =====
-- ast/fluent.go: what a chain of output calls leaves behind, told from the calls alone.
use go_typeql.Base.{
  String, List, [], ◌∷◌, ◌++◌, map, Option, some, ℤ, ◌≡◌, ◌∙◌, append_assoc, append-nil,
}
use go_typeql.Ast.Clauses.{FetchItem, SortClause}
use go_typeql.Ast.Fluent.{FluentState, ensure_var}
use go_typeql.Ast.Fluent.Stages.{
  OutputCall, fetch_, select_, sort_, limit_, offset_, fetch_attrs, apply_output, run_output,
}

-- The items that the chain asks for, in order.
pub fetched : List OutputCall → List FetchItem
fetched [] = []
fetched (fetch_ v attrs ∷ cs) = fetch_attrs (ensure_var v) attrs ++ fetched cs
fetched (_ ∷ cs) = fetched cs

pub selected : List OutputCall → List String
selected [] = []
selected (select_ vars ∷ cs) = map ensure_var vars ++ selected cs
selected (_ ∷ cs) = selected cs

-- The last call of a kind, or what was there before.
pub last_sort : Option SortClause → List OutputCall → Option SortClause
last_sort old [] = old
last_sort old (sort_ v d ∷ cs) =
    last_sort (some (record { variable = ensure_var v; direction = d })) cs
last_sort old (_ ∷ cs) = last_sort old cs

pub last_limit : Option ℤ → List OutputCall → Option ℤ
last_limit old [] = old
last_limit old (limit_ n ∷ cs) = last_limit (some n) cs
last_limit old (_ ∷ cs) = last_limit old cs

pub last_offset : Option ℤ → List OutputCall → Option ℤ
last_offset old [] = old
last_offset old (offset_ n ∷ cs) = last_offset (some n) cs
last_offset old (_ ∷ cs) = last_offset old cs

-- A chain of output calls appends the fetched items and the selected variables in the order of the
-- calls, and of the sorts, the limits and the offsets keeps the last of each; it changes nothing else.
-- So two chains that agree in each kind build the same query, however the kinds are interleaved.
pub run_output-eq :
    (cs : List OutputCall) (s : FluentState)
    → run_output cs s ≡ record s {
      fetch_items = s.fetch_items ++ fetched cs;
      select_vars = s.select_vars ++ selected cs;
      sort_clause = last_sort s.sort_clause cs;
      offset_clause = last_offset s.offset_clause cs;
      limit_clause = last_limit s.limit_clause cs;
    }
unfolding run_output apply_output fetched selected last_sort last_limit last_offset
run_output-eq [] s = simp append-nil
run_output-eq (fetch_ v attrs ∷ cs) s = run_output-eq cs _ ∙ simp append_assoc
run_output-eq (select_ vars ∷ cs) s = run_output-eq cs _ ∙ simp append_assoc
run_output-eq (sort_ v d ∷ cs) s = run_output-eq cs (apply_output (sort_ v d) s)
run_output-eq (limit_ n ∷ cs) s = run_output-eq cs (apply_output (limit_ n) s)
run_output-eq (offset_ n ∷ cs) s = run_output-eq cs (apply_output (offset_ n) s)
