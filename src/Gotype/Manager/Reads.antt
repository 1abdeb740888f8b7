-- ===== src/Gotype/Manager/Reads.antt =====
-- gotype/crud.go: the calls that read.
use go_typeql.Base.{
  String, List, [], ◌∷◌, Option, none, some, Result, ok, err, ◌<>◌, ◌==◌, if◌then◌else◌,
}
use go_typeql.Ast.Nodes.{GoValue}
use go_typeql.Ast.Compiler.{CompileError}
use go_typeql.Gotype.Session.{Driver}
use go_typeql.Gotype.Models.{ModelInfo, Instance}
use go_typeql.Gotype.Models.Strategy.{build_fetch_all}
use go_typeql.Gotype.Manager.{
  RowReader, Manager, context, match_iid, read_query, build_filtered_match,
}

module _ {W Tx Row : Type 0} (driver : Driver W Tx Row) (rows : RowReader Row)
    (explain : CompileError → String) (m : Manager Tx) where
  abbrev pub ReadCall : Type 0
  ReadCall = W → Result String (List Instance) × W

  -- The loop of `hydrateResults`.
  unfoldable pub hydrate_results : List Row → Result String (List Instance)
  hydrate_results [] = ok []
  hydrate_results (row ∷ more) = elim (rows.hydrate row) [
    | err e ↦ err (context "hydrate" m.info <> e)
    | ok x ↦ elim (hydrate_results more) [ err e ↦ err e | ok xs ↦ ok (x ∷ xs) ]
  ]

  -- The end of a read: the query is sent and its rows are hydrated.
  unfoldable pub read_instances : String → String → ReadCall
  unfolding hydrate_results
  read_instances op q w =
      let (answer, w₁) = read_query driver m q w in
      elim answer [
        | err e ↦ (err (context op m.info <> e), w₁)
        | ok found ↦ (hydrate_results found, w₁)
      ]

  unfoldable pub get : List (String × GoValue) → ReadCall
  unfolding read_instances
  get filters w = elim (build_filtered_match m.info "e" filters) [
    | err e ↦ (err (context "get" m.info <> ("build match: " <> explain e)), w)
    | ok match_query ↦ elim (build_fetch_all m.info "e") [
      | err e ↦ (err (context "get" m.info <> ("build fetch: " <> explain e)), w)
      | ok fetch_query ↦ read_instances "get" (match_query <> ("\n" <> fetch_query)) w
    ]
  ]

  unfoldable pub all : ReadCall
  unfolding get
  all = get []

  -- A strategy for entities adds nothing to the match.
  unfoldable pub get_with_roles : (ModelInfo → String × String) → List (String × GoValue) → ReadCall
  unfolding read_instances
  get_with_roles fetch_with_roles filters w = elim (build_filtered_match m.info "e" filters) [
    | err e ↦ (err (context "get_with_roles" m.info <> ("build match: " <> explain e)), w)
    | ok match_query ↦
        let (additions, fetch_query) = fetch_with_roles m.info in
        let matched = if additions == "" then match_query else match_query <> ("\n" <> additions) in
        read_instances "get_with_roles" (matched <> ("\n" <> fetch_query)) w
  ]

  unfoldable pub get_by_iid : String → W → Result String (Option Instance) × W
  unfolding read_instances
  get_by_iid i w = elim (build_fetch_all m.info "e") [
    | err e ↦ (err (context "get_by_iid" m.info <> ("build fetch: " <> explain e)), w)
    | ok fetch_query ↦
        let (found, w₁) =
          read_instances "get_by_iid" (match_iid m.info.type_name i <> ("\n" <> fetch_query)) w in
        elim found [
          | err e ↦ (err e, w₁)
          | ok xs ↦ elim xs [ [] ↦ (ok none, w₁) | x ∷ _ ↦ (ok (some x), w₁) ]
        ]
  ]
