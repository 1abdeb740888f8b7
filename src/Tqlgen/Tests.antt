-- ===== src/Tqlgen/Tests.antt =====
-- Runs of tqlgen/model.go on concrete clauses.
use go_typeql.Base.{String, true, false, List, [], ◌∷◌, ◌≡◌, refl, Bool}
use go_typeql.Tqlgen.Model.{OwnsSpec, RelatesSpec}
use go_typeql.Tqlgen.Merge.{merge_owns}

abbrev owns : String → Bool → OwnsSpec
owns name key = record {
  attribute = name;
  key = key;
  unique = false;
  card = "";
  doc = "";
  meta = [];
}

abbrev relates : String → String → RelatesSpec
relates name card = record { role = name; as_parent = ""; card = card; doc = ""; meta = [] }

abbrev parents : List OwnsSpec
parents = owns "name" false ∷ owns "age" false ∷ []

abbrev children : List OwnsSpec
children = owns "name" true ∷ []

children_win : merge_owns parents children ≡ owns "age" false ∷ owns "name" true ∷ []
unfolding merge_owns
children_win = refl
