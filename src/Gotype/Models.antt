-- ===== src/Gotype/Models.antt =====
-- gotype/model.go and gotype/strategy.go: what registration finds out about a Go struct, and the TypeQL
-- texts of a model's instances. An instance is what reflection reads of it: its IID, and by index the
-- content of its fields and the players of its roles.
pub mod Strategy
use go_typeql.Base.{
  String, Bool, true, false, List, [], ◌∷◌, ℕ, Option, none, some, ◌==◌, if◌then◌else◌,
}
use go_typeql.Ast.Nodes.{GoValue, other}
use go_typeql.Ast.Builders.{Argument, plain}
use go_typeql.Gotype.Tags.{FieldTag}

pub data ModelKind : Type 0 where
  entity_kind relation_kind : ModelKind

pub record FieldInfo : Type 0 where
  pub tag : FieldTag
  pub field_name : String
  pub field_index : ℕ
  pub is_slice : Bool

pub record RoleInfo : Type 0 where
  pub role_name : String
  pub field_name : String
  pub field_index : ℕ
  pub player_type_name : String

pub record ModelInfo : Type 0 where
  pub kind : ModelKind
  pub type_name : String
  pub fields : List FieldInfo
  pub roles : List RoleInfo
  pub key_fields : List FieldInfo

-- The content of a field. A slice comes with its `Sprint` text; the two flags of FieldInfo, for pointers
-- and slices, say which constructor it is.
pub data Held : Type 0 where
  nil_pointer : Held
  pointer : Argument → Held
  value : Argument → Held
  slice : String → List Argument → Held

-- What stands in the field of a role: a nil pointer, a struct of no registered type, or a player with its
-- model, its IID and its fields.
pub data Player : Type 0 where
  nil_player unregistered : Player
  player : ModelInfo → String → (ℕ → Held) → Player

pub record Instance : Type 0 where
  pub iid : String
  pub field : ℕ → Held
  pub player_of : ℕ → Player

-- `visitFieldValues`: the values that the function is called with, in order.
unfoldable pub field_values : Held → List Argument
field_values nil_pointer = []
field_values (pointer a) = a ∷ []
field_values (value a) = a ∷ []
field_values (slice s items) = items

-- `extractSingleFieldValue`, `none` for nil.
unfoldable pub single_value : Held → Option Argument
single_value nil_pointer = none
single_value (pointer a) = some a
single_value (value a) = some a
single_value (slice s items) = some (plain (other false s))

-- The loop of `FieldByName` and `fieldByName` on the tag's name.
unfoldable pub field_by_attr_name : List FieldInfo → String → Option FieldInfo
field_by_attr_name [] name = none
field_by_attr_name (f ∷ fs) name =
    let rest = field_by_attr_name fs name in if f.tag.name == name then some f else rest
