-- ===== src/Tqlgen/Model.antt =====
-- tqlgen/model.go: the parts of a parsed schema.
use go_typeql.Base.{String, Bool, List}

pub record MetaSpec : Type 0 where
  pub key : String
  pub value : String

pub record ParameterSpec : Type 0 where
  pub name : String
  pub type_name : String

pub record FunctionSpec : Type 0 where
  pub name : String
  pub parameters : List ParameterSpec
  pub return_type : String
  pub doc : String
  pub meta : List MetaSpec

pub record StructFieldSpec : Type 0 where
  pub name : String
  pub value_type : String
  pub optional : Bool
  pub doc : String
  pub meta : List MetaSpec

pub record StructSpec : Type 0 where
  pub name : String
  pub doc : String
  pub meta : List MetaSpec
  pub fields : List StructFieldSpec

pub record AttributeSpec : Type 0 where
  pub name : String
  pub value_type : String
  pub doc : String
  pub meta : List MetaSpec
  pub regex : String
  pub values : List String
  pub range_op : String

pub record OwnsSpec : Type 0 where
  pub attribute : String
  pub key : Bool
  pub unique : Bool
  pub card : String
  pub doc : String
  pub meta : List MetaSpec

pub record PlaysSpec : Type 0 where
  pub relation : String
  pub role : String
  pub doc : String
  pub meta : List MetaSpec

pub record RelatesSpec : Type 0 where
  pub role : String
  pub as_parent : String
  pub card : String
  pub doc : String
  pub meta : List MetaSpec

pub record EntitySpec : Type 0 where
  pub name : String
  pub parent : String
  pub abstract : Bool
  pub doc : String
  pub meta : List MetaSpec
  pub owns : List OwnsSpec
  pub plays : List PlaysSpec

pub record RelationSpec : Type 0 where
  pub name : String
  pub parent : String
  pub abstract : Bool
  pub doc : String
  pub meta : List MetaSpec
  pub relates : List RelatesSpec
  pub owns : List OwnsSpec
  pub plays : List PlaysSpec

pub record ParsedSchema : Type 0 where
  pub attributes : List AttributeSpec
  pub entities : List EntitySpec
  pub relations : List RelationSpec
  pub functions : List FunctionSpec
  pub structs : List StructSpec
