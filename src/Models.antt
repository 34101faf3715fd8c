-- ===== src/Models.antt =====
-- services/model_manager: the descriptors of definitions.py. Python's integers are ℤ below, and the
-- lengths that a type takes are natural numbers.
pub mod Types
pub mod Builder
pub mod Validation
pub mod Sql
mod Tests
use Prim.Native.Char.{Char}
use pywatt_sdk.Prelude.{ℕ, String, Bool, true, false, List, [], ◌∷◌, Option, none, some}
use pywatt_sdk.Prelude.Dict.{Dict}

pub data ℤ : Type 0 where
  pos negsuc : ℕ → ℤ

pub data IntegerSize : Type 0 where
  i8 u8 i16 u16 i32 u32 i64 u64 : IntegerSize

-- What the class methods of `DataType` pass as `params`: a number, a list of numbers, the dictionary
-- of an enumeration's name and values, or a text.
pub data Params : Type 0 where
  number : ℕ → Params
  numbers : List ℕ → Params
  enumeration : String → List String → Params
  word : String → Params

pub record DataType : Type 0 where
  pub type_name : String
  pub params : Option Params

pub data ReferentialAction : Type 0 where
  no_action restrict cascade set_null set_default : ReferentialAction

pub record ForeignKeyConstraint : Type 0 where
  pub name : Option String
  pub columns : List String
  pub references_table : String
  pub references_columns : List String
  pub on_delete : Option ReferentialAction
  pub on_update : Option ReferentialAction

-- The subclasses of `Constraint`.
pub data Constraint : Type 0 where
  primary_key_constraint : Option String → List String → Constraint
  unique_constraint : Option String → List String → Constraint
  not_null_constraint : Constraint
  default_value_constraint : String → Constraint
  check_constraint : Option String → String → Constraint
  foreign_key_constraint : ForeignKeyConstraint → Constraint
  auto_increment_constraint : Constraint

-- `columns or []`
abbrev or_empty : Option (List String) → List String
or_empty none = []
or_empty (some columns) = columns

unfoldable pub primary_key : Option String → Option (List String) → Constraint
primary_key name columns = primary_key_constraint name (or_empty columns)

unfoldable pub unique : Option String → Option (List String) → Constraint
unique name columns = unique_constraint name (or_empty columns)

unfoldable pub not_null : Constraint
not_null = not_null_constraint

unfoldable pub default_value_of : String → Constraint
default_value_of value = default_value_constraint value

unfoldable pub check : String → Option String → Constraint
check expression name = check_constraint name expression

unfoldable pub foreign_key :
    List String
    → String
    → List String
    → Option String
    → Option ReferentialAction
    → Option ReferentialAction
    → Constraint
foreign_key columns references_table references_columns name on_delete on_update =
    foreign_key_constraint (record {
      name = name;
      columns = columns;
      references_table = references_table;
      references_columns = references_columns;
      on_delete = on_delete;
      on_update = on_update;
    })

unfoldable pub auto_increment_of : Constraint
auto_increment_of = auto_increment_constraint

pub record ColumnDescriptor : Type 0 where
  pub name : String
  pub data_type : DataType
  pub is_nullable : Bool
  pub is_primary_key : Bool
  pub is_unique : Bool
  pub default_value : Option String
  pub auto_increment : Bool
  pub comment : Option String
  pub constraints : List Constraint

pub data IndexType : Type 0 where
  btree hash gin gist spatial : IndexType

pub record IndexDescriptor : Type 0 where
  pub columns : List String
  pub name : Option String
  pub is_unique : Bool
  pub index_type : Option IndexType
  pub condition : Option String

pub record ModelDescriptor : Type 0 where
  pub name : String
  pub columns : List ColumnDescriptor
  pub schema : Option String
  pub primary_key : Option (List String)
  pub indexes : List IndexDescriptor
  pub constraints : List Constraint
  pub comment : Option String
  pub engine : Option String
  pub charset : Option String
  pub collation : Option String
  pub options : Dict String String

-- What the model manager takes from Python and pydantic: whether pydantic accepts a value as the field
-- `params` (and the value it keeps), `str` of an integer, and which characters `strip` takes off.
pub record Host : Type 0 where
  pub validate_params : Params → Option Params
  pub print_int : ℤ → String
  pub is_space : Char → Bool
