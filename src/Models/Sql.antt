-- ===== src/Models/Sql.antt =====
-- The SQL of services/model_manager: errors, and the interface of adapters/base.py.
mod Parts
pub mod Sqlite
pub mod Mysql
pub mod Postgres
pub mod Choice
pub mod Generator
pub mod Manager
pub mod Quoting
mod Tests
use Prim.Native.String.{◌++◌ as append_text}
use pywatt_sdk.Prelude.{ℕ, String, Bool, true, List, [], ◌∷◌, Option, none, some}
use pywatt_sdk.Prelude.Texts.{given, concat_texts}
use pywatt_sdk.Models.{
  DataType, Params, ModelDescriptor, ColumnDescriptor, IndexDescriptor, ReferentialAction,
  no_action, restrict, cascade, set_null, set_default,
}
use pywatt_sdk.Models.Validation.{ModelDefinitionError}

-- What the calls raise: the classes of errors.py, and Python's own errors. `execution_error` is
-- what the connection raises for a statement.
pub data SqlError : Type 0 where
  database_adapter_error unsupported_feature_error execution_error : String → SqlError
  type_error attribute_error value_error : SqlError
  definition_error : ModelDefinitionError → SqlError
  sql_generation_error model_application_error : SqlError → SqlError

pub data Tried {ℓ} (A : Type ℓ) : Type ℓ where
  returned : A → Tried A
  raised : SqlError → Tried A

infixl 5 ◌>>=◌
abbrev pub ◌>>=◌ {ℓ κ} : {A : Type ℓ} {B : Type κ} → Tried A → (A → Tried B) → Tried B
returned a >>= f = f a
raised e >>= f = raised e

-- `except Exception as e: raise Wrapper(…, e)`
abbrev pub wrapped {ℓ} : {A : Type ℓ} → (SqlError → SqlError) → Tried A → Tried A
wrapped wrap (returned a) = returned a
wrapped wrap (raised e) = raised (wrap e)

-- A call for each element, until one raises.
unfoldable pub traverse {ℓ κ} : {A : Type ℓ} {B : Type κ} → (A → Tried B) → List A → Tried (List B)
traverse f [] = returned []
traverse f (a ∷ rest) = f a >>= λ b. traverse f rest >>= λ bs. returned (b ∷ bs)

-- How Python prints a number and a value of the field `params`, where it is `None` too.
pub record Printing : Type 0 where
  pub show_number : ℕ → String
  pub show_params : Option Params → String

pub record DatabaseAdapter : Type 0 where
  pub get_type_sql : DataType → Tried String
  pub generate_create_table_sql : ModelDescriptor → Tried String
  pub generate_drop_table_sql : String → Option String → Bool → Tried String
  pub generate_create_index_sql : String → IndexDescriptor → Option String → Tried String
  pub generate_add_column_sql : String → ColumnDescriptor → Option String → Tried String
  pub generate_drop_column_sql : String → String → Option String → Tried String
  pub generate_enum_types_sql : ModelDescriptor → List String
  pub quote_identifier : String → String
  pub supports_schemas : Bool
  pub supports_enum_types : Bool

-- The methods of the base class that no adapter overrides.
abbrev pub supports_if_not_exists : Bool
supports_if_not_exists = true

abbrev pub get_qualified_table_name : (String → String) → String → Option String → String
get_qualified_table_name quote table schema = elim (given schema) [
  | none ↦ quote table
  | some s ↦ concat_texts (quote s ∷ "." ∷ quote table ∷ [])
]

abbrev pub get_referential_action_sql : ReferentialAction → String
get_referential_action_sql no_action = "NO ACTION"
get_referential_action_sql restrict = "RESTRICT"
get_referential_action_sql cascade = "CASCADE"
get_referential_action_sql set_null = "SET NULL"
get_referential_action_sql set_default = "SET DEFAULT"
