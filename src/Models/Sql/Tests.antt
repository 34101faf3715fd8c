-- ===== src/Models/Sql/Tests.antt =====
-- A table applied to a database that takes every statement. Texts are no parameters, and the space is
-- the only blank.
use Prim.Native.Char.{code}
use pywatt_sdk.Prelude.{
  ◌≡◌, refl, String, Bool, true, false, List, [], ◌∷◌, none, some, nat_eq, ◌==◌,
}
use pywatt_sdk.Models.{Host, ModelDescriptor, ColumnDescriptor, IndexDescriptor}
use pywatt_sdk.Models.Types.{uuid}
use pywatt_sdk.Models.Validation.{validate_model, table_name_empty}
use pywatt_sdk.Models.Sql.{Printing}
use pywatt_sdk.Models.Sql.Sqlite as Sqlite
use pywatt_sdk.Models.Sql.Manager.{ModelManager, apply_models}
use pywatt_sdk.Models.Sql.Manager.Runs.{Logged, apply_models-Logged}

abbrev host : Host
host = record { validate_params = λ p. some p; print_int = λ n. "0"; is_space = λ c. code c == 32 }

abbrev printing : Printing
printing = record { show_number = λ n. "1"; show_params = λ p. "1" }

abbrev id_column : ColumnDescriptor
id_column = record {
  name = "id";
  data_type = uuid;
  is_nullable = false;
  is_primary_key = true;
  is_unique = false;
  default_value = none;
  auto_increment = false;
  comment = none;
  constraints = [];
}

abbrev by_id : IndexDescriptor
by_id = record {
  columns = "id" ∷ [];
  name = none;
  is_unique = false;
  index_type = none;
  condition = none;
}

abbrev users : ModelDescriptor
users = record {
  name = "users";
  columns = id_column ∷ [];
  schema = some "app";
  primary_key = none;
  indexes = by_id ∷ [];
  constraints = [];
  comment = none;
  engine = none;
  charset = none;
  collation = none;
  options = [];
}

abbrev nameless : ModelDescriptor
nameless = record users { name = "" }

abbrev manager : List ModelDescriptor → ModelManager
manager models = record {
  adapter = Sqlite.adapter printing;
  auto_create_schemas = true;
  dry_run = false;
  models = models;
  applied_models = [];
  executed = [];
}

abbrev always : List String → String → Bool
always log s = true

abbrev in_order : List String → List String
in_order ss = ss

nameless_invalid : validate_model host nameless ≡ some table_name_empty
unfolding validate_model
nameless_invalid = refl

apply_models-Logged_example :
    Logged
      (manager (users ∷ []))
      (apply_models always host in_order (manager (users ∷ []))).0
      (apply_models always host in_order (manager (users ∷ []))).1
apply_models-Logged_example = apply_models-Logged always in_order host (manager (users ∷ []))
