-- ===== src/Models/Builder.antt =====
-- services/model_manager/builder.py. A builder is the descriptor that it fills; `none` is pydantic's
-- `ValidationError`, which leaves the descriptor as it was. An omitted argument is written out.
pub mod Valid
use Prim.Native.String.{[] as empty_text, ◌∷◌ as cons_text, ◌++◌ as append_text}
use pywatt_sdk.Prelude.{
  ℕ, String, Bool, true, false, List, [], ◌∷◌, ◌++◌, Option, none, some, string_eq, if◌then◌else◌,
}
use pywatt_sdk.Prelude.Dict.{Dict, put}
use pywatt_sdk.Models.{
  ℤ, IntegerSize, i64, DataType, ReferentialAction, Constraint, ColumnDescriptor, IndexDescriptor,
  ModelDescriptor, Host, unique, check, foreign_key,
}
use pywatt_sdk.Models.Types.{
  text, varchar, integer, enum, plain, boolean, timestamp, timestamp_tz, json, jsonb, uuid,
}

-- `ModelBuilder(table_name, schema_name)`
unfoldable pub new : String → Option String → ModelDescriptor
new table_name schema_name = record {
  name = table_name;
  columns = [];
  schema = schema_name;
  primary_key = none;
  indexes = [];
  constraints = [];
  comment = none;
  engine = none;
  charset = none;
  collation = none;
  options = [];
}

abbrev pub append_column : ModelDescriptor → ColumnDescriptor → ModelDescriptor
append_column m column = record m { columns = m.columns ++ (column ∷ []) }

-- The column is appended once its type is made.
abbrev pub append_typed :
    ModelDescriptor → Option DataType → (DataType → ColumnDescriptor) → Option ModelDescriptor
append_typed m none column = none
append_typed m (some t) column = some (append_column m (column t))

abbrev pub bool_text : Option Bool → Option String
bool_text none = none
bool_text (some true) = some "true"
bool_text (some false) = some "false"

-- `f"'{default}'" if default else None`
abbrev pub quoted : Option String → Option String
quoted none = none
quoted (some empty_text) = none
quoted (some (cons_text c s)) = some (append_text "'" (append_text (cons_text c s) "'"))

module _ (h : Host) where
  unfoldable pub add_id_column : ModelDescriptor → String → Option ModelDescriptor
  add_id_column m name = append_typed m (integer h i64) λ t. (record {
    name = name;
    data_type = t;
    is_nullable = false;
    is_primary_key = true;
    is_unique = false;
    default_value = none;
    auto_increment = true;
    comment = some "Primary key";
    constraints = [];
  })

  -- Of api.py.
  unfoldable pub create_simple_model : String → Option String → Option ModelDescriptor
  unfolding add_id_column
  create_simple_model table_name schema_name = add_id_column (new table_name schema_name) "id"

  unfoldable pub add_varchar_column :
      ModelDescriptor
      → String
      → ℕ
      → Bool
      → Bool
      → Option String
      → Option String
      → Option ModelDescriptor
  add_varchar_column m name length nullable unique default comment =
      append_typed m (varchar h length) λ t. (record {
        name = name;
        data_type = t;
        is_nullable = nullable;
        is_primary_key = false;
        is_unique = unique;
        default_value = default;
        auto_increment = false;
        comment = comment;
        constraints = [];
      })

  unfoldable pub add_text_column :
      ModelDescriptor → String → Bool → Option String → Option ModelDescriptor
  add_text_column m name nullable comment = append_typed m (text h none) λ t. (record {
    name = name;
    data_type = t;
    is_nullable = nullable;
    is_primary_key = false;
    is_unique = false;
    default_value = none;
    auto_increment = false;
    comment = comment;
    constraints = [];
  })

  abbrev pub int_text : Option ℤ → Option String
  int_text none = none
  int_text (some n) = some (h.print_int n)

  unfoldable pub add_integer_column :
      ModelDescriptor
      → String
      → IntegerSize
      → Bool
      → Bool
      → Option ℤ
      → Option String
      → Option ModelDescriptor
  add_integer_column m name size nullable unique default comment =
      append_typed m (integer h size) λ t. (record {
        name = name;
        data_type = t;
        is_nullable = nullable;
        is_primary_key = false;
        is_unique = unique;
        default_value = int_text default;
        auto_increment = false;
        comment = comment;
        constraints = [];
      })

  unfoldable pub add_enum_column :
      ModelDescriptor
      → String
      → String
      → List String
      → Bool
      → Option String
      → Option String
      → Option ModelDescriptor
  add_enum_column m name enum_name values nullable default comment =
      append_typed m (enum h enum_name values) λ t. (record {
        name = name;
        data_type = t;
        is_nullable = nullable;
        is_primary_key = false;
        is_unique = false;
        default_value = quoted default;
        auto_increment = false;
        comment = comment;
        constraints = [];
      })

unfoldable pub add_boolean_column :
    ModelDescriptor → String → Bool → Option Bool → Option String → ModelDescriptor
add_boolean_column m name nullable default comment = append_column m (record {
  name = name;
  data_type = boolean;
  is_nullable = nullable;
  is_primary_key = false;
  is_unique = false;
  default_value = bool_text default;
  auto_increment = false;
  comment = comment;
  constraints = [];
})

unfoldable pub add_timestamp_column :
    ModelDescriptor → String → Bool → Option String → Bool → Option String → ModelDescriptor
add_timestamp_column m name nullable default with_timezone comment = append_column m (record {
  name = name;
  data_type = if with_timezone then timestamp_tz else timestamp;
  is_nullable = nullable;
  is_primary_key = false;
  is_unique = false;
  default_value = default;
  auto_increment = false;
  comment = comment;
  constraints = [];
})

unfoldable pub add_json_column :
    ModelDescriptor → String → Bool → Bool → Option String → ModelDescriptor
add_json_column m name nullable binary comment = append_column m (record {
  name = name;
  data_type = if binary then jsonb else json;
  is_nullable = nullable;
  is_primary_key = false;
  is_unique = false;
  default_value = none;
  auto_increment = false;
  comment = comment;
  constraints = [];
})

unfoldable pub add_uuid_column :
    ModelDescriptor → String → Bool → Bool → Option String → Option String → ModelDescriptor
add_uuid_column m name nullable unique default comment = append_column m (record {
  name = name;
  data_type = uuid;
  is_nullable = nullable;
  is_primary_key = false;
  is_unique = unique;
  default_value = default;
  auto_increment = false;
  comment = comment;
  constraints = [];
})

unfoldable pub add_timestamps : ModelDescriptor → ModelDescriptor
unfolding add_timestamp_column
add_timestamps m =
    let created =
      add_timestamp_column m "created_at" false (some "CURRENT_TIMESTAMP") true
        (some "Record creation timestamp") in
    add_timestamp_column created "updated_at" false (some "CURRENT_TIMESTAMP") true
      (some "Record update timestamp")

unfoldable pub add_index : ModelDescriptor → List String → Bool → Option String → ModelDescriptor
add_index m columns unique name = record m {
  indexes =
      m.indexes
      ++ (record {
        columns = columns;
        name = name;
        is_unique = unique;
        index_type = none;
        condition = none;
      }
          ∷ []);
}

abbrev pub append_constraint : ModelDescriptor → Constraint → ModelDescriptor
append_constraint m c = record m { constraints = m.constraints ++ (c ∷ []) }

unfoldable pub add_foreign_key :
    ModelDescriptor
    → List String
    → String
    → List String
    → Option ReferentialAction
    → Option ReferentialAction
    → Option String
    → ModelDescriptor
unfolding foreign_key
add_foreign_key m columns references_table references_columns on_delete on_update name =
    append_constraint m
      (foreign_key columns references_table references_columns name on_delete on_update)

unfoldable pub add_unique_constraint :
    ModelDescriptor → List String → Option String → ModelDescriptor
unfolding unique
add_unique_constraint m columns name = append_constraint m (unique name (some columns))

unfoldable pub add_check_constraint : ModelDescriptor → String → Option String → ModelDescriptor
unfolding check
add_check_constraint m expression name = append_constraint m (check expression name)

unfoldable pub with_comment : ModelDescriptor → String → ModelDescriptor
with_comment m comment = record m { comment = some comment }

unfoldable pub with_engine : ModelDescriptor → String → ModelDescriptor
with_engine m engine = record m { engine = some engine }

unfoldable pub with_charset : ModelDescriptor → String → ModelDescriptor
with_charset m charset = record m { charset = some charset }

unfoldable pub with_collation : ModelDescriptor → String → ModelDescriptor
with_collation m collation = record m { collation = some collation }

unfoldable pub with_option : ModelDescriptor → String → String → ModelDescriptor
with_option m key value = record m { options = put m.options key value }
