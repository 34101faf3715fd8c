-- ===== src/Models/Sql/Sqlite.antt =====
-- adapters/sqlite.py.
use pywatt_sdk.Prelude.{
  String, Bool, false, not, ◌&&◌, [], ◌∷◌, ◌++◌, Option, none, some, nat_eq, string_eq, ◌==◌,
  if◌then◌else◌,
}
use pywatt_sdk.Prelude.Dict.{Dict, get}
use pywatt_sdk.Prelude.Texts.{join, concat_texts, when_given, given, flag}
use pywatt_sdk.Models.{DataType, ColumnDescriptor, ModelDescriptor, IndexDescriptor}
use pywatt_sdk.Models.Sql.{
  Printing, Tried, returned, raised, ◌>>=◌, database_adapter_error, unsupported_feature_error,
  DatabaseAdapter, supports_if_not_exists,
}
use pywatt_sdk.Models.Sql.Parts.{
  decimal_sql, sized_sql, checks_sql, default_sql, names_sql, table_sql, index_name, index_head,
}

unfoldable pub quote_identifier : String → String
quote_identifier identifier = concat_texts ("\"" ∷ identifier ∷ "\"" ∷ [])

-- The types whose text does not depend on `params`.
abbrev pub fixed_types : Dict String String
fixed_types =
    ("Text", "TEXT")
    ∷ ("Integer", "INTEGER")
    ∷ ("SmallInt", "INTEGER")
    ∷ ("BigInt", "INTEGER")
    ∷ ("Boolean", "INTEGER")
    ∷ ("Float", "REAL")
    ∷ ("Double", "REAL")
    ∷ ("Date", "DATE")
    ∷ ("Time", "TIME")
    ∷ ("DateTime", "DATETIME")
    ∷ ("Timestamp", "TIMESTAMP")
    ∷ ("TimestampTz", "TIMESTAMP")
    ∷ ("Blob", "BLOB")
    ∷ ("Json", "TEXT")
    ∷ ("JsonB", "TEXT")
    ∷ ("Uuid", "TEXT")
    ∷ ("Enum", "TEXT")
    ∷ []

-- A schema is refused.
abbrev pub without_schema {ℓ} : {A : Type ℓ} → Option String → Tried A → Tried A
without_schema schema result = elim (given schema) [
  | some _ ↦ raised (unsupported_feature_error "SQLite does not support schemas")
  | none ↦ result
]

module _ (w : Printing) where
  unfoldable pub get_type_sql : DataType → Tried String
  unfolding get
  get_type_sql t =
      if t.type_name == "Varchar"
      then returned (sized_sql w "VARCHAR" t.params)
      else if t.type_name == "Char"
      then returned (sized_sql w "CHAR" t.params)
      else if t.type_name == "Decimal"
      then returned (decimal_sql w t.params)
      else if t.type_name == "Custom"
      then returned (w.show_params t.params)
      else elim (get fixed_types t.type_name) [
        | some s ↦ returned s
        | none ↦ raised (database_adapter_error t.type_name)
      ]

  unfoldable pub generate_column_definition : ColumnDescriptor → Tried String
  unfolding get_type_sql join
  generate_column_definition c = get_type_sql c.data_type >>= λ t. returned (
      join " " (
        quote_identifier c.name
        ∷ t
        ∷ ((if c.is_primary_key then "PRIMARY KEY" ∷ flag c.auto_increment "AUTOINCREMENT" else [])
            ++ (flag (not c.is_nullable) "NOT NULL"
                ++ (flag (c.is_unique && not c.is_primary_key) "UNIQUE"
                    ++ (default_sql c.default_value ++ checks_sql c.constraints))))))

  unfoldable pub generate_create_table_sql : ModelDescriptor → Tried String
  unfolding generate_column_definition table_sql
  generate_create_table_sql m =
      table_sql quote_identifier (quote_identifier m.name) generate_column_definition m

  unfoldable pub generate_add_column_sql : String → ColumnDescriptor → Option String → Tried String
  unfolding generate_column_definition
  generate_add_column_sql table c schema = without_schema schema (
      generate_column_definition c >>= λ definition.
      returned
        (concat_texts ("ALTER TABLE " ∷ quote_identifier table ∷ " ADD COLUMN " ∷ definition ∷ [])))

unfoldable pub generate_drop_table_sql : String → Option String → Bool → Tried String
unfolding quote_identifier
generate_drop_table_sql table schema if_exists = without_schema schema (
    returned (
      concat_texts (
        (if if_exists then "DROP TABLE IF EXISTS " else "DROP TABLE ")
        ∷ quote_identifier table
        ∷ [])))

unfoldable pub generate_create_index_sql : String → IndexDescriptor → Option String → Tried String
unfolding join names_sql
generate_create_index_sql table i schema = without_schema schema (
    returned (
      join " " (
        index_head i
        ∷ (flag supports_if_not_exists "IF NOT EXISTS"
            ++ (index_name quote_identifier table i
                ∷ concat_texts (
                    "ON "
                    ∷ quote_identifier table
                    ∷ " ("
                    ∷ names_sql quote_identifier i.columns
                    ∷ ")"
                    ∷ [])
                ∷ when_given i.condition (λ c. concat_texts ("WHERE " ∷ c ∷ [])))))))

unfoldable pub generate_drop_column_sql : String → String → Option String → Tried String
generate_drop_column_sql table column schema = without_schema schema (
    raised (
      unsupported_feature_error
        "SQLite does not support DROP COLUMN. You need to recreate the table."))

module _ (w : Printing) where
  abbrev pub adapter : DatabaseAdapter
  adapter = record {
    get_type_sql = get_type_sql w;
    generate_create_table_sql = generate_create_table_sql w;
    generate_drop_table_sql = generate_drop_table_sql;
    generate_create_index_sql = generate_create_index_sql;
    generate_add_column_sql = generate_add_column_sql w;
    generate_drop_column_sql = generate_drop_column_sql;
    generate_enum_types_sql = λ _. [];
    quote_identifier = quote_identifier;
    supports_schemas = false;
    supports_enum_types = false;
  }
