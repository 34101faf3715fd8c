-- ===== src/Models/Sql/Postgres.antt =====
-- adapters/postgres.py.
use pywatt_sdk.Prelude.{
  String, Bool, true, false, not, ◌&&◌, List, [], ◌∷◌, ◌++◌, Option, none, some, nat_eq, string_eq,
  ◌==◌, if◌then◌else◌,
}
use pywatt_sdk.Prelude.Dict.{Dict, get}
use pywatt_sdk.Prelude.Texts.{join, concat_texts, when_given, given, flag}
use pywatt_sdk.Models.{
  Params, number, numbers, enumeration, word, DataType, ColumnDescriptor, ModelDescriptor,
  IndexDescriptor, IndexType, btree, hash, gin, gist,
}
use pywatt_sdk.Models.Sql.{
  Printing, Tried, returned, raised, ◌>>=◌, database_adapter_error, DatabaseAdapter,
  supports_if_not_exists, get_qualified_table_name,
}
use pywatt_sdk.Models.Sql.Parts.{
  decimal_sql, sized_sql, values_sql, checks_sql, default_sql, names_sql, table_sql, index_name,
  index_head,
}

unfoldable pub quote_identifier : String → String
quote_identifier identifier = concat_texts ("\"" ∷ identifier ∷ "\"" ∷ [])

-- The types whose text does not depend on `params`.
abbrev pub fixed_types : Dict String String
fixed_types =
    ("SmallInt", "SMALLINT")
    ∷ ("BigInt", "BIGINT")
    ∷ ("Boolean", "BOOLEAN")
    ∷ ("Float", "REAL")
    ∷ ("Double", "DOUBLE PRECISION")
    ∷ ("Date", "DATE")
    ∷ ("Time", "TIME")
    ∷ ("DateTime", "TIMESTAMP")
    ∷ ("Timestamp", "TIMESTAMP")
    ∷ ("TimestampTz", "TIMESTAMP WITH TIME ZONE")
    ∷ ("Blob", "BYTEA")
    ∷ ("Json", "JSON")
    ∷ ("JsonB", "JSONB")
    ∷ ("Uuid", "UUID")
    ∷ []

abbrev pub integer_types : Dict String String
integer_types =
    ("I8", "SMALLINT")
    ∷ ("U8", "SMALLINT")
    ∷ ("I16", "SMALLINT")
    ∷ ("U16", "SMALLINT")
    ∷ ("I32", "INTEGER")
    ∷ ("U32", "INTEGER")
    ∷ ("I64", "BIGINT")
    ∷ ("U64", "BIGINT")
    ∷ []

abbrev pub integer_sql : Option Params → String
integer_sql (some (word s)) = elim (get integer_types s) [ some t ↦ t | none ↦ "INTEGER" ]
integer_sql _ = "INTEGER"

-- `if params:`
abbrev pub is_true : Option Params → Bool
is_true none = false
is_true (some (number n)) = not (n == 0)
is_true (some (numbers [])) = false
is_true (some (numbers (_ ∷ _))) = true
is_true (some (enumeration _ _)) = true
is_true (some (word s)) = not (s == "")

abbrev pub enum_sql : Option Params → Tried String
enum_sql (some (enumeration name _)) = returned name
enum_sql _ = raised (database_adapter_error "Enum type requires name parameter")

abbrev pub serial : String → String
serial name =
    if name == "SmallInt" then "SMALLSERIAL" else if name == "BigInt" then "BIGSERIAL" else "SERIAL"

abbrev pub comment_sql : String → Option String → String
comment_sql table comment = elim (given comment) [
  | none ↦ ""
  | some x ↦ concat_texts (";\nCOMMENT ON TABLE " ∷ table ∷ " IS '" ∷ x ∷ "'" ∷ [])
]

module _ (w : Printing) where
  unfoldable pub get_type_sql : DataType → Tried String
  unfolding get
  get_type_sql t =
      if t.type_name == "Text"
      then returned (if is_true t.params then sized_sql w "VARCHAR" t.params else "TEXT")
      else if t.type_name == "Integer"
      then returned (integer_sql t.params)
      else if t.type_name == "Enum"
      then enum_sql t.params
      else if t.type_name == "Varchar"
      then returned (sized_sql w "VARCHAR" t.params)
      else if t.type_name == "Char"
      then returned (sized_sql w "CHAR" t.params)
      else if t.type_name == "Decimal"
      then returned (decimal_sql w t.params)
      else if t.type_name == "Custom"
      then returned (w.show_params t.params)
      else elim (get fixed_types t.type_name) [
        | some s ↦ returned s
        | none ↦ raised (database_adapter_error t.type_name)
      ]

  unfoldable pub generate_column_definition : ColumnDescriptor → Tried String
  unfolding get_type_sql join
  generate_column_definition c =
      (if c.auto_increment
        then returned (serial c.data_type.type_name)
        else get_type_sql c.data_type)
      >>= λ t. returned (
          join " " (
            quote_identifier c.name
            ∷ t
            ∷ (flag c.is_primary_key "PRIMARY KEY"
                ++ (flag (not c.is_nullable) "NOT NULL"
                    ++ (flag (c.is_unique && not c.is_primary_key) "UNIQUE"
                        ++ (default_sql c.default_value ++ checks_sql c.constraints))))))

  unfoldable pub generate_create_table_sql : ModelDescriptor → Tried String
  unfolding generate_column_definition table_sql
  generate_create_table_sql m =
      let table = get_qualified_table_name quote_identifier m.name m.schema in
      table_sql quote_identifier table generate_column_definition m >>= λ sql.
      returned (concat_texts (sql ∷ comment_sql table m.comment ∷ []))

  unfoldable pub generate_add_column_sql : String → ColumnDescriptor → Option String → Tried String
  unfolding generate_column_definition
  generate_add_column_sql table c schema = generate_column_definition c >>= λ definition. returned (
      concat_texts (
        "ALTER TABLE "
        ∷ get_qualified_table_name quote_identifier table schema
        ∷ " ADD COLUMN "
        ∷ definition
        ∷ []))

unfoldable pub generate_drop_table_sql : String → Option String → Bool → Tried String
generate_drop_table_sql table schema if_exists = returned (
    concat_texts (
      (if if_exists then "DROP TABLE IF EXISTS " else "DROP TABLE ")
      ∷ get_qualified_table_name quote_identifier table schema
      ∷ " CASCADE"
      ∷ []))

unfoldable pub generate_drop_column_sql : String → String → Option String → Tried String
generate_drop_column_sql table column schema = returned (
    concat_texts (
      "ALTER TABLE "
      ∷ get_qualified_table_name quote_identifier table schema
      ∷ " DROP COLUMN "
      ∷ quote_identifier column
      ∷ []))

abbrev pub using : Option IndexType → List String
using (some btree) = "USING BTREE" ∷ []
using (some hash) = "USING HASH" ∷ []
using (some gin) = "USING GIN" ∷ []
using (some gist) = "USING GIST" ∷ []
using _ = []

unfoldable pub generate_create_index_sql : String → IndexDescriptor → Option String → Tried String
unfolding join names_sql
generate_create_index_sql table i schema = returned (
    join " " (
      index_head i
      ∷ (flag supports_if_not_exists "IF NOT EXISTS"
          ++ (index_name quote_identifier table i
              ∷ concat_texts ("ON " ∷ get_qualified_table_name quote_identifier table schema ∷ [])
              ∷ (using i.index_type
                  ++ (concat_texts ("(" ∷ names_sql quote_identifier i.columns ∷ ")" ∷ [])
                      ∷ when_given i.condition (λ c. concat_texts ("WHERE " ∷ c ∷ []))))))))

abbrev pub enum_type : ColumnDescriptor → List String
enum_type c =
    if c.data_type.type_name == "Enum"
    then elim c.data_type.params [
      | some p ↦ elim p [
        | enumeration name values ↦
            concat_texts
              ("CREATE TYPE " ∷ quote_identifier name ∷ " AS ENUM (" ∷ values_sql values ∷ ")" ∷ [])
            ∷ []
        | _ ↦ []
      ]
      | none ↦ []
    ]
    else []

abbrev pub enum_types : List ColumnDescriptor → List String
enum_types [] = []
enum_types (c ∷ cs) = enum_type c ++ enum_types cs

abbrev pub generate_enum_types_sql : ModelDescriptor → List String
generate_enum_types_sql m = enum_types m.columns

module _ (w : Printing) where
  abbrev pub adapter : DatabaseAdapter
  adapter = record {
    get_type_sql = get_type_sql w;
    generate_create_table_sql = generate_create_table_sql w;
    generate_drop_table_sql = generate_drop_table_sql;
    generate_create_index_sql = generate_create_index_sql;
    generate_add_column_sql = generate_add_column_sql w;
    generate_drop_column_sql = generate_drop_column_sql;
    generate_enum_types_sql = generate_enum_types_sql;
    quote_identifier = quote_identifier;
    supports_schemas = true;
    supports_enum_types = true;
  }
