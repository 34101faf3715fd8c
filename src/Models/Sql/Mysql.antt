-- ===== src/Models/Sql/Mysql.antt =====
-- adapters/mysql.py.
use pywatt_sdk.Prelude.{
  ℕ, String, Bool, true, false, not, ◌&&◌, List, [], ◌∷◌, ◌++◌, Option, none, some, leb, nat_eq,
  string_eq, ◌==◌, if◌then◌else◌,
}
use pywatt_sdk.Prelude.Dict.{Dict, get}
use pywatt_sdk.Prelude.Texts.{join, concat_texts, when_given, flag}
use pywatt_sdk.Models.{
  Params, number, numbers, enumeration, word, DataType, ColumnDescriptor, ModelDescriptor,
  IndexDescriptor, IndexType, btree, hash, spatial,
}
use pywatt_sdk.Models.Sql.{
  Printing, Tried, returned, raised, ◌>>=◌, database_adapter_error, type_error, DatabaseAdapter,
  get_qualified_table_name,
}
use pywatt_sdk.Models.Sql.Parts.{
  decimal_sql, sized_sql, values_sql, checks_sql, default_sql, names_sql, table_sql, index_name,
  index_head,
}

unfoldable pub quote_identifier : String → String
quote_identifier identifier = concat_texts ("`" ∷ identifier ∷ "`" ∷ [])

-- The types whose text does not depend on `params`.
abbrev pub fixed_types : Dict String String
fixed_types =
    ("SmallInt", "SMALLINT")
    ∷ ("BigInt", "BIGINT")
    ∷ ("Boolean", "BOOLEAN")
    ∷ ("Float", "FLOAT")
    ∷ ("Double", "DOUBLE")
    ∷ ("Date", "DATE")
    ∷ ("Time", "TIME")
    ∷ ("DateTime", "DATETIME")
    ∷ ("Timestamp", "TIMESTAMP")
    ∷ ("TimestampTz", "TIMESTAMP")
    ∷ ("Blob", "BLOB")
    ∷ ("Json", "JSON")
    ∷ ("JsonB", "JSON")
    ∷ ("Uuid", "CHAR(36)")
    ∷ []

-- The texts of the integers' sizes.
abbrev pub integer_types : Dict String String
integer_types =
    ("I8", "TINYINT")
    ∷ ("U8", "TINYINT UNSIGNED")
    ∷ ("I16", "SMALLINT")
    ∷ ("U16", "SMALLINT UNSIGNED")
    ∷ ("I32", "INT")
    ∷ ("U32", "INT UNSIGNED")
    ∷ ("I64", "BIGINT")
    ∷ ("U64", "BIGINT UNSIGNED")
    ∷ []

abbrev pub integer_sql : Option Params → String
integer_sql (some (word s)) = elim (get integer_types s) [ some t ↦ t | none ↦ "INT" ]
integer_sql _ = "INT"

abbrev pub long_text : ℕ → String
long_text n = if leb n 65535 then "TEXT" else if leb n 16777215 then "MEDIUMTEXT" else "LONGTEXT"

-- A list, a dictionary or a text that is not empty cannot be compared with a number.
abbrev pub text_sql : Option Params → Tried String
text_sql none = returned "LONGTEXT"
text_sql (some (number n)) = returned (if n == 0 then "LONGTEXT" else long_text n)
text_sql (some (numbers [])) = returned "LONGTEXT"
text_sql (some (numbers (_ ∷ _))) = raised type_error
text_sql (some (enumeration _ _)) = raised type_error
text_sql (some (word s)) = if s == "" then returned "LONGTEXT" else raised type_error

abbrev pub enum_sql : Option Params → Tried String
enum_sql (some (enumeration _ values)) =
    returned (concat_texts ("ENUM(" ∷ values_sql values ∷ ")" ∷ []))
enum_sql _ = raised (database_adapter_error "Enum type requires values parameter")

abbrev pub table_options : ModelDescriptor → List String
table_options m =
    when_given m.engine (λ x. concat_texts ("ENGINE=" ∷ x ∷ []))
    ++ (when_given m.charset (λ x. concat_texts ("DEFAULT CHARSET=" ∷ x ∷ []))
        ++ (when_given m.collation (λ x. concat_texts ("COLLATE=" ∷ x ∷ []))
            ++ when_given m.comment (λ x. concat_texts ("COMMENT='" ∷ x ∷ "'" ∷ []))))

abbrev pub options_sql : List String → String
options_sql [] = ""
options_sql (o ∷ os) = concat_texts (" " ∷ join " " (o ∷ os) ∷ [])

module _ (w : Printing) where
  unfoldable pub get_type_sql : DataType → Tried String
  unfolding get
  get_type_sql t =
      if t.type_name == "Text"
      then text_sql t.params
      else if t.type_name == "Integer"
      then returned (integer_sql t.params)
      else if t.type_name == "Enum"
      then enum_sql t.params
      else if t.type_name == "Varchar"
      then returned (sized_sql w "VARCHAR" t.params)
      else if t.type_name == "Char"
      then returned (sized_sql w "CHAR" t.params)
      else if t.type_name == "Decimal"
      then returned (decimal_sql w t.params)
      else if t.type_name == "Custom"
      then returned (w.show_params t.params)
      else elim (get fixed_types t.type_name) [
        | some s ↦ returned s
        | none ↦ raised (database_adapter_error t.type_name)
      ]

  unfoldable pub generate_column_definition : ColumnDescriptor → Tried String
  unfolding get_type_sql join
  generate_column_definition c = get_type_sql c.data_type >>= λ t. returned (
      join " " (
        quote_identifier c.name
        ∷ t
        ∷ (flag (not c.is_nullable) "NOT NULL"
            ++ (flag c.auto_increment "AUTO_INCREMENT"
                ++ (flag (c.is_unique && not c.is_primary_key) "UNIQUE"
                    ++ (default_sql c.default_value
                        ++ (flag c.is_primary_key "PRIMARY KEY"
                            ++ (when_given c.comment
                                  (λ x. concat_texts ("COMMENT '" ∷ x ∷ "'" ∷ []))
                                ++ checks_sql c.constraints))))))))

  unfoldable pub generate_create_table_sql : ModelDescriptor → Tried String
  unfolding generate_column_definition table_sql join
  generate_create_table_sql m =
      table_sql quote_identifier (get_qualified_table_name quote_identifier m.name m.schema)
        generate_column_definition m
      >>= λ sql. returned (concat_texts (sql ∷ options_sql (table_options m) ∷ []))

  unfoldable pub generate_add_column_sql : String → ColumnDescriptor → Option String → Tried String
  unfolding generate_column_definition
  generate_add_column_sql table c schema = generate_column_definition c >>= λ definition. returned (
      concat_texts (
        "ALTER TABLE "
        ∷ get_qualified_table_name quote_identifier table schema
        ∷ " ADD COLUMN "
        ∷ definition
        ∷ []))

unfoldable pub generate_drop_table_sql : String → Option String → Bool → Tried String
generate_drop_table_sql table schema if_exists = returned (
    concat_texts (
      (if if_exists then "DROP TABLE IF EXISTS " else "DROP TABLE ")
      ∷ get_qualified_table_name quote_identifier table schema
      ∷ []))

unfoldable pub generate_drop_column_sql : String → String → Option String → Tried String
generate_drop_column_sql table column schema = returned (
    concat_texts (
      "ALTER TABLE "
      ∷ get_qualified_table_name quote_identifier table schema
      ∷ " DROP COLUMN "
      ∷ quote_identifier column
      ∷ []))

abbrev pub using : Option IndexType → List String
using (some btree) = "USING BTREE" ∷ []
using (some hash) = "USING HASH" ∷ []
using _ = []

abbrev pub is_spatial : Option IndexType → Bool
is_spatial (some spatial) = true
is_spatial _ = false

unfoldable pub generate_create_index_sql : String → IndexDescriptor → Option String → Tried String
unfolding join names_sql
generate_create_index_sql table i schema =
    let name = index_name quote_identifier table i in
    let on = concat_texts (
      "ON "
      ∷ get_qualified_table_name quote_identifier table schema
      ∷ " ("
      ∷ names_sql quote_identifier i.columns
      ∷ ")"
      ∷ []) in
    returned (
      join " " (
        if is_spatial i.index_type
        then "CREATE SPATIAL INDEX" ∷ name ∷ on ∷ []
        else index_head i ∷ name ∷ on ∷ using i.index_type))

module _ (w : Printing) where
  abbrev pub adapter : DatabaseAdapter
  adapter = record {
    get_type_sql = get_type_sql w;
    generate_create_table_sql = generate_create_table_sql w;
    generate_drop_table_sql = generate_drop_table_sql;
    generate_create_index_sql = generate_create_index_sql;
    generate_add_column_sql = generate_add_column_sql w;
    generate_drop_column_sql = generate_drop_column_sql;
    generate_enum_types_sql = λ _. [];
    quote_identifier = quote_identifier;
    supports_schemas = true;
    supports_enum_types = false;
  }
