-- ===== src/Models/Sql/Generator.antt =====
-- generator.py: `ModelGenerator`, of which the adapter is the only field. Every error of the adapter is
-- wrapped.
use pywatt_sdk.Prelude.{String, Bool, List, [], ◌∷◌, Option}
use pywatt_sdk.Prelude.Texts.{concat_texts}
use pywatt_sdk.Models.{ModelDescriptor, ColumnDescriptor, IndexDescriptor}
use pywatt_sdk.Models.Sql.{
  DatabaseAdapter, Tried, returned, ◌>>=◌, wrapped, traverse, sql_generation_error,
}

-- The indexes' part of the script.
abbrev pub index_lines : List String → List String
index_lines [] = []
index_lines (i ∷ is) = "\n" ∷ i ∷ ";" ∷ index_lines is

module _ (a : DatabaseAdapter) where
  unfoldable pub generate_create_table_script : ModelDescriptor → Tried String
  unfolding traverse
  generate_create_table_script m = wrapped sql_generation_error (
      a.generate_create_table_sql m >>= λ table.
      traverse (λ i. a.generate_create_index_sql m.name i m.schema) m.indexes >>= λ indexes.
      returned (concat_texts (table ∷ ";" ∷ index_lines indexes)))

  unfoldable pub generate_drop_table_script : String → Option String → Bool → Tried String
  generate_drop_table_script table schema if_exists =
      wrapped sql_generation_error (a.generate_drop_table_sql table schema if_exists)

  unfoldable pub generate_alter_table_add_column :
      String → ColumnDescriptor → Option String → Tried String
  generate_alter_table_add_column table column schema =
      wrapped sql_generation_error (a.generate_add_column_sql table column schema)

  unfoldable pub generate_alter_table_drop_column : String → String → Option String → Tried String
  generate_alter_table_drop_column table column schema =
      wrapped sql_generation_error (a.generate_drop_column_sql table column schema)

  unfoldable pub generate_create_index : String → IndexDescriptor → Option String → Tried String
  generate_create_index table index schema =
      wrapped sql_generation_error (a.generate_create_index_sql table index schema)

  unfoldable pub generate_enum_types : ModelDescriptor → Tried (List String)
  generate_enum_types m = wrapped sql_generation_error (returned (a.generate_enum_types_sql m))
