-- ===== src/Models/Sql/Choice.antt =====
-- `get_adapter_for_database_type` of adapters/__init__.py, and what api.py builds on it. The members of
-- `DatabaseType` are those of data/database.py, where `POSTGRESQL` is none of them.
use pywatt_sdk.Prelude.{
  String, Bool, true, false, List, [], ◌∷◌, ◌++◌, none, some, if◌then◌else◌, ◌≡◌, refl, ◌⊎◌, inl,
  inr, Option-cases,
}
use pywatt_sdk.Prelude.Texts.{concat_texts}
use pywatt_sdk.Models.{Host, ModelDescriptor}
use pywatt_sdk.Models.Validation.{validate_model}
use pywatt_sdk.Models.Sql.{
  DatabaseAdapter, Printing, SqlError, Tried, returned, raised, ◌>>=◌, attribute_error, value_error,
  definition_error,
}
use pywatt_sdk.Models.Sql.Sqlite as Sqlite
use pywatt_sdk.Models.Sql.Mysql as Mysql
use pywatt_sdk.Models.Sql.Postgres as Postgres
use pywatt_sdk.Models.Sql.Generator.{generate_create_table_script, generate_enum_types}

pub data DatabaseType : Type 0 where
  postgres mysql sqlite : DatabaseType

abbrev pub same_type : DatabaseType → DatabaseType → Bool
same_type postgres postgres = true
same_type mysql mysql = true
same_type sqlite sqlite = true
same_type _ _ = false

-- `DatabaseType.POSTGRESQL`
unfoldable pub postgresql : Tried DatabaseType
postgresql = raised attribute_error

module _ (w : Printing) where
  -- The last branch is a `ValueError`, which no member reaches.
  unfoldable pub get_adapter_for_database_type : DatabaseType → Tried DatabaseAdapter
  unfolding postgresql
  get_adapter_for_database_type db =
      if same_type db sqlite
      then returned (Sqlite.adapter w)
      else postgresql >>= λ p.
          if same_type db p
          then returned (Postgres.adapter w)
          else if same_type db mysql
          then returned (Mysql.adapter w)
          else raised value_error

  unfoldable pub create_generator_for_database : DatabaseType → Tried DatabaseAdapter
  unfolding get_adapter_for_database_type
  create_generator_for_database db = get_adapter_for_database_type db

  abbrev pub enum_script : List String → List String
  enum_script [] = []
  enum_script (s ∷ ss) = s ∷ ";\n\n" ∷ enum_script ss

  unfoldable pub generate_complete_sql : Host → ModelDescriptor → DatabaseType → Tried String
  unfolding create_generator_for_database validate_model postgresql generate_enum_types
      generate_create_table_script
  generate_complete_sql h m db = elim (validate_model h m) [
    | some e ↦ raised (definition_error e)
    | none ↦ create_generator_for_database db >>= λ a. postgresql >>= λ p.
        (if same_type db p then generate_enum_types a m else returned []) >>= λ enums.
        generate_create_table_script a m >>= λ script.
        returned (concat_texts (enum_script enums ++ (script ∷ [])))
  ]

  -- An adapter is found for SQLite alone: what is returned is its adapter, and for the other two types an
  -- error is raised.
  pub get_adapter_for_database_type_lem :
      (db : DatabaseType)
      → ((db ≡ sqlite) × (get_adapter_for_database_type db ≡ returned (Sqlite.adapter w)))
        ⊎ (get_adapter_for_database_type db ≡ raised attribute_error)
  unfolding get_adapter_for_database_type postgresql
  get_adapter_for_database_type_lem postgres = inr refl
  get_adapter_for_database_type_lem mysql = inr refl
  get_adapter_for_database_type_lem sqlite = inl (refl, refl)

  valid-raises :
      (h : Host) (m : ModelDescriptor) (db : DatabaseType)
      → validate_model h m ≡ none
      → generate_complete_sql h m db ≡ raised attribute_error
  unfolding generate_complete_sql create_generator_for_database get_adapter_for_database_type
      postgresql
  valid-raises h m postgres valid = rw (generate_complete_sql, valid) refl
  valid-raises h m mysql valid = rw (generate_complete_sql, valid) refl
  valid-raises h m sqlite valid = rw (generate_complete_sql, valid) refl

  -- No model and no database type makes `generate_complete_sql` return a script.
  pub generate_complete_sql_raises :
      (h : Host) (m : ModelDescriptor) (db : DatabaseType)
      → (e : SqlError) × (generate_complete_sql h m db ≡ raised e)
  unfolding generate_complete_sql
  generate_complete_sql_raises h m db = elim (Option-cases (validate_model h m)) [
    | inr (e, invalid) ↦ (definition_error e, rw (generate_complete_sql, invalid) refl)
    | inl valid ↦ (attribute_error, valid-raises h m db valid)
  ]
