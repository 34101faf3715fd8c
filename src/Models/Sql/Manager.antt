-- ===== src/Models/Sql/Manager.antt =====
-- manager.py: `ModelManager`. The connection is the list of the statements that it has executed, and
-- `accepts` says whether it takes the next one. `iterate` gives the members of a set of schemas in the
-- order of Python's iteration, whatever it is.
pub mod Runs
pub mod Plan
pub mod Partial
use pywatt_sdk.Models.Sql.Choice.{DatabaseType, create_generator_for_database}
use mathlib.Core.List.{reverse}
use pywatt_sdk.Prelude.{
  String, Bool, true, false, List, [], ◌∷◌, ◌++◌, map, Option, none, some, if◌then◌else◌,
}
use pywatt_sdk.Prelude.Texts.{given, concat_texts, join, when_given}
use pywatt_sdk.Models.{Host, ModelDescriptor, ColumnDescriptor, IndexDescriptor}
use pywatt_sdk.Models.Validation.{ModelDefinitionError, and_then, validate_model}
use pywatt_sdk.Models.Sql.{
  Printing, DatabaseAdapter, SqlError, Tried, returned, raised, ◌>>=◌, wrapped, traverse,
  execution_error, definition_error, model_application_error,
}

-- The generator is its adapter. `executed` belongs to the connection.
pub record ModelManager : Type 0 where
  pub adapter : DatabaseAdapter
  pub auto_create_schemas : Bool
  pub dry_run : Bool
  pub models : List ModelDescriptor
  pub applied_models : List String
  pub executed : List String

-- The models' schemas, repeated ones included.
abbrev pub schemas_of : List ModelDescriptor → List String
schemas_of [] = []
schemas_of (m ∷ ms) = when_given m.schema (λ s. s) ++ schemas_of ms

abbrev pub schema_sql : DatabaseAdapter → String → String
schema_sql a s = concat_texts ("CREATE SCHEMA IF NOT EXISTS " ∷ a.quote_identifier s ∷ [])

-- The statements of `_create_schemas`.
abbrev pub schema_steps : DatabaseAdapter → List String → List (Tried String)
schema_steps a schemas =
    if a.supports_schemas then map (λ s. returned (schema_sql a s)) schemas else []

abbrev pub enum_statements : DatabaseAdapter → ModelDescriptor → List String
enum_statements a m = if a.supports_enum_types then a.generate_enum_types_sql m else []

-- The statements of `_apply_model`, each made just before it is executed.
abbrev pub model_steps : DatabaseAdapter → ModelDescriptor → List (Tried String)
model_steps a m =
    map (λ s. returned s) (enum_statements a m)
    ++ (a.generate_create_table_sql m
        ∷ map (λ i. a.generate_create_index_sql m.name i m.schema) m.indexes)

-- The first error of `validate_model`.
unfoldable pub validate_all : Host → List ModelDescriptor → Option ModelDefinitionError
unfolding validate_model
validate_all h [] = none
validate_all h (x ∷ xs) = and_then (validate_model h x) (validate_all h xs)

-- What a first and a second part of a call come to: where the first raises, the second does not run.
abbrev pub chain :
    Tried (List String) × ModelManager
    → Tried (List String) × ModelManager
    → Tried (List String) × ModelManager
chain (raised e, m) o = (raised e, m)
chain (returned ss, m) (r, m') = (r >>= λ ts. returned (ss ++ ts), m')

abbrev pub listed : Tried String × ModelManager → Tried (List String) × ModelManager
listed (r, m) = (r >>= λ s. returned (s ∷ []), m)

module _ (accepts : List String → String → Bool) where
  -- A statement is made and, unless the run is dry, executed.
  unfoldable pub issue : ModelManager → Tried String → Tried String × ModelManager
  issue m (raised e) = (raised e, m)
  issue m (returned s) =
      if m.dry_run
      then (returned s, m)
      else if accepts m.executed s
      then (returned s, record m { executed = m.executed ++ (s ∷ []) })
      else (raised (execution_error s), m)

  unfoldable pub issue_all : ModelManager → List (Tried String) → Tried (List String) × ModelManager
  unfolding issue
  issue_all m [] = (returned [], m)
  issue_all m (s ∷ ss) = let o = listed (issue m s) in chain o (issue_all o.1 ss)

  abbrev pub apply_model : ModelManager → ModelDescriptor → Tried (List String) × ModelManager
  apply_model m x = issue_all m (model_steps m.adapter x)

  -- The loop over the models.
  unfoldable pub apply_each :
      ModelManager → List ModelDescriptor → Tried (List String) × ModelManager
  unfolding issue_all
  apply_each m [] = (returned [], m)
  apply_each m (x ∷ xs) =
      let o = apply_model m x in
      chain o (apply_each (record o.1 { applied_models = o.1.applied_models ++ (x.name ∷ []) }) xs)

  abbrev pub create_schemas :
      (List String → List String) → ModelManager → Tried (List String) × ModelManager
  create_schemas iterate m = issue_all m (schema_steps m.adapter (iterate (schemas_of m.models)))

  -- After the validation.
  unfoldable pub apply_valid :
      (List String → List String) → ModelManager → Tried (List String) × ModelManager
  unfolding issue_all apply_each
  apply_valid iterate m =
      let o = if m.auto_create_schemas then create_schemas iterate m else (returned [], m) in
      chain o (apply_each o.1 m.models)

  unfoldable pub apply_models :
      Host → (List String → List String) → ModelManager → Tried (List String) × ModelManager
  unfolding validate_all apply_valid
  apply_models h iterate m = elim (validate_all h m.models) [
    | some e ↦ (raised (model_application_error (definition_error e)), m)
    | none ↦ let (r, m') = apply_valid iterate m in (wrapped model_application_error r, m')
  ]

  unfoldable pub drop_models : ModelManager → Bool → Tried (List String) × ModelManager
  unfolding issue_all
  drop_models m if_exists =
      let (r, m') = issue_all m (
        map (λ x. m.adapter.generate_drop_table_sql x.name x.schema if_exists)
          (reverse m.models)) in
      (wrapped model_application_error r, m')

  unfoldable pub add_column :
      ModelManager → String → ColumnDescriptor → Option String → Tried String × ModelManager
  unfolding issue
  add_column m table column schema =
      let (r, m') = issue m (m.adapter.generate_add_column_sql table column schema) in
      (wrapped model_application_error r, m')

  unfoldable pub drop_column :
      ModelManager → String → String → Option String → Tried String × ModelManager
  unfolding issue
  drop_column m table column schema =
      let (r, m') = issue m (m.adapter.generate_drop_column_sql table column schema) in
      (wrapped model_application_error r, m')

-- The empty line after a part that has lines.
abbrev pub gap : List String → List String
gap [] = []
gap (_ ∷ _) = "" ∷ []

abbrev pub terminated : List String → List String
terminated = map λ s. concat_texts (s ∷ ";" ∷ [])

abbrev pub script_of_model : DatabaseAdapter → ModelDescriptor → Tried (List String)
script_of_model a m =
    let enums = terminated (enum_statements a m) in
    a.generate_create_table_sql m >>= λ table.
    traverse (λ i. a.generate_create_index_sql m.name i m.schema) m.indexes >>= λ indexes.
    returned (
      (concat_texts ("-- Table: " ∷ m.name ∷ []) ∷ (enums ++ gap enums))
      ++ (concat_texts (table ∷ ";" ∷ []) ∷ "" ∷ (terminated indexes ++ gap indexes)))

abbrev pub script_of_schemas : (List String → List String) → ModelManager → List String
script_of_schemas iterate m =
    let schemas = iterate (schemas_of m.models) in
    if m.auto_create_schemas
    then (if m.adapter.supports_schemas
        then terminated (map (schema_sql m.adapter) schemas)
        else [])
      ++ gap (schemas_of m.models)
    else []

abbrev pub flat : List (List String) → List String
flat [] = []
flat (ss ∷ sss) = ss ++ flat sss

-- `database_type` is `str` of the configuration's.
unfoldable pub generate_migration_script :
    (List String → List String) → ModelManager → String → Tried String
unfolding traverse join
generate_migration_script iterate m database_type =
    traverse (script_of_model m.adapter) m.models >>= λ scripts. returned (
      join "\n" (
        ("-- Generated by PyWatt Model Manager"
          ∷ concat_texts ("-- Database Type: " ∷ database_type ∷ [])
          ∷ ""
          ∷ [])
        ++ (script_of_schemas iterate m ++ flat scripts)))

-- `__init__`, for a connection that has executed some statements.
unfoldable pub new :
    Printing → DatabaseType → Bool → Bool → List ModelDescriptor → List String → Tried ModelManager
unfolding create_generator_for_database
new w db auto_create_schemas dry_run models executed =
    create_generator_for_database w db >>= λ adapter. returned (record {
      adapter = adapter;
      auto_create_schemas = auto_create_schemas;
      dry_run = dry_run;
      models = models;
      applied_models = [];
      executed = executed;
    })
