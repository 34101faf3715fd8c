-- ===== src/Models/Sql/Parts.antt =====
-- The pieces of SQL that adapters/sqlite.py, mysql.py and postgres.py write in the same way, `quote`
-- being the adapter's `quote_identifier`.
use pywatt_sdk.Prelude.{String, List, [], ◌∷◌, ◌++◌, map, Option, none, some, nat_eq, if◌then◌else◌}
use pywatt_sdk.Prelude.Texts.{join, concat_texts, when_given, given}
use pywatt_sdk.Models.{
  Params, numbers, Constraint, check_constraint, unique_constraint, foreign_key_constraint,
  ForeignKeyConstraint, ReferentialAction, ColumnDescriptor, ModelDescriptor, IndexDescriptor,
}
use pywatt_sdk.Models.Validation.{table_key}
use pywatt_sdk.Models.Sql.{
  Printing, Tried, returned, ◌>>=◌, traverse, supports_if_not_exists, get_referential_action_sql,
}

abbrev pub decimal_sql : Printing → Option Params → String
decimal_sql w (some (numbers (p ∷ s ∷ []))) =
    concat_texts ("DECIMAL(" ∷ w.show_number p ∷ "," ∷ w.show_number s ∷ ")" ∷ [])
decimal_sql w _ = "DECIMAL"

abbrev pub sized_sql : Printing → String → Option Params → String
sized_sql w name p = concat_texts (name ∷ "(" ∷ w.show_params p ∷ ")" ∷ [])

-- The values of an enumeration.
abbrev pub values_sql : List String → String
values_sql vs = join ", " (map (λ v. concat_texts ("'" ∷ v ∷ "'" ∷ [])) vs)

abbrev pub checks_sql : List Constraint → List String
checks_sql [] = []
checks_sql (check_constraint _ e ∷ cs) = concat_texts ("CHECK (" ∷ e ∷ ")" ∷ []) ∷ checks_sql cs
checks_sql (_ ∷ cs) = checks_sql cs

abbrev pub default_sql : Option String → List String
default_sql none = []
default_sql (some v) = concat_texts ("DEFAULT " ∷ v ∷ []) ∷ []

abbrev action_sql : String → Option ReferentialAction → List String
action_sql event none = []
action_sql event (some a) = concat_texts (event ∷ get_referential_action_sql a ∷ []) ∷ []

module _ (quote : String → String) where
  unfoldable pub names_sql : List String → String
  unfolding join
  names_sql names = join ", " (map quote names)

  abbrev named_sql : Option String → String → String
  named_sql name rest = elim (given name) [
    | none ↦ rest
    | some n ↦ concat_texts ("CONSTRAINT " ∷ quote n ∷ " " ∷ rest ∷ [])
  ]

  unfoldable pub foreign_key_sql : ForeignKeyConstraint → String
  unfolding join names_sql
  foreign_key_sql f = join " " (
      when_given f.name (λ n. concat_texts ("CONSTRAINT " ∷ quote n ∷ []))
      ++ (concat_texts ("FOREIGN KEY (" ∷ names_sql f.columns ∷ ")" ∷ [])
          ∷ concat_texts (
              "REFERENCES "
              ∷ quote f.references_table
              ∷ " ("
              ∷ names_sql f.references_columns
              ∷ ")"
              ∷ [])
          ∷ (action_sql "ON DELETE " f.on_delete ++ action_sql "ON UPDATE " f.on_update)))

  -- The loop over the constraints of a table.
  unfoldable pub constraints_sql : List Constraint → List String
  unfolding foreign_key_sql names_sql
  constraints_sql [] = []
  constraints_sql (unique_constraint name columns ∷ cs) =
      named_sql name (concat_texts ("UNIQUE (" ∷ names_sql columns ∷ ")" ∷ [])) ∷ constraints_sql cs
  constraints_sql (check_constraint name e ∷ cs) =
      named_sql name (concat_texts ("CHECK (" ∷ e ∷ ")" ∷ [])) ∷ constraints_sql cs
  constraints_sql (foreign_key_constraint f ∷ cs) = foreign_key_sql f ∷ constraints_sql cs
  constraints_sql (_ ∷ cs) = constraints_sql cs

  abbrev key_sql : List String → List String
  key_sql [] = []
  key_sql (k ∷ ks) = concat_texts ("PRIMARY KEY (" ∷ names_sql (k ∷ ks) ∷ ")" ∷ []) ∷ []

  -- From the name of the table to the closing parenthesis.
  unfoldable pub table_sql :
      String → (ColumnDescriptor → Tried String) → ModelDescriptor → Tried String
  unfolding join constraints_sql traverse
  table_sql table definition m = traverse definition m.columns >>= λ columns. returned (
      concat_texts (
        (if supports_if_not_exists then "CREATE TABLE IF NOT EXISTS " else "CREATE TABLE ")
        ∷ table
        ∷ " ("
        ∷ join ",\n  " (columns ++ (key_sql (table_key m) ++ constraints_sql m.constraints))
        ∷ "\n)"
        ∷ []))

  abbrev pub index_name : String → IndexDescriptor → String
  index_name table i = elim (given i.name) [
    | some n ↦ quote n
    | none ↦ quote (concat_texts ("idx_" ∷ table ∷ "_" ∷ join "_" i.columns ∷ []))
  ]

abbrev pub index_head : IndexDescriptor → String
index_head i = if i.is_unique then "CREATE UNIQUE INDEX" else "CREATE INDEX"
