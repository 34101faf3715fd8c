-- ===== src/Models/Validation.antt =====
-- `validate_model` in services/model_manager/api.py, and `build_validated`, which calls it.
pub mod Rules
pub mod Accepted
use mathlib.Core.Logic.{◌⊎◌, inl, inr}
use Prim.Native.Char.{Char}
use Prim.Native.String.{[] as empty_text, ◌∷◌ as cons_text}
use pywatt_sdk.Prelude.{
  ℕ, String, Bool, true, false, not, ◌&&◌, ◌||◌, List, [], ◌∷◌, map, Option, none, some, length,
  nat_eq, string_eq, ◌==◌, if◌then◌else◌,
}
use pywatt_sdk.Models.{
  ModelDescriptor, ColumnDescriptor, IndexDescriptor, Constraint, foreign_key_constraint,
  ForeignKeyConstraint, Host,
}

-- The messages of `ModelDefinitionError`.
pub data ModelDefinitionError : Type 0 where
  table_name_empty no_columns column_name_empty two_primary_keys : ModelDefinitionError
  duplicate_column primary_key_missing foreign_key_missing index_missing :
      String → ModelDefinitionError
  two_auto_increments auto_increment_not_key auto_increment_not_integer : ModelDefinitionError
  foreign_key_lengths index_empty : ModelDefinitionError

-- The first of two checks that raises.
abbrev pub and_then :
    Option ModelDefinitionError → Option ModelDefinitionError → Option ModelDefinitionError
and_then none next = next
and_then (some e) next = some e

abbrev pub raise_if : Bool → ModelDefinitionError → Option ModelDefinitionError
raise_if b e = if b then some e else none

-- `name in names`
abbrev pub member : String → List String → Bool
member name [] = false
member name (n ∷ names) = (n == name) || member name names

-- The first name of a list that is no column of the table, if there is one.
unfoldable pub check_present :
    (String → ModelDefinitionError) → List String → List String → Option ModelDefinitionError
check_present e names [] = none
check_present e names (k ∷ ks) =
    and_then (raise_if (not (member k names)) (e k)) (check_present e names ks)

abbrev pub column_names : List ColumnDescriptor → List String
column_names = map λ c. c.name

abbrev pub flagged : List ColumnDescriptor → List String
flagged [] = []
flagged (c ∷ cs) = if c.is_primary_key then c.name ∷ flagged cs else flagged cs

abbrev pub auto_columns : List ColumnDescriptor → List ColumnDescriptor
auto_columns [] = []
auto_columns (c ∷ cs) = if c.auto_increment then c ∷ auto_columns cs else auto_columns cs

-- `model.primary_key`, where `None` and the empty list are both false.
abbrev pub table_key : ModelDescriptor → List String
table_key m = elim m.primary_key [ none ↦ [] | some ks ↦ ks ]

module _ (h : Host) where
  -- `not name or not name.strip()`
  abbrev pub is_blank : String → Bool
  is_blank empty_text = true
  is_blank (cons_text c s) = h.is_space c && is_blank s

  -- The loop over the columns, with the names seen so far.
  unfoldable pub check_columns : List String → List ColumnDescriptor → Option ModelDefinitionError
  check_columns seen [] = none
  check_columns seen (c ∷ cs) = and_then (raise_if (is_blank c.name) column_name_empty) (
      and_then (raise_if (member c.name seen) (duplicate_column c.name))
        (check_columns (c.name ∷ seen) cs))

abbrev pub check_any_column : List ColumnDescriptor → Option ModelDefinitionError
check_any_column [] = some no_columns
check_any_column (_ ∷ _) = none

unfoldable pub check_primary_key :
    List String → List String → List String → Option ModelDefinitionError
check_primary_key names from_flags [] = none
check_primary_key names [] (k ∷ ks) = check_present primary_key_missing names (k ∷ ks)
check_primary_key names (_ ∷ _) (k ∷ ks) = some two_primary_keys

abbrev pub is_integer_type : String → Bool
is_integer_type t = member t ("Integer" ∷ "SmallInt" ∷ "BigInt" ∷ [])

unfoldable pub check_auto_increment :
    List String → List ColumnDescriptor → Option ModelDefinitionError
check_auto_increment key [] = none
check_auto_increment key (c ∷ []) =
    and_then (raise_if (not (c.is_primary_key || member c.name key)) auto_increment_not_key)
      (raise_if (not (is_integer_type c.data_type.type_name)) auto_increment_not_integer)
check_auto_increment key (_ ∷ _ ∷ _) = some two_auto_increments

abbrev pub check_foreign_key : List String → ForeignKeyConstraint → Option ModelDefinitionError
check_foreign_key names f =
    and_then (raise_if (not (length f.columns == length f.references_columns)) foreign_key_lengths)
      (check_present foreign_key_missing names f.columns)

abbrev pub check_constraint : List String → Constraint → Option ModelDefinitionError
check_constraint names (foreign_key_constraint f) = check_foreign_key names f
check_constraint names _ = none

unfoldable pub check_constraints : List String → List Constraint → Option ModelDefinitionError
check_constraints names [] = none
check_constraints names (c ∷ cs) = and_then (check_constraint names c) (check_constraints names cs)

abbrev pub check_index : List String → List String → Option ModelDefinitionError
check_index names [] = some index_empty
check_index names (k ∷ ks) = check_present index_missing names (k ∷ ks)

unfoldable pub check_indexes : List String → List IndexDescriptor → Option ModelDefinitionError
check_indexes names [] = none
check_indexes names (i ∷ is) = and_then (check_index names i.columns) (check_indexes names is)

-- `none` where the model is accepted.
unfoldable pub validate_model : Host → ModelDescriptor → Option ModelDefinitionError
unfolding check_columns check_primary_key check_auto_increment check_constraints check_indexes
validate_model h m =
    let names = column_names m.columns in
    and_then (raise_if (is_blank h m.name) table_name_empty) (
      and_then (check_any_column m.columns) (
        and_then (check_columns h [] m.columns) (
          and_then (check_primary_key names (flagged m.columns) (table_key m)) (
            and_then (check_auto_increment (table_key m) (auto_columns m.columns))
              (and_then (check_constraints names m.constraints) (check_indexes names m.indexes))))))

-- `ModelBuilder.build_validated`: the model or the error.
unfoldable pub build_validated : Host → ModelDescriptor → ModelDefinitionError ⊎ ModelDescriptor
unfolding validate_model
build_validated h m = elim (validate_model h m) [ none ↦ inr m | some e ↦ inl e ]
