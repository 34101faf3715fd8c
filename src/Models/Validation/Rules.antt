-- ===== src/Models/Validation/Rules.antt =====
-- The rules that a model keeps when `validate_model` accepts it.
use pywatt_sdk.Prelude.{
  ◌≤◌, ◌≡◌, ◌≢◌, ◌⊎◌, String, true, false, List, [], ◌∷◌, length, All, nat_eq, string_eq,
}
use pywatt_sdk.Models.{
  ModelDescriptor, ColumnDescriptor, IndexDescriptor, Constraint, foreign_key_constraint,
  ForeignKeyConstraint, Host,
}
use pywatt_sdk.Models.Validation.{column_names, flagged, auto_columns, table_key, is_blank}

-- The name is one of the names.
abbrev pub Among : String → List String → Type 0
Among k [] = ⊥
Among k (n ∷ ns) = (n ≡ k) ⊎ Among k ns

abbrev pub Differ : List String → Type 0
Differ [] = Unit
Differ (n ∷ ns) = All (λ k. n ≢ k) ns × Differ ns

-- Each of the names is a column's.
abbrev pub Present : List String → List String → Type 0
Present names ks = All (λ k. Among k names) ks

abbrev pub LegalKey : List String → List String → List String → Type 0
LegalKey names from_flags key = (key ≡ []) ⊎ ((from_flags ≡ []) × Present names key)

abbrev pub LegalAuto : List String → ColumnDescriptor → Type 0
LegalAuto key c =
    ((c.is_primary_key ≡ true) ⊎ Among c.name key)
    × Among c.data_type.type_name ("Integer" ∷ "SmallInt" ∷ "BigInt" ∷ [])

abbrev pub LegalForeignKey : List String → ForeignKeyConstraint → Type 0
LegalForeignKey names f = (length f.columns ≡ length f.references_columns) × Present names f.columns

abbrev pub LegalConstraint : List String → Constraint → Type 0
LegalConstraint names (foreign_key_constraint f) = LegalForeignKey names f
LegalConstraint names _ = Unit

abbrev pub LegalIndex : List String → IndexDescriptor → Type 0
LegalIndex names i = (i.columns ≢ []) × Present names i.columns

pub record WellFormed (h : Host) (m : ModelDescriptor) : Type 0 where
  pub named : is_blank h m.name ≡ false
  pub has_columns : m.columns ≢ []
  pub columns_named : All (λ c. is_blank h c.name ≡ false) m.columns
  pub names_differ : Differ (column_names m.columns)
  pub one_key : LegalKey (column_names m.columns) (flagged m.columns) (table_key m)
  pub one_auto : length (auto_columns m.columns) ≤ 1
  pub auto_legal : All (LegalAuto (table_key m)) (auto_columns m.columns)
  pub constraints_legal : All (LegalConstraint (column_names m.columns)) m.constraints
  pub indexes_legal : All (LegalIndex (column_names m.columns)) m.indexes
