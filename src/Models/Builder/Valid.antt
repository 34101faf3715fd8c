-- ===== src/Models/Builder/Valid.antt =====
-- Chains of builder calls and what `build_validated` says of them.
mod Columns
pub mod Chains
use pywatt_sdk.Prelude.{
  ℕ, ◌+◌, ◌≤◌, ◌<◌, ◌≡◌, ◌≢◌, ◌⊎◌, inl, inr, refl, String, Bool, true, false, List, [], ◌∷◌, ◌++◌,
  Option, none, some, Option-cases, arith, length, All, All-append,
}
use pywatt_sdk.Models.{ℤ, IntegerSize, ReferentialAction, ModelDescriptor, Host}
use pywatt_sdk.Models.Types.{text, varchar, integer, enum}
use pywatt_sdk.Models.Builder.{
  add_id_column, add_varchar_column, add_text_column, add_integer_column, add_enum_column,
  add_boolean_column, add_timestamp_column, add_json_column, add_uuid_column, add_timestamps,
  add_index, add_foreign_key, add_unique_constraint, add_check_constraint, with_comment,
  with_engine, with_charset, with_collation, with_option, append_column, append_typed, new,
}
use pywatt_sdk.Models.Validation.{
  column_names, auto_columns, is_blank, table_key, validate_model, build_validated,
}
use pywatt_sdk.Models.Validation.Rules.{Among, Present, LegalIndex, WellFormed}
use pywatt_sdk.Models.Validation.Accepted.{validate_model-WellFormed}

-- The calls of the builder.
pub data Step : Type 0 where
  id_column : String → Step
  varchar_column : String → ℕ → Bool → Bool → Option String → Option String → Step
  text_column : String → Bool → Option String → Step
  integer_column : String → IntegerSize → Bool → Bool → Option ℤ → Option String → Step
  boolean_column : String → Bool → Option Bool → Option String → Step
  timestamp_column : String → Bool → Option String → Bool → Option String → Step
  json_column : String → Bool → Bool → Option String → Step
  uuid_column : String → Bool → Bool → Option String → Option String → Step
  enum_column : String → String → List String → Bool → Option String → Option String → Step
  timestamps : Step
  index : List String → Bool → Option String → Step
  foreign_key :
      List String
      → String
      → List String
      → Option ReferentialAction
      → Option ReferentialAction
      → Option String
      → Step
  unique_constraint : List String → Option String → Step
  check_constraint : String → Option String → Step
  comment engine charset collation : String → Step
  option : String → String → Step

unfoldable pub step : Host → Step → ModelDescriptor → Option ModelDescriptor
step h (id_column n) m = add_id_column h m n
step h (varchar_column n l u v d c) m = add_varchar_column h m n l u v d c
step h (text_column n u c) m = add_text_column h m n u c
step h (integer_column n s u v d c) m = add_integer_column h m n s u v d c
step h (boolean_column n u d c) m = some (add_boolean_column m n u d c)
step h (timestamp_column n u d z c) m = some (add_timestamp_column m n u d z c)
step h (json_column n u b c) m = some (add_json_column m n u b c)
step h (uuid_column n u v d c) m = some (add_uuid_column m n u v d c)
step h (enum_column n e vs u d c) m = add_enum_column h m n e vs u d c
step h timestamps m = some (add_timestamps m)
step h (index cs u n) m = some (add_index m cs u n)
step h (foreign_key cs t rs d u n) m = some (add_foreign_key m cs t rs d u n)
step h (unique_constraint cs n) m = some (add_unique_constraint m cs n)
step h (check_constraint e n) m = some (add_check_constraint m e n)
step h (comment s) m = some (with_comment m s)
step h (engine s) m = some (with_engine m s)
step h (charset s) m = some (with_charset m s)
step h (collation s) m = some (with_collation m s)
step h (option k v) m = some (with_option m k v)

-- A chain of calls, up to the first that raises.
unfoldable pub run : Host → List Step → ModelDescriptor → Option ModelDescriptor
unfolding step
run h [] m = some m
run h (s ∷ ss) m = elim (step h s m) [ none ↦ none | some n ↦ run h ss n ]

-- A new column's name is not blank and no column has it.
abbrev pub Fresh : Host → ModelDescriptor → String → Type 0
Fresh h m n = (is_blank h n ≡ false) × (Among n (column_names m.columns) → ⊥)

-- What a chain owes to the table: fresh names for the columns, an id column only where the
-- model sets no key and no column counts itself up, and columns that are there for the
-- indexes and the foreign keys.
abbrev pub Allowed : Host → Step → ModelDescriptor → Type 0
Allowed h (id_column n) m = Fresh h m n × (table_key m ≡ []) × (auto_columns m.columns ≡ [])
Allowed h (varchar_column n l u v d c) m = Fresh h m n
Allowed h (text_column n u c) m = Fresh h m n
Allowed h (integer_column n s u v d c) m = Fresh h m n
Allowed h (boolean_column n u d c) m = Fresh h m n
Allowed h (timestamp_column n u d z c) m = Fresh h m n
Allowed h (json_column n u b c) m = Fresh h m n
Allowed h (uuid_column n u v d c) m = Fresh h m n
Allowed h (enum_column n e vs u d c) m = Fresh h m n
Allowed h timestamps m = Fresh h m "created_at" × Fresh h m "updated_at"
Allowed h (index cs u n) m = (cs ≢ []) × Present (column_names m.columns) cs
Allowed h (foreign_key cs t rs d u n) m =
    (length cs ≡ length rs) × Present (column_names m.columns) cs
Allowed h _ m = Unit

-- What holds of the model if it was made.
abbrev pub Then : (ModelDescriptor → Type 0) → Option ModelDescriptor → Type 0
Then P none = Unit
Then P (some m) = P m

unfoldable pub AllAllowed : Host → List Step → ModelDescriptor → Type 0
unfolding step
AllAllowed h [] m = Unit
AllAllowed h (s ∷ ss) m = Allowed h s m × Then (AllAllowed h ss) (step h s m)
