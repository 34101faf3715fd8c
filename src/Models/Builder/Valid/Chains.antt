-- ===== src/Models/Builder/Valid/Chains.antt =====
-- `build_validated` at the end of a chain of builder calls.
use mathlib.Core.Path.{subst}
use pywatt_sdk.Prelude.{
  ◌+◌, ◌≡◌, ◌≢◌, inl, inr, refl, String, true, false, List, [], ◌∷◌, ◌++◌, Option, none, some,
  string_eq, arith, length,
}
use pywatt_sdk.Prelude.Dict.{Dict}
use pywatt_sdk.Models.{ColumnDescriptor, DataType, ModelDescriptor, Host, i64, Params, word}
use pywatt_sdk.Models.Types.{text, varchar, integer, enum}
use pywatt_sdk.Models.Builder.{
  add_id_column, add_varchar_column, add_text_column, add_integer_column, add_enum_column,
  add_boolean_column, add_timestamp_column, add_json_column, add_uuid_column, add_timestamps,
  add_foreign_key, add_unique_constraint, add_check_constraint, with_comment, with_engine,
  with_charset, with_collation, with_option, append_column, append_typed, new,
}
use pywatt_sdk.Models.Validation.{auto_columns, is_blank, validate_model, build_validated}
use pywatt_sdk.Models.Validation.Rules.{WellFormed}
use pywatt_sdk.Models.Validation.Accepted.{validate_model-WellFormed}
use pywatt_sdk.Models.Builder.Valid.{
  Step, id_column, varchar_column, text_column, integer_column, boolean_column, timestamp_column,
  json_column, uuid_column, enum_column, timestamps, index, foreign_key as references,
  unique_constraint, check_constraint, comment, engine, charset, collation, option, step, run,
  Allowed, Then, AllAllowed,
}
use pywatt_sdk.Models.Builder.Valid.Columns.{
  append_column-WellFormed, append_auto-WellFormed, append_constraint-WellFormed, Among-append_inv,
  append_index-WellFormed,
}

-- A model that was made is well formed.
abbrev Sound : Host → Option ModelDescriptor → Type 0
Sound h = Then (WellFormed h)

typed-Sound :
    (h : Host) (m : ModelDescriptor) (t : Option DataType) (column : DataType → ColumnDescriptor)
    → ((d : DataType) → WellFormed h (append_column m (column d)))
    → Sound h (append_typed m t column)
typed-Sound h m none column w = tt
typed-Sound h m (some d) column w = w d

relabelled-WellFormed :
    (h : Host) (m : ModelDescriptor) (c e s l : Option String) (o : Dict String String)
    → WellFormed h m
    → WellFormed h (record m { comment = c; engine = e; charset = s; collation = l; options = o })
relabelled-WellFormed h m c e s l o w = record {
  named = w.named;
  has_columns = w.has_columns;
  columns_named = w.columns_named;
  names_differ = w.names_differ;
  one_key = w.one_key;
  one_auto = w.one_auto;
  auto_legal = w.auto_legal;
  constraints_legal = w.constraints_legal;
  indexes_legal = w.indexes_legal;
}

created≢updated : ◌≢◌ {A = String} "created_at" "updated_at"
created≢updated e = ground (arith, (string_eq.beq_iff "created_at" "updated_at").1 e)

integer-Sound :
    (h : Host) (m : ModelDescriptor) (p : Option Params) (column : DataType → ColumnDescriptor)
    → ((q : Params)
        → WellFormed h
            (append_column m (column (record { type_name = "Integer"; params = some q }))))
    → Sound h (
        append_typed m
          (elim p [
            | none ↦ none
            | some q ↦ some (record { type_name = "Integer"; params = some q })
          ])
          column)
integer-Sound h m none column w = tt
integer-Sound h m (some q) column w = w q

id_column-Sound :
    (h : Host) (m : ModelDescriptor) (n : String)
    → WellFormed h m
    → Allowed h (id_column n) m
    → Sound h (add_id_column h m n)
unfolding add_id_column integer
id_column-Sound h m n w a =
    integer-Sound h m (h.validate_params (word "I64")) _
      λ t. append_auto-WellFormed h m _ w a.0.0 a.0.1 a.1 a.2 refl (inl refl, inl refl)

step-Sound :
    (h : Host) (s : Step) (m : ModelDescriptor)
    → WellFormed h m
    → Allowed h s m
    → Sound h (step h s m)
unfolding step add_varchar_column add_text_column add_integer_column add_enum_column
    add_boolean_column add_timestamp_column add_json_column add_uuid_column add_timestamps
    add_foreign_key add_unique_constraint add_check_constraint with_comment with_engine with_charset
    with_collation with_option
step-Sound h (id_column n) m w a = id_column-Sound h m n w a
step-Sound h (varchar_column _ l u v d c) m w a =
    typed-Sound h m (varchar h l) _ λ t. append_column-WellFormed h m _ w a.0 a.1 refl refl
step-Sound h (text_column _ u c) m w a =
    typed-Sound h m (text h none) _ λ t. append_column-WellFormed h m _ w a.0 a.1 refl refl
step-Sound h (integer_column _ s u v d c) m w a =
    typed-Sound h m (integer h s) _ λ t. append_column-WellFormed h m _ w a.0 a.1 refl refl
step-Sound h (enum_column _ e vs u d c) m w a =
    typed-Sound h m (enum h e vs) _ λ t. append_column-WellFormed h m _ w a.0 a.1 refl refl
step-Sound h (boolean_column n u d c) m w a = append_column-WellFormed h m _ w a.0 a.1 refl refl
step-Sound h (timestamp_column n u d z c) m w a = append_column-WellFormed h m _ w a.0 a.1 refl refl
step-Sound h (json_column n u b c) m w a = append_column-WellFormed h m _ w a.0 a.1 refl refl
step-Sound h (uuid_column n u v d c) m w a = append_column-WellFormed h m _ w a.0 a.1 refl refl
step-Sound h timestamps m w a =
    let first = append_column-WellFormed h m _ w a.0.0 a.0.1 refl refl in
    append_column-WellFormed h _ _ first a.1.0
      (Among-append_inv m.columns _ "updated_at" created≢updated a.1.1) refl refl
step-Sound h (index cs u n) m w a = append_index-WellFormed h m cs u n w a.0 a.1
step-Sound h (references cs t rs d u n) m w a = append_constraint-WellFormed h m _ w a
step-Sound h (unique_constraint cs n) m w a = append_constraint-WellFormed h m _ w tt
step-Sound h (check_constraint e n) m w a = append_constraint-WellFormed h m _ w tt
step-Sound h (comment s) m w a = relabelled-WellFormed h m _ _ _ _ _ w
step-Sound h (engine s) m w a = relabelled-WellFormed h m _ _ _ _ _ w
step-Sound h (charset s) m w a = relabelled-WellFormed h m _ _ _ _ _ w
step-Sound h (collation s) m w a = relabelled-WellFormed h m _ _ _ _ _ w
step-Sound h (option k v) m w a = relabelled-WellFormed h m _ _ _ _ _ w

chain-Sound :
    (h : Host) (o : Option ModelDescriptor) (P : ModelDescriptor → Type 0)
    (next : ModelDescriptor → Option ModelDescriptor)
    → Sound h o
    → Then P o
    → ((n : ModelDescriptor) → WellFormed h n → P n → Sound h (next n))
    → Sound h (elim o [ none ↦ none | some n ↦ next n ])
chain-Sound h none P next s p f = tt
chain-Sound h (some n) P next s p f = f n s p

run-Sound :
    (h : Host) (ss : List Step) (m : ModelDescriptor)
    → WellFormed h m
    → AllAllowed h ss m
    → Sound h (run h ss m)
unfolding run AllAllowed
run-Sound h [] m w a = w
run-Sound h (s ∷ ss) m w a =
    chain-Sound h (step h s m) (AllAllowed h ss) (run h ss) (step-Sound h s m w a.0) a.1
      λ n. run-Sound h ss n

add_id_column-Sound :
    (h : Host) (table id : String) (schema : Option String)
    → is_blank h table ≡ false
    → is_blank h id ≡ false
    → Sound h (add_id_column h (new table schema) id)
unfolding add_id_column new integer
add_id_column-Sound h table id schema bt bi =
    integer-Sound h (new table schema) (h.validate_params (word "I64")) _ λ t. record {
      named = bt;
      has_columns = λ e. ground arith;
      columns_named = (bi, tt);
      names_differ = (tt, tt);
      one_key = inl refl;
      one_auto = ground arith;
      auto_legal = ((inl refl, inl refl), tt);
      constraints_legal = tt;
      indexes_legal = tt;
    }

accepted : (h : Host) (m : ModelDescriptor) → WellFormed h m → build_validated h m ≡ inr m
unfolding build_validated
accepted h m w = rw (build_validated, (validate_model-WellFormed h m).1 w) refl

-- A chain of builder calls on a well-formed model, in which new columns have fresh names, an id column
-- is added only where the model sets no key of the table and no column counts itself up, and indexes
-- and foreign keys name columns that are there: the model that they make is accepted, if none of
-- them raises.
pub build_validated-run :
    (h : Host) (ss : List Step) (m n : ModelDescriptor)
    → WellFormed h m
    → AllAllowed h ss m
    → run h ss m ≡ some n
    → build_validated h n ≡ inr n
build_validated-run h ss m n w a e = accepted h n (subst (Sound h) e (run-Sound h ss m w a))

-- A new table with an id column is well formed.
pub add_id_column-WellFormed :
    (h : Host) (table id : String) (schema : Option String) (m : ModelDescriptor)
    → is_blank h table ≡ false
    → is_blank h id ≡ false
    → add_id_column h (new table schema) id ≡ some m
    → WellFormed h m
add_id_column-WellFormed h table id schema m bt bi made =
    subst (Sound h) made (add_id_column-Sound h table id schema bt bi)

auto_columns-append :
    (cs : List ColumnDescriptor) (c : ColumnDescriptor)
    → c.auto_increment ≡ true
    → length (auto_columns (cs ++ (c ∷ []))) ≡ length (auto_columns cs) + 1
auto_columns-append [] c e = ground arith
auto_columns-append (d ∷ cs) c e = ground (arith, auto_columns-append cs c e)

abbrev OneMore : ModelDescriptor → ModelDescriptor → Type 0
OneMore m n = length (auto_columns n.columns) ≡ length (auto_columns m.columns) + 1

typed-OneMore :
    (m : ModelDescriptor) (t : Option DataType) (column : DataType → ColumnDescriptor)
    → ((d : DataType) → (column d).auto_increment ≡ true)
    → Then (OneMore m) (append_typed m t column)
typed-OneMore m none column f = tt
typed-OneMore m (some d) column f = auto_columns-append m.columns (column d) (f d)

add_id_column-OneMore :
    (h : Host) (m : ModelDescriptor) (id : String) → Then (OneMore m) (add_id_column h m id)
unfolding add_id_column
add_id_column-OneMore h m id = typed-OneMore m (integer h i64) _ λ t. refl

-- A model to which two id columns were added, whatever their names, is not accepted.
pub add_id_column_twice :
    (h : Host) (l m n : ModelDescriptor) (id other : String)
    → add_id_column h l id ≡ some m
    → add_id_column h m other ≡ some n
    → validate_model h n ≢ none
add_id_column_twice h l m n id other e f accepts =
    let first = subst (Then (OneMore l)) e (add_id_column-OneMore h l id) in
    let second = subst (Then (OneMore m)) f (add_id_column-OneMore h m other) in
    omega (arith, first, second, ((validate_model-WellFormed h n).0 accepts).one_auto)
