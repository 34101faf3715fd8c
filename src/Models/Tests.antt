-- ===== src/Models/Tests.antt =====
-- Tables at concrete inputs. A text is refused as `params` and any other value is kept, and the space
-- is the only blank.
use Prim.Native.Char.{code}
use pywatt_sdk.Prelude.{
  ◌≡◌, ◌↔◌, inl, inr, refl, String, true, false, List, [], ◌∷◌, Option, none, some, arith, nat_eq,
  string_eq, ◌==◌,
}
use pywatt_sdk.Models.{
  Host, ModelDescriptor, ColumnDescriptor, Params, word, number, numbers, enumeration, foreign_key,
}
use pywatt_sdk.Models.Types.{varchar, uuid}
use pywatt_sdk.Models.Builder.{add_varchar_column, add_index, add_foreign_key, with_comment}
use pywatt_sdk.Models.Validation.{validate_model, build_validated, member, duplicate_column}
use pywatt_sdk.Models.Validation.Rules.{Among, WellFormed}
use pywatt_sdk.Models.Validation.Accepted.{member-Among, validate_model-WellFormed}
use pywatt_sdk.Models.Builder.Valid.{
  Step, varchar_column, index, foreign_key as references, comment, step, run, AllAllowed,
}
use pywatt_sdk.Models.Builder.Valid.Chains.{build_validated-run}

abbrev unless_word : Params → Option Params
unless_word (word _) = none
unless_word (number n) = some (number n)
unless_word (numbers ns) = some (numbers ns)
unless_word (enumeration name values) = some (enumeration name values)

abbrev strict : Host
strict = record {
  validate_params = unless_word;
  print_int = λ n. "0";
  is_space = λ c. code c == 32;
}

abbrev id_column : String → ColumnDescriptor
id_column name = record {
  name = name;
  data_type = uuid;
  is_nullable = false;
  is_primary_key = true;
  is_unique = false;
  default_value = none;
  auto_increment = false;
  comment = none;
  constraints = [];
}

abbrev table : List ColumnDescriptor → ModelDescriptor
table columns = record {
  name = "users";
  columns = columns;
  schema = none;
  primary_key = none;
  indexes = [];
  constraints = [];
  comment = none;
  engine = none;
  charset = none;
  collation = none;
  options = [];
}

abbrev calls : List Step
calls =
    varchar_column "mail" 80 false true none none
    ∷ index ("mail" ∷ []) true none
    ∷ references ("id" ∷ []) "people" ("id" ∷ []) none none none
    ∷ comment "Users"
    ∷ []

-- The table that the calls make.
abbrev or_empty_table : Option ModelDescriptor → ModelDescriptor
or_empty_table none = table []
or_empty_table (some m) = m

users : ModelDescriptor
unfolding run
users = or_empty_table (run strict calls (table (id_column "id" ∷ [])))

absent : (k : String) (ns : List String) → member k ns ≡ false → Among k ns → ⊥
absent k ns e a = ground (arith, (member-Among k ns).1 a)

two_same :
    validate_model strict (table (id_column "id" ∷ id_column "id" ∷ []))
    ≡ some (duplicate_column "id")
unfolding validate_model
two_same = refl

validate_model-WellFormed_example :
    (validate_model strict (table (id_column "id" ∷ [])) ≡ none)
    ↔ WellFormed strict (table (id_column "id" ∷ []))
validate_model-WellFormed_example = validate_model-WellFormed strict (table (id_column "id" ∷ []))

build_validated-run_example : build_validated strict users ≡ inr users
unfolding users run step AllAllowed validate_model add_varchar_column varchar add_index
    add_foreign_key foreign_key with_comment
build_validated-run_example =
    build_validated-run strict calls (table (id_column "id" ∷ [])) users
      ((validate_model-WellFormed strict (table (id_column "id" ∷ []))).0 refl)
      (
        (refl, absent "mail" ("id" ∷ []) refl),
        (((λ e. ground arith), (inr (inl refl), tt)), ((refl, (inl refl, tt)), (tt, tt))),
      )
      refl
