-- ===== src/Models/Types.antt =====
-- The class methods of `DataType` in services/model_manager/definitions.py. `none` is pydantic's
-- `ValidationError`.
use pywatt_sdk.Prelude.{ℕ, String, List, [], ◌∷◌, Option, none, some}
use pywatt_sdk.Models.{
  IntegerSize, i8, u8, i16, u16, i32, u32, i64, u64, Params, number, numbers, enumeration, word,
  DataType, Host,
}

-- `IntegerSize.value`
abbrev pub size_value : IntegerSize → String
size_value i8 = "I8"
size_value u8 = "U8"
size_value i16 = "I16"
size_value u16 = "U16"
size_value i32 = "I32"
size_value u32 = "U32"
size_value i64 = "I64"
size_value u64 = "U64"

-- `cls(type_name=…)`, where `params` is `None`
abbrev pub plain : String → DataType
plain type_name = record { type_name = type_name; params = none }

module _ (h : Host) where
  -- `cls(type_name=…, params=…)`
  abbrev pub typed : String → Params → Option DataType
  typed type_name p = elim (h.validate_params p) [
    | none ↦ none
    | some q ↦ some (record { type_name = type_name; params = some q })
  ]

  unfoldable pub text : Option ℕ → Option DataType
  text none = some (plain "Text")
  text (some length) = typed "Text" (number length)

  unfoldable pub varchar : ℕ → Option DataType
  varchar length = typed "Varchar" (number length)

  unfoldable pub char : ℕ → Option DataType
  char length = typed "Char" (number length)

  unfoldable pub integer : IntegerSize → Option DataType
  integer size = typed "Integer" (word (size_value size))

  unfoldable pub decimal : ℕ → ℕ → Option DataType
  decimal precision scale = typed "Decimal" (numbers (precision ∷ scale ∷ []))

  unfoldable pub enum : String → List String → Option DataType
  enum name values = typed "Enum" (enumeration name values)

  unfoldable pub custom : String → Option DataType
  custom type_str = typed "Custom" (word type_str)

abbrev pub small_int : DataType
small_int = plain "SmallInt"

abbrev pub big_int : DataType
big_int = plain "BigInt"

abbrev pub boolean : DataType
boolean = plain "Boolean"

abbrev pub float : DataType
float = plain "Float"

abbrev pub double : DataType
double = plain "Double"

abbrev pub date : DataType
date = plain "Date"

abbrev pub time : DataType
time = plain "Time"

abbrev pub datetime : DataType
datetime = plain "DateTime"

abbrev pub timestamp : DataType
timestamp = plain "Timestamp"

abbrev pub timestamp_tz : DataType
timestamp_tz = plain "TimestampTz"

abbrev pub blob : DataType
blob = plain "Blob"

abbrev pub json : DataType
json = plain "Json"

abbrev pub jsonb : DataType
jsonb = plain "JsonB"

abbrev pub uuid : DataType
uuid = plain "Uuid"
