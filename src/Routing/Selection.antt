-- ===== src/Routing/Selection.antt =====
-- What communication/routing.py reads off a message: the key of the cache, the place of the target and
-- the preference. `print_number` prints an integer, `contains` is Python's `in` between texts `starts`
-- its `startswith` and `lower` its `lower`.
use pywatt_sdk.Prelude.{
  ℕ, ◌*◌, String, Bool, true, false, not, ◌&&◌, ◌||◌, [], ◌∷◌, Option, none, some, ltb,
  if◌then◌else◌, nat_eq, string_eq,
}
use pywatt_sdk.Prelude.Float.{Float}
use pywatt_sdk.Prelude.Texts.{concat_texts}
use pywatt_sdk.Channel.{ChannelType, tcp, ipc, channel_eq}
use pywatt_sdk.Routing.{
  MessagePriority, critical, high, normal, low, bulk, MessageType, control, data_message,
  file_transfer, stream, real_time, batch, TargetLocation, local, remote, unknown,
  MessageCharacteristics, ChannelPreference, RoutingMatrix,
}

-- What the router takes from Python.
pub record Texts : Type 0 where
  pub print_number : ℕ → String
  pub contains : String → String → Bool
  pub starts : String → String → Bool
  pub lower : String → String

-- An `IntEnum` is printed as its number.
abbrev pub priority_text : MessagePriority → String
priority_text critical = "3"
priority_text high = "2"
priority_text normal = "1"
priority_text low = "0"
priority_text bulk = "-1"

-- `priority.name.lower()`
abbrev pub priority_name : MessagePriority → String
priority_name critical = "critical"
priority_name high = "high"
priority_name normal = "normal"
priority_name low = "low"
priority_name bulk = "bulk"

abbrev pub type_value : MessageType → String
type_value control = "control"
type_value data_message = "data"
type_value file_transfer = "file_transfer"
type_value stream = "stream"
type_value real_time = "real_time"
type_value batch = "batch"

abbrev pub channel_value : ChannelType → String
channel_value tcp = "tcp"
channel_value ipc = "ipc"

unfoldable pub cache_key : Texts → String → MessageCharacteristics → String
cache_key u target c = concat_texts (
    target
    ∷ ":"
    ∷ priority_text c.priority
    ∷ ":"
    ∷ type_value c.message_type
    ∷ ":"
    ∷ u.print_number c.size
    ∷ [])

unfoldable pub determine_target_location : Texts → String → TargetLocation
determine_target_location u target =
    if u.starts target "127.0.0.1" || u.starts target "localhost" || u.starts target "unix:"
    then local
    else if u.contains ":" target && not (u.starts target "unix:")
    then remote
    else unknown

abbrev pub is_urgent : MessagePriority → Bool
is_urgent critical = true
is_urgent high = true
is_urgent _ = false

abbrev pub is_bulk : MessagePriority → Bool
is_bulk bulk = true
is_bulk _ = false

abbrev pub is_remote : TargetLocation → Bool
is_remote remote = true
is_remote _ = false

module _ {F : Float} where
  -- The branches after those on the priority and the type.
  abbrev pub preference_by_place : RoutingMatrix F → MessageCharacteristics → ChannelPreference F
  preference_by_place x c =
      if is_remote c.target_location
      then x.remote_messages
      else if ltb c.size 1024
      then x.local_small_messages
      else x.local_large_messages

  unfoldable pub select_routing_preference :
      RoutingMatrix F → MessageCharacteristics → ChannelPreference F
  select_routing_preference x c =
      if is_urgent c.priority then x.urgent_messages else elim c.message_type [
        | file_transfer ↦ x.file_transfer
        | real_time ↦ x.real_time
        | batch ↦ x.bulk_transfer
        | _ ↦ if is_bulk c.priority then x.bulk_transfer else preference_by_place x c
      ]

-- The attributes that `hasattr` finds on a message's metadata. A priority is `none` where
-- `MessagePriority(metadata.priority)` raises.
pub record Attributes : Type 0 where
  pub priority : Option (Option MessagePriority)
  pub content_type : Option String

-- `MessageMetadata` of communication/message.py has neither.
abbrev pub no_attributes : Attributes
no_attributes = record { priority = none; content_type = none }

abbrev pub priority_of : Option Attributes → MessagePriority
priority_of none = normal
priority_of (some a) = elim a.priority [
  | none ↦ normal
  | some p ↦ elim p [ none ↦ normal | some q ↦ q ]
]

abbrev pub type_of_content : Texts → String → MessageType
type_of_content u content =
    if u.contains "stream" content
    then stream
    else if u.contains "batch" content
    then batch
    else if u.contains "realtime" content
    then real_time
    else data_message

abbrev pub inferred_type : Texts → Option Attributes → MessageType
inferred_type u none = data_message
inferred_type u (some a) = elim a.content_type [
  | none ↦ data_message
  | some content ↦ type_of_content u (u.lower content)
]

-- Of the message, its number of bytes is read.
unfoldable pub extract_message_characteristics :
    Texts → ℕ → Option Attributes → MessageCharacteristics
extract_message_characteristics u bytes metadata = record {
  size = bytes;
  priority = priority_of metadata;
  message_type =
      if ltb (1024 * 1024) bytes
      then file_transfer
      else if ltb bytes 256
      then control
      else inferred_type u metadata;
  target_location = unknown;
}
