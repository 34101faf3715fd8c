-- ===== src/Streaming/Multiplexer.antt =====
-- `RequestMultiplexer` of communication/streaming.py. A pending future holds its response, once it has
-- one.
pub mod Responses
use pywatt_sdk.Prelude.{ℕ, String, List, [], ◌∷◌, Option, none, some, length, string_eq}
use pywatt_sdk.Prelude.Dict.{Dict, get, put, remove, keys}

module _ {M : Type 0} where
  -- The start of `send_request`, with the new request's id.
  unfoldable pub register : Dict String (Option M) → String → Dict String (Option M)
  register pending request_id = put pending request_id none

  -- The first response is kept; one without a request is dropped.
  unfoldable pub handle_response : Dict String (Option M) → M → String → Dict String (Option M)
  handle_response pending response request_id = elim (get pending request_id) [
    | none ↦ pending
    | some f ↦ elim f [ some _ ↦ pending | none ↦ put pending request_id (some response) ]
  ]

  -- The end of `send_request`, with the response or, after the time-out, without: `none` is a
  -- `MessageError`.
  unfoldable pub conclude : Dict String (Option M) → String → Option M × Dict String (Option M)
  conclude pending request_id =
      (elim (get pending request_id) [ none ↦ none | some f ↦ f ], remove pending request_id)

  unfoldable pub get_stats : Dict String (Option M) → ℕ × List String
  get_stats pending = (length pending, keys pending)
