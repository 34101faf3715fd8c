-- ===== src/Http.antt =====
-- communication/http_ipc.py: `HttpIpcRouter`. Handlers and middleware are parameters, as are the
-- methods of Python's texts and the JSON encoder. Times are left out.
pub mod Handling
pub mod Exchange
pub mod Responses
pub mod Own
mod Tests
use Prim.Native.String.{◌++◌}
use pywatt_sdk.Prelude.{
  ℕ, ◌+◌, String, Bool, true, false, List, [], ◌∷◌, Option, none, some, nat_eq, string_eq, leb,
  ◌&&◌, ◌==◌, if◌then◌else◌,
}
use pywatt_sdk.Prelude.Dict.{Dict, get, put}

-- The content of a request is of any type.
pub record IpcHttpRequest (B : Type 0) : Type 0 where
  pub request_id : String
  pub method : String
  pub uri : String
  pub content : B

pub record ApiResponse : Type 0 where
  pub status_code : ℕ
  pub headers : Dict String String
  pub body : Option (List ℕ)

pub record IpcHttpResponse : Type 0 where
  pub answers : String
  pub response : ApiResponse

-- `none` where the status code is refused: it stands between 100 and 599.
abbrev pub to_ipc_response : ApiResponse → String → Option IpcHttpResponse
to_ipc_response r id =
    if leb 100 r.status_code && leb r.status_code 599
    then some (record { answers = id; response = r })
    else none

-- What is used of Python: `str.upper`, the part of a text before its first `?`, `str.encode`,
-- `json.dumps(value).encode()`, which may raise with a text, and the dictionary of an error.
pub record Python (D : Type 0) : Type 0 where
  pub upper : String → String
  pub before_query : String → String
  pub encode : String → List ℕ
  pub dumps : D → Option (List ℕ)
  pub dumps_error : String
  pub error_dict : String → D

-- What a handler returns: a response, a dictionary, a text, another value by its text; or it raises.
pub data HandlerResult (D : Type 0) : Type 0 where
  api : ApiResponse → HandlerResult D
  dict : D → HandlerResult D
  text other raises : String → HandlerResult D

pub record HttpIpcRouter (B D : Type 0) : Type 0 where
  pub routes : Dict String (Dict String (IpcHttpRequest B → HandlerResult D))
  pub middleware : List (IpcHttpRequest B → IpcHttpRequest B)
  pub running : Bool

pub record HttpIpcMetrics : Type 0 where
  pub requests_received : ℕ
  pub responses_sent : ℕ
  pub errors_encountered : ℕ

abbrev pub no_metrics : HttpIpcMetrics
no_metrics = record { requests_received = 0; responses_sent = 0; errors_encountered = 0 }

-- A response, or the text of an exception.
pub data Handled : Type 0 where
  responds : ApiResponse → Handled
  fails : String → Handled

module _ {D : Type 0} (py : Python D) where
  -- `none` where the encoder raises.
  abbrev pub json_response : D → ℕ → Option ApiResponse
  json_response d status = elim (py.dumps d) [
    | none ↦ none
    | some bytes ↦ some (record {
      status_code = status;
      headers = ("Content-Type", "application/json") ∷ [];
      body = some bytes;
    })
  ]

  abbrev pub ok_response : String → ApiResponse
  ok_response s = record { status_code = 200; headers = []; body = some (py.encode s) }

  abbrev pub error_response : ℕ → String → Option ApiResponse
  error_response status message = json_response (py.error_dict message) status

  abbrev pub not_found : String → Option ApiResponse
  not_found message = error_response 404 message

  abbrev pub encoded_or_fails : Option ApiResponse → Handled
  encoded_or_fails none = fails py.dumps_error
  encoded_or_fails (some r) = responds r

  unfoldable pub convert : HandlerResult D → Handled
  convert (api r) = responds r
  convert (dict d) = encoded_or_fails (json_response d 200)
  convert (text s) = responds (ok_response s)
  convert (other s) = responds (ok_response s)
  convert (raises e) = fails e

  -- `none` where the dictionary of the error cannot be encoded: the task dies.
  unfoldable pub respond : Handled → Option ApiResponse × Bool
  respond (responds a) = (some a, false)
  respond (fails e) = (error_response 500 ("Internal server error: " ++ e), true)

-- Exceptions of middleware are only logged; what it changed of the request stays.
unfoldable pub apply_middleware :
    {B : Type 0} → List (IpcHttpRequest B → IpcHttpRequest B) → IpcHttpRequest B → IpcHttpRequest B
apply_middleware [] q = q
apply_middleware (f ∷ fs) q = apply_middleware fs (f q)

module _ {B D : Type 0} where
  abbrev pub new : HttpIpcRouter B D
  new = record { routes = []; middleware = []; running = false }

  -- `self.routes[path]` of a `defaultdict(dict)`.
  abbrev pub at_path :
      Dict String (Dict String (IpcHttpRequest B → HandlerResult D))
      → String
      → Dict String (IpcHttpRequest B → HandlerResult D)
  at_path routes path = elim (get routes path) [ none ↦ [] | some d ↦ d ]

  module _ (py : Python D) where
    unfoldable pub route :
        HttpIpcRouter B D
        → String
        → List String
        → (IpcHttpRequest B → HandlerResult D)
        → HttpIpcRouter B D
    route r path [] handler = r
    route r path (m ∷ ms) handler =
        route
          (record r {
            routes = put r.routes path (put (at_path r.routes path) (py.upper m) handler);
          })
          path ms handler

    unfoldable pub find_handler :
        HttpIpcRouter B D → String → String → Option (IpcHttpRequest B → HandlerResult D)
    find_handler r uri method = get (at_path r.routes (py.before_query uri)) (py.upper method)

    unfoldable pub dispatch : HttpIpcRouter B D → IpcHttpRequest B → Handled
    unfolding find_handler convert
    dispatch r q = elim (find_handler r q.uri q.method) [
      | some handler ↦ convert py (handler q)
      | none ↦
          encoded_or_fails py (not_found py ("No handler for " ++ (q.method ++ (" " ++ q.uri))))
    ]

    -- What `_handle_request` sends, `none` where it raises instead, and whether an error was counted.
    unfoldable pub handle_request :
        HttpIpcRouter B D → IpcHttpRequest B → Option IpcHttpResponse × Bool
    unfolding apply_middleware dispatch respond
    handle_request r request =
        let q = apply_middleware r.middleware request in
        let (answer, failed) = respond py (dispatch r q) in
        elim answer [ none ↦ (none, false) | some a ↦ (to_ipc_response a q.request_id, failed) ]
