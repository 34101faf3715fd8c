-- ===== src/Http/Handling.antt =====
-- What `HttpIpcRouter` makes of one request.
use pywatt_sdk.Prelude.{
  ℕ, String, Bool, false, ◌&&◌, ◌||◌, List, [], ◌∷◌, none, some, nat_eq, string_eq, ◌==◌, leb,
  if◌then◌else◌, ◌≡◌, ◌<◌, ◌⊎◌, arith, inl, inr,
}
use pywatt_sdk.Prelude.Dict.{put, get-put}
use pywatt_sdk.Http.{
  IpcHttpRequest, ApiResponse, HandlerResult, api, HttpIpcRouter, Python, at_path, route,
  find_handler, apply_middleware, handle_request,
}
use pywatt_sdk.Http.Exchange.{Bus, finishes, pick, step}

-- `text in [method.upper() for method in methods]`
abbrev pub lists : (String → String) → List String → String → Bool
lists upper [] s = false
lists upper (m ∷ ms) s = upper m == s || lists upper ms s

module _ {B D : Type 0} (py : Python D) where
  find_put :
      (r : HttpIpcRouter B D) (path m method uri : String)
      (handler : IpcHttpRequest B → HandlerResult D)
      → find_handler py
          (record r {
            routes = put r.routes path (put (at_path r.routes path) (py.upper m) handler);
          })
          uri
          method
        ≡ (if path == py.before_query uri && py.upper m == py.upper method
            then some handler
            else find_handler py r uri method)
  unfolding find_handler
  find_put r path m method uri handler = ground (
    arith,
    get-put r.routes path (py.before_query uri) (put (at_path r.routes path) (py.upper m) handler),
    get-put (at_path r.routes path) (py.upper m) (py.upper method) handler,
    string_eq.beq_iff path (py.before_query uri),
    string_eq.beq_iff (py.upper m) (py.upper method),
  )

  -- After a route is registered for some methods, a request that matches its path, up to the query,
  -- and one of the methods, up to case, finds its handler; any other finds what it found before.
  pub find_handler-route :
      (ms : List String) (r : HttpIpcRouter B D) (path method uri : String)
      (handler : IpcHttpRequest B → HandlerResult D)
      → find_handler py (route py r path ms handler) uri method ≡ (
          if path == py.before_query uri && lists py.upper ms (py.upper method)
          then some handler
          else find_handler py r uri method)
  unfolding route
  find_handler-route [] r path method uri handler =
      ground (arith, string_eq.beq_iff path (py.before_query uri))
  find_handler-route (m ∷ ms) r path method uri handler = ground (
    arith,
    find_handler-route ms
        (record r { routes = put r.routes path (put (at_path r.routes path) (py.upper m) handler) })
        path method uri handler,
    find_put r path m method uri handler,
  )

  -- A handler's response with a status code that is none, below 100 or above 599, is not sent, and
  -- no error is counted.
  handle_request_refused :
      (r : HttpIpcRouter B D) (request : IpcHttpRequest B)
      (handler : IpcHttpRequest B → HandlerResult D) (a : ApiResponse)
      → let q = apply_middleware r.middleware request in
        find_handler py r q.uri q.method ≡ some handler
        → handler q ≡ api a
        → (leb 100 a.status_code && leb a.status_code 599) ≡ false
        → handle_request py r request ≡ (none, false)
  unfolding handle_request
  handle_request_refused r request handler a e f g = ground (arith, e, f, g)

  -- The task of a request whose handler returns a status code below 100 or above 599 ends without a
  -- response: no future is set, no call returns, and neither a response nor an error is counted.
  pub finishes_refused :
      (r : HttpIpcRouter B D) (s : Bus B) (k : ℕ) (request : IpcHttpRequest B)
      (rest : List (IpcHttpRequest B)) (handler : IpcHttpRequest B → HandlerResult D)
      (a : ApiResponse)
      → let q = apply_middleware r.middleware request in
        pick s.in_progress k ≡ some (request, rest)
        → find_handler py r q.uri q.method ≡ some handler
        → handler q ≡ api a
        → (a.status_code < 100) ⊎ (599 < a.status_code)
        → step py r s (finishes k) ≡ record s { in_progress = rest }
  unfolding step
  finishes_refused r s k request rest handler a p e f g =
      ground (arith, p, handle_request_refused r request handler a e f (bad a.status_code g))
    where
      bad : (n : ℕ) → (n < 100) ⊎ (599 < n) → (leb 100 n && leb n 599) ≡ false
      bad n (inl h) = ground arith
      bad n (inr h) = ground arith
