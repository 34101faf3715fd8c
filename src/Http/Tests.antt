-- ===== src/Http/Tests.antt =====
-- Runs of the router and its queue.
use pywatt_sdk.Prelude.{
  ℕ, zero, suc, inr, String, true, List, [], ◌∷◌, none, some, ◌≡◌, refl, ap, arith, nat_eq,
  string_eq, ◌==◌, if◌then◌else◌,
}
use pywatt_sdk.Prelude.Dict.{get, put, remove}
use pywatt_sdk.Http.{
  IpcHttpRequest, IpcHttpResponse, HandlerResult, api, text, HttpIpcRouter, Python, new, route,
  find_handler, handle_request, apply_middleware,
}
use pywatt_sdk.Http.Exchange.{Bus, Event, calls, resumes, finishes, takes, start, step, run, pick}
use pywatt_sdk.Http.Handling.{find_handler-route, finishes_refused}
use pywatt_sdk.Http.Own.{run-start-IsOwn}

abbrev python : Python String
python = record {
  upper = λ s. if s == "get" then "GET" else s;
  before_query = λ s. if s == "/a?x=1" then "/a" else s;
  encode = λ _. 7 ∷ [];
  dumps = λ _. some (9 ∷ []);
  dumps_error = "";
  error_dict = λ s. s;
}

abbrev hello : IpcHttpRequest ℕ → HandlerResult String
hello q = text "hello"

abbrev broken : IpcHttpRequest ℕ → HandlerResult String
broken q = api (record { status_code = 700; headers = []; body = none })

abbrev router : (IpcHttpRequest ℕ → HandlerResult String) → HttpIpcRouter ℕ String
router h = record { routes = ("/a", ("GET", h) ∷ []) ∷ []; middleware = []; running = true }

-- The n-th request has the n-th text of a's for its id.
abbrev name : ℕ → String
name zero = ""
name (suc n) = String.◌∷◌ "a" (name n)

abbrev requests : ℕ → IpcHttpRequest ℕ
requests n = record { request_id = name n; method = "get"; uri = "/a?x=1"; content = n }

registered : (route python new "/a" ("get" ∷ []) hello).routes ≡ ("/a", ("GET", hello) ∷ []) ∷ []
unfolding route get put
registered = refl

find_handler-route_example :
    find_handler python (route python (router broken) "/a" ("get" ∷ []) hello) "/a?x=1" "GET"
    ≡ some hello
find_handler-route_example =
    find_handler-route python ("get" ∷ []) (router broken) "/a" "GET" "/a?x=1" hello

abbrev answer : IpcHttpResponse
answer = record {
  answers = "a";
  response = record { status_code = 200; headers = []; body = some (7 ∷ []) };
}

abbrev events : List (Event ℕ)
events = calls 1 (requests 1) ∷ takes ∷ calls 0 (requests 0) ∷ finishes 0 ∷ resumes 1 ∷ []

distinct : (i j : ℕ) → name i ≡ name j → i ≡ j
distinct zero zero e = refl
distinct zero (suc j) e = cc
distinct (suc i) zero e = cc
distinct (suc i) (suc j) e = ap suc (distinct i j (cc))

run-start-IsOwn_example : (handle_request python (router hello) (requests 1)).0 ≡ some answer
unfolding run get put remove apply_middleware handle_request
run-start-IsOwn_example =
    run-start-IsOwn python (router hello) requests (λ q. refl) distinct events 1 answer
      (refl, (tt, (refl, (tt, (tt, tt))))) refl

abbrev taken : Bus ℕ
taken = record start { in_progress = requests 0 ∷ [] }

finishes_refused_example : step python (router broken) taken (finishes 0) ≡ start
unfolding get apply_middleware find_handler pick
finishes_refused_example =
    finishes_refused python (router broken) taken 0 (requests 0) [] broken
      (record { status_code = 700; headers = []; body = none }) refl refl refl (inr (omega arith))
