-- ===== src/Http/Exchange.antt =====
-- The queue and the pending responses of communication/http_ipc.py, and the calls of
-- `send_http_request` beside the router's tasks. A turn of a task is one step of a schedule.
use pywatt_sdk.Prelude.{
  ℕ, zero, suc, ◌+◌, String, Bool, List, [], ◌∷◌, ◌++◌, Option, none, some, length, ltb, nat_eq,
  string_eq, ◌==◌, if◌then◌else◌,
}
use pywatt_sdk.Prelude.Dict.{Dict, get, put, remove}
use pywatt_sdk.Http.{
  IpcHttpRequest, IpcHttpResponse, HttpIpcRouter, HttpIpcMetrics, no_metrics, Python,
  handle_request,
}

-- Where a call of `send_http_request` is.
pub data Place (B : Type 0) : Type 0 where
  idle timed_out : Place B
  putting awaiting : IpcHttpRequest B → Place B
  returned : IpcHttpResponse → Place B

pub record Bus (B : Type 0) : Type 0 where
  pub queue : List (IpcHttpRequest B)
  pub response_handlers : Dict String ℕ
  pub futures : ℕ → Option IpcHttpResponse
  pub places : ℕ → Place B
  pub in_progress : List (IpcHttpRequest B)
  pub metrics : HttpIpcMetrics

abbrev pub max_queue : ℕ
max_queue = 256

-- The future of a call has the call's number.
pub data Event (B : Type 0) : Type 0 where
  calls : ℕ → IpcHttpRequest B → Event B
  resumes expires finishes : ℕ → Event B
  takes : Event B

abbrev pub update {ℓ} : {A : Type ℓ} → (ℕ → A) → ℕ → A → ℕ → A
update f i a j = if j == i then a else f j

module _ {B : Type 0} where
  abbrev pub start : Bus B
  start = record {
    queue = [];
    response_handlers = [];
    futures = λ _. none;
    places = λ _. idle;
    in_progress = [];
    metrics = no_metrics;
  }

  -- `await _http_request_queue.put(request)`
  unfoldable pub handle_http_request : Bus B → ℕ → IpcHttpRequest B → Bus B
  handle_http_request s i q =
      if ltb (length s.queue) max_queue
      then record s { queue = s.queue ++ (q ∷ []); places = update s.places i (awaiting q) }
      else record s { places = update s.places i (putting q) }

  abbrev pub begin_call : Bus B → ℕ → IpcHttpRequest B → Place B → Bus B
  begin_call s i q idle =
      handle_http_request
        (record s {
          response_handlers = put s.response_handlers q.request_id i;
          futures = update s.futures i none;
        })
        i q
  begin_call s i q _ = s

  -- A result that is there is returned, also at the time-out.
  abbrev pub resume_call : Bus B → ℕ → Place B → Option IpcHttpResponse → Bus B
  resume_call s i (putting q) f = handle_http_request s i q
  resume_call s i (awaiting q) (some r) = record s { places = update s.places i (returned r) }
  resume_call s i _ _ = s

  -- The call removes the entry of its request, whoever's future that holds.
  abbrev pub expire_call : Bus B → ℕ → Place B → Option IpcHttpResponse → Bus B
  expire_call s i (awaiting q) none = record s {
    response_handlers = remove s.response_handlers q.request_id;
    places = update s.places i timed_out;
  }
  expire_call s i (awaiting q) (some r) = record s { places = update s.places i (returned r) }
  expire_call s i _ _ = s

  -- A future that has its result, or was cancelled, is left alone.
  abbrev pub set_future : Bus B → ℕ → IpcHttpResponse → Place B → Option IpcHttpResponse → Bus B
  set_future s i r timed_out f = s
  set_future s i r _ (some _) = s
  set_future s i r _ none = record s { futures = update s.futures i (some r) }

  unfoldable pub send_http_response : Bus B → IpcHttpResponse → Bus B
  send_http_response s r = elim (get s.response_handlers r.answers) [
    | none ↦ s
    | some i ↦
        set_future (record s { response_handlers = remove s.response_handlers r.answers }) i r
          (s.places i) (s.futures i)
  ]

  -- A task at an index, and the others.
  unfoldable pub pick :
      List (IpcHttpRequest B) → ℕ → Option (IpcHttpRequest B × List (IpcHttpRequest B))
  pick [] k = none
  pick (q ∷ qs) zero = some (q, qs)
  pick (q ∷ qs) (suc k) = elim (pick qs k) [ none ↦ none | some (p, ps) ↦ some (p, q ∷ ps) ]

  abbrev pub count_error : Bool → Bus B → Bus B
  count_error b s =
      if b
      then record s {
        metrics = record s.metrics { errors_encountered = s.metrics.errors_encountered + 1 };
      }
      else s

  abbrev pub count_sent : Bus B → Bus B
  count_sent s = record s {
    metrics = record s.metrics { responses_sent = s.metrics.responses_sent + 1 };
  }

  -- The end of `_handle_request`; where it raises, nothing is sent.
  abbrev pub conclude_request : Bus B → Option IpcHttpResponse × Bool → Bus B
  conclude_request s (none, b) = count_error b s
  conclude_request s (some r, b) = count_sent (send_http_response (count_error b s) r)

  module _ {D : Type 0} (py : Python D) (router : HttpIpcRouter B D) where
    abbrev pub finish_request : Bus B → Option (IpcHttpRequest B × List (IpcHttpRequest B)) → Bus B
    finish_request s none = s
    finish_request s (some (q, rest)) =
        conclude_request (record s { in_progress = rest }) (handle_request py router q)

    -- `_process_requests` starts a task for the oldest request.
    abbrev pub take_request : Bus B → List (IpcHttpRequest B) → Bus B
    take_request s [] = s
    take_request s (q ∷ qs) =
        if router.running
        then record s {
          queue = qs;
          in_progress = s.in_progress ++ (q ∷ []);
          metrics = record s.metrics { requests_received = s.metrics.requests_received + 1 };
        }
        else s

    unfoldable pub step : Bus B → Event B → Bus B
    unfolding handle_http_request send_http_response pick
    step s (calls i q) = begin_call s i q (s.places i)
    step s (resumes i) = resume_call s i (s.places i) (s.futures i)
    step s (expires i) = expire_call s i (s.places i) (s.futures i)
    step s (finishes k) = finish_request s (pick s.in_progress k)
    step s takes = take_request s s.queue

    unfoldable pub run : Bus B → List (Event B) → Bus B
    unfolding step
    run s [] = s
    run s (e ∷ es) = run (step s e) es
