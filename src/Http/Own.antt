-- ===== src/Http/Own.antt =====
-- The responses of the router's tasks reach the calls that they answer.
use pywatt_sdk.Prelude.{
  ℕ, zero, suc, ◌+◌, Bool, true, false, List, [], ◌∷◌, ◌++◌, Option, none, some, nat_eq, string_eq,
  if◌then◌else◌, ◌≡◌, refl, All, All-append, arith, Option-cases, inl, inr,
}
use mathlib.Core.Path.{subst}
use pywatt_sdk.Prelude.Dict.{get}
use pywatt_sdk.Http.{
  IpcHttpRequest, IpcHttpResponse, HttpIpcRouter, Python, handle_request, apply_middleware, respond,
  dispatch,
}
use pywatt_sdk.Http.Exchange.{
  Place, idle, timed_out, putting, awaiting, returned, Bus, Event, calls, resumes, expires,
  finishes, takes, update, start, set_future, send_http_response, pick, count_error, count_sent,
  conclude_request, finish_request, take_request, step, run,
}
use pywatt_sdk.Http.Responses.{
  to_ipc_response_answers, update-all, IsSent, IsOwn, IsCall, IsGood, IsFuture, Inv,
  drop_handler-Inv, begin-Inv, resume-Inv, expire-Inv,
}

-- Taking out a task: what holds of all holds of it and of the others.
pick_all :
    {B : Type 0} (P : IpcHttpRequest B → Type 0) (qs : List (IpcHttpRequest B)) (k : ℕ)
    (q : IpcHttpRequest B) (rest : List (IpcHttpRequest B))
    → All P qs
    → pick qs k ≡ some (q, rest)
    → P q × All P rest
unfolding pick
pick_all P [] k q rest w e = cc
pick_all P (p ∷ ps) zero q rest w e = (subst P (cc) w.0, subst (All P) (cc) w.1)
pick_all P (p ∷ ps) (suc k) q rest w e = elim (Option-cases (pick ps k)) [
  | inl f ↦ ground (arith, f)
  | inr ((p', ps'), f) ↦
      let (one, others) = pick_all P ps k p' ps' w.1 f in
      let same : p' ≡ q = ground (arith, f, e) in
      let left : p ∷ ps' ≡ rest = ground (arith, f, e) in
      (subst P same one, subst (All P) left (w.0, others))
]

module _ {B D : Type 0} (py : Python D) (router : HttpIpcRouter B D)
    (requests : ℕ → IpcHttpRequest B) where
  abbrev Good : Bus B → Type 0
  Good s = Inv py router requests s

  future-Inv :
      (s : Bus B) (i : ℕ) (r : IpcHttpResponse) (p : Place B) (f : Option IpcHttpResponse)
      → IsOwn py router requests i r
      → Good s
      → Good (set_future s i r p f)
  future-Inv s i r p f w v = settle p f
    where
      with_result : Good (record s { futures = update s.futures i (some r) })
      with_result = record {
        queued = v.queued;
        running = v.running;
        handlers = v.handlers;
        futures = update-all (IsFuture py router requests) i w v.futures;
        places = v.places;
      }

      settle : (p : Place B) (f : Option IpcHttpResponse) → Good (set_future s i r p f)
      settle timed_out f = v
      settle idle (some _) = v
      settle idle none = with_result
      settle (putting q) (some _) = v
      settle (putting q) none = with_result
      settle (awaiting q) (some _) = v
      settle (awaiting q) none = with_result
      settle (returned x) (some _) = v
      settle (returned x) none = with_result

  module _
      (keeps : (q : IpcHttpRequest B)
        → (apply_middleware router.middleware q).request_id ≡ q.request_id)
      (distinct : (i j : ℕ) → (requests i).request_id ≡ (requests j).request_id → i ≡ j) where
    handle_request_answers :
        (q : IpcHttpRequest B) (r : IpcHttpResponse)
        → (handle_request py router q).0 ≡ some r
        → r.answers ≡ q.request_id
    unfolding handle_request
    handle_request_answers q r e =
        let q' = apply_middleware router.middleware q in
        elim (Option-cases (respond py (dispatch py router q')).0) [
          | inl f ↦ ground (arith, f, e)
          | inr (a, f) ↦ ground (arith, f, e, keeps q, to_ipc_response_answers a q'.request_id r)
        ]

    send-Inv :
        (s : Bus B) (q : IpcHttpRequest B) (r : IpcHttpResponse)
        → IsSent py router requests q
        → (handle_request py router q).0 ≡ some r
        → Good s
        → Good (send_http_response s r)
    unfolding send_http_response
    send-Inv s q r (j, e) h v = elim (Option-cases (get s.response_handlers r.answers)) [
      | inl f ↦ rw (f, send_http_response) v
      | inr (i, f) ↦
          rw (f, send_http_response)
            (future-Inv _ i r (s.places i) (s.futures i) (own i f)
              (drop_handler-Inv py router requests s r.answers v))
    ]
      where
        own : (i : ℕ) → get s.response_handlers r.answers ≡ some i → IsOwn py router requests i r
        own i f =
            let same =
              distinct j i (cc (handle_request_answers q r h, v.handlers r.answers i f, e)) in
            ground (arith, h, e, same)

    count-Inv : (s : Bus B) (b : Bool) → Good s → Good (count_error b s)
    count-Inv s true v = record {
      queued = v.queued;
      running = v.running;
      handlers = v.handlers;
      futures = v.futures;
      places = v.places;
    }
    count-Inv s false v = v

    sent-Inv : (s : Bus B) → Good s → Good (count_sent s)
    sent-Inv s v = record {
      queued = v.queued;
      running = v.running;
      handlers = v.handlers;
      futures = v.futures;
      places = v.places;
    }

    conclude_request-Inv :
        (s : Bus B) (q : IpcHttpRequest B) (o : Option IpcHttpResponse) (b : Bool)
        → IsSent py router requests q
        → (handle_request py router q).0 ≡ o
        → Good s
        → Good (conclude_request s (o, b))
    conclude_request-Inv s q none b w e v = count-Inv s b v
    conclude_request-Inv s q (some r) b w e v =
        sent-Inv _ (send-Inv (count_error b s) q r w e (count-Inv s b v))

    finish_request-Inv :
        (s : Bus B) (o : Option (IpcHttpRequest B × List (IpcHttpRequest B))) (k : ℕ)
        → pick s.in_progress k ≡ o
        → Good s
        → Good (finish_request py router s o)
    finish_request-Inv s none k e v = v
    finish_request-Inv s (some (q, rest)) k e v =
        let (w, others) = pick_all (IsSent py router requests) s.in_progress k q rest v.running e in
        conclude_request-Inv (record s { in_progress = rest }) q (handle_request py router q).0
          (handle_request py router q).1 w refl
          (record {
            queued = v.queued;
            running = others;
            handlers = v.handlers;
            futures = v.futures;
            places = v.places;
          })

    take-Inv :
        (s : Bus B) (qs : List (IpcHttpRequest B))
        → All (IsSent py router requests) qs
        → Good s
        → Good (take_request py router s qs)
    take-Inv s [] w v = v
    take-Inv s (q ∷ qs) w v = either_good router.running
      where
        taken : Good (record s {
          queue = qs;
          in_progress = s.in_progress ++ (q ∷ []);
          metrics = record s.metrics { requests_received = s.metrics.requests_received + 1 };
        })
        taken = record {
          queued = w.1;
          running =
              All-append (IsSent py router requests) s.in_progress (q ∷ []) v.running (w.0, tt);
          handlers = v.handlers;
          futures = v.futures;
          places = v.places;
        }

        either_good :
            (b : Bool)
            → Good (
                if b
                then record s {
                  queue = qs;
                  in_progress = s.in_progress ++ (q ∷ []);
                  metrics = record s.metrics {
                    requests_received = s.metrics.requests_received + 1;
                  };
                }
                else s)
        either_good true = taken
        either_good false = v

    step-Inv :
        (s : Bus B) (e : Event B) → IsCall py router requests e → Good s → Good (step py router s e)
    unfolding step
    step-Inv s (calls i q) w v = begin-Inv py router requests s i q (s.places i) w v
    step-Inv s (resumes i) w v =
        resume-Inv py router requests s i (s.places i) (s.futures i) (v.places i) (v.futures i) v
    step-Inv s (expires i) w v =
        expire-Inv py router requests s i (s.places i) (s.futures i) (v.places i) (v.futures i) v
    step-Inv s (finishes k) w v = finish_request-Inv s (pick s.in_progress k) k refl v
    step-Inv s takes w v = take-Inv s s.queue v.queued v

    run-Inv :
        (s : Bus B) (es : List (Event B))
        → All (IsCall py router requests) es
        → Good s
        → Good (run py router s es)
    unfolding run
    run-Inv s [] w v = v
    run-Inv s (e ∷ es) w v = run-Inv (step py router s e) es w.1 (step-Inv s e w.0 v)

    start-Inv : Good start
    unfolding get
    start-Inv = record {
      queued = tt;
      running = tt;
      handlers = λ id i e. cc;
      futures = λ i. tt;
      places = λ i. tt;
    }

    -- In every order of calls, time-outs and tasks of the router, where the calls make requests of
    -- different ids and the middleware keeps the id: a response that `send_http_request` returns is
    -- the one that the router makes of the caller's own request.
    pub run-start-IsOwn :
        (es : List (Event B)) (i : ℕ) (r : IpcHttpResponse)
        → All (IsCall py router requests) es
        → (run py router start es).places i ≡ returned r
        → (handle_request py router (requests i)).0 ≡ some r
    run-start-IsOwn es i r w e =
        subst (IsGood py router requests i) e ((run-Inv start es w start-Inv).places i)
