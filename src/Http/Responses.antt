-- ===== src/Http/Responses.antt =====
-- Each call of `send_http_request` gets the response to its own request.
use pywatt_sdk.Prelude.{
  ℕ, String, Bool, true, false, [], ◌∷◌, ◌++◌, Option, none, some, length, ltb, nat_eq, string_eq,
  ◌==◌, if◌then◌else◌, ◌≡◌, All, All-append, arith, Bool-cases, inl, inr,
}
use pywatt_sdk.Prelude.Dict.{get, put, remove, get-put, get-remove}
use pywatt_sdk.Http.{
  IpcHttpRequest, IpcHttpResponse, ApiResponse, to_ipc_response, HttpIpcRouter, Python,
  handle_request,
}
use pywatt_sdk.Http.Exchange.{
  Place, idle, timed_out, putting, awaiting, returned, Bus, Event, calls, update,
  handle_http_request, begin_call, resume_call, expire_call,
}

pub to_ipc_response_answers :
    (a : ApiResponse) (id : String) (r : IpcHttpResponse)
    → to_ipc_response a id ≡ some r
    → r.answers ≡ id
to_ipc_response_answers a id r e = ground arith

pub update-all {ℓ κ} :
    {A : Type ℓ} (P : ℕ → A → Type κ) {f : ℕ → A} (i : ℕ) {a : A}
    → P i a
    → ((j : ℕ) → P j (f j))
    → (j : ℕ) → P j (update f i a j)
update-all P {f} i {a} h k j = elim (Bool-cases (j == i)) [
  | inl e ↦ rw (e, (nat_eq.beq_iff j i).0 e) h
  | inr e ↦ rw e (k j)
]

module _ {B D : Type 0} (py : Python D) (router : HttpIpcRouter B D)
    (requests : ℕ → IpcHttpRequest B) where
  abbrev pub IsSent : IpcHttpRequest B → Type 0
  IsSent q = (j : ℕ) × (q ≡ requests j)

  abbrev pub IsOwn : ℕ → IpcHttpResponse → Type 0
  IsOwn i r = (handle_request py router (requests i)).0 ≡ some r

  -- Calls make the requests of the family.
  abbrev pub IsCall : Event B → Type 0
  IsCall (calls i q) = q ≡ requests i
  IsCall _ = Unit

  abbrev pub IsGood : ℕ → Place B → Type 0
  IsGood i idle = Unit
  IsGood i timed_out = Unit
  IsGood i (putting q) = q ≡ requests i
  IsGood i (awaiting q) = q ≡ requests i
  IsGood i (returned r) = IsOwn i r

  abbrev pub IsFuture : ℕ → Option IpcHttpResponse → Type 0
  IsFuture i none = Unit
  IsFuture i (some r) = IsOwn i r

  pub record Inv (s : Bus B) : Type 0 where
    pub queued : All IsSent s.queue
    pub running : All IsSent s.in_progress
    pub handlers :
        (id : String) (i : ℕ) → get s.response_handlers id ≡ some i → id ≡ (requests i).request_id
    pub futures : (i : ℕ) → IsFuture i (s.futures i)
    pub places : (i : ℕ) → IsGood i (s.places i)

  either_Inv : (b : Bool) (x y : Bus B) → Inv x → Inv y → Inv (if b then x else y)
  either_Inv true x y h k = h
  either_Inv false x y h k = k

  pub place-Inv :
      (s : Bus B) (i : ℕ) (p : Place B)
      → IsGood i p
      → Inv s
      → Inv (record s { places = update s.places i p })
  place-Inv s i p g v = record {
    queued = v.queued;
    running = v.running;
    handlers = v.handlers;
    futures = v.futures;
    places = update-all IsGood i g v.places;
  }

  pub queue-Inv :
      (s : Bus B) (q : IpcHttpRequest B)
      → IsSent q
      → Inv s
      → Inv (record s { queue = s.queue ++ (q ∷ []) })
  queue-Inv s q w v = record {
    queued = All-append IsSent s.queue (q ∷ []) v.queued (w, tt);
    running = v.running;
    handlers = v.handlers;
    futures = v.futures;
    places = v.places;
  }

  put-Inv :
      (s : Bus B) (i : ℕ) (q : IpcHttpRequest B)
      → q ≡ requests i
      → Inv s
      → Inv (handle_http_request s i q)
  unfolding handle_http_request
  put-Inv s i q e v =
      either_Inv (ltb (length s.queue) 256) _ _
        (queue-Inv (record s { places = update s.places i (awaiting q) }) q (i, e)
          (place-Inv s i (awaiting q) e v))
        (place-Inv s i (putting q) e v)

  pub drop_handler-Inv :
      (s : Bus B) (id : String)
      → Inv s
      → Inv (record s { response_handlers = remove s.response_handlers id })
  drop_handler-Inv s id v = record {
    queued = v.queued;
    running = v.running;
    handlers = λ k i e. ground (arith, get-remove s.response_handlers id k, v.handlers k i, e);
    futures = v.futures;
    places = v.places;
  }

  register-Inv :
      (s : Bus B) (i : ℕ) (q : IpcHttpRequest B)
      → q ≡ requests i
      → Inv s
      → Inv (record s {
        response_handlers = put s.response_handlers q.request_id i;
        futures = update s.futures i none;
      })
  register-Inv s i q e v = record {
    queued = v.queued;
    running = v.running;
    handlers = λ k j f. ground (
      arith,
      get-put s.response_handlers q.request_id k i,
      v.handlers k j,
      f,
      e,
      string_eq.beq_iff q.request_id k,
    );
    futures = update-all IsFuture i tt v.futures;
    places = v.places;
  }

  pub begin-Inv :
      (s : Bus B) (i : ℕ) (q : IpcHttpRequest B) (p : Place B)
      → q ≡ requests i
      → Inv s
      → Inv (begin_call s i q p)
  begin-Inv s i q idle e v = put-Inv _ i q e (register-Inv s i q e v)
  begin-Inv s i q timed_out e v = v
  begin-Inv s i q (putting p) e v = v
  begin-Inv s i q (awaiting p) e v = v
  begin-Inv s i q (returned r) e v = v

  pub resume-Inv :
      (s : Bus B) (i : ℕ) (p : Place B) (f : Option IpcHttpResponse)
      → IsGood i p
      → IsFuture i f
      → Inv s
      → Inv (resume_call s i p f)
  resume-Inv s i idle f g w v = v
  resume-Inv s i timed_out f g w v = v
  resume-Inv s i (putting q) f g w v = put-Inv s i q g v
  resume-Inv s i (awaiting q) none g w v = v
  resume-Inv s i (awaiting q) (some r) g w v = place-Inv s i (returned r) w v
  resume-Inv s i (returned r) f g w v = v

  pub expire-Inv :
      (s : Bus B) (i : ℕ) (p : Place B) (f : Option IpcHttpResponse)
      → IsGood i p
      → IsFuture i f
      → Inv s
      → Inv (expire_call s i p f)
  expire-Inv s i idle f g w v = v
  expire-Inv s i timed_out f g w v = v
  expire-Inv s i (putting q) f g w v = v
  expire-Inv s i (awaiting q) none g w v =
      place-Inv _ i timed_out tt (drop_handler-Inv s q.request_id v)
  expire-Inv s i (awaiting q) (some r) g w v = place-Inv s i (returned r) w v
  expire-Inv s i (returned r) f g w v = v
