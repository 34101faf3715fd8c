-- ===== src/Security/Client.antt =====
-- `SecretClient` of security/secret_client.py. The calls of its methods are tasks of one event loop:
-- a turn runs a task from one suspension to the next, in the order of an arbitrary schedule. A lock
-- is free (`none`) or held by a task. The calls of the client that a rotation's subscribers make are
-- further tasks.
pub mod Effects
pub mod Locking
pub mod Waiting
mod Tests
use pywatt_sdk.Prelude.{
  ℕ, String, Bool, true, List, [], ◌∷◌, Option, none, some, nat_eq, string_eq, ◌==◌, if◌then◌else◌,
}
use pywatt_sdk.Prelude.Dict.{Dict, get, put, remove}
use pywatt_sdk.Prelude.Texts.{given}

pub data RequestMode : Type 0 where
  cache_then_remote force_remote cache_only : RequestMode

-- How a call ends: `get_secret` with a secret, or with an exception.
pub data Result : Type 0 where
  secret : String → Result
  not_cached timed_out cancelled_error unsent processed : Result

-- `asyncio.Future`
pub data Future : Type 0 where
  unset cancelled : Future
  resolved : String → Future

pub record SecretValueResponse : Type 0 where
  pub name : String
  pub value : String
  pub rotation_id : Option String

pub record RotatedNotification : Type 0 where
  pub rotated : List String
  pub rotation : String

pub record SecretClient : Type 0 where
  pub cache : Dict String String
  pub cache_lock : Option ℕ
  pub rotation_tracking : Dict String String
  pub last_ack : Option String
  pub pending_requests : Dict String Future
  pub pending_lock : Option ℕ

unfoldable pub new : SecretClient
new = record {
  cache = [];
  cache_lock = none;
  rotation_tracking = [];
  last_ack = none;
  pending_requests = [];
  pending_lock = none;
}

-- Where a task is: before its first turn (`getting`, `delivering`, `rotating`), at an await, or done.
pub data Task : Type 0 where
  idle : Task
  getting : String → RequestMode → Task
  asking waiting joining : String → Task
  cleaning : String → Result → Task
  delivering resolving : SecretValueResponse → Task
  rotating notifying : RotatedNotification → Task
  done : Result → Task

-- One turn: whose it is, whether its writes to the orchestrator succeed, and whether the 30 seconds
-- of its wait are over.
pub record Turn : Type 0 where
  pub task : ℕ
  pub is_sent : Bool
  pub is_sent_again : Bool
  pub is_expired : Bool

abbrev found : Option String → Option Result
found none = none
found (some v) = some (secret v)

-- What `get_secret` answers without the orchestrator.
unfoldable pub answer_locally : SecretClient → String → RequestMode → Option Result
answer_locally c key force_remote = none
answer_locally c key cache_then_remote = found (get c.cache key)
answer_locally c key cache_only = elim (get c.cache key) [
  | none ↦ some not_cached
  | some v ↦ some (secret v)
]

abbrev pub free_lock : SecretClient → SecretClient
free_lock c = record c { cache_lock = none }

-- The `finally` block: it needs the second lock, then both are free.
unfoldable pub clean : SecretClient → String → Result → SecretClient × Task
clean c key r = elim c.pending_lock [
  | some _ ↦ (c, cleaning key r)
  | none ↦ (free_lock (record c { pending_requests = remove c.pending_requests key }), done r)
]

-- `return await self._pending_requests[key]`, with both locks held.
unfoldable pub join_pending : SecretClient → ℕ → String → Future → SecretClient × Task
join_pending c i key unset = (record c { pending_lock = some i }, joining key)
join_pending c i key cancelled =
    (free_lock (record c { pending_lock = none }), done cancelled_error)
join_pending c i key (resolved v) = (free_lock (record c { pending_lock = none }), done (secret v))

abbrev pub set_future : SecretClient → String → Future → SecretClient
set_future c key f = record c { pending_requests = put c.pending_requests key f }

unfoldable pub request : SecretClient → ℕ → Turn → String → SecretClient × Task
unfolding clean join_pending
request c i t key = elim (get c.pending_requests key) [
  | some f ↦ join_pending c i key f
  | none ↦
      if t.is_sent
      then (set_future c key unset, waiting key)
      else clean (set_future c key unset) key unsent
]

unfoldable pub ask : SecretClient → ℕ → Turn → String → SecretClient × Task
unfolding request
ask c i t key = elim c.pending_lock [ some _ ↦ (c, asking key) | none ↦ request c i t key ]

-- `get_secret`, with the cache's lock just taken.
unfoldable pub get_secret : SecretClient → ℕ → Turn → String → RequestMode → SecretClient × Task
unfolding answer_locally ask
get_secret c i t key mode = elim (answer_locally c key mode) [
  | some r ↦ (c, done r)
  | none ↦ ask (record c { cache_lock = some i }) i t key
]

-- `asyncio.wait_for`: a time-out cancels the future. The entry of the future stays while its task
-- waits.
unfoldable pub await_response : SecretClient → Turn → String → Option Future → SecretClient × Task
unfolding clean
await_response c t key none = (c, waiting key)
await_response c t key (some unset) =
    if t.is_expired then clean (set_future c key cancelled) key timed_out else (c, waiting key)
await_response c t key (some cancelled) = clean c key cancelled_error
await_response c t key (some (resolved v)) =
    clean (record c { cache = put c.cache key v }) key (secret v)

unfoldable pub await_joined : SecretClient → ℕ → String → Option Future → SecretClient × Task
unfolding join_pending
await_joined c i key none = (c, joining key)
await_joined c i key (some f) = join_pending c i key f

-- `if not future.done(): future.set_result(secret)`
abbrev pub resolve_future : SecretClient → SecretValueResponse → Option Future → SecretClient
resolve_future c m (some unset) = set_future c m.name (resolved m.value)
resolve_future c m _ = c

unfoldable pub resolve : SecretClient → SecretValueResponse → SecretClient × Task
resolve c m = elim c.pending_lock [
  | some _ ↦ (c, resolving m)
  | none ↦ (resolve_future c m (get c.pending_requests m.name), done processed)
]

track : Dict String String → String → Option String → Dict String String
track d name none = d
track d name (some id) = put d name id

-- `process_secret_message`, with the cache's lock just taken. It is free again at once. Before it asks
-- for the lock the method registers the value for redaction in the log, which is left out.
unfoldable pub process_secret_message : SecretClient → SecretValueResponse → SecretClient × Task
unfolding resolve track
process_secret_message c m =
    resolve
      (record c {
        cache = put c.cache m.name m.value;
        rotation_tracking = track c.rotation_tracking m.name (given m.rotation_id);
      })
      m

unfoldable pub pop_keys : Dict String String → List String → Dict String String
pop_keys d [] = d
pop_keys d (k ∷ ks) = pop_keys (remove d k) ks

-- The first part of `process_rotation_message`, with the cache's lock just taken.
unfoldable pub invalidate : SecretClient → RotatedNotification → SecretClient × Task
unfolding pop_keys
invalidate c n = (record c { cache = pop_keys c.cache n.rotated }, notifying n)

-- The last part: where the first write fails, the failure is reported, and that may fail too.
unfoldable pub acknowledge : SecretClient → Turn → RotatedNotification → SecretClient × Task
acknowledge c t n =
    if t.is_sent
    then (record c { last_ack = some n.rotation }, done processed)
    else (c, done (if t.is_sent_again then processed else unsent))

-- A task that needs the cache's lock waits for it.
abbrev pub when_free : SecretClient → Task → SecretClient × Task → SecretClient × Task
when_free c p next = elim c.cache_lock [ some _ ↦ (c, p) | none ↦ next ]

unfoldable pub advance : SecretClient → ℕ → Turn → Task → SecretClient × Task
unfolding get_secret ask await_response await_joined clean process_secret_message resolve invalidate
    acknowledge
advance c i t idle = (c, idle)
advance c i t (getting key mode) = when_free c (getting key mode) (get_secret c i t key mode)
advance c i t (asking key) = ask c i t key
advance c i t (waiting key) = await_response c t key (get c.pending_requests key)
advance c i t (joining key) = await_joined c i key (get c.pending_requests key)
advance c i t (cleaning key r) = clean c key r
advance c i t (delivering m) = when_free c (delivering m) (process_secret_message c m)
advance c i t (resolving m) = resolve c m
advance c i t (rotating n) = when_free c (rotating n) (invalidate c n)
advance c i t (notifying n) = acknowledge c t n
advance c i t (done r) = (c, done r)

pub record System : Type 0 where
  pub client : SecretClient
  pub tasks : ℕ → Task

abbrev pub assign : (ℕ → Task) → ℕ → Task → ℕ → Task
assign f i p j = if j == i then p else f j

unfoldable pub step : System → Turn → System
unfolding advance
step s t =
    let (c, p) = advance s.client t.task t (s.tasks t.task) in
    record { client = c; tasks = assign s.tasks t.task p }

unfoldable pub run : System → List Turn → System
unfolding step
run s [] = s
run s (t ∷ ts) = run (step s t) ts

abbrev pub begin : (ℕ → Task) → System
begin calls = record { client = new; tasks = calls }
