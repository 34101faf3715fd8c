-- ===== src/Security/Client/Effects.antt =====
-- What one turn of a task does to the lock and the pending futures of a `SecretClient`.
use pywatt_sdk.Prelude.{
  ℕ, String, Bool, true, false, [], ◌∷◌, none, some, ◌≡◌, refl, sym, ◌⊎◌, inl, inr, arith, nat_eq,
  string_eq, if◌then◌else◌, Option-cases,
}
use mathlib.Core.Path.{subst}
use pywatt_sdk.Prelude.Dict.{get, put, remove}
use pywatt_sdk.Security.Client.{
  RequestMode, timed_out, unsent, processed, Future, unset, cancelled, SecretValueResponse,
  SecretClient, Task, idle, getting, asking, waiting, joining, cleaning, delivering, resolving,
  rotating, notifying, done, Turn, answer_locally, ask, get_secret, await_response,
  process_secret_message, when_free, advance,
}

-- A task before its first turn.
abbrev pub IsCall : Task → Type 0
IsCall idle = Unit
IsCall (getting key mode) = Unit
IsCall (delivering m) = Unit
IsCall (rotating n) = Unit
IsCall _ = ⊥

-- The points that tasks reach.
abbrev pub IsSettled : Task → Type 0
IsSettled (asking key) = ⊥
IsSettled (joining key) = ⊥
IsSettled (cleaning key r) = ⊥
IsSettled (resolving m) = ⊥
IsSettled _ = Unit

-- What a task knows of the locks at its turn.
pub record Alone (c : SecretClient) (i : ℕ) (p : Task) : Type 0 where
  pub free : c.pending_lock ≡ none
  pub quiet : c.cache_lock ≡ none → c.pending_requests ≡ []
  pub held : (key : String) → p ≡ waiting key → c.cache_lock ≡ some i
  pub alone : (key : String) → p ≡ waiting key → c.pending_requests ≡ (key, unset) ∷ []

-- A turn that leaves the lock and the futures alone, one that takes the lock, one that frees it.
pub record Kept (c : SecretClient) (p : Task) (c' : SecretClient) (p' : Task) : Type 0 where
  pub lock_after : c'.cache_lock ≡ c.cache_lock
  pub pending : c'.pending_requests ≡ c.pending_requests
  pub free : c'.pending_lock ≡ none
  pub settled : IsSettled p'
  pub waits : (key : String) → p' ≡ waiting key → p ≡ waiting key

pub record Took (c : SecretClient) (i : ℕ) (c' : SecretClient) (p' : Task) : Type 0 where
  pub key : String
  pub was_free : c.cache_lock ≡ none
  pub lock_after : c'.cache_lock ≡ some i
  pub pending : c'.pending_requests ≡ (key, unset) ∷ []
  pub free : c'.pending_lock ≡ none
  pub waits : p' ≡ waiting key

pub record Gave (p : Task) (c' : SecretClient) (p' : Task) : Type 0 where
  pub key : String
  pub waits : p ≡ waiting key
  pub lock_after : c'.cache_lock ≡ none
  pub pending : c'.pending_requests ≡ []
  pub free : c'.pending_lock ≡ none
  pub timed : p' ≡ done timed_out

abbrev pub Effect : SecretClient → ℕ → Task → SecretClient × Task → Type 0
Effect c i p (c', p') = Kept c p c' p' ⊎ Took c i c' p' ⊎ Gave p c' p'

remove_only : (key : String) (f : Future) → remove ((key, f) ∷ []) key ≡ []
unfolding remove
remove_only key f = ground (arith, string_eq.beq_iff key key)

get_only : (key : String) (f : Future) → get ((key, f) ∷ []) key ≡ some f
unfolding get
get_only key f = ground (arith, string_eq.beq_iff key key)

module _ (c : SecretClient) (i : ℕ) (t : Turn) where
  -- With no future pending, a call that asks the orchestrator waits, or frees the lock at once.
  pub ask-quiet :
      (key : String)
      → c.pending_lock ≡ none
      → c.pending_requests ≡ []
      → ask (record c { cache_lock = some i }) i t key ≡ (
          if t.is_sent
          then (record c { cache_lock = some i; pending_requests = (key, unset) ∷ [] }, waiting key)
          else (record c { cache_lock = none; pending_requests = [] }, done unsent))
  unfolding ask get put
  ask-quiet key e f = ground (arith, remove_only key unset)

  -- A call that waits ends by its time-out.
  pub await-alone :
      (key : String)
      → c.pending_lock ≡ none
      → c.pending_requests ≡ (key, unset) ∷ []
      → await_response c t key (get c.pending_requests key) ≡ (
          if t.is_expired
          then (record c { cache_lock = none; pending_requests = [] }, done timed_out)
          else (c, waiting key))
  unfolding await_response put
  await-alone key e f =
      ground (arith, get_only key unset, remove_only key cancelled, string_eq.beq_iff key key)

  -- A message that arrives while nothing is pending resolves no future.
  process-quiet :
      (m : SecretValueResponse)
      → c.pending_lock ≡ none
      → c.pending_requests ≡ []
      → process_secret_message c m ≡ (
        record c {
          cache = put c.cache m.name m.value;
          rotation_tracking = (process_secret_message c m).0.rotation_tracking;
        },
        done processed,
      )
  unfolding process_secret_message get
  process-quiet m e f = ground arith

  pub blocked :
      (p : Task) (next : SecretClient × Task) (j : ℕ)
      → c.cache_lock ≡ some j
      → when_free c p next ≡ (c, p)
  blocked p next j e = ground arith

  pub opened :
      (p : Task) (next : SecretClient × Task) → c.cache_lock ≡ none → when_free c p next ≡ next
  opened p next e = ground arith

  unchanged : (p : Task) → IsSettled p → Alone c i p → Effect c i p (c, p)
  unchanged p w a =
      inl
        (record { lock_after = refl; pending = refl; free = a.free; settled = w; waits = λ k e. e })

  either :
      {p : Task} (b : Bool) {x y : SecretClient × Task}
      → Effect c i p x
      → Effect c i p y
      → Effect c i p (if b then x else y)
  either true h k = h
  either false h k = k

  asked-Effect :
      (key : String) (mode : RequestMode)
      → c.cache_lock ≡ none
      → Alone c i (getting key mode)
      → Effect c i (getting key mode) (
          if t.is_sent
          then (record c { cache_lock = some i; pending_requests = (key, unset) ∷ [] }, waiting key)
          else (record c { cache_lock = none; pending_requests = [] }, done unsent))
  asked-Effect key mode e a =
      either t.is_sent
        (inr (
          inl (record {
            key = key;
            was_free = e;
            lock_after = refl;
            pending = refl;
            free = a.free;
            waits = refl;
          })))
        (inl (record {
          lock_after = sym e;
          pending = sym (a.quiet e);
          free = a.free;
          settled = tt;
          waits = λ k q. cc;
        }))

  taken-Effect :
      (key : String) (mode : RequestMode)
      → c.cache_lock ≡ none
      → Alone c i (getting key mode)
      → Effect c i (getting key mode) (get_secret c i t key mode)
  unfolding get_secret
  taken-Effect key mode e a = elim (Option-cases (answer_locally c key mode)) [
    | inr (r, f) ↦
        rw (f, get_secret)
          (inl (record {
            lock_after = refl;
            pending = refl;
            free = a.free;
            settled = tt;
            waits = λ k p. cc;
          }))
    | inl f ↦ rw (f, get_secret, ask-quiet key a.free (a.quiet e)) (asked-Effect key mode e a)
  ]

  -- A task that waits for the cache's lock stays where it is.
  guarded-Effect :
      (p : Task) (next : SecretClient × Task)
      → IsSettled p
      → Alone c i p
      → (c.cache_lock ≡ none → Effect c i p next)
      → Effect c i p (when_free c p next)
  guarded-Effect p next w a h = elim (Option-cases c.cache_lock) [
    | inr (j, e) ↦ subst (Effect c i p) (sym (blocked p next j e)) (unchanged p w a)
    | inl e ↦ subst (Effect c i p) (sym (opened p next e)) (h e)
  ]

  expired-Effect :
      (key : String)
      → Alone c i (waiting key)
      → Effect c i (waiting key) (
          if t.is_expired
          then (record c { cache_lock = none; pending_requests = [] }, done timed_out)
          else (c, waiting key))
  expired-Effect key a =
      either t.is_expired
        (inr (
          inr (record {
            key = key;
            waits = refl;
            lock_after = refl;
            pending = refl;
            free = a.free;
            timed = refl;
          })))
        (unchanged (waiting key) tt a)

  pub advance-Effect : (p : Task) → IsSettled p → Alone c i p → Effect c i p (advance c i t p)
  unfolding advance
  advance-Effect idle w a = unchanged idle tt a
  advance-Effect (getting key mode) w a =
      guarded-Effect (getting key mode) _ tt a (λ e. taken-Effect key mode e a)
  advance-Effect (asking key) w a = absurd w
  advance-Effect (waiting key) w a =
      subst (Effect c i (waiting key)) (sym (await-alone key a.free (a.alone key refl)))
        (expired-Effect key a)
  advance-Effect (joining key) w a = absurd w
  advance-Effect (cleaning key r) w a = absurd w
  advance-Effect (delivering m) w a = guarded-Effect (delivering m) _ tt a λ e.
      subst (Effect c i (delivering m)) (sym (process-quiet m a.free (a.quiet e))) (
        inl (record {
          lock_after = refl;
          pending = refl;
          free = a.free;
          settled = tt;
          waits = λ k p. cc;
        }))
  advance-Effect (resolving m) w a = absurd w
  advance-Effect (rotating n) w a = guarded-Effect (rotating n) _ tt a λ e.
      inl (record {
        lock_after = refl;
        pending = refl;
        free = a.free;
        settled = tt;
        waits = λ k p. cc;
      })
  advance-Effect (notifying n) w a =
      either t.is_sent
        (inl (record {
          lock_after = refl;
          pending = refl;
          free = a.free;
          settled = tt;
          waits = λ k p. cc;
        }))
        (inl (record {
          lock_after = refl;
          pending = refl;
          free = a.free;
          settled = tt;
          waits = λ k p. cc;
        }))
  advance-Effect (done r) w a = unchanged (done r) tt a
