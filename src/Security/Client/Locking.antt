-- ===== src/Security/Client/Locking.antt =====
-- The lock and the pending futures of a `SecretClient`, in every interleaving of its calls.
use pywatt_sdk.Prelude.{
  ℕ, String, List, [], ◌∷◌, none, some, ◌≡◌, refl, sym, ◌≢◌, inl, inr, arith, nat_eq, string_eq,
  ◌==◌, Bool-cases,
}
use mathlib.Core.Path.{subst, ◌∙◌}
use pywatt_sdk.Security.Client.{
  unset, SecretClient, new, Task, idle, getting, asking, waiting, joining, cleaning, delivering,
  resolving, rotating, notifying, done, Turn, advance, System, assign, step, run, begin,
}
use pywatt_sdk.Security.Client.Effects.{IsCall, IsSettled, Alone, Kept, Took, Gave, advance-Effect}

-- Nothing is pending while the cache's lock is free, and a task that waits holds the lock, with the
-- one pending future.
pub record Inv (s : System) : Type 0 where
  pub free : s.client.pending_lock ≡ none
  pub quiet : s.client.cache_lock ≡ none → s.client.pending_requests ≡ []
  pub settled : (j : ℕ) → IsSettled (s.tasks j)
  pub held : (j : ℕ) (key : String) → s.tasks j ≡ waiting key → s.client.cache_lock ≡ some j
  pub alone :
      (j : ℕ) (key : String)
      → s.tasks j ≡ waiting key
      → s.client.pending_requests ≡ (key, unset) ∷ []

IsCall-IsSettled : (p : Task) → IsCall p → IsSettled p × ((key : String) → p ≢ waiting key)
IsCall-IsSettled idle c = (tt, λ k e. cc)
IsCall-IsSettled (getting key mode) c = (tt, λ k e. cc)
IsCall-IsSettled (delivering m) c = (tt, λ k e. cc)
IsCall-IsSettled (rotating n) c = (tt, λ k e. cc)
IsCall-IsSettled (asking key) c = absurd c
IsCall-IsSettled (waiting key) c = absurd c
IsCall-IsSettled (joining key) c = absurd c
IsCall-IsSettled (cleaning key r) c = absurd c
IsCall-IsSettled (resolving m) c = absurd c
IsCall-IsSettled (notifying n) c = absurd c
IsCall-IsSettled (done r) c = absurd c

begin-Inv : (calls : ℕ → Task) → ((j : ℕ) → IsCall (calls j)) → Inv (begin calls)
unfolding new
begin-Inv calls h = record {
  free = refl;
  quiet = λ _. refl;
  settled = λ j. (IsCall-IsSettled (calls j) (h j)).0;
  held = λ j key e. absurd ((IsCall-IsSettled (calls j) (h j)).1 key e);
  alone = λ j key e. absurd ((IsCall-IsSettled (calls j) (h j)).1 key e);
}

pub Inv-Alone : (s : System) (i : ℕ) → Inv s → Alone s.client i (s.tasks i)
Inv-Alone s i v = record { free = v.free; quiet = v.quiet; held = v.held i; alone = v.alone i }

-- A task after a turn is the one that had it, or as before.
pub assign_holds {ℓ} :
    (P : Task → Type ℓ) (f : ℕ → Task) (i j : ℕ) {p : Task}
    → (j ≡ i → P p)
    → (j ≢ i → P (f j))
    → P (assign f i p j)
assign_holds P f i j {p} h k = elim (Bool-cases (j == i)) [
  | inl e ↦ rw e (h ((nat_eq.beq_iff j i).0 e))
  | inr e ↦ rw e (k (λ q. ground (arith, nat_eq.beq_iff j i)))
]

assign-all {ℓ} :
    (P : ℕ → Task → Type ℓ) {f : ℕ → Task} (i : ℕ) {p : Task}
    → P i p
    → ((j : ℕ) → j ≢ i → P j (f j))
    → (j : ℕ) → P j (assign f i p j)
assign-all P {f} i h k j = assign_holds (P j) f i j (λ e. rw e h) (k j)

module _ (s : System) (i : ℕ) (c : SecretClient) (p : Task) (v : Inv s) where
  abbrev after : System
  after = record { client = c; tasks = assign s.tasks i p }

  abbrev Held : ℕ → Task → Type 0
  Held j q = (key : String) → q ≡ waiting key → c.cache_lock ≡ some j

  abbrev Only : ℕ → Task → Type 0
  Only j q = (key : String) → q ≡ waiting key → c.pending_requests ≡ (key, unset) ∷ []

  Kept-Inv : Kept s.client (s.tasks i) c p → Inv after
  Kept-Inv k = record {
    free = k.free;
    quiet = λ e. k.pending ∙ v.quiet (sym k.lock_after ∙ e);
    settled = assign-all (λ _ q. IsSettled q) i k.settled (λ j _. v.settled j);
    held =
        assign-all Held i (λ key e. k.lock_after ∙ v.held i key (k.waits key e))
          (λ j _ key e. k.lock_after ∙ v.held j key e);
    alone =
        assign-all Only i (λ key e. k.pending ∙ v.alone i key (k.waits key e))
          (λ j _ key e. k.pending ∙ v.alone j key e);
  }

  Took-Inv : Took s.client i c p → Inv after
  Took-Inv k = record {
    free = k.free;
    quiet = λ e. cc (e, k.lock_after);
    settled =
        assign-all (λ _ q. IsSettled q) i (subst IsSettled (sym k.waits) tt) (λ j _. v.settled j);
    held = assign-all Held i (λ key e. k.lock_after) (λ j _ key e. cc (k.was_free, v.held j key e));
    alone =
        assign-all Only i (λ key e. cc (k.pending, k.waits, e))
          (λ j _ key e. cc (k.was_free, v.held j key e));
  }

  Gave-Inv : Gave (s.tasks i) c p → Inv after
  Gave-Inv k = record {
    free = k.free;
    quiet = λ _. k.pending;
    settled =
        assign-all (λ _ q. IsSettled q) i (subst IsSettled (sym k.timed) tt) (λ j _. v.settled j);
    held =
        assign-all Held i (λ key e. cc (k.timed, e))
          (λ j n key e. absurd (n (alone_waits j key e)));
    alone =
        assign-all Only i (λ key e. cc (k.timed, e))
          (λ j n key e. absurd (n (alone_waits j key e)));
  }
    where
      alone_waits : (j : ℕ) (key : String) → s.tasks j ≡ waiting key → j ≡ i
      alone_waits j key e = cc (v.held j key e, v.held i k.key k.waits)

pub step-Inv : (s : System) (t : Turn) → Inv s → Inv (step s t)
unfolding step
step-Inv s t v =
    let (c, p) = advance s.client t.task t (s.tasks t.task) in
    elim (advance-Effect s.client t.task t (s.tasks t.task) (v.settled t.task)
      (Inv-Alone s t.task v)) [
        | inl k ↦ Kept-Inv s t.task c p v k
        | inr (inl k) ↦ Took-Inv s t.task c p v k
        | inr (inr k) ↦ Gave-Inv s t.task c p v k
      ]

run-Inv : (s : System) (ts : List Turn) → Inv s → Inv (run s ts)
unfolding run
run-Inv s [] v = v
run-Inv s (t ∷ ts) v = run-Inv (step s t) ts (step-Inv s t v)

-- The calls are made of a new client, each by a task of its own.
pub run-begin-Inv :
    (calls : ℕ → Task) (ts : List Turn) → ((j : ℕ) → IsCall (calls j)) → Inv (run (begin calls) ts)
run-begin-Inv calls ts h = run-Inv (begin calls) ts (begin-Inv calls h)
