-- ===== src/Tcp/Connecting.antt =====
-- How often a `TcpChannel` tries to connect.
use pywatt_sdk.Prelude.{
  ℕ, zero, suc, ◌+◌, ◌<◌, ◌≡◌, ◌≢◌, refl, ◌∙◌, sym, List, [], ◌∷◌, ◌++◌, some, arith, length, All,
}
use mathlib.Core.List.{append_assoc, append-nil}
use mathlib.Core.Path.{subst}
use pywatt_sdk.Prelude.Float.{Float, min_of}
use pywatt_sdk.Tcp.{
  connected, disconnected, failed, Stream, Attempt, opened, NetworkError, reconnection_failed,
  returned, raised, waits, TcpChannel, Calling, try_connect, set_state, pause,
  connect_fixed_interval, connect_exponential_backoff,
}

-- Attempts that fail.
abbrev pub IsFailing : Attempt → Type 0
IsFailing (opened s) = ⊥
IsFailing _ = Unit

abbrev pub times {ℓ} : {A : Type ℓ} → ℕ → A → List A
times zero a = []
times (suc n) a = a ∷ times n a

-- `n` values, each made of the one before.
abbrev pub delays {ℓ} : {A : Type ℓ} → (A → A) → ℕ → A → List A
delays f zero d = []
delays f (suc n) d = d ∷ delays f n (f d)

-- A call that opened a stream, or gave up, or is not over, after pauses of given lengths.
pub record Opened {F : Float} (before : List F.Carrier) (s : Stream) (pauses : List F.Carrier)
    (left : List Attempt) (r : Calling F (Unit {0})) : Type 0 where
  pub answer : r.0 ≡ returned tt
  pub link : r.1.link ≡ some s
  pub state : r.1.state ≡ connected
  pub slept : r.1.slept ≡ before ++ pauses
  pub unused : r.2 ≡ left

pub record GaveUp {F : Float} (before : List F.Carrier) (n : ℕ) (pauses : List F.Carrier)
    (left : List Attempt) (r : Calling F (Unit {0})) : Type 0 where
  pub answer : r.0 ≡ raised (reconnection_failed n)
  pub state : r.1.state ≡ failed
  pub slept : r.1.slept ≡ before ++ pauses
  pub unused : r.2 ≡ left

pub record Tries {F : Float} (before : List F.Carrier) (pauses : List F.Carrier)
    (r : Calling F (Unit {0})) : Type 0 where
  pub answer : r.0 ≡ waits
  pub slept : r.1.slept ≡ before ++ pauses

module _ {F : Float} (c : TcpChannel F) (away : c.state ≢ connected) where
  -- The channel after a failure, and the pause that follows.
  abbrev after : ℕ → F.Carrier → TcpChannel F
  after n d = pause (set_state c disconnected) n d

  try_failing :
      (f : Attempt)
      → IsFailing f
      → (e : NetworkError) × (try_connect c f ≡ (raised e, set_state c disconnected))
  unfolding try_connect
  try_failing (opened s) w = absurd w
  try_failing Attempt.timed_out w = (NetworkError.connection_timeout, ground arith)
  try_failing Attempt.refused w = (NetworkError.connection_error, ground arith)

  try_opened :
      (s : Stream)
      → try_connect c (opened s) ≡ (returned tt, record c { link = some s; state = connected })
  unfolding try_connect
  try_opened s = ground arith

  fixed_again :
      (f : Attempt) (left : List Attempt) (n limit : ℕ)
      → IsFailing f
      → c.config.max_attempts ≡ some (suc limit)
      → n + 1 < suc limit
      → connect_fixed_interval c n (f ∷ left)
        ≡ connect_fixed_interval (after (n + 1) c.config.fixed_delay) (n + 1) left
  unfolding connect_fixed_interval
  fixed_again f left n limit w e h = let (x, q) = try_failing f w in ground arith

  fixed_opened :
      (s : Stream) (left : List Attempt) (n limit : ℕ)
      → c.config.max_attempts ≡ some (suc limit)
      → n < suc limit
      → connect_fixed_interval c n (opened s ∷ left)
        ≡ (returned tt, record c { link = some s; state = connected }, left)
  unfolding connect_fixed_interval
  fixed_opened s left n limit e h = ground (arith, try_opened s)

  fixed_last :
      (f : Attempt) (left : List Attempt) (n limit : ℕ)
      → IsFailing f
      → c.config.max_attempts ≡ some (suc limit)
      → n ≡ limit
      → connect_fixed_interval c n (f ∷ left) ≡ (
        raised (reconnection_failed (suc limit)),
        record c { state = failed; connect_attempts = suc limit },
        left,
      )
  unfolding connect_fixed_interval
  fixed_last f left n limit w e h = let (x, q) = try_failing f w in ground arith

  backoff_again :
      (f : Attempt) (left : List Attempt) (n : ℕ) (d : F.Carrier)
      → IsFailing f
      → connect_exponential_backoff c n d (f ∷ left)
        ≡ connect_exponential_backoff
            (after (n + 1) d)
            (n + 1)
            (min_of F (F.mul d c.config.multiplier) c.config.max_delay)
            left
  unfolding connect_exponential_backoff
  backoff_again f left n d w = let (x, q) = try_failing f w in ground arith

  backoff_opened :
      (s : Stream) (left : List Attempt) (n : ℕ) (d : F.Carrier)
      → connect_exponential_backoff c n d (opened s ∷ left)
        ≡ (returned tt, record c { link = some s; state = connected }, left)
  unfolding connect_exponential_backoff
  backoff_opened s left n d = ground (arith, try_opened s)

module _ {F : Float} where
  pub fixed-Opened :
      (c : TcpChannel F) (fails left : List Attempt) (s : Stream) (n limit : ℕ)
      → c.state ≢ connected
      → All IsFailing fails
      → c.config.max_attempts ≡ some (suc limit)
      → n + length fails < suc limit
      → Opened {F = F} c.slept s
          (times (length fails) c.config.fixed_delay)
          left
          (connect_fixed_interval c n (fails ++ (opened s ∷ left)))
  fixed-Opened c [] left s n limit a w e h =
      subst (Opened {F = F} c.slept s [] left)
        (sym (fixed_opened c a s left n limit e (omega (arith, h))))
        (record {
          answer = refl;
          link = refl;
          state = refl;
          slept = sym (append-nil c.slept);
          unused = refl;
        })
  fixed-Opened c (f ∷ fs) left s n limit a w e h =
      let d = c.config.fixed_delay in
      let ih =
        fixed-Opened (after c a (n + 1) d) fs left s (n + 1) limit (λ q. cc) w.1 e
          (omega (arith, h)) in
      subst (Opened {F = F} c.slept s (d ∷ times (length fs) d) left)
        (sym (fixed_again c a f (fs ++ (opened s ∷ left)) n limit w.0 e (omega (arith, h))))
        (record {
          answer = ih.answer;
          link = ih.link;
          state = ih.state;
          slept = ih.slept ∙ append_assoc c.slept (d ∷ []) (times (length fs) d);
          unused = ih.unused;
        })

  pub fixed-GaveUp :
      (c : TcpChannel F) (f : Attempt) (fails left : List Attempt) (n limit : ℕ)
      → c.state ≢ connected
      → IsFailing f
      → All IsFailing fails
      → c.config.max_attempts ≡ some (suc limit)
      → n + length fails ≡ limit
      → GaveUp {F = F} c.slept
          (suc limit)
          (times (length fails) c.config.fixed_delay)
          left
          (connect_fixed_interval c n (f ∷ fails ++ left))
  fixed-GaveUp c f [] left n limit a w v e h =
      subst (GaveUp {F = F} c.slept (suc limit) [] left)
        (sym (fixed_last c a f left n limit w e (omega (arith, h))))
        (record { answer = refl; state = refl; slept = sym (append-nil c.slept); unused = refl })
  fixed-GaveUp c f (g ∷ gs) left n limit a w v e h =
      let d = c.config.fixed_delay in
      let ih =
        fixed-GaveUp (after c a (n + 1) d) g gs left (n + 1) limit (λ q. cc) v.0 v.1 e
          (omega (arith, h)) in
      subst (GaveUp {F = F} c.slept (suc limit) (d ∷ times (length gs) d) left)
        (sym (fixed_again c a f (g ∷ gs ++ left) n limit w e (omega (arith, h))))
        (record {
          answer = ih.answer;
          state = ih.state;
          slept = ih.slept ∙ append_assoc c.slept (d ∷ []) (times (length gs) d);
          unused = ih.unused;
        })

  abbrev pub next_delay : TcpChannel F → F.Carrier → F.Carrier
  next_delay c d = min_of F (F.mul d c.config.multiplier) c.config.max_delay

  pub backoff-Tries :
      (c : TcpChannel F) (fails : List Attempt) (n : ℕ) (d : F.Carrier)
      → c.state ≢ connected
      → All IsFailing fails
      → Tries {F = F} c.slept
          (delays (next_delay c) (length fails) d)
          (connect_exponential_backoff c n d fails)
  unfolding connect_exponential_backoff
  backoff-Tries c [] n d a w = record { answer = refl; slept = sym (append-nil c.slept) }
  backoff-Tries c (f ∷ fs) n d a w =
      let later = delays (next_delay c) (length fs) (next_delay c d) in
      let ih = backoff-Tries (after c a (n + 1) d) fs (n + 1) (next_delay c d) (λ q. cc) w.1 in
      subst (Tries {F = F} c.slept (d ∷ later)) (sym (backoff_again c a f fs n d w.0))
        (record { answer = ih.answer; slept = ih.slept ∙ append_assoc c.slept (d ∷ []) later })

  pub backoff-Opened :
      (c : TcpChannel F) (fails left : List Attempt) (s : Stream) (n : ℕ) (d : F.Carrier)
      → c.state ≢ connected
      → All IsFailing fails
      → Opened {F = F} c.slept s
          (delays (next_delay c) (length fails) d)
          left
          (connect_exponential_backoff c n d (fails ++ (opened s ∷ left)))
  backoff-Opened c [] left s n d a w =
      subst (Opened {F = F} c.slept s [] left) (sym (backoff_opened c a s left n d)) (record {
        answer = refl;
        link = refl;
        state = refl;
        slept = sym (append-nil c.slept);
        unused = refl;
      })
  backoff-Opened c (f ∷ fs) left s n d a w =
      let ih =
        backoff-Opened (after c a (n + 1) d) fs left s (n + 1) (next_delay c d) (λ q. cc) w.1 in
      subst (Opened {F = F} c.slept s (d ∷ delays (next_delay c) (length fs) (next_delay c d)) left)
        (sym (backoff_again c a f (fs ++ (opened s ∷ left)) n d w.0))
        (record {
          answer = ih.answer;
          link = ih.link;
          state = ih.state;
          slept =
              ih.slept
              ∙ append_assoc c.slept (d ∷ []) (delays (next_delay c) (length fs) (next_delay c d));
          unused = ih.unused;
        })
