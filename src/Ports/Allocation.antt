-- ===== src/Ports/Allocation.antt =====
-- Which port `negotiate_port` gives, and what later calls give.
use pywatt_sdk.Prelude.{
  ℕ, zero, suc, ◌+◌, ◌≤◌, ◌≡◌, refl, ap, ◌∙◌, List, [], ◌∷◌, map, Option, none, some, arith,
  string_eq, nat_eq, ◌==◌, Bool-cases, inl, inr,
}
use pywatt_sdk.Ports.{
  BreakerState, IpcPortNegotiationResponse, PortNegotiationState, PortNegotiationManager, Exchange,
  Attempted, negotiated, Call, port_of, handle_negotiation_response, deliver, accept, outcome,
  attempt_negotiation, search_fallback, generate_fallback_port, should_attempt_request,
  record_failure, fail, sleep, negotiate_from, negotiate_new, negotiate_port,
}

-- `randint` keeps to the range that it is given.
abbrev pub DrawsWithin : Call → Type 0
DrawsWithin c = (i : ℕ) → (10000 ≤ c.draw i) × (c.draw i ≤ 11000)

search_fallback-Within :
    (c : Call) (n i port : ℕ)
    → ((j : ℕ) → (10000 ≤ c.draw j) × (c.draw j ≤ 11000))
    → (10000 ≤ port) × (port ≤ 11000)
    → (10000 ≤ search_fallback c n i port) × (search_fallback c n i port ≤ 11000)
unfolding search_fallback
search_fallback-Within c zero i port d h = h
search_fallback-Within c (suc n) i port d h = elim (Bool-cases (c.is_free i port)) [
  | inl e ↦ rw e h
  | inr e ↦ rw e (search_fallback-Within c n (i + 1) (c.draw (i + 1)) d (d (i + 1)))
]

-- What a call that fell back leaves, given the failures counted before.
abbrev pub FellBack : ℕ → ℕ × PortNegotiationManager → Type 0
FellBack n r =
    ((10000 ≤ r.0) × (r.0 ≤ 11000))
    × ((r.1.state.allocated_port ≡ some r.0) × (r.1.state.circuit_breaker.consecutive_failures ≤ n))

generate_fallback_port-FellBack :
    (m : PortNegotiationManager) (c : Call) (n : ℕ)
    → DrawsWithin c
    → m.state.circuit_breaker.consecutive_failures ≤ n
    → FellBack n (generate_fallback_port m c)
unfolding generate_fallback_port
generate_fallback_port-FellBack m c n d h =
    (search_fallback-Within c 10 0 (c.draw 0) d (d 0), (refl, h))

-- The exceptions.
abbrev Failed : Attempted → Type 0
Failed (negotiated p) = ⊥
Failed _ = Unit

accept-Failed : (r : IpcPortNegotiationResponse) → Failed (accept r)
accept-Failed r = elim (Bool-cases r.success) [ inl e ↦ rw e tt | inr e ↦ rw e tt ]

outcome-Failed : (o : Option (Option IpcPortNegotiationResponse)) → Failed (outcome o)
outcome-Failed none = tt
outcome-Failed (some none) = tt
outcome-Failed (some (some r)) = accept-Failed r

attempt_negotiation-Failed :
    (m : PortNegotiationManager) (x : Exchange) → Failed (attempt_negotiation m x).0
unfolding attempt_negotiation
attempt_negotiation-Failed m x = elim (Bool-cases x.is_sent) [
  | inl e ↦ rw e (outcome-Failed _)
  | inr e ↦ rw e tt
]

handle_breaker :
    (s : PortNegotiationState) (r : IpcPortNegotiationResponse)
    → (handle_negotiation_response s r).circuit_breaker ≡ s.circuit_breaker
unfolding handle_negotiation_response
handle_breaker s r = ground arith

deliver_breaker :
    (s : PortNegotiationState) (rs : List IpcPortNegotiationResponse)
    → (deliver s rs).circuit_breaker ≡ s.circuit_breaker
unfolding deliver
deliver_breaker s [] = refl
deliver_breaker s (r ∷ rs) =
    deliver_breaker (handle_negotiation_response s r) rs ∙ handle_breaker s r

attempt_breaker :
    (m : PortNegotiationManager) (x : Exchange)
    → (attempt_negotiation m x).1.state.circuit_breaker ≡ m.state.circuit_breaker
unfolding attempt_negotiation
attempt_breaker m x = elim (Bool-cases x.is_sent) [
  | inl e ↦ rw e (deliver_breaker _ x.responses)
  | inr e ↦ rw e refl
]

-- An attempt that failed takes the second branch.
after_failure :
    (P : ℕ × PortNegotiationManager → Type 0) (e : Attempted) (f : ℕ → ℕ × PortNegotiationManager)
    (r : ℕ × PortNegotiationManager)
    → Failed e
    → P r
    → P (elim e [ negotiated p ↦ f p | _ ↦ r ])
after_failure P (negotiated p) f r h pr = elim h [ ]
after_failure P _ f r h pr = pr

negotiate_from-FellBack :
    (c : Call) (rounds attempt n : ℕ) (m : PortNegotiationManager)
    → DrawsWithin c
    → m.state.circuit_breaker.consecutive_failures ≤ n
    → FellBack (n + 1) (negotiate_from c rounds attempt m)
unfolding negotiate_from record_failure
negotiate_from-FellBack c zero attempt n m d h =
    generate_fallback_port-FellBack m c (n + 1) d (omega arith)
negotiate_from-FellBack c (suc rounds) attempt n m d h =
    let x = c.exchange attempt in
    let same = attempt_breaker m x in
    after_failure (FellBack (n + 1)) (attempt_negotiation m x).0 _ _
      (attempt_negotiation-Failed m x)
      (elim (Bool-cases (attempt == 2)) [
        | inl e ↦ rw e (
            generate_fallback_port-FellBack (fail (attempt_negotiation m x).1 c.failed_at) c (n + 1)
              d (rw same (omega (arith, h))))
        | inr e ↦ rw e (
            negotiate_from-FellBack c rounds (attempt + 1) n (sleep (attempt_negotiation m x).1 _) d
              (rw same h))
      ])

should_attempt_request_failures :
    (b : BreakerState) (now : ℕ)
    → (should_attempt_request b now).1.consecutive_failures ≡ b.consecutive_failures
unfolding should_attempt_request
should_attempt_request_failures b now = ground arith

negotiate_new-FellBack :
    (m : PortNegotiationManager) (c : Call)
    → DrawsWithin c
    → FellBack (m.state.circuit_breaker.consecutive_failures + 1) (negotiate_new m c)
unfolding negotiate_new
negotiate_new-FellBack m c d =
    let n = m.state.circuit_breaker.consecutive_failures in
    let checked = record m {
      state = record m.state {
        circuit_breaker = (should_attempt_request m.state.circuit_breaker c.now).1;
      };
    } in
    let same = should_attempt_request_failures m.state.circuit_breaker c.now in
    elim (Bool-cases (should_attempt_request m.state.circuit_breaker c.now).0) [
      | inl e ↦ rw e (negotiate_from-FellBack c 3 0 n checked d (omega (arith, same)))
      | inr e ↦ rw e (generate_fallback_port-FellBack checked c (n + 1) d (omega (arith, same)))
    ]

-- Where no port is allocated yet and `randint` keeps to its range, the port comes from the fallback range, whatever the orchestrator
-- answers, and is kept as the allocated port. At most one failure is counted.
pub negotiate_port-FellBack :
    (m : PortNegotiationManager) (c : Call)
    → DrawsWithin c
    → port_of m.state.allocated_port ≡ none
    → FellBack (m.state.circuit_breaker.consecutive_failures + 1) (negotiate_port m c)
unfolding negotiate_port
negotiate_port-FellBack m c d none_yet =
    rw (negotiate_port, none_yet) (negotiate_new-FellBack m c d)

port_of_positive : (p : ℕ) → 10000 ≤ p → port_of (some p) ≡ some p
port_of_positive zero h = ground arith
port_of_positive (suc n) h = refl

allocated_again :
    (m : PortNegotiationManager) (c : Call) (p : ℕ)
    → m.state.allocated_port ≡ some p
    → 10000 ≤ p
    → negotiate_port m c ≡ (p, m)
unfolding negotiate_port
allocated_again m c p e h =
    let known = ap port_of e ∙ port_of_positive p h in rw (negotiate_port, known) refl

-- The calls one after another, and the ports that they give.
unfoldable pub negotiate_all : PortNegotiationManager → List Call → List ℕ × PortNegotiationManager
negotiate_all m [] = ([], m)
negotiate_all m (c ∷ cs) =
    let (p, n) = negotiate_port m c in let (ps, l) = negotiate_all n cs in (p ∷ ps, l)

kept :
    (m : PortNegotiationManager) (p : ℕ) (cs : List Call)
    → m.state.allocated_port ≡ some p
    → 10000 ≤ p
    → negotiate_all m cs ≡ (map (λ _. p) cs, m)
unfolding negotiate_all
kept m p [] e h = refl
kept m p (c ∷ cs) e h = rw (allocated_again m c p e h) (ap (λ r. (p ∷ r.0, r.1)) (kept m p cs e h))

-- After the first call on a manager without a port, if `randint` keeps to its range, all later calls give the same port and change
-- nothing: the orchestrator is not asked again.
pub negotiate_all_after :
    (m : PortNegotiationManager) (c : Call) (cs : List Call)
    → DrawsWithin c
    → port_of m.state.allocated_port ≡ none
    → negotiate_all (negotiate_port m c).1 cs
      ≡ (map (λ _. (negotiate_port m c).0) cs, (negotiate_port m c).1)
negotiate_all_after m c cs d e =
    let f = negotiate_port-FellBack m c d e in
    kept (negotiate_port m c).1 (negotiate_port m c).0 cs f.1.0 f.0.0
