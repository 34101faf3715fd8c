-- ===== src/Tcp/Tests.antt =====
-- Runs of a `TcpChannel`, with whole numbers in place of floats.
use pywatt_sdk.Prelude.{
  ℕ, ◌≤◌, ◌<◌, ◌≡◌, ◌≢◌, refl, false, List, [], ◌∷◌, ◌++◌, Option, none, some, arith, take, drop,
  All,
}
use pywatt_sdk.Prelude.Float.{whole}
use pywatt_sdk.Message.{EncodedMessage, encoded, json, write_to, pack_be32}
use pywatt_sdk.Message.Framing.{received, frame}
use pywatt_sdk.Tcp.{
  ConnectionState, connected, disconnected, ReconnectPolicy, fixed_interval, exponential_backoff,
  ConnectionConfig, Stream, opened, refused, connection_timeout, returned, raised, TcpChannel,
  connect_with_retry,
}
use pywatt_sdk.Tcp.Calls.{send, receive, receive_with_timeout, arrive}
use pywatt_sdk.Tcp.Connecting.{times, delays, next_delay, Opened, GaveUp, Tries}
use pywatt_sdk.Tcp.Policies.{connect_fixed, connect_backoff}
use pywatt_sdk.Tcp.Delivery.{send_all, receive_all, receive_all-send_all}
use pywatt_sdk.Tcp.Loss.{timeout_loses}

abbrev config : ReconnectPolicy → ConnectionConfig whole
config p = record {
  reconnect_policy = p;
  fixed_delay = 5;
  max_attempts = some 2;
  initial_delay = 1;
  max_delay = 3;
  multiplier = 2;
}

abbrev stream : List ℕ → List ℕ → Stream
stream bytes out = record { incoming = bytes; is_ended = false; is_broken = false; sent = out }

abbrev channel : ReconnectPolicy → ConnectionState → Option Stream → TcpChannel whole
channel p s l = record {
  config = config p;
  link = l;
  state = s;
  connect_attempts = 0;
  slept = [];
  abandoned = [];
}

abbrev hello : EncodedMessage
hello = encoded (1 ∷ 2 ∷ []) json

connect_fixed_example :
    (1 ≤ 1
      → Opened {F = whole} [] (stream [] []) (times 1 5) (refused ∷ []) (
          connect_with_retry
            (channel fixed_interval disconnected none)
            (refused ∷ opened (stream [] []) ∷ refused ∷ [])))
    × (◌≡◌ {A = ℕ} 1 1
        → GaveUp {F = whole} [] 2 (times 1 5) (refused ∷ []) (
            connect_with_retry
              (channel fixed_interval disconnected none)
              (refused ∷ refused ∷ refused ∷ [])))
connect_fixed_example =
    connect_fixed (channel fixed_interval disconnected none) 1 refused (refused ∷ []) (refused ∷ [])
      (stream [] []) refl refl (tt, (tt, tt))

connect_backoff_example :
    let c = channel exponential_backoff disconnected none in
    Tries {F = whole} [] (1 ∷ 2 ∷ 3 ∷ []) (connect_with_retry c (refused ∷ refused ∷ refused ∷ []))
    × Opened {F = whole} []
        (stream [] [])
        (1 ∷ 2 ∷ 3 ∷ [])
        []
        (connect_with_retry c (refused ∷ refused ∷ refused ∷ opened (stream [] []) ∷ []))
    × ((n : ℕ) → All (λ x. whole.lt 3 x ≡ false) (delays (next_delay c) n (next_delay c 1)))
connect_backoff_example =
    connect_backoff (channel exponential_backoff disconnected none)
      (refused ∷ refused ∷ refused ∷ []) [] (stream [] []) refl (tt, (tt, (tt, tt)))

receive_all-send_all_example :
    let a = channel fixed_interval connected (some (stream [] [])) in
    let b = channel fixed_interval connected (some (stream (frame hello ++ frame hello) [])) in
    ((send_all a (hello ∷ hello ∷ [])).0 ≡ returned tt ∷ returned tt ∷ [])
    × ((receive_all b 2).0 ≡ returned (received hello) ∷ returned (received hello) ∷ [])
unfolding send_all send frame write_to pack_be32
receive_all-send_all_example =
    receive_all-send_all (channel fixed_interval connected (some (stream [] [])))
      (channel fixed_interval connected (some (stream (frame hello ++ frame hello) [])))
      (stream [] []) (stream (frame hello ++ frame hello) []) (hello ∷ hello ∷ [])
      (omega arith, (omega arith, tt)) refl refl refl refl refl refl refl

timeout_loses_example :
    let c = channel fixed_interval connected (some (stream (take 5 (frame hello)) [])) in
    let (answer, c', _) = receive_with_timeout c [] in
    let next = (receive (arrive c' (drop 5 (frame hello) ++ [])) []).0 in
    (answer ≡ raised connection_timeout)
    × (5 < 4 → next ≡ returned (received hello))
    × (4 ≤ 5 → next ≢ returned (received hello))
timeout_loses_example =
    timeout_loses (channel fixed_interval connected (some (stream (take 5 (frame hello)) [])))
      (stream (take 5 (frame hello)) []) hello refl refl refl (omega arith) 5 [] [] refl
      (omega arith) (omega arith)
