-- ===== src/Tcp/Loss.antt =====
-- What a time-out does to the message that is arriving.
use pywatt_sdk.Prelude.{
  ℕ, zero, suc, ◌+◌, ◌≤◌, ◌<◌, ◌≡◌, ◌≢◌, refl, sym, ap, ◌∙◌, false, List, [], ◌++◌, some, arith,
  length, take, drop, length-take, length-drop, length-append, take-append-drop,
}
use mathlib.Core.List.{append_assoc}
use pywatt_sdk.Prelude.Float.{Float}
use pywatt_sdk.Message.{EncodedMessage, u32_mod}
use pywatt_sdk.Message.Framing.{received, frame, write_to-frame}
use pywatt_sdk.Tcp.{
  connected, Stream, Attempt, connection_timeout, returned, raised, waits, TcpChannel,
}
use pywatt_sdk.Tcp.Calls.{receive_message, receive, receive_with_timeout, arrive}
use pywatt_sdk.Tcp.Framed.{reads, receive_message_all}
use pywatt_sdk.Tcp.Timeouts.{read_exactly_short, receive_message-Stopped, receive_short}

length-frame : (m : EncodedMessage) → length (frame m) ≡ length m.data_bytes + 5
unfolding frame
length-frame m = omega arith

module _ {F : Float} (c : TcpChannel F) (s : Stream) (m : EncodedMessage) (q : c.state ≡ connected)
    (l : c.link ≡ some s) (open_stream : s.is_ended ≡ false)
    (small : length m.data_bytes < u32_mod) where
  timed_out_header :
      (k : ℕ)
      → k < 4
      → s.incoming ≡ take k (frame m)
      → receive_with_timeout c [] ≡ (raised connection_timeout, c, [])
  unfolding receive_with_timeout receive_message
  timed_out_header k h i = ground (
    arith,
    read_exactly_short 4 s open_stream,
    ap (λ (b : List ℕ). length b) i,
    length-take k (frame m),
  )

  timed_out_later :
      (s' : Stream)
      → receive_message c ≡ (waits, record c { link = some s' })
      → receive_with_timeout c [] ≡ (raised connection_timeout, record c { link = some s' }, [])
  unfolding receive_with_timeout
  timed_out_later s' e = ground arith

  arrived_whole :
      (rest : List ℕ) (left : List Attempt)
      → (receive (record c { link = some (reads s (frame m ++ rest)) }) left).0
        ≡ returned (received m)
  unfolding receive
  arrived_whole rest left =
      let c' = record c { link = some (reads s (frame m ++ rest)) } in
      ground (
        arith,
        receive_message_all c' (reads s (frame m ++ rest)) m (frame m) rest (write_to-frame m small)
            q refl refl,
      )

  abbrev Told : ℕ → List ℕ → List Attempt → Type 0
  Told k rest left =
      let (answer, c', _) = receive_with_timeout c [] in
      let next = (receive (arrive c' (drop k (frame m) ++ rest)) left).0 in
      (answer ≡ raised connection_timeout)
      × (k < 4 → next ≡ returned (received m))
      × (4 ≤ k → next ≢ returned (received m))

  before_header :
      (k : ℕ) (rest : List ℕ) (left : List Attempt)
      → k < 4
      → s.incoming ≡ take k (frame m)
      → Told k rest left
  before_header k rest left h i =
      let whole =
        ap (λ b. b ++ (drop k (frame m) ++ rest)) i
        ∙ sym (append_assoc (take k (frame m)) (drop k (frame m)) rest)
        ∙ ap (λ b. b ++ rest) (take-append-drop k (frame m)) in
      rw (timed_out_header k h i, l, whole)
        (refl, λ _. arrived_whole rest left, λ g. absurd (omega (arith, g, h)))

  after_header :
      (k : ℕ) (rest : List ℕ) (left : List Attempt)
      → s.incoming ≡ take (suc (suc (suc (suc k)))) (frame m)
      → k < length m.data_bytes + 1
      → length rest < 4
      → Told (suc (suc (suc (suc k)))) rest left
  after_header k rest left i h r =
      let w = receive_message-Stopped c m s k q l open_stream small i h in
      let bytes = drop (suc (suc (suc (suc k)))) (frame m) ++ rest in
      let s' = reads w.stream (w.stream.incoming ++ bytes) in
      rw (timed_out_later w.stream w.stops) (
        refl,
        λ g. absurd (omega (arith, g)),
        λ _.
            receive_short (record c { link = some s' }) s' m left q refl w.is_open
              (omega (
                arith,
                length-append {0} w.stream.incoming bytes,
                length-append {0} (drop (suc (suc (suc (suc k)))) (frame m)) rest,
                length-drop {0} (suc (suc (suc (suc k)))) (frame m),
                length-frame m,
                w.few,
                h,
                r,
              )),
      )

  -- A receiving call of an open channel that times out while a frame arrives keeps the frame whole
  -- only if not even its length had arrived: then the next call receives the message. Otherwise the
  -- bytes that were read are lost: the next call does not receive the message, though the rest of
  -- the frame arrives and at most three bytes follow it.
  pub timeout_loses :
      (k : ℕ) (rest : List ℕ) (left : List Attempt)
      → s.incoming ≡ take k (frame m)
      → k < length m.data_bytes + 5
      → length rest < 4
      → let (answer, c', _) = receive_with_timeout c [] in
        let next = (receive (arrive c' (drop k (frame m) ++ rest)) left).0 in
        (answer ≡ raised connection_timeout)
        × (k < 4 → next ≡ returned (received m))
        × (4 ≤ k → next ≢ returned (received m))
  timeout_loses zero rest left i h r = before_header 0 rest left (omega arith) i
  timeout_loses (suc zero) rest left i h r = before_header 1 rest left (omega arith) i
  timeout_loses (suc (suc zero)) rest left i h r = before_header 2 rest left (omega arith) i
  timeout_loses (suc (suc (suc zero))) rest left i h r = before_header 3 rest left (omega arith) i
  timeout_loses (suc (suc (suc (suc k)))) rest left i h r =
      after_header k rest left i (omega (arith, h)) r
