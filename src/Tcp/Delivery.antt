-- ===== src/Tcp/Delivery.antt =====
-- A sequence of messages over a `TcpChannel`, from end to end.
use pywatt_sdk.Prelude.{
  ℕ, zero, suc, ◌<◌, ◌≡◌, refl, sym, ap, ◌∙◌, false, List, [], ◌∷◌, ◌++◌, map, some, arith, length,
  All,
}
use mathlib.Core.List.{append_assoc, append-nil}
use pywatt_sdk.Prelude.Float.{Float}
use pywatt_sdk.Message.{EncodedMessage, u32_mod}
use pywatt_sdk.Message.Framing.{received, frame, write_to-frame}
use pywatt_sdk.Tcp.{connected, Stream, Outcome, returned, TcpChannel}
use pywatt_sdk.Tcp.Calls.{send, receive}
use pywatt_sdk.Tcp.Framed.{reads, receive_message_all}

abbrev pub IsSmall : EncodedMessage → Type 0
IsSmall m = length m.data_bytes < u32_mod

frames : List EncodedMessage → List ℕ
frames [] = []
frames (m ∷ ms) = frame m ++ frames ms

abbrev sends : Stream → List ℕ → Stream
sends s bytes = record s { sent = s.sent ++ bytes }

module _ {F : Float} where
  -- Calls of `send`, and as many of `receive`, with no attempt to connect.
  unfoldable pub send_all :
      TcpChannel F → List EncodedMessage → List (Outcome (Unit {0})) × TcpChannel F
  send_all c [] = ([], c)
  send_all c (m ∷ ms) =
      let (o, c', _) = send c m [] in let (os, c'') = send_all c' ms in (o ∷ os, c'')

  unfoldable pub receive_all : TcpChannel F → ℕ → List (Outcome EncodedMessage) × TcpChannel F
  receive_all c zero = ([], c)
  receive_all c (suc n) =
      let (o, c', _) = receive c [] in let (os, c'') = receive_all c' n in (o ∷ os, c'')

  abbrev on : TcpChannel F → Stream → TcpChannel F
  on c s = record c { link = some s }

  send-frame :
      (c : TcpChannel F) (s : Stream) (m : EncodedMessage)
      → IsSmall m
      → c.state ≡ connected
      → c.link ≡ some s
      → s.is_broken ≡ false
      → send c m [] ≡ (returned tt, on c (sends s (frame m)), [])
  unfolding send
  send-frame c s m w q l b = ground (arith, write_to-frame m w)

  receive-frame :
      (c : TcpChannel F) (s : Stream) (m : EncodedMessage) (rest : List ℕ)
      → IsSmall m
      → c.state ≡ connected
      → c.link ≡ some s
      → s.incoming ≡ frame m ++ rest
      → receive c [] ≡ (returned (received m), on c (reads s rest), [])
  unfolding receive
  receive-frame c s m rest w q l e =
      ground (arith, receive_message_all c s m (frame m) rest (write_to-frame m w) q l e)

  send_all_lem :
      (c : TcpChannel F) (s : Stream) (ms : List EncodedMessage)
      → All IsSmall ms
      → c.state ≡ connected
      → c.link ≡ some s
      → s.is_broken ≡ false
      → ((send_all c ms).0 ≡ map (λ _. returned tt) ms)
        × ((send_all c ms).1.link ≡ some (sends s (frames ms)))
  unfolding send_all frames
  send_all_lem c s [] w q l b =
      (refl, l ∙ ap (λ x. some (record s { sent = x })) (sym (append-nil s.sent)))
  send_all_lem c s (m ∷ ms) w q l b =
      let s' = sends s (frame m) in
      let (os, link) = send_all_lem (on c s') s' ms w.1 q refl b in
      rw (send-frame c s m w.0 q l b) (
        ap (λ x. returned tt ∷ x) os,
        link ∙ ap (λ x. some (record s { sent = x })) (append_assoc s.sent (frame m) (frames ms)),
      )

  receive_all_lem :
      (c : TcpChannel F) (s : Stream) (ms : List EncodedMessage)
      → All IsSmall ms
      → c.state ≡ connected
      → c.link ≡ some s
      → s.incoming ≡ frames ms
      → (receive_all c (length ms)).0 ≡ map (λ m. returned (received m)) ms
  unfolding receive_all frames
  receive_all_lem c s [] w q l e = refl
  receive_all_lem c s (m ∷ ms) w q l e = rw (receive-frame c s m (frames ms) w.0 q l e) (
      ap (λ x. returned (received m) ∷ x)
        (receive_all_lem (on c (reads s (frames ms))) (reads s (frames ms)) ms w.1 q refl refl))

  -- Messages whose lengths fit in four bytes, sent over one open channel, are received from the
  -- bytes on its stream by another: all of them, in order, with the formats that travel.
  pub receive_all-send_all :
      (a b : TcpChannel F) (s t : Stream) (ms : List EncodedMessage)
      → All IsSmall ms
      → a.state ≡ connected
      → a.link ≡ some s
      → s.is_broken ≡ false
      → s.sent ≡ []
      → b.state ≡ connected
      → b.link ≡ some t
      → (send_all a ms).1.link ≡ some (record s { sent = t.incoming })
      → ((send_all a ms).0 ≡ map (λ _. returned tt) ms)
        × ((receive_all b (length ms)).0 ≡ map (λ m. returned (received m)) ms)
  receive_all-send_all a b s t ms w qa la ok clean qb lb wire =
      let (os, link) = send_all_lem a s ms w qa la ok in
      (os, receive_all_lem b t ms w qb lb (cc (wire, link, clean)))
