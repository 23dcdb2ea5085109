-- ===== src/Connector/Websocket/Ready.antt =====
-- internal/connector/websocket.go: what happens before and after a session is ready.
use nephtys.Prelude.{
  ℕ, ◌≡◌, ◌≢◌, ◌⊎◌, inl, inr, refl, ap, ◌∙◌, String, Option, none, some, List, [], ◌∷◌, ◌++◌, map,
  if◌then◌else◌, Bool, true, false, ◌||◌, is_some, any, take, zero, suc, length, subst,
}
use nephtys.Domain.Event.{StreamEvent}
use nephtys.Connector.Payload.{Codec}
use nephtys.Connector.Websocket.{
  WebsocketSource, Message, event_from_message, Act, sent, ready, published, RunError,
  connection_lost, send_on_connect, read_loop, Connection, connected, dialled, run_source,
}

-- The frames are a beginning of those configured, all of them if no write fails.
abbrev pub Prefix : List String → List Act → Type 0
Prefix frames [] = Unit {0}
Prefix [] (a ∷ acts) = ⊥
Prefix (f ∷ frames) (a ∷ acts) = (a ≡ sent f) × Prefix frames acts

send-Prefix :
    (frames : List String) (answers : List (Option String))
    → Prefix frames (send_on_connect frames answers).0
unfolding send_on_connect
send-Prefix [] answers = tt
send-Prefix (f ∷ frames) [] = (refl, send-Prefix frames [])
send-Prefix (f ∷ frames) (none ∷ answers) = (refl, send-Prefix frames answers)
send-Prefix (f ∷ frames) (some e ∷ answers) = tt

send-all :
    (frames : List String) (answers : List (Option String))
    → (send_on_connect frames answers).1 ≡ none
    → (send_on_connect frames answers).0 ≡ map sent frames
unfolding send_on_connect
send-all [] answers e = refl
send-all (f ∷ frames) [] e = ap (◌∷◌ (sent f)) (send-all frames [] e)
send-all (f ∷ frames) (none ∷ answers) e = ap (◌∷◌ (sent f)) (send-all frames answers e)
send-all (f ∷ frames) (some x ∷ answers) e = cc

abbrev pub event_of : Codec → WebsocketSource → ℕ × Message → StreamEvent
event_of codec w (now, m) = event_from_message codec w now m

read_loop-map :
    (codec : Codec) (w : WebsocketSource) (ms : List (ℕ × Message))
    → read_loop codec w ms ≡ map (λ x. published (event_of codec w x)) ms
unfolding read_loop
read_loop-map codec w [] = refl
read_loop-map codec w ((now, m) ∷ ms) =
    ap (◌∷◌ (published (event_from_message codec w now m))) (read_loop-map codec w ms)

-- Whether the dial fails, or the write of one of the frames; there is no answer to no write.
abbrev pub handshake_fails : WebsocketSource → Connection → Bool
handshake_fails w c = is_some c.dial_error || any is_some (take (length w.on_connect_send) c.writes)

take_none : (n : ℕ) → take {A = Option String} n [] ≡ []
take_none zero = refl
take_none (suc n) = refl

send-fails :
    (frames : List String) (answers : List (Option String))
    → is_some (send_on_connect frames answers).1 ≡ any is_some (take (length frames) answers)
unfolding send_on_connect
send-fails [] answers = refl
send-fails (f ∷ frames) [] = send-fails frames [] ∙ ap (any is_some) (take_none (length frames))
send-fails (f ∷ frames) (none ∷ answers) = send-fails frames answers
send-fails (f ∷ frames) (some e ∷ answers) = refl

-- A session that gets through the handshake.
abbrev pub Full : Codec → WebsocketSource → Connection → List Act → Type 0
Full codec w c acts =
    acts
    ≡ map sent w.on_connect_send ++ ready ∷ map (λ x. published (event_of codec w x)) c.messages

-- One that does not: it sends a beginning of the frames, and reports an error.
abbrev pub Broken : WebsocketSource → List Act × Option RunError → Type 0
Broken w (acts, error) = Prefix w.on_connect_send acts × (error ≢ none)

-- Which of the two a session is, by whether the handshake fails.
abbrev pub Session :
    Codec → WebsocketSource → Connection → Bool → List Act × Option RunError → Type 0
Session codec w c fails r =
    ((fails ≡ false)
      × Full codec w c r.0
      × (r.1 ≡ (if c.is_cancelled then none else some (connection_lost c.read_error))))
    ⊎ ((fails ≡ true) × Broken w r)

connected-Session :
    (codec : Codec) (w : WebsocketSource) (c : Connection) (acts : List Act) (error : Option String)
    → Prefix w.on_connect_send acts
    → (error ≡ none → acts ≡ map sent w.on_connect_send)
    → Session codec w c (is_some error) (connected codec w c (acts, error))
connected-Session codec w c acts (some e) p all = inr (refl, (p, λ x. cc))
connected-Session codec w c acts none p all = inl (
  refl,
  ap (λ a. a ++ ready ∷ read_loop codec w c.messages) (all refl)
      ∙ ap (λ l. map sent w.on_connect_send ++ ready ∷ l) (read_loop-map codec w c.messages),
  refl,
)

-- If neither the dial nor the write of a frame fails, a session sends every frame of the
-- configuration in order, reports itself ready, publishes one event for each message in order, and
-- ends without an error exactly if it was cancelled. If one of them fails, it sends a beginning of
-- the frames, is never ready, publishes nothing and returns an error.
pub ready_after_frames :
    (codec : Codec) (w : WebsocketSource) (c : Connection)
    → Session codec w c (handshake_fails w c) (run_source codec w c)
unfolding run_source
ready_after_frames codec w c = dialled-Session c.dial_error
  where
    dialled-Session :
        (o : Option String)
        → Session codec w c
            (is_some o || any is_some (take (length w.on_connect_send) c.writes))
            (dialled codec w c o)
    dialled-Session (some e) = inr (refl, (tt, λ x. cc))
    dialled-Session none =
        let sends = send_on_connect w.on_connect_send c.writes in
        subst (λ fails. Session codec w c fails (connected codec w c sends))
          (send-fails w.on_connect_send c.writes)
          (connected-Session codec w c sends.0 sends.1 (send-Prefix w.on_connect_send c.writes)
            (send-all w.on_connect_send c.writes))
