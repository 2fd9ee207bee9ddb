-- ===== src/ClientActor/Session.antt =====
-- helpers/src/client_actor/connector.rs with runtime.rs: the session that an actor is told of.
use multiplayer_kit.Base.{
  ◌≡◌, refl, sym, ap, ◌∙◌, none, some, List, [], ◌∷◌, ◌++◌, map, true, false, All, append_assoc,
  append-nil,
}
use multiplayer_kit.ChannelMessage.{ChannelMessage}
use multiplayer_kit.ClientActor.{
  ClientMessage, connected, disconnected, game_message, BridgeEvent, bridge_connected,
  bridge_message, bridge_disconnected,
}
use multiplayer_kit.ClientActor.Connector.{
  Poll, incoming, from_runtime, Connector, poll_connector, connector_loop,
}
use multiplayer_kit.ClientActor.Connector
use multiplayer_kit.ClientActor.Told.{told}

-- Messages, and behind them a disconnection or nothing.
abbrev pub IsConversation : {M : ChannelMessage} → List (ClientMessage M) → Type 0
IsConversation [] = Unit
IsConversation (connected ∷ ms) = ⊥
IsConversation (disconnected ∷ ms) = ms ≡ []
IsConversation (game_message m ∷ ms) = IsConversation ms

-- A session, or its start: a connection comes first and once, and a disconnection last and at most
-- once.
abbrev pub IsSession : {M : ChannelMessage} → List (ClientMessage M) → Type 0
IsSession [] = Unit
IsSession (connected ∷ ms) = IsConversation ms
IsSession (disconnected ∷ ms) = ⊥
IsSession (game_message m ∷ ms) = ⊥

-- The loop of the connector goes on behind such an answer.
abbrev pub GoesOn : {M : ChannelMessage} → Poll M → Type 0
GoesOn (incoming none) = ⊥
GoesOn (incoming (some bridge_connected)) = Unit
GoesOn (incoming (some (bridge_message m))) = Unit
GoesOn (incoming (some bridge_disconnected)) = ⊥
GoesOn (from_runtime none) = ⊥
GoesOn (from_runtime (some m)) = Unit

-- The messages of the bridge, and those of the runtime.
unfoldable pub from_bridge : {M : ChannelMessage} → List (Poll M) → List (BridgeEvent M)
from_bridge [] = []
from_bridge (incoming (some (bridge_message m)) ∷ ps) = bridge_message m ∷ from_bridge ps
from_bridge (incoming (some bridge_connected) ∷ ps) = from_bridge ps
from_bridge (incoming (some bridge_disconnected) ∷ ps) = from_bridge ps
from_bridge (incoming none ∷ ps) = from_bridge ps
from_bridge (from_runtime m ∷ ps) = from_bridge ps

unfoldable pub to_bridge : {M : ChannelMessage} → List (Poll M) → List M.Message
to_bridge [] = []
to_bridge (incoming e ∷ ps) = to_bridge ps
to_bridge (from_runtime none ∷ ps) = to_bridge ps
to_bridge (from_runtime (some m) ∷ ps) = m ∷ to_bridge ps

-- What the runtime is told at the end: nothing when it is the runtime that has gone.
unfoldable pub farewell : {M : ChannelMessage} → Poll M → List (BridgeEvent M)
farewell (incoming e) = bridge_disconnected ∷ []
farewell (from_runtime m) = []

module _ {M : ChannelMessage} where
  connector_loop-dead :
      (c : Connector M) (ps : List (Poll M)) → c.live ≡ false → connector_loop c ps ≡ c
  unfolding connector_loop
  connector_loop-dead c [] dead = refl
  connector_loop-dead c (p ∷ ps) dead = rw dead refl

  abbrev pub relaying : List (BridgeEvent M) → List M.Message → Connector M
  relaying es ms = record { bridge_tx = es; outgoing = ms; live = true }

  connector_loop-GoesOn :
      (ps later : List (Poll M)) (es : List (BridgeEvent M)) (ms : List M.Message)
      → All GoesOn ps
      → connector_loop (relaying es ms) (ps ++ later)
        ≡ connector_loop (relaying (es ++ from_bridge ps) (ms ++ to_bridge ps)) later
  unfolding connector_loop poll_connector from_bridge to_bridge
  connector_loop-GoesOn [] later es ms h = rw (append-nil es, append-nil ms) refl
  connector_loop-GoesOn (incoming none ∷ ps) later es ms h = absurd h.0
  connector_loop-GoesOn (incoming (some bridge_connected) ∷ ps) later es ms h =
      connector_loop-GoesOn ps later es ms h.1
  connector_loop-GoesOn (incoming (some (bridge_message m)) ∷ ps) later es ms h =
      connector_loop-GoesOn ps later (es ++ bridge_message m ∷ []) ms h.1
      ∙ ap (λ x. connector_loop (relaying x (ms ++ to_bridge ps)) later)
          (append_assoc es (bridge_message m ∷ []) (from_bridge ps))
  connector_loop-GoesOn (incoming (some bridge_disconnected) ∷ ps) later es ms h = absurd h.0
  connector_loop-GoesOn (from_runtime none ∷ ps) later es ms h = absurd h.0
  connector_loop-GoesOn (from_runtime (some m) ∷ ps) later es ms h =
      connector_loop-GoesOn ps later es (ms ++ m ∷ []) h.1
      ∙ ap (λ x. connector_loop (relaying (es ++ from_bridge ps) x) later)
          (append_assoc ms (m ∷ []) (to_bridge ps))

  connector_loop-stops :
      (stop : Poll M) (after : List (Poll M)) (es : List (BridgeEvent M)) (ms : List M.Message)
      → ¬ GoesOn stop
      → connector_loop (relaying es ms) (stop ∷ after)
        ≡ record { bridge_tx = es ++ farewell stop; outgoing = ms; live = false }
  unfolding connector_loop poll_connector farewell
  connector_loop-stops (incoming none) after es ms h = connector_loop-dead _ after refl
  connector_loop-stops (incoming (some bridge_connected)) after es ms h = absurd (h tt)
  connector_loop-stops (incoming (some (bridge_message m))) after es ms h = absurd (h tt)
  connector_loop-stops (incoming (some bridge_disconnected)) after es ms h =
      connector_loop-dead _ after refl
  connector_loop-stops (from_runtime none) after es ms h =
      connector_loop-dead _ after refl
      ∙ ap (λ x. record { bridge_tx = x; outgoing = ms; live = false }) (sym (append-nil es))
  connector_loop-stops (from_runtime (some m)) after es ms h = absurd (h tt)

  -- As long as no queue ends, the connector tells the runtime of the connection and then of every
  -- message of the bridge, and the bridge of every message of the runtime, each in order; behind the
  -- first end it does nothing more than tell the runtime of the disconnection, unless the runtime has
  -- gone.
  pub run-relays :
      (before : List (Poll M)) (stop : Poll M) (after : List (Poll M))
      → All GoesOn before
      → ¬ GoesOn stop
      → (Connector.run before ≡ relaying (bridge_connected ∷ from_bridge before) (to_bridge before))
        × (Connector.run (before ++ stop ∷ after) ≡ record {
          bridge_tx = (bridge_connected ∷ from_bridge before) ++ farewell stop;
          outgoing = to_bridge before;
          live = false;
        })
  unfolding Connector.run connector_loop
  run-relays before stop after h k = (
    ap Connector.run (sym (append-nil before))
        ∙ connector_loop-GoesOn before [] (bridge_connected ∷ []) [] h,
    connector_loop-GoesOn before (stop ∷ after) (bridge_connected ∷ []) [] h
        ∙ connector_loop-stops stop after (bridge_connected ∷ from_bridge before) (to_bridge before)
            k,
  )

  abbrev IsMessage : BridgeEvent M → Type 0
  IsMessage bridge_connected = ⊥
  IsMessage (bridge_message m) = Unit
  IsMessage bridge_disconnected = ⊥

  IsConversation-goes_on :
      (es later : List (BridgeEvent M))
      → All IsMessage es
      → IsConversation (map told later)
      → IsConversation (map told (es ++ later))
  IsConversation-goes_on [] later h k = k
  IsConversation-goes_on (bridge_connected ∷ es) later h k = absurd h.0
  IsConversation-goes_on (bridge_message m ∷ es) later h k = IsConversation-goes_on es later h.1 k
  IsConversation-goes_on (bridge_disconnected ∷ es) later h k = absurd h.0

  messages_end :
      (es : List (BridgeEvent M)) (m : M.Message)
      → All IsMessage es
      → All IsMessage (es ++ bridge_message m ∷ [])
  messages_end [] m h = (tt, tt)
  messages_end (e ∷ es) m h = (h.0, messages_end es m h.1)

  pub connector_loop-IsSession :
      (ps : List (Poll M)) (es : List (BridgeEvent M)) (ms : List M.Message)
      → All IsMessage es
      → IsSession (map told (connector_loop (relaying (bridge_connected ∷ es) ms) ps).bridge_tx)
  unfolding connector_loop poll_connector
  connector_loop-IsSession [] es ms h = rw (← append-nil es) (IsConversation-goes_on es [] h tt)
  connector_loop-IsSession (incoming none ∷ ps) es ms h =
      rw
        (connector_loop-dead
          (record {
            bridge_tx = (bridge_connected ∷ es) ++ bridge_disconnected ∷ [];
            outgoing = ms;
            live = false;
          })
          ps refl)
        (IsConversation-goes_on es (bridge_disconnected ∷ []) h refl)
  connector_loop-IsSession (incoming (some bridge_connected) ∷ ps) es ms h =
      connector_loop-IsSession ps es ms h
  connector_loop-IsSession (incoming (some (bridge_message m)) ∷ ps) es ms h =
      connector_loop-IsSession ps (es ++ bridge_message m ∷ []) ms (messages_end es m h)
  connector_loop-IsSession (incoming (some bridge_disconnected) ∷ ps) es ms h =
      rw
        (connector_loop-dead
          (record {
            bridge_tx = (bridge_connected ∷ es) ++ bridge_disconnected ∷ [];
            outgoing = ms;
            live = false;
          })
          ps refl)
        (IsConversation-goes_on es (bridge_disconnected ∷ []) h refl)
  connector_loop-IsSession (from_runtime none ∷ ps) es ms h =
      rw
        (connector_loop-dead
          (record { bridge_tx = bridge_connected ∷ es; outgoing = ms; live = false }) ps refl)
        (rw (← append-nil es) (IsConversation-goes_on es [] h tt))
  connector_loop-IsSession (from_runtime (some m) ∷ ps) es ms h =
      connector_loop-IsSession ps es (ms ++ m ∷ []) h

  IsConversation-prefix :
      (xs ys : List (ClientMessage M)) → IsConversation (xs ++ ys) → IsConversation xs
  IsConversation-prefix [] ys h = tt
  IsConversation-prefix (connected ∷ xs) ys h = h
  IsConversation-prefix (disconnected ∷ []) ys h = refl
  IsConversation-prefix (disconnected ∷ x ∷ xs) ys h = absurd (cc)
  IsConversation-prefix (game_message m ∷ xs) ys h = IsConversation-prefix xs ys h

  pub IsSession-prefix : (xs ys : List (ClientMessage M)) → IsSession (xs ++ ys) → IsSession xs
  IsSession-prefix [] ys h = tt
  IsSession-prefix (connected ∷ xs) ys h = IsConversation-prefix xs ys h
  IsSession-prefix (disconnected ∷ xs) ys h = h
  IsSession-prefix (game_message m ∷ xs) ys h = h
