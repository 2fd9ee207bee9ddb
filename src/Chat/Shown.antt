-- ===== src/Chat/Shown.antt =====
-- example/chat-client/src/actor.rs in helpers/src/client_actor/runtime.rs: what the user is shown.
use multiplayer_kit.Base.{List, [], ◌∷◌}
use multiplayer_kit.Chat.{Bincode, chat_events, send_text, text_sent, system, chat}
use multiplayer_kit.Chat.Client.{
  Call, on_connected, on_disconnected, on_text_message, on_system_message,
}
use multiplayer_kit.ClientActor.{ClientMessage, connected, disconnected, game_message, ClientSource}

module _ (B : Bincode) where
  -- What is shown for what the server tells: texts and notices, and the two ends of a session; a text
  -- that has not been through the room is left out.
  unfoldable pub shown : List (ClientMessage (chat_events B)) → List Call
  shown [] = []
  shown (connected ∷ ms) = on_connected ∷ shown ms
  shown (disconnected ∷ ms) = on_disconnected ∷ shown ms
  shown (game_message (chat (text_sent username content)) ∷ ms) =
      on_text_message username content ∷ shown ms
  shown (game_message (chat (system text)) ∷ ms) = on_system_message text ∷ shown ms
  shown (game_message (chat (send_text content)) ∷ ms) = shown ms

module _ (B : Bincode) where
  abbrev Log : Type 0
  Log = Unit {0} × List (ClientSource × ClientMessage (chat_events B))
