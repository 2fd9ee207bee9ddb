-- ===== src/Chat/Client.antt =====
-- example/chat-client/src/actor.rs: the actor of a chat client, over an adapter that is the calls made of
-- it so far (`ChatClientAdapter` of lib.rs).
use Prim.Native.String.{String}
use multiplayer_kit.Base.{List, [], ◌∷◌, ◌++◌, Bool, Result, map_err}
use multiplayer_kit.Chat.{Bincode, chat_events, send_text, text_sent, system, ChatEvent, chat}
use multiplayer_kit.ClientActor.{
  ClientMessage, connected, disconnected, game_message, ClientSource, server, internal_source,
  local_source,
}
use multiplayer_kit.ClientActor.Runtime.{ClientActor}
use multiplayer_kit.ClientActor.Senders.{ActorSendError, send_on}
use multiplayer_kit.ClientErrors.{ClientError}

-- The methods of `ChatClientAdapter`.
pub data Call : Type 0 where
  on_connected : Call
  on_disconnected : Call
  on_text_message : String → String → Call
  on_system_message : String → Call

unfoldable pub handle_chat_event : List Call → ChatEvent → List Call
handle_chat_event adapter (chat (text_sent username content)) =
    adapter ++ on_text_message username content ∷ []
handle_chat_event adapter (chat (system text)) = adapter ++ on_system_message text ∷ []
handle_chat_event adapter (chat (send_text content)) = adapter

module _ (B : Bincode) where
  -- The match of `handle`: of what does not come from the server nothing is shown.
  unfoldable pub handle : List Call → ClientSource → ClientMessage (chat_events B) → List Call
  unfolding handle_chat_event
  handle adapter server connected = adapter ++ on_connected ∷ []
  handle adapter server (game_message event) = handle_chat_event adapter event
  handle adapter server disconnected = adapter ++ on_disconnected ∷ []
  handle adapter internal_source content = adapter
  handle adapter local_source content = adapter

-- The configuration is the context with the adapter, and the extras are its clone. The state is empty,
-- and nothing is ever sent from `handle`.
abbrev pub chat_client_actor : (B : Bincode) → ClientActor (chat_events B)
chat_client_actor B = record {
  Config = List Call;
  State = Unit {0};
  Extras = List Call;
  startup = λ config. tt;
  handle = λ s adapter from content sink. (s, (handle B adapter from content, sink));
  shutdown = λ s adapter. (s, adapter);
}

pub data ChatError : Type 0 where
  client : ClientError → ChatError
  channel_closed : ChatError
  not_connected : ChatError

chat_error : ActorSendError → ChatError
chat_error ActorSendError.channel_closed = channel_closed
chat_error ActorSendError.not_connected = not_connected

-- `ChatHandle::send_text`, onto the queue of messages for the server.
unfoldable pub handle_send_text :
    (B : Bincode) → Bool → List ChatEvent → String → Result (List ChatEvent) ChatError
unfolding chat_error
handle_send_text B has_receiver queue content =
    map_err chat_error (send_on (chat_events B) has_receiver queue (chat (send_text content)))
