-- ===== src/Chat/Tests.antt =====
-- A chat room of two users, and the client of one of them.
use Prim.Native.Char.{code}
use Prim.Native.String.{String, len}
use multiplayer_kit.Base.{ℕ, ◌≡◌, refl, none, some, List, [], ◌∷◌, ◌++◌, true, All, ok, err}
use multiplayer_kit.Base.Map.{Map}
use multiplayer_kit.Protocol.{ChannelId}
use multiplayer_kit.Room.{ChannelBroadcast}
use multiplayer_kit.Examples.{handles}
use multiplayer_kit.Chat.{
  ChatRoomConfig, validate, Json, chat_rooms, Bincode, chat_events, ChatChannel, chat_channel,
  ChatMessage, send_text, text_sent, system, chat, ChatUser, chat_users, trim, trim_start, trim_end,
  is_empty, is_whitespace,
}
use multiplayer_kit.Chat.Server.{chat_actor}
use multiplayer_kit.Chat.Honesty.{IsHonest, answers_of, rounds-IsHonest}
use multiplayer_kit.Chat.Client.{
  Call, on_connected, on_text_message, on_system_message, chat_client_actor, handle_chat_event,
}
use multiplayer_kit.Chat.Client
use multiplayer_kit.ServerActor.{user_ready, message}
use multiplayer_kit.ServerActor.Loop.{ServerActorConfig, Round, receives, begin, rounds}
use multiplayer_kit.ClientActor.{connected, game_message, server, bridge_connected, bridge_message}
use multiplayer_kit.ClientActor.Runtime.{
  is_up, ActorRuntime, Branch, bridge_branch, Arrival, event, new, drained, dispatch,
  handle_bridge_event, handle_message, poll_bridge, poll_self, poll_local, status_of, poll_queues,
  poll, polled_after, bridge_step, self_step, local_step, step, arrive, run,
}
use multiplayer_kit.ClientActor.Told.{recorded}

abbrev codes : String → List ℕ
codes String.[] = []
codes (String.◌∷◌ c s) = code c ∷ codes s

abbrev tagged : ChatMessage → List ℕ
tagged (send_text content) = 0 ∷ codes content
tagged (text_sent username content) = 1 ∷ len username ∷ (codes username ++ codes content)
tagged (system text) = 2 ∷ codes text

abbrev bytes : Bincode
bytes = record { serialize = λ msg. ok (tagged msg); deserialize = λ bs. err "unread" }

abbrev json : Json
json = record {
  Value = ℕ;
  null = 0;
  to_value = λ c. some 0;
  from_slice = λ bs. err "unread";
  value_from_slice = λ bs. none;
}

abbrev lounge : ChatRoomConfig
lounge = record { name = " lounge "; max_players = some 20 }

blank : validate (record { name = " \t"; max_players = none }) ≡ err "Room name cannot be empty"
unfolding validate trim trim_start trim_end is_empty is_whitespace
blank = refl

-- 17 letters of three bytes are too long a name.
long_name :
    validate (record { name = "語語語語語語語語語語語語語語語語語"; max_players = none })
    ≡ err "Room name too long (max 50 chars)"
unfolding validate trim trim_start trim_end is_empty is_whitespace
long_name = refl

abbrev alice : ChatUser
alice = record { id = 1; username = "alice" }

abbrev bob : ChatUser
bob = record { id = 2; username = "bob" }

abbrev channels : Map ChannelId (ChannelBroadcast handles)
channels = (1, record { write_tx = 10 }) ∷ (2, record { write_tx = 20 }) ∷ []

abbrev table : Map ChannelId (ChatUser × ChatChannel)
table = (1, (alice, chat_channel)) ∷ (2, (bob, chat_channel)) ∷ []

-- Alice comes and says something, and bob tries to speak in her name.
abbrev evening : List (Round chat_users (chat_events bytes) handles)
evening =
    record {
      answer = receives (some (user_ready alice));
      channels = channels;
      user_channels = table;
    }
    ∷ record {
      answer = receives (some (message alice chat_channel (chat (send_text "hi"))));
      channels = channels;
      user_channels = table;
    }
    ∷ record {
      answer = receives (some (message bob chat_channel (chat (text_sent "alice" "bye"))));
      channels = channels;
      user_channels = table;
    }
    ∷ []

abbrev opened : ServerActorConfig (chat_rooms json "7")
opened = record { room_id = 1; room_config = lounge }

rounds-IsHonest_example :
    All
      (IsHonest bytes handles " lounge " (answers_of bytes json "7" "chat" handles evening))
      (rounds {R = handles} {A = chat_actor bytes json "7" "chat"} (begin opened) evening).sends
rounds-IsHonest_example = rounds-IsHonest bytes json "7" "chat" handles opened evening

abbrev received : List (List (Arrival (chat_events bytes)) × Branch)
received =
    (
      event bridge_connected ∷ event (bridge_message (chat (system "*** alice joined ***"))) ∷ [],
      bridge_branch,
    )
    ∷ (
      event (bridge_message (chat (text_sent "alice" "hi")))
          ∷ event (bridge_message (chat (send_text "unsaid")))
          ∷ [],
      bridge_branch,
    )
    ∷ []

abbrev on_screen : ActorRuntime (recorded (chat_client_actor bytes))
on_screen = record {
  state = (
    tt,
    (server, connected)
        ∷ (server, game_message (chat (system "*** alice joined ***")))
        ∷ (server, game_message (chat (text_sent "alice" "hi")))
        ∷ (server, game_message (chat (send_text "unsaid")))
        ∷ [],
  );
  extras =
      on_connected ∷ on_system_message "*** alice joined ***" ∷ on_text_message "alice" "hi" ∷ [];
  sink = [];
  bridge_rx = [];
  bridge_open = true;
  self_rx = [];
  local_rx = [];
  server_tx = [];
  is_connected = true;
}

run-received :
    run 0 (new {A = recorded (chat_client_actor bytes)} [] []) received ≡ some (on_screen, is_up)
unfolding run new arrive step bridge_step self_step local_step polled_after poll poll_queues
    poll_self poll_local poll_bridge handle_bridge_event handle_message dispatch drained status_of
    Client.handle handle_chat_event
run-received = refl
