-- ===== src/Chat/Server.antt =====
-- example/chat-server/src/actor.rs and main.rs: the actor of a chat room, and the handler that makes a
-- user of a request for a ticket. Tracing is left out.
use Prim.Native.String.{String, len}
use Prim.Native.String
use multiplayer_kit.Base.{
  ℕ, ◌+◌, ◌%◌, ◌^◌, Option, none, some, List, ltb, if◌then◌else◌, Result, ok, err,
}
use multiplayer_kit.Protocol.{RoomId, RejectReason, custom}
use multiplayer_kit.Chat.{
  Json, chat_rooms, Bincode, chat_events, ChatMessage, send_text, text_sent, system, chat, ChatUser,
  chat_users, is_empty,
}
use multiplayer_kit.ServerActor.Routing.{ServerOutput, send, everyone}
use multiplayer_kit.ServerActor.Loop.{
  ServerMessage, user_connected, user_disconnected, game_message, ServerSource, user,
  internal_source, ServerActorConfig, GameActor,
}

pub record ChatRoomExtras : Type 0 where
  pub server_name : String

pub record ChatState : Type 0 where
  pub room_name : String
  pub message_count : ℕ

unfoldable pub joined : ChatUser → String → String
joined u room_name =
    String.◌++◌ "*** "
      (String.◌++◌ u.username (String.◌++◌ " joined '" (String.◌++◌ room_name "' ***")))

unfoldable pub left : ChatUser → String
left u = String.◌++◌ "*** " (String.◌++◌ u.username " left the chat ***")

module _ (B : Bincode) where
  abbrev pub Outputs : Type 0
  Outputs = List (ServerOutput chat_users (chat_events B))

  unfoldable pub says : Outputs → ChatMessage → Outputs
  says sink msg = send {T = chat_users} {M = chat_events B} sink everyone (chat msg)

  -- The match of `handle`. The count is a `u64`, which wraps in a release build.
  unfoldable pub respond :
      ChatState
      → ServerSource chat_users
      → ServerMessage (chat_events B)
      → Outputs
      → ChatState × Outputs
  unfolding says
  respond state (user u) user_connected sink =
      (state, says sink (system (joined u state.room_name)))
  respond state (user u) user_disconnected sink = (state, says sink (system (left u)))
  respond state (user u) (game_message (chat (send_text content))) sink = (
    record state { message_count = (state.message_count + 1) % 2 ^ 64 },
    says sink (text_sent u.username content),
  )
  respond state (user u) (game_message (chat (text_sent username content))) sink = (state, sink)
  respond state (user u) (game_message (chat (system text))) sink = (state, sink)
  respond state internal_source content sink = (state, sink)

unfoldable pub startup :
    (J : Json) (suffix : String) → ServerActorConfig (chat_rooms J suffix) → ChatState
startup J suffix config = record { room_name = config.room_config.name; message_count = 0 }

unfoldable pub get_room_extras : String → RoomId → ChatRoomExtras
get_room_extras server_name room_id = record { server_name = server_name }

-- `shutdown` only traces.
abbrev pub chat_actor :
    (B : Bincode) (J : Json) (suffix : String)
    → String
    → GameActor chat_users (chat_rooms J suffix) (chat_events B)
chat_actor B J suffix server_name = record {
  State = ChatState;
  Extras = ChatRoomExtras;
  startup = startup J suffix;
  room_extras = get_room_extras server_name;
  handle = λ state extras msg sink.
      let answer = respond B state msg.from msg.content sink in (answer.0, (extras, answer.1));
  shutdown = λ state extras. (state, extras);
}

-- `serde_json::from_slice` of `AuthBody`, with its error as a text.
abbrev pub AuthBody : Type 0
AuthBody = List ℕ → Result String String

-- What the handler answers, and `NEXT_USER_ID` behind it: a refused request takes no id.
with_username : String → ℕ → Result ChatUser RejectReason × ℕ
with_username username next =
    if is_empty username
    then (err (custom "Username cannot be empty"), next)
    else if ltb 32 (len username)
    then (err (custom "Username too long (max 32 chars)"), next)
    else (ok (record { id = next; username = username }), (next + 1) % 2 ^ 64)

parsed : Result String String → ℕ → Result ChatUser RejectReason × ℕ
unfolding with_username
parsed (err e) next = (err (custom (String.◌++◌ "Invalid JSON: " e)), next)
parsed (ok username) next = with_username username next

unfoldable pub authorize : AuthBody → Option (List ℕ) → ℕ → Result ChatUser RejectReason × ℕ
unfolding parsed
authorize from_slice none next = (err (custom "Missing body"), next)
authorize from_slice (some body) next = parsed (from_slice body) next
