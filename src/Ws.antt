-- ===== src/Ws.antt =====
-- server/src/ws.rs: the actor of a WebSocket connection to a room, and the handler that starts it.
--
-- actix is a parameter: what the source asks of the context of an actor, and each task that it spawns,
-- is an effect. A spawned task that closes the channel is one step of `stopped`. The clock is the
-- monotonic one, in nanoseconds.

pub mod Timeline
pub mod Heartbeat
pub mod Requests
pub mod Rooms
pub mod LobbyActor
mod Tests
use Prim.Native.String.{String}
use multiplayer_kit.Base.{
  ℕ, ◌*◌, ◌^◌, Option, none, some, List, [], ◌∷◌, ◌++◌, Bool, ltb, if◌then◌else◌, Result, ok, err,
}
use multiplayer_kit.Protocol.{UserContext, RoomConfig, RoomId, ChannelId, RoomInfo}
use multiplayer_kit.Lobby.{Lobby, notify_updated}
use multiplayer_kit.Room.{Tokio, Instant, duration_since, Pipes, ServerChannel, Opened}
use multiplayer_kit.Ticket.{Jwt, TicketManager, validate}
use multiplayer_kit.Manager.{RoomManager, Admission, open_channel, close_channel, get_room_info}

abbrev pub heartbeat_interval : ℕ
heartbeat_interval = 5 * 10 ^ 9

abbrev pub client_timeout : ℕ
client_timeout = 30 * 10 ^ 9

pub record WsState {T : UserContext} (C : RoomConfig) (R : Tokio) (J : Jwt T) : Type 0 where
  pub room_manager : RoomManager T C R
  pub ticket_manager : TicketManager J
  pub lobby : Lobby C.Value

-- The state that the actor shares with the server is an argument of its handlers.
pub record RoomWsActor (T : UserContext) (R : Tokio) : Type 0 where
  pub room_id : RoomId
  pub user_id : T.UserId
  pub channel_id : Option ChannelId
  pub read_tx : Option R.Sender
  pub write_rx : Option R.Receiver
  pub close_rx : Option R.OneshotReceiver
  pub last_heartbeat : Instant

-- What the handlers tell apart of actix's messages; `other` is a continuation, a `Nop` or an error.
pub data WsMessage : Type 0 where
  ping : List ℕ → WsMessage
  pong : List ℕ → WsMessage
  text : List ℕ → WsMessage
  binary : List ℕ → WsMessage
  close : WsMessage
  other : WsMessage

-- What a handler asks of its context, and the tasks that it spawns. `spawns_send` is a task of its own
-- for one payload: it awaits the send to the handler of the room and ignores its answer, and tasks that
-- were spawned later may overtake it. The other tasks listen to a receiver.
pub data Effect (R : Tokio) : Type 0 where
  run_interval : ℕ → Effect R
  sends_ping : Effect R
  sends_pong : List ℕ → Effect R
  sends_binary : List ℕ → Effect R
  stop : Effect R
  spawns_send : R.Sender → List ℕ → Effect R
  listens : R.Receiver → Effect R
  awaits_close : R.OneshotReceiver → Effect R
  listens_lobby : ℕ → Effect R

-- `ErrorUnauthorized`, `ErrorNotFound`, and the error of actix's handshake.
pub data WsError : Type 0 where
  error_unauthorized : String → WsError
  error_not_found : String → WsError
  handshake_failed : WsError

-- The clocks and the pipes of a request, the answer of `channel_tx.send`, and whether the request is
-- one that actix can upgrade.
pub record Connecting (R : Tokio) : Type 0 where
  pub now : Instant
  pub unix : ℕ
  pub pipes : Pipes R
  pub sent : Bool
  pub upgrades : Bool

-- The state afterwards, what was sent to the room's handler, and the actor that was started.
pub record Connected {T : UserContext} (C : RoomConfig) (R : Tokio) (J : Jwt T) : Type 0 where
  pub state : WsState C R J
  pub to_handler : Option (T.User × ServerChannel R)
  pub answer : Result (RoomWsActor T R) WsError

abbrev forward_to : {R : Tokio} → Option R.Sender → List ℕ → List (Effect R)
forward_to none payload = []
forward_to (some tx) payload = spawns_send tx payload ∷ []

abbrev listen_to : {R : Tokio} → Option R.Receiver → List (Effect R)
listen_to none = []
listen_to (some rx) = listens rx ∷ []

abbrev await_close : {R : Tokio} → Option R.OneshotReceiver → List (Effect R)
await_close none = []
await_close (some rx) = awaits_close rx ∷ []

module _ {T : UserContext} {R : Tokio} where
  unfoldable pub new : RoomId → T.UserId → Opened R → Instant → RoomWsActor T R
  new room_id user_id o now = record {
    room_id = room_id;
    user_id = user_id;
    channel_id = some o.channel_id;
    read_tx = some o.read_tx;
    write_rx = some o.write_rx;
    close_rx = some o.close_rx;
    last_heartbeat = now;
  }

  -- What `heartbeat` runs at each interval.
  unfoldable pub heartbeat_tick : RoomWsActor T R → Instant → List (Effect R)
  heartbeat_tick act now =
      if ltb client_timeout (duration_since now act.last_heartbeat)
      then stop ∷ []
      else sends_ping ∷ []

  unfoldable pub start_listeners : RoomWsActor T R → RoomWsActor T R × List (Effect R)
  start_listeners act = (
    record act { write_rx = none; close_rx = none },
    listen_to act.write_rx ++ await_close act.close_rx,
  )

  unfoldable pub started : RoomWsActor T R → RoomWsActor T R × List (Effect R)
  unfolding start_listeners
  started act =
      let (act', listening) = start_listeners act in
      (act', run_interval heartbeat_interval ∷ listening)

  unfoldable pub handle_room_message : RoomWsActor T R → List ℕ → List (Effect R)
  handle_room_message act bytes = sends_binary bytes ∷ []

  unfoldable pub handle_channel_closed : RoomWsActor T R → List (Effect R)
  handle_channel_closed act = stop ∷ []

  -- `StreamHandler::handle`.
  unfoldable pub handle : RoomWsActor T R → WsMessage → Instant → RoomWsActor T R × List (Effect R)
  handle act (ping msg) now = (record act { last_heartbeat = now }, sends_pong msg ∷ [])
  handle act (pong msg) now = (record act { last_heartbeat = now }, [])
  handle act (text payload) now = (act, forward_to act.read_tx payload)
  handle act (binary data_bytes) now = (act, forward_to act.read_tx data_bytes)
  handle act close now = (act, stop ∷ [])
  handle act other now = (act, [])

-- The listener of `start_listeners`: the messages with the answers of `try_send`, up to the first that
-- is refused.
unfoldable pub forward_messages : List (List ℕ × Bool) → List (List ℕ)
forward_messages [] = []
forward_messages ((msg, accepted) ∷ rest) =
    let later = forward_messages rest in if accepted then msg ∷ later else []

module _ {T : UserContext} {C : RoomConfig} {R : Tokio} {J : Jwt T} where
  stopped_with : WsState C R J → RoomId → Option ChannelId → Instant → WsState C R J
  stopped_with s room_id none now = s
  stopped_with s room_id (some c) now =
      let m = close_channel s.room_manager room_id c now in
      record s { room_manager = m; lobby = notify_updated s.lobby (get_room_info m room_id) }

  unfoldable pub stopped :
      WsState C R J → RoomWsActor T R → Instant → WsState C R J × RoomWsActor T R
  unfolding stopped_with
  stopped s act now =
      (stopped_with s act.room_id act.channel_id now, record act { channel_id = none })

  room_ws_opened :
      WsState C R J
      → RoomId
      → T.User
      → Connecting R
      → Admission T C R
      → Option (Opened R)
      → Connected C R J
  room_ws_opened s room_id user w a none = record {
    state = record s { room_manager = a.manager };
    to_handler = a.to_handler;
    answer = err (error_not_found "Room not found or closed");
  }
  room_ws_opened s room_id user w a (some o) = record {
    state = record s {
      room_manager = a.manager;
      lobby = notify_updated s.lobby (get_room_info a.manager room_id);
    };
    to_handler = a.to_handler;
    answer = if w.upgrades then ok (new room_id (T.id user) o w.now) else err handshake_failed;
  }

  room_ws_as :
      {E : Type 0} → WsState C R J → RoomId → Connecting R → Result T.User E → Connected C R J
  unfolding room_ws_opened
  room_ws_as s room_id w (err e) = record {
    state = s;
    to_handler = none;
    answer = err (error_unauthorized "Invalid ticket");
  }
  room_ws_as s room_id w (ok user) =
      let a = open_channel s.room_manager room_id user w.now w.pipes w.sent in
      room_ws_opened s room_id user w a a.answer

  unfoldable pub room_ws : WsState C R J → RoomId → List ℕ → Connecting R → Connected C R J
  unfolding room_ws_as
  room_ws s room_id ticket w = room_ws_as s room_id w (validate s.ticket_manager ticket w.unix)
