-- ===== src/Ws/Tests.antt =====
-- User 8 connects to room 1 of the example, and to the lobby.
use Prim.Native.String.{String}
use multiplayer_kit.Base.{
  ℕ, ◌≡◌, ◌⊎◌, refl, Option, none, some, List, [], ◌∷◌, ◌++◌, map, true, false, ok, err, arith,
  ℕ_discrete,
}
use multiplayer_kit.Base.Map.{get, insert}
use multiplayer_kit.Protocol.{LobbyEvent, snapshot}
use multiplayer_kit.Lobby.{Lobby, event, subscribe, received_by}
use multiplayer_kit.Room.{admits, open_entry}
use multiplayer_kit.Ticket
use multiplayer_kit.Ticket.{validate}
use multiplayer_kit.Manager.{new, new_entry, create_room, open_channel, get_all_rooms}
use multiplayer_kit.Examples.{people, game, handles, pipes, tokens}
use multiplayer_kit.Examples.Rooms.{with_room, entry, with_room-IsSound, room-with_room}
use multiplayer_kit.Ws
use multiplayer_kit.Ws.{
  WsState, RoomWsActor, Connecting, Connected, error_unauthorized, ping, pong, text, binary,
  run_interval, listens_lobby, heartbeat_interval, room_ws, stopped,
}
use multiplayer_kit.Ws.Timeline.{Trace, tick, received, spawned_sends, run}
use multiplayer_kit.Ws.Heartbeat.{run_silent, run_lively}
use multiplayer_kit.Ws.Requests.{IsRefused, IsSeated, room_ws_lem}
use multiplayer_kit.Ws.Rooms.{IsRestored, stopped-room_ws}
use multiplayer_kit.Ws.LobbyActor.{
  LobbyWsActor, binary_of, lobby_ws, lobby_started, new_lobby, forward_events, encoded,
  lobby_ws_lem,
}

abbrev state : WsState game handles tokens
state = record {
  room_manager = with_room;
  ticket_manager = Ticket.new tokens (9 ∷ []) 60;
  lobby = [];
}

abbrev token : List ℕ
token = 9 ∷ 1000 ∷ 8 ∷ []

abbrev connecting : Connecting handles
connecting = record { now = 10; unix = 990; pipes = pipes 5; sent = true; upgrades = true }

abbrev actor : RoomWsActor people handles
actor = record {
  room_id = 1;
  user_id = 8;
  channel_id = some 1;
  read_tx = some 5;
  write_rx = some 5;
  close_rx = some 5;
  last_heartbeat = 10;
}

abbrev quiet : Trace
quiet = (12, received (text (104 ∷ []))) ∷ (5000000010, tick) ∷ []

run_silent_example :
    (run actor (quiet ++ ((30000000011, tick) ∷ (30000000012, received (pong [])) ∷ []))).running
    ≡ false
run_silent_example =
    run_silent actor quiet ((30000000012, received (pong [])) ∷ []) 30000000011 (tt, (tt, tt))
      (omega arith)

abbrev lively : Trace
lively =
    (12, received (text (104 ∷ [])))
    ∷ (29000000000, received (pong []))
    ∷ (30000000011, tick)
    ∷ (30000000012, received (binary (105 ∷ [])))
    ∷ []

run_lively_example :
    ((run actor lively).running ≡ true)
    × (spawned_sends (run actor lively).effects ≡ (5, 104 ∷ []) ∷ (5, 105 ∷ []) ∷ [])
run_lively_example = run_lively actor 5 lively refl (omega arith, tt)

room_ws_lem_example :
    let k = room_ws state 1 token connecting in
    ((x : String) × (validate state.ticket_manager token 990 ≡ err x)
      × (k ≡ record {
        state = state;
        to_handler = none;
        answer = err (error_unauthorized "Invalid ticket");
      }))
    ⊎ ((user : ℕ) × (validate state.ticket_manager token 990 ≡ ok user)
        × (IsRefused state 1 user connecting k ⊎ IsSeated state 1 user connecting k))
room_ws_lem_example = room_ws_lem state 1 token connecting with_room-IsSound

validated : validate state.ticket_manager token 990 ≡ ok 8
unfolding validate Ticket.new
validated = refl

connects : (room_ws state 1 token connecting).answer ≡ ok actor
unfolding room_ws validate Ticket.new open_channel create_room new new_entry open_entry admits get
    insert ℕ_discrete Ws.new
connects = refl

stopped-room_ws_example :
    IsRestored state 1 entry 99 (stopped (room_ws state 1 token connecting).state actor 99)
stopped-room_ws_example =
    stopped-room_ws state 1 token connecting 8 entry actor 99 with_room-IsSound validated
      room-with_room connects

abbrev written : LobbyEvent ℕ → Option (List ℕ)
written e = some (1 ∷ [])

abbrev lobby_actor : LobbyWsActor people
lobby_actor = record { user_id = 8; lobby_rx = some 0; last_heartbeat = 10 }

lobby_connects : lobby_ws state token 10 990 true ≡ ok lobby_actor
unfolding lobby_ws validate Ticket.new new_lobby subscribe
lobby_connects = refl

lobby_ws_lem_example :
    (user : ℕ) × (rx : ℕ) × (validate state.ticket_manager token 990 ≡ ok user)
    × (true ≡ true)
    × (lobby_actor.user_id ≡ user)
    × ((lobby_started {R = handles} written with_room lobby_actor).1
        ≡ run_interval heartbeat_interval
          ∷ (binary_of (written (snapshot (get_all_rooms with_room))) ++ (listens_lobby rx ∷ [])))
    × ((later : Lobby ℕ)
        → forward_events written (map (λ e. (event e, true)) (received_by rx ([] ++ later)))
          ≡ encoded written later)
lobby_ws_lem_example =
    lobby_ws_lem written state with_room token 10 990 true lobby_actor lobby_connects
