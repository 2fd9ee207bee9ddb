-- ===== src/Ws/Timeline.antt =====
-- server/src/ws.rs: what reaches the actor of a room connection over time, and what it does about it
-- until it stops.
use multiplayer_kit.Base.{ℕ, List, [], ◌∷◌, ◌++◌, Bool, true, false, if◌then◌else◌}
use multiplayer_kit.Protocol.{UserContext}
use multiplayer_kit.Room.{Tokio, Instant}
use multiplayer_kit.Ws.{
  RoomWsActor, WsMessage, ping, pong, text, binary, close, other, Effect, run_interval, sends_ping,
  sends_pong, sends_binary, stop, spawns_send, listens, awaits_close, listens_lobby, heartbeat_tick,
  handle_room_message, handle_channel_closed, handle,
}

pub data Input : Type 0 where
  tick : Input
  received : WsMessage → Input
  room_message : List ℕ → Input
  channel_closed : Input

-- The inputs with their times, oldest first.
abbrev pub Trace : Type 0
Trace = List (Instant × Input)

pub record Run (T : UserContext) (R : Tokio) : Type 0 where
  pub actor : RoomWsActor T R
  pub effects : List (Effect R)
  pub running : Bool

module _ {R : Tokio} where
  abbrev pub stops : List (Effect R) → Bool
  stops [] = false
  stops (run_interval n ∷ es) = stops es
  stops (sends_ping ∷ es) = stops es
  stops (sends_pong bs ∷ es) = stops es
  stops (sends_binary bs ∷ es) = stops es
  stops (stop ∷ es) = true
  stops (spawns_send tx bs ∷ es) = stops es
  stops (listens rx ∷ es) = stops es
  stops (awaits_close rx ∷ es) = stops es
  stops (listens_lobby rx ∷ es) = stops es

  -- What is sent to the handler of the room.
  abbrev pub spawned_sends : List (Effect R) → List (R.Sender × List ℕ)
  spawned_sends [] = []
  spawned_sends (run_interval n ∷ es) = spawned_sends es
  spawned_sends (sends_ping ∷ es) = spawned_sends es
  spawned_sends (sends_pong bs ∷ es) = spawned_sends es
  spawned_sends (sends_binary bs ∷ es) = spawned_sends es
  spawned_sends (stop ∷ es) = spawned_sends es
  spawned_sends (spawns_send tx bs ∷ es) = (tx, bs) ∷ spawned_sends es
  spawned_sends (listens rx ∷ es) = spawned_sends es
  spawned_sends (awaits_close rx ∷ es) = spawned_sends es
  spawned_sends (listens_lobby rx ∷ es) = spawned_sends es

-- The bytes that the client has sent.
abbrev pub payloads : Trace → List (List ℕ)
payloads [] = []
payloads ((t, tick) ∷ tr) = payloads tr
payloads ((t, received (ping bs)) ∷ tr) = payloads tr
payloads ((t, received (pong bs)) ∷ tr) = payloads tr
payloads ((t, received (text bs)) ∷ tr) = bs ∷ payloads tr
payloads ((t, received (binary bs)) ∷ tr) = bs ∷ payloads tr
payloads ((t, received close) ∷ tr) = payloads tr
payloads ((t, received other) ∷ tr) = payloads tr
payloads ((t, room_message bs) ∷ tr) = payloads tr
payloads ((t, channel_closed) ∷ tr) = payloads tr

module _ {T : UserContext} {R : Tokio} where
  unfoldable pub react : RoomWsActor T R → Input → Instant → RoomWsActor T R × List (Effect R)
  react act tick now = (act, heartbeat_tick act now)
  react act (received msg) now = handle act msg now
  react act (room_message bytes) now = (act, handle_room_message act bytes)
  react act channel_closed now = (act, handle_channel_closed act)

  -- An actor that has stopped does nothing more.
  unfoldable pub run : RoomWsActor T R → Trace → Run T R
  run act [] = record { actor = act; effects = []; running = true }
  run act ((now, i) ∷ rest) =
      let (act', es) = react act i now in
      let r = run act' rest in
      if stops es
      then record { actor = act'; effects = es; running = false }
      else record r { effects = es ++ r.effects }
