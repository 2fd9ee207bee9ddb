-- ===== src/Ws/Heartbeat.antt =====
-- server/src/ws.rs: the heartbeat of a room connection.
use multiplayer_kit.Base.{
  ◌+◌, ◌≤◌, ◌<◌, ◌≡◌, some, [], ◌∷◌, ◌++◌, map, All, true, false, arith, refl,
}
use multiplayer_kit.Protocol.{UserContext}
use multiplayer_kit.Room.{Tokio, Instant}
use multiplayer_kit.Ws.{
  RoomWsActor, ping, pong, text, binary, close, other, heartbeat_tick, handle_room_message,
  handle_channel_closed, handle, client_timeout,
}
use multiplayer_kit.Ws.Timeline.{
  Input, tick, received, room_message, channel_closed, Trace, spawned_sends, payloads, react, run,
}

-- Not a sign of life.
abbrev pub IsSilent : Instant × Input → Type 0
IsSilent (t, tick) = Unit
IsSilent (t, received (ping bs)) = 0 < 0
IsSilent (t, received (pong bs)) = 0 < 0
IsSilent (t, received (text bs)) = Unit
IsSilent (t, received (binary bs)) = Unit
IsSilent (t, received close) = Unit
IsSilent (t, received other) = Unit
IsSilent (t, room_message bs) = Unit
IsSilent (t, channel_closed) = Unit

-- Nobody closes the connection, and at each tick the last sign of life is at most the timeout ago.
abbrev pub IsLively : Instant → Trace → Type 0
IsLively last [] = Unit
IsLively last ((t, tick) ∷ tr) = (t ≤ last + client_timeout) × IsLively last tr
IsLively last ((t, received (ping bs)) ∷ tr) = IsLively t tr
IsLively last ((t, received (pong bs)) ∷ tr) = IsLively t tr
IsLively last ((t, received (text bs)) ∷ tr) = IsLively last tr
IsLively last ((t, received (binary bs)) ∷ tr) = IsLively last tr
IsLively last ((t, received close) ∷ tr) = 0 < 0
IsLively last ((t, received other) ∷ tr) = IsLively last tr
IsLively last ((t, room_message bs) ∷ tr) = IsLively last tr
IsLively last ((t, channel_closed) ∷ tr) = 0 < 0

module _ {T : UserContext} {R : Tokio} where
  react-silent :
      (act : RoomWsActor T R) (t : Instant) (i : Input) → IsSilent (t, i) → (react act i t).0 ≡ act
  unfolding react handle
  react-silent act t tick s = refl
  react-silent act t (received (ping bs)) s = absurd (omega arith)
  react-silent act t (received (pong bs)) s = absurd (omega arith)
  react-silent act t (received (text bs)) s = refl
  react-silent act t (received (binary bs)) s = refl
  react-silent act t (received close) s = refl
  react-silent act t (received other) s = refl
  react-silent act t (room_message bs) s = refl
  react-silent act t channel_closed s = refl

  -- A connection from which no ping and no pong comes is stopped by the first tick, at the latest, that
  -- is more than the timeout after the last one, whatever else comes in before.
  pub run_silent :
      (act : RoomWsActor T R) (before after : Trace) (t : Instant)
      → All IsSilent before
      → act.last_heartbeat + client_timeout < t
      → (run act (before ++ ((t, tick) ∷ after))).running ≡ false
  unfolding run react heartbeat_tick
  run_silent act [] after t s h = ground arith
  run_silent act ((u, i) ∷ before) after t s h =
      let same = react-silent act u i s.0 in
      let rest = run_silent act before after t s.1 h in ground (arith, same, rest)

  -- A connection that nobody closes, and from which a ping or a pong has come within the timeout before
  -- each tick, keeps running, and spawns for each text and each binary message, in their order, one task
  -- that sends it to the handler of the room, and no other such task. (In which order the tasks send, and
  -- whether their sends succeed, is not stated.)
  pub run_lively :
      (act : RoomWsActor T R) (tx : R.Sender) (tr : Trace)
      → act.read_tx ≡ some tx
      → IsLively act.last_heartbeat tr
      → ((run act tr).running ≡ true)
        × (spawned_sends (run act tr).effects ≡ map (λ payload. (tx, payload)) (payloads tr))
  unfolding run react handle heartbeat_tick handle_room_message handle_channel_closed
  run_lively act tx [] h l = (refl, refl)
  run_lively act tx ((t, tick) ∷ tr) h l = ground (arith, run_lively act tx tr h l.1)
  run_lively act tx ((t, received (ping bs)) ∷ tr) h l =
      run_lively (record act { last_heartbeat = t }) tx tr h l
  run_lively act tx ((t, received (pong bs)) ∷ tr) h l =
      run_lively (record act { last_heartbeat = t }) tx tr h l
  run_lively act tx ((t, received (text bs)) ∷ tr) h l = ground (arith, run_lively act tx tr h l)
  run_lively act tx ((t, received (binary bs)) ∷ tr) h l = ground (arith, run_lively act tx tr h l)
  run_lively act tx ((t, received close) ∷ tr) h l = absurd (omega arith)
  run_lively act tx ((t, received other) ∷ tr) h l = run_lively act tx tr h l
  run_lively act tx ((t, room_message bs) ∷ tr) h l = run_lively act tx tr h l
  run_lively act tx ((t, channel_closed) ∷ tr) h l = absurd (omega arith)
