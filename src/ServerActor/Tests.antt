-- ===== src/ServerActor/Tests.antt =====
-- Runs of helpers/src/server_actor/channel.rs for one user of a game with two channels.
use multiplayer_kit.Base.{
  ℕ, ◌+◌, ◌≤◌, ◌≡◌, refl, none, some, List, [], ◌∷◌, ◌++◌, arith, All, ok, ℕ_discrete,
}
use multiplayer_kit.Base.Map.{Map, get, insert, remove, Distinct}
use multiplayer_kit.Protocol.{ChannelId}
use multiplayer_kit.Framing.{
  new, frame_message, to_be_bytes, header, from_be_bytes, try_extract, drain, messages, push,
}
use multiplayer_kit.Room.{ChannelBroadcast, send_to}
use multiplayer_kit.Examples.{people, handles, chat}
use multiplayer_kit.ServerActor.{
  user_ready, user_gone, message, Tables, Phase, identifying, running, Task, start, pending_entry,
  identified, identify_by, identify, deliver, closed, read_in, read, Turn, accepts, answers, empty,
  sends, next_unsent, without_user, turn, run,
}
use multiplayer_kit.ServerActor.Reports.{readies, gones, unsent_events}
use multiplayer_kit.ServerActor.Connection.{run-gones-le-readies}
use multiplayer_kit.ServerActor.Departure.{identified-closed}
use multiplayer_kit.ServerActor.Identify.{IsLifecycle, read_coalesced}
use multiplayer_kit.ServerActor.Routing.{
  route_outputs, route, keys_where, is_of_user, to_user, IsFor, route-to_user,
}

-- User 7 opens the channels 1 and 2, names their types, says 5 on one and closes it. Each task sends its
-- events before the next turn.
abbrev history : List (Turn people)
history =
    accepts 1 7
    ∷ accepts 2 7
    ∷ answers 1 (some (0 ∷ 0 ∷ 0 ∷ 1 ∷ 0 ∷ []))
    ∷ answers 2 (some (0 ∷ 0 ∷ 0 ∷ 1 ∷ 1 ∷ []))
    ∷ sends 2
    ∷ answers 1 (some (0 ∷ 0 ∷ 0 ∷ 1 ∷ 5 ∷ []))
    ∷ sends 1
    ∷ answers 1 none
    ∷ sends 1
    ∷ []

runs :
    (run {T = people} {M = chat} 2 empty history).1
    ≡ user_ready 7 ∷ message 7 0 5 ∷ user_gone 7 ∷ []
unfolding run turn read read_in identify identify_by identified pending_entry closed deliver start
    empty try_extract push messages drain header from_be_bytes get insert remove ℕ_discrete
    next_unsent
runs = refl

-- The second channel completes the set, and the first one closes before the task of the second has sent
-- the report: the actor is told that the user is gone, and then that the user is there, with no channel.
abbrev overtaken : List (Turn people)
overtaken =
    accepts 1 7
    ∷ accepts 2 7
    ∷ answers 1 (some (0 ∷ 0 ∷ 0 ∷ 1 ∷ 0 ∷ []))
    ∷ answers 2 (some (0 ∷ 0 ∷ 0 ∷ 1 ∷ 1 ∷ []))
    ∷ answers 1 none
    ∷ sends 1
    ∷ sends 2
    ∷ []

runs_overtaken :
    ((run {T = people} {M = chat} 2 empty overtaken).1 ≡ user_gone 7 ∷ user_ready 7 ∷ [])
    × ((run {T = people} {M = chat} 2 empty overtaken).0.tables.connected_users ≡ [])
unfolding run turn read read_in identify identify_by identified pending_entry closed deliver start
    empty try_extract push messages drain header from_be_bytes get insert remove ℕ_discrete
    next_unsent without_user
runs_overtaken = (refl, refl)

run-gones-le-readies_example :
    let r = run {T = people} {M = chat} 2 empty overtaken in
    let left = unsent_events r.0.unsent in
    gones 7 r.1 + gones 7 left ≤ readies 7 r.1 + readies 7 left
run-gones-le-readies_example = run-gones-le-readies people chat 7 2 overtaken

abbrev tables : Tables people chat
tables = record {
  user_channels = (1, (7, 0)) ∷ (2, (7, 1)) ∷ (3, (8, 0)) ∷ [];
  pending_users = [];
  connected_users = (7, 7) ∷ (8, 8) ∷ [];
}

abbrev waiting : Tables people chat
waiting = record {
  user_channels = (1, (7, 0)) ∷ [];
  pending_users = (7, (7, (0, 1) ∷ [])) ∷ [];
  connected_users = [];
}

abbrev task : ChannelId → ℕ → Phase chat → Task people chat
task c u phase = record { channel_id = c; user = u; phase = phase }

identified-closed_example :
    (identified 2
      (closed waiting (task 1 7 (running 0 new))).tables
      (task 2 7 (identifying new))
      1
      new).events
    ≡ []
unfolding get
identified-closed_example =
    identified-closed 2 waiting (task 1 7 (running 0 new)) (task 2 7 (identifying new)) 1 new refl
      refl (omega arith)

abbrev writers : Map ChannelId (ChannelBroadcast handles)
writers = (1, record { write_tx = 11 }) ∷ (3, record { write_tx = 13 }) ∷ []

routes :
    (route_outputs {T = people} {M = chat} writers tables.user_channels (to_user 8 5 ∷ [])).sends
    ≡ (13, 0 ∷ 0 ∷ 0 ∷ 1 ∷ 5 ∷ []) ∷ []
unfolding route_outputs route send_to keys_where is_of_user ℕ_discrete get frame_message to_be_bytes
routes = refl

route-to_user_example :
    All
      (IsFor people chat writers tables.user_channels 8 5)
      (route_outputs {T = people} {M = chat} writers tables.user_channels (to_user 8 5 ∷ [])).sends
unfolding Distinct get ℕ_discrete
route-to_user_example =
    route-to_user people chat writers tables.user_channels 8 5 (refl, (refl, (refl, tt)))

abbrev both : List ℕ
both = 0 ∷ 0 ∷ 0 ∷ 1 ∷ 1 ∷ 0 ∷ 0 ∷ 0 ∷ 1 ∷ 5 ∷ []

read_coalesced_example :
    let o = read 2 waiting (task 2 7 (identifying new)) (some both) in
    (All IsLifecycle (o.events ++ (read 2 o.tables o.task none).events))
    × ((read 2 waiting (task 2 7 (running 1 new)) (some (frame_message (5 ∷ [])))).events
        ≡ deliver {T = people} {M = chat} 7 1 (ok (5 ∷ []) ∷ []))
unfolding frame_message to_be_bytes
read_coalesced_example =
    read_coalesced 2 waiting (task 2 7 (identifying new)) new both (5 ∷ []) 1 refl refl refl
      (omega arith)
