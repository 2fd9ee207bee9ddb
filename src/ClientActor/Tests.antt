-- ===== src/ClientActor/Tests.antt =====
-- Runs of helpers/src/client_actor for a game with two channels, whose messages are a byte long.
use multiplayer_kit.Base.{
  ℕ, zero, suc, ◌+◌, ◌≤◌, ℕ_discrete, ◌≡◌, refl, none, some, List, [], ◌∷◌, ◌++◌, map, true, false,
  arith,
}
use multiplayer_kit.Framing.{frame_message, try_extract, header, to_be_bytes, push_all}
use multiplayer_kit.Base.Map.{get, insert, remove}
use multiplayer_kit.Examples.{chat, people}
use multiplayer_kit.ServerActor
use multiplayer_kit.ServerActor.{user_ready, message, start, empty, identified, pending_entry}
use multiplayer_kit.ClientActor.Sending.{events_of_chunks, run_channel-identified}
use multiplayer_kit.ClientActor.{
  forward_outgoing, typed_to, encoded_to, framed_to, ClientMessage, connected, disconnected,
  game_message, server, internal_source, local_source, ClientOutput, to_server, internal, received,
  bridge_connected, bridge_message, bridge_disconnected,
}
use multiplayer_kit.ClientActor.Channel.{Poll, reads, writes, run_channel, run_loop, poll_task}
use multiplayer_kit.ClientActor.Connector.{incoming, from_runtime, connector_loop, poll_connector}
use multiplayer_kit.ClientActor.Connector
use multiplayer_kit.ClientActor.Runtime.{
  ClientActor, RuntimeStatus, is_up, is_down, ActorRuntime, Branch, bridge_branch, local_branch,
  Arrival, event, local_message, new, drained, dispatch, handle_bridge_event, handle_message,
  poll_bridge, poll_self, poll_local, status_of, poll_queues, poll, polled_after, bridge_step,
  self_step, local_step, step, arrive, run,
}
use multiplayer_kit.ClientActor.Told.{recorded, recorded-KeepsLog, told, log_of}
use multiplayer_kit.ClientActor.Order.{events_of, all_events}
use multiplayer_kit.ClientActor.Polling.{to_self, IsQuiet}
use multiplayer_kit.ClientActor.Early.{run_early}
use multiplayer_kit.ClientActor.Session.{IsSession}
use multiplayer_kit.ClientActor.Ending.{DiesOut, run_ends}
use multiplayer_kit.ClientActor.Answers.{run-told, run-IsSession}
use multiplayer_kit.ClientActor.Delivery.{chunks_of, writes_of, run_channel-delivers}

-- An actor that answers everything by a message to the server.
abbrev answering : ClientActor chat
answering = record {
  Config = ℕ;
  State = ℕ;
  Extras = ℕ;
  startup = λ c. c;
  handle = λ s x from content sink. (s, (x, sink ++ to_server 3 ∷ []));
  shutdown = λ s x. (s, x);
}

answering-IsQuiet : IsQuiet (recorded answering)
unfolding to_self
answering-IsQuiet s x from content = refl

-- The connection and a message, then a message of the client's own program and the end.
abbrev history : List (List (Arrival chat) × Branch)
history =
    (event bridge_connected ∷ event (bridge_message 5) ∷ [], bridge_branch)
    ∷ (local_message 2 ∷ event bridge_disconnected ∷ [], local_branch)
    ∷ []

abbrev ended : ActorRuntime (recorded answering)
ended = record {
  state = (
    0,
    (server, connected)
        ∷ (server, game_message 5)
        ∷ (local_source, game_message 2)
        ∷ (server, disconnected)
        ∷ [],
  );
  extras = 0;
  sink = [];
  bridge_rx = [];
  bridge_open = true;
  self_rx = [];
  local_rx = [];
  server_tx = 3 ∷ 3 ∷ 3 ∷ 3 ∷ [];
  is_connected = false;
}

run-history : run 9 (new {A = recorded answering} 0 0) history ≡ some (ended, is_down)
unfolding run new arrive step bridge_step self_step local_step polled_after poll poll_queues
    poll_self poll_local poll_bridge handle_bridge_event handle_message dispatch drained status_of
run-history = refl

-- An actor that sends to itself: a message counts down to 0.
abbrev countdown : ClientMessage chat → List (ClientOutput chat)
countdown connected = []
countdown disconnected = []
countdown (game_message zero) = []
countdown (game_message (suc m)) = internal m ∷ []

abbrev counting : ClientActor chat
counting = record {
  Config = ℕ;
  State = ℕ;
  Extras = ℕ;
  startup = λ c. c;
  handle = λ s x from content sink. (s, (x, sink ++ countdown content));
  shutdown = λ s x. (s, x);
}

counting-DiesOut : DiesOut (recorded counting) (λ m. m + 1)
unfolding to_self
counting-DiesOut s x zero = omega arith
counting-DiesOut s x (suc m) = omega arith

abbrev counted : ActorRuntime (recorded counting)
counted = record {
  state = (
    0,
    (server, connected)
        ∷ (server, game_message 2)
        ∷ (internal_source, game_message 1)
        ∷ (internal_source, game_message 0)
        ∷ [],
  );
  extras = 0;
  sink = [];
  bridge_rx = [];
  bridge_open = true;
  self_rx = [];
  local_rx = [];
  server_tx = [];
  is_connected = true;
}

-- The connection and a message that counts down.
abbrev counts : List (List (Arrival chat) × Branch)
counts = (event bridge_connected ∷ event (bridge_message 2) ∷ [], bridge_branch) ∷ []

run-counts : run 2 (new {A = recorded counting} 0 0) counts ≡ some (counted, is_up)
unfolding run new arrive step bridge_step self_step local_step polled_after poll poll_queues
    poll_self poll_local poll_bridge handle_bridge_event handle_message dispatch drained status_of
run-counts = refl

run_ends_example :
    (least : ℕ) × (q : ActorRuntime (recorded counting)) × (s : RuntimeStatus) × ((fuel : ℕ)
      → least ≤ fuel
      → run fuel (new {A = recorded counting} 0 0) counts ≡ some (q, s))
unfolding new
run_ends_example = run_ends counting-DiesOut counts (new 0 0) refl

run-told_example :
    (least : ℕ) × (r : ActorRuntime (recorded counting)) × (s : RuntimeStatus) × (rest : List
      (ClientMessage chat))
    × ((fuel : ℕ) → least ≤ fuel → run fuel (new {A = recorded counting} 0 0) counts ≡ some (r, s))
    × (log_of (recorded-KeepsLog counting) r ++ (map told r.bridge_rx ++ rest)
        ≡ connected ∷ game_message 2 ∷ [])
    × (s ≡ is_up → rest ≡ [])
unfolding all_events events_of recorded-KeepsLog
run-told_example = run-told (recorded-KeepsLog counting) counting-DiesOut 0 0 counts refl

run-IsSession_example :
    (least : ℕ) × (r : ActorRuntime (recorded counting)) × (s : RuntimeStatus) × ((fuel : ℕ)
      → least ≤ fuel
      → run fuel (new {A = recorded counting} 0 0) counts ≡ some (r, s))
    × IsSession (log_of (recorded-KeepsLog counting) r)
    × (s ≡ is_up
        → r.bridge_rx ≡ []
        → log_of (recorded-KeepsLog counting) r ≡ connected ∷ game_message 2 ∷ [])
unfolding all_events events_of recorded-KeepsLog Connector.run connector_loop poll_connector
run-IsSession_example =
    run-IsSession (recorded-KeepsLog counting) counting-DiesOut
      (incoming (some (bridge_message 2)) ∷ from_runtime (some 3) ∷ incoming none ∷ [])
      (bridge_disconnected ∷ []) 0 0 counts refl refl

run_early_example :
    (r : ActorRuntime (recorded answering)) × (run 0
        (new {A = recorded answering} 0 0)
        ((local_message 2 ∷ [], local_branch) ∷ history)
      ≡ some (r, is_down))
    × (r.state.1 ≡ (local_source, game_message 2) ∷ [])
unfolding recorded-KeepsLog
run_early_example = run_early (recorded-KeepsLog answering) answering-IsQuiet 0 0 0 2 history refl

abbrev polls : List Poll
polls =
    reads (0 ∷ 0 ∷ 0 ∷ [])
    ∷ writes (7 ∷ []) true
    ∷ reads (1 ∷ 5 ∷ 0 ∷ 0 ∷ [])
    ∷ reads (0 ∷ 1 ∷ 6 ∷ 0 ∷ [])
    ∷ []

run_channel-delivers_example : run_channel {M = chat} 1 1 true polls ≡ record {
  buffer = record { buffer = 0 ∷ [] };
  events = received 5 ∷ received 6 ∷ [];
  written = frame_message (1 ∷ []) ∷ (7 ∷ []) ∷ [];
  live = true;
}
unfolding chunks_of writes_of frame_message to_be_bytes try_extract header
run_channel-delivers_example =
    run_channel-delivers chat 1 1 polls ((5 ∷ []) ∷ (6 ∷ []) ∷ []) (5 ∷ 6 ∷ []) (0 ∷ [])
      (tt, (refl, (tt, (tt, tt)))) (omega arith, (omega arith, tt)) refl refl refl

-- User 7 sends 5 and 6 on channel 0, which the server reads in three chunks.
abbrev sends : List Poll
sends = writes (frame_message (5 ∷ [])) true ∷ writes (frame_message (6 ∷ [])) true ∷ []

run_channel-identified_example :
    events_of_chunks {T = people} {M = chat} 1 ServerActor.empty.tables
      (start 1 7)
      ((frame_message (0 ∷ []) ++ 0 ∷ 0 ∷ []) ∷ (0 ∷ 1 ∷ 5 ∷ 0 ∷ []) ∷ (0 ∷ 0 ∷ 1 ∷ 6 ∷ []) ∷ [])
    ≡ user_ready 7 ∷ message 7 0 5 ∷ message 7 0 6 ∷ []
unfolding ServerActor.empty start get insert remove identified pending_entry chunks_of writes_of
    forward_outgoing typed_to encoded_to framed_to frame_message to_be_bytes run_channel run_loop
    poll_task ℕ_discrete push_all
run_channel-identified_example =
    run_channel-identified people chat {Sender = ℕ} 1 ServerActor.empty.tables (start 1 7) 0
      ((0, 10) ∷ []) 10 (5 ∷ 6 ∷ []) ((5 ∷ []) ∷ (6 ∷ []) ∷ []) sends (0 ∷ 0 ∷ [])
      (0 ∷ 1 ∷ 5 ∷ 0 ∷ []) ((0 ∷ 0 ∷ 1 ∷ 6 ∷ []) ∷ []) refl refl refl (refl, refl) refl
      (omega arith, (omega arith, tt)) (refl, (refl, tt)) tt refl refl
