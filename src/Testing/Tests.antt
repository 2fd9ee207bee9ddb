-- ===== src/Testing/Tests.antt =====
-- Runs of helpers/src/testing/harness.rs for a game whose messages are a byte long.
use multiplayer_kit.Base.{ℕ, ◌≡◌, refl, some, List, [], ◌∷◌, ◌++◌, arith, ℕ_discrete, true}
use multiplayer_kit.Base.Map.{get, insert}
use multiplayer_kit.Examples.{chat, game}
use multiplayer_kit.ServerActor.Routing.{ServerOutput, to_user, broadcast, internal}
use multiplayer_kit.ServerActor.Loop.{GameActor}
use multiplayer_kit.Testing.{
  TestUser, test_users, TestHarness, Queue, send, connect_user, handle_one, handle_clients,
  handle_internals, route_one, send_to_one, send_to_all, route_server_outputs, run_server_tick,
}
use multiplayer_kit.Testing
use multiplayer_kit.Testing.Client.{try_recv}
use multiplayer_kit.Testing.Routing.{Routes, route_server_outputs-Routes}

abbrev first : TestHarness chat × TestUser
first = connect_user Testing.new "ann"

abbrev second : TestHarness chat × TestUser
second = connect_user first.0 "ben"

-- An actor that tells all what it hears.
abbrev echo : GameActor test_users game chat
echo = record {
  State = ℕ;
  Extras = ℕ;
  startup = λ c. 0;
  room_extras = λ id. 0;
  handle = λ s x msg sink. (s, (x, sink ++ broadcast 5 ∷ []));
  shutdown = λ s x. (s, x);
}

-- Ben says something, and ann gets it behind a tick.
abbrev said : TestHarness chat
said = record second.0 {
  client_to_server = record { waiting = (second.1, 5) ∷ []; is_open = true };
}

abbrev heard : TestHarness chat
heard = record second.0 {
  server_to_client =
      (1, record { waiting = 5 ∷ []; is_open = true })
      ∷ (2, record { waiting = 5 ∷ []; is_open = true })
      ∷ [];
}

tick : (run_server_tick {A = echo} said 0 0).1 ≡ some heard
unfolding run_server_tick handle_clients handle_internals handle_one route_server_outputs route_one
    send_to_all send connect_user Testing.new insert ℕ_discrete
tick = refl

receives : (try_recv heard first.1).0 ≡ some 5
unfolding try_recv connect_user Testing.new get ℕ_discrete
receives = refl

abbrev outputs : List (ServerOutput test_users chat)
outputs = to_user second.1 7 ∷ broadcast 8 ∷ internal 9 ∷ []

route_server_outputs-Routes_example :
    (after : TestHarness chat) × (route_server_outputs second.0 outputs ≡ some after)
    × Routes second.0 outputs after
unfolding connect_user Testing.new insert ℕ_discrete
route_server_outputs-Routes_example =
    route_server_outputs-Routes outputs second.0 ((omega arith, (omega arith, tt)), omega arith)
