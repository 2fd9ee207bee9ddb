-- ===== src/Testing/Client.antt =====
-- helpers/src/testing/harness.rs: `TestClientConnection`, which is a user of the harness. The extras
-- of its actor are handed in and out with its state.
use multiplayer_kit.Base.{ℕ, Option, none, some, List, [], ◌∷◌, ℕ_discrete}
use multiplayer_kit.Base.Map.{get, insert}
use multiplayer_kit.ChannelMessage.{ChannelMessage}
use multiplayer_kit.ClientActor.{
  ClientMessage, connected, game_message, server, ClientOutput, to_server, internal,
}
use multiplayer_kit.ClientActor.Runtime.{ClientActor}
use multiplayer_kit.Testing.{TestUser, Queue, TestHarness}
use multiplayer_kit.Testing

-- The messages for the server; those for the actor itself are not handled.
unfoldable pub for_server : {M : ChannelMessage} → List (ClientOutput M) → List M.Message
for_server [] = []
for_server (to_server m ∷ outputs) = m ∷ for_server outputs
for_server (internal m ∷ outputs) = for_server outputs

module _ {M : ChannelMessage} where
  sent_by : TestHarness M → Option (Queue (TestUser × M.Message)) → Option (TestHarness M)
  sent_by h none = none
  sent_by h (some q) = some (record h { client_to_server = q })

  -- `send`, with no answer while it waits for place.
  unfoldable pub send : TestHarness M → TestUser → M.Message → Option (TestHarness M)
  unfolding sent_by
  send h u m = sent_by h (Testing.send h.client_to_server (u, m))

  unfoldable pub send_each : TestHarness M → TestUser → List M.Message → Option (TestHarness M)
  send_each h u [] = some h
  send_each h u (m ∷ ms) = elim (send h u m) [ none ↦ none | some h' ↦ send_each h' u ms ]

  -- What waits for the user, and the harness without it.
  unfoldable pub drained_for : TestHarness M → TestUser → List M.Message × TestHarness M
  drained_for h u = elim (get ℕ_discrete u.id h.server_to_client) [
    | none ↦ ([], h)
    | some q ↦ (
      q.waiting,
      record h {
        server_to_client = insert ℕ_discrete u.id (record q { waiting = [] }) h.server_to_client;
      },
    )
  ]

  first_of : TestHarness M → ℕ → Queue M.Message → List M.Message → Option M.Message × TestHarness M
  first_of h id q [] = (none, h)
  first_of h id q (m ∷ ms) = (
    some m,
    record h {
      server_to_client = insert ℕ_discrete id (record q { waiting = ms }) h.server_to_client;
    },
  )

  unfoldable pub try_recv : TestHarness M → TestUser → Option M.Message × TestHarness M
  unfolding first_of
  try_recv h u = elim (get ℕ_discrete u.id h.server_to_client) [
    | none ↦ (none, h)
    | some q ↦ first_of h u.id q q.waiting
  ]

-- The actor with its sink.
pub record ClientTick {M : ChannelMessage} (A : ClientActor M) : Type 0 where
  pub state : A.State
  pub extras : A.Extras
  pub sink : List (ClientOutput M)

module _ {M : ChannelMessage} {A : ClientActor M} where
  unfoldable pub handle_from_server : ClientTick A → ClientMessage M → ClientTick A
  handle_from_server t content =
      let answer = A.handle t.state t.extras server content t.sink in
      record { state = answer.0; extras = answer.1.0; sink = answer.1.1 }

  unfoldable pub handle_all : ClientTick A → List M.Message → ClientTick A
  handle_all t [] = t
  handle_all t (m ∷ ms) = handle_all (handle_from_server t (game_message m)) ms

  -- The actor, what it has sent to the server, and the harness unless a send waits.
  unfoldable pub run_client_tick :
      TestHarness M
      → TestUser
      → A.State
      → A.Extras
      → ClientTick A × (List M.Message × Option (TestHarness M))
  run_client_tick h u state extras =
      let (ms, read) : List M.Message × TestHarness M = drained_for h u in
      let t = handle_all (record { state = state; extras = extras; sink = [] }) ms in
      let sent = for_server t.sink in (record t { sink = [] }, (sent, send_each read u sent))

  -- What the actor sends then is answered to the caller, and not sent to the server.
  unfoldable pub deliver_connected : A.State → A.Extras → ClientTick A × List M.Message
  deliver_connected state extras =
      let t = handle_from_server (record { state = state; extras = extras; sink = [] }) connected in
      (record t { sink = [] }, for_server t.sink)
