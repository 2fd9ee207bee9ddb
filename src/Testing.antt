-- ===== src/Testing.antt =====
-- helpers/src/testing/harness.rs: the harness that runs an actor of the server against actors of
-- clients, in which a tick is one call. A queue of tokio with a capacity is what waits in it. A send
-- to a full queue has no answer here: it waits until somebody else reads the queue.
pub mod Client
pub mod Queues
pub mod Routing
mod Tests
use Prim.Native.String.{String}
use multiplayer_kit.Base.{
  ℕ, ◌+◌, ◌%◌, ◌^◌, Option, none, some, List, [], ◌∷◌, ◌++◌, Bool, true, length, ltb, if◌then◌else◌,
  ℕ_discrete,
}
use multiplayer_kit.Base.Map.{Map, get, insert}
use multiplayer_kit.Protocol.{UserContext, RoomConfig}
use multiplayer_kit.ChannelMessage.{ChannelMessage}
use multiplayer_kit.ServerActor.Routing.{ServerOutput, to_user, broadcast, internal}
use multiplayer_kit.ServerActor.Loop.{
  ServerMessage, user_connected, user_disconnected, game_message, ServerSource, user,
  internal_source, GameActor,
}

pub record TestUser : Type 0 where
  pub id : ℕ
  pub name : String

abbrev pub test_users : UserContext
test_users = record { User = TestUser; UserId = ℕ; id = λ u. u.id; id_discrete = ℕ_discrete }

-- `mpsc::channel(64)`, from the side that sends.
pub record Queue (A : Type 0) : Type 0 where
  pub waiting : List A
  pub is_open : Bool

abbrev pub capacity : ℕ
capacity = 64

-- `let _ = tx.send(..).await`: a send to nobody is given up.
unfoldable pub send : {A : Type 0} → Queue A → A → Option (Queue A)
send q a =
    if q.is_open
    then (if ltb (length q.waiting) capacity
        then some (record q { waiting = q.waiting ++ a ∷ [] })
        else none)
    else some q

pub record TestHarness (M : ChannelMessage) : Type 0 where
  pub server_to_client : Map ℕ (Queue M.Message)
  pub client_to_server : Queue (TestUser × M.Message)
  pub server_internal : Queue M.Message
  pub users : List TestUser
  pub next_user_id : ℕ

abbrev nothing_yet : {A : Type 0} → Queue A
nothing_yet = record { waiting = []; is_open = true }

-- The branches of `route_server_outputs` for one user and for all.
unfoldable pub send_to_one :
    {A : Type 0} → Map ℕ (Queue A) → ℕ → A → Option (Queue A) → Option (Map ℕ (Queue A))
send_to_one clients id m none = some clients
send_to_one clients id m (some q) = elim (send q m) [
  | none ↦ none
  | some q' ↦ some (insert ℕ_discrete id q' clients)
]

unfoldable pub send_to_all : {A : Type 0} → Map ℕ (Queue A) → A → Option (Map ℕ (Queue A))
send_to_all [] m = some []
send_to_all ((id, q) ∷ clients) m =
    let rest = send_to_all clients m in
    elim (send q m) [
      | none ↦ none
      | some q' ↦ elim rest [ none ↦ none | some clients' ↦ some ((id, q') ∷ clients') ]
    ]

module _ {M : ChannelMessage} where
  unfoldable pub new : TestHarness M
  new = record {
    server_to_client = [];
    client_to_server = nothing_yet;
    server_internal = nothing_yet;
    users = [];
    next_user_id = 1;
  }

  unfoldable pub connect_user : TestHarness M → String → TestHarness M × TestUser
  connect_user h name =
      let u : TestUser = record { id = h.next_user_id; name = name } in
      (
        record h {
          server_to_client = insert ℕ_discrete u.id nothing_yet h.server_to_client;
          users = h.users ++ u ∷ [];
          next_user_id = (h.next_user_id + 1) % 2 ^ 64;
        },
        u,
      )

  unfoldable pub route_one : TestHarness M → ServerOutput test_users M → Option (TestHarness M)
  unfolding send_to_one
  route_one h (to_user u m) =
      elim (send_to_one h.server_to_client u.id m (get ℕ_discrete u.id h.server_to_client)) [
        | none ↦ none
        | some clients ↦ some (record h { server_to_client = clients })
      ]
  route_one h (broadcast m) = elim (send_to_all h.server_to_client m) [
    | none ↦ none
    | some clients ↦ some (record h { server_to_client = clients })
  ]
  route_one h (internal m) = elim (send h.server_internal m) [
    | none ↦ none
    | some q ↦ some (record h { server_internal = q })
  ]

  unfoldable pub route_server_outputs :
      TestHarness M → List (ServerOutput test_users M) → Option (TestHarness M)
  route_server_outputs h [] = some h
  route_server_outputs h (o ∷ outputs) = elim (route_one h o) [
    | none ↦ none
    | some h' ↦ route_server_outputs h' outputs
  ]

-- The state and the extras of the server's actor, and its sink.
pub record Tick {C : RoomConfig} {M : ChannelMessage} (A : GameActor test_users C M) : Type 0 where
  pub state : A.State
  pub extras : A.Extras
  pub sink : List (ServerOutput test_users M)

module _ {C : RoomConfig} {M : ChannelMessage} {A : GameActor test_users C M} where
  unfoldable pub handle_one : Tick A → ServerSource test_users → ServerMessage M → Tick A
  handle_one t from content =
      let answer = A.handle t.state t.extras (record { from = from; content = content }) t.sink in
      record { state = answer.0; extras = answer.1.0; sink = answer.1.1 }

  unfoldable pub handle_clients : Tick A → List (TestUser × M.Message) → Tick A
  handle_clients t [] = t
  handle_clients t ((u, m) ∷ ms) = handle_clients (handle_one t (user u) (game_message m)) ms

  unfoldable pub handle_internals : Tick A → List M.Message → Tick A
  handle_internals t [] = t
  handle_internals t (m ∷ ms) = handle_internals (handle_one t internal_source (game_message m)) ms

  -- The state and the extras afterwards, and the harness unless a send waits.
  unfoldable pub run_server_tick :
      TestHarness M → A.State → A.Extras → Tick A × Option (TestHarness M)
  run_server_tick h state extras =
      let begun : Tick A = record { state = state; extras = extras; sink = [] } in
      let heard = handle_clients begun h.client_to_server.waiting in
      let t = handle_internals heard h.server_internal.waiting in
      let read : TestHarness M = record h {
        client_to_server = record h.client_to_server { waiting = [] };
        server_internal = record h.server_internal { waiting = [] };
      } in
      (record t { sink = [] }, route_server_outputs read t.sink)

  unfoldable pub deliver_user_connected :
      TestHarness M → TestUser → A.State → A.Extras → Tick A × Option (TestHarness M)
  deliver_user_connected h u state extras =
      let t =
        handle_one (record { state = state; extras = extras; sink = [] }) (user u) user_connected in
      (record t { sink = [] }, route_server_outputs h t.sink)

  unfoldable pub deliver_user_disconnected :
      TestHarness M → TestUser → A.State → A.Extras → Tick A × Option (TestHarness M)
  deliver_user_disconnected h u state extras =
      let t =
        handle_one (record { state = state; extras = extras; sink = [] }) (user u)
          user_disconnected in
      (record t { sink = [] }, route_server_outputs h t.sink)
