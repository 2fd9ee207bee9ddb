-- ===== src/ClientActor/Runtime.antt =====
-- helpers/src/client_actor/runtime.rs: the runtime that tells the actor of a game what arrives, and
-- sends what the actor leaves in its sink. The actor is an interface (helpers/src/actor/actor.rs). The
-- queues are lists, oldest first; what arrives while `poll` runs counts as arriving behind it.
use multiplayer_kit.Base.{
  Result, ok, ◌>>=◌, ℕ, zero, suc, Option, none, some, List, [], ◌∷◌, ◌++◌, Bool, true, false,
  if◌then◌else◌,
}
use multiplayer_kit.ChannelMessage.{ChannelMessage}
use multiplayer_kit.ClientActor.Senders.{ActorSendError, send_on}
use multiplayer_kit.ClientActor.{
  ClientMessage, connected, disconnected, game_message, ClientSource, server, internal_source,
  local_source, ClientOutput, to_server, internal, BridgeEvent, bridge_connected, bridge_message,
  bridge_disconnected,
}

-- `handle` answers what it leaves in the sink behind what is there.
pub record ClientActor (M : ChannelMessage) : Type 1 where
  pub Config : Type 0
  pub State : Type 0
  pub Extras : Type 0
  pub startup : Config → State
  pub handle :
      State
      → Extras
      → ClientSource
      → ClientMessage M
      → List (ClientOutput M)
      → State × (Extras × List (ClientOutput M))
  pub shutdown : State → Extras → State × Extras

pub data RuntimeStatus : Type 0 where
  is_up : RuntimeStatus
  is_down : RuntimeStatus

-- `bridge_rx`, `self_rx` and `local_rx` are what waits in the queues, `bridge_open` whether the
-- connector is still there, and `server_tx` what was sent to the connector.
pub record ActorRuntime {M : ChannelMessage} (A : ClientActor M) : Type 0 where
  pub state : A.State
  pub extras : A.Extras
  pub sink : List (ClientOutput M)
  pub bridge_rx : List (BridgeEvent M)
  pub bridge_open : Bool
  pub self_rx : List M.Message
  pub local_rx : List M.Message
  pub server_tx : List M.Message
  pub is_connected : Bool

-- The branches of the `select` of `step`.
pub data Branch : Type 0 where
  bridge_branch : Branch
  self_branch : Branch
  local_branch : Branch

pub data Arrival (M : ChannelMessage) : Type 0 where
  event : BridgeEvent M → Arrival M
  local_message : M.Message → Arrival M
  bridge_closed : Arrival M

module _ {M : ChannelMessage} {A : ClientActor M} where
  unfoldable pub new : A.Config → A.Extras → ActorRuntime A
  new config extras = record {
    state = A.startup config;
    extras = extras;
    sink = [];
    bridge_rx = [];
    bridge_open = true;
    self_rx = [];
    local_rx = [];
    server_tx = [];
    is_connected = false;
  }

  -- The loop over `sink.drain()`.
  unfoldable pub drained : List (ClientOutput M) → ActorRuntime A → ActorRuntime A
  drained [] r = r
  drained (to_server m ∷ outputs) r =
      drained outputs (record r { server_tx = r.server_tx ++ m ∷ [] })
  drained (internal m ∷ outputs) r = drained outputs (record r { self_rx = r.self_rx ++ m ∷ [] })

  unfoldable pub dispatch : ActorRuntime A → ClientSource → ClientMessage M → ActorRuntime A
  dispatch r from content =
      let answer = A.handle r.state r.extras from content r.sink in
      drained answer.1.1 (record r { state = answer.0; extras = answer.1.0; sink = [] })

  unfoldable pub handle_bridge_event :
      ActorRuntime A → BridgeEvent M → ActorRuntime A × RuntimeStatus
  handle_bridge_event r bridge_connected =
      (dispatch (record r { is_connected = true }) server connected, is_up)
  handle_bridge_event r (bridge_message m) = (dispatch r server (game_message m), is_up)
  handle_bridge_event r bridge_disconnected =
      let r' = dispatch (record r { is_connected = false }) server disconnected in
      let (state, extras) = A.shutdown r'.state r'.extras in
      (record r' { state = state; extras = extras }, is_down)

  unfoldable pub handle_message : ActorRuntime A → ClientSource → M.Message → ActorRuntime A
  handle_message r source m = dispatch r source (game_message m)

  -- The first loop of `poll`, which returns behind a disconnection: the events left then stay.
  unfoldable pub poll_bridge :
      List (BridgeEvent M) → ActorRuntime A → ActorRuntime A × RuntimeStatus
  poll_bridge [] r = (record r { bridge_rx = [] }, is_up)
  poll_bridge (e ∷ es) r =
      let (r', status) = handle_bridge_event r e in
      elim status [ is_up ↦ poll_bridge es r' | is_down ↦ (record r' { bridge_rx = es }, is_down) ]

  -- The second loop: what the actor sends to itself meanwhile is handled too, so the rounds are
  -- bounded by fuel. No answer means that it ran out.
  unfoldable pub poll_self : ℕ → List M.Message → ActorRuntime A → Option (ActorRuntime A)
  poll_self fuel [] r = some r
  poll_self zero (m ∷ ms) r = none
  poll_self (suc fuel) (m ∷ ms) r =
      let r' = handle_message (record r { self_rx = [] }) internal_source m in
      poll_self fuel (ms ++ r'.self_rx) (record r' { self_rx = [] })

  unfoldable pub poll_local : List M.Message → ActorRuntime A → ActorRuntime A
  poll_local [] r = record r { local_rx = [] }
  poll_local (m ∷ ms) r = poll_local ms (handle_message r local_source m)

  unfoldable pub status_of : ActorRuntime A → RuntimeStatus
  status_of r = if r.is_connected then is_up else is_down

  unfoldable pub poll_queues : ℕ → ActorRuntime A → Option (ActorRuntime A × RuntimeStatus)
  poll_queues fuel r = elim (poll_self fuel r.self_rx (record r { self_rx = [] })) [
    | none ↦ none
    | some r' ↦ let last = poll_local r'.local_rx r' in some (last, status_of last)
  ]

  unfoldable pub poll : ℕ → ActorRuntime A → Option (ActorRuntime A × RuntimeStatus)
  unfolding poll_queues
  poll fuel r =
      let (r', status) = poll_bridge r.bridge_rx r in
      elim status [ is_up ↦ poll_queues fuel r' | is_down ↦ some (r', is_down) ]

-- What `step` comes to: it waits, its polling runs out of fuel, or it answers.
pub data Stepped {M : ChannelMessage} (A : ClientActor M) : Type 0 where
  waits : Stepped A
  unfinished : Stepped A
  answers : ActorRuntime A → RuntimeStatus → Stepped A

module _ {M : ChannelMessage} {A : ClientActor M} where
  unfoldable pub polled_after : ℕ → ActorRuntime A → Stepped A
  polled_after fuel r = elim (poll fuel r) [
    | none ↦ unfinished
    | some (r', status) ↦ answers r' status
  ]

  unfoldable pub bridge_step : ℕ → List (BridgeEvent M) → ActorRuntime A → Stepped A
  bridge_step fuel [] r = if r.bridge_open then waits else answers r is_down
  bridge_step fuel (e ∷ es) r =
      let (r', status) = handle_bridge_event (record r { bridge_rx = es }) e in
      elim status [ is_up ↦ polled_after fuel r' | is_down ↦ answers r' is_down ]

  unfoldable pub self_step : ℕ → List M.Message → ActorRuntime A → Stepped A
  self_step fuel [] r = waits
  self_step fuel (m ∷ ms) r =
      polled_after fuel (handle_message (record r { self_rx = ms }) internal_source m)

  unfoldable pub local_step : ℕ → List M.Message → ActorRuntime A → Stepped A
  local_step fuel [] r = waits
  local_step fuel (m ∷ ms) r =
      polled_after fuel (handle_message (record r { local_rx = ms }) local_source m)

  unfoldable pub step : ℕ → ActorRuntime A → Branch → Stepped A
  unfolding polled_after bridge_step self_step local_step
  step fuel r bridge_branch = bridge_step fuel r.bridge_rx r
  step fuel r self_branch = self_step fuel r.self_rx r
  step fuel r local_branch = local_step fuel r.local_rx r

  unfoldable pub arrive : List (Arrival M) → ActorRuntime A → ActorRuntime A
  arrive [] r = r
  arrive (event e ∷ xs) r = arrive xs (record r { bridge_rx = r.bridge_rx ++ e ∷ [] })
  arrive (local_message m ∷ xs) r = arrive xs (record r { local_rx = r.local_rx ++ m ∷ [] })
  arrive (bridge_closed ∷ xs) r = arrive xs (record r { bridge_open = false })

  -- `run`, over what arrives before each call of `step` and the branch that is taken then. The status
  -- is `is_up` as long as it runs. No answer means that a `poll` ran out of fuel.
  unfoldable pub run :
      ℕ
      → ActorRuntime A
      → List (List (Arrival M) × Branch)
      → Option (ActorRuntime A × RuntimeStatus)
  run fuel r [] = some (r, is_up)
  run fuel r ((xs, b) ∷ later) =
      let r' = arrive xs r in
      elim (step fuel r' b) [
        | waits ↦ run fuel r' later
        | unfinished ↦ none
        | answers r'' status ↦ elim status [
          | is_up ↦ run fuel r'' later
          | is_down ↦ some (r'', is_down)
        ]
      ]

  -- The receiver of local messages is the runtime's own.
  unfoldable pub send_local : ActorRuntime A → M.Message → Result (ActorRuntime A) ActorSendError
  unfolding send_on
  send_local r m = send_on M true r.local_rx m >>= λ queue. ok (record r { local_rx = queue })

  -- The connector has the receiver of the messages for the server, as long as it is there.
  unfoldable pub send_to_server :
      Bool → ActorRuntime A → M.Message → Result (ActorRuntime A) ActorSendError
  unfolding send_on
  send_to_server has_connector r m =
      send_on M has_connector r.server_tx m >>= λ queue. ok (record r { server_tx = queue })
