-- ===== src/ClientActor/Ending.antt =====
-- helpers/src/client_actor/runtime.rs: the loop of `poll` over what the actor sends to itself ends if
-- that dies out.
use multiplayer_kit.Base.{
  ℕ, zero, suc, ◌+◌, ◌≤◌, ◌<◌, ◌≡◌, refl, ◌∙◌, some, List, [], ◌∷◌, ◌++◌, ◌⊎◌, inl, inr, Bool-cases,
  arith, false,
}
use multiplayer_kit.ChannelMessage.{ChannelMessage}
use multiplayer_kit.ClientActor.{
  ClientMessage, connected, disconnected, game_message, ClientSource, server, internal_source,
  local_source, BridgeEvent, bridge_connected, bridge_message, bridge_disconnected,
}
use multiplayer_kit.ClientActor.Runtime.{
  ClientActor, RuntimeStatus, is_up, is_down, ActorRuntime, Branch, bridge_branch, self_branch,
  local_branch, Arrival, event, local_message, bridge_closed, dispatch, handle_bridge_event,
  handle_message, poll_bridge, poll_self, poll_local, status_of, poll_queues, poll, waits, answers,
  polled_after, bridge_step, self_step, local_step, step, arrive, run,
}
use multiplayer_kit.ClientActor.Told.{Status-cases, drained_keeps}
use multiplayer_kit.ClientActor.Polling.{to_self, drained_self}

abbrev pub weight : {A : Type 0} → (A → ℕ) → List A → ℕ
weight w [] = 0
weight w (a ∷ rest) = w a + weight w rest

weight-append :
    {A : Type 0} (w : A → ℕ) (xs ys : List A) → weight w (xs ++ ys) ≡ weight w xs + weight w ys
weight-append w [] ys = omega arith
weight-append w (x ∷ xs) ys = omega (arith, weight-append w xs ys)

-- Whatever the actor sends to itself for a message to itself weighs less than that message.
abbrev pub DiesOut : {M : ChannelMessage} → ClientActor M → (M.Message → ℕ) → Type 0
DiesOut {M} A w =
    (s : A.State) (x : A.Extras) (m : M.Message)
    → weight w (to_self (A.handle s x internal_source (game_message m) []).1.1) < w m

module _ {M : ChannelMessage} {A : ClientActor M} where
  dispatch-sink :
      (r : ActorRuntime A) (from : ClientSource) (content : ClientMessage M)
      → (dispatch r from content).sink ≡ []
  unfolding dispatch
  dispatch-sink r from content =
      (drained_keeps (A.handle r.state r.extras from content r.sink).1.1 _).4

  handle_bridge_event-sink :
      (r : ActorRuntime A) (e : BridgeEvent M) → (handle_bridge_event r e).0.sink ≡ []
  unfolding handle_bridge_event
  handle_bridge_event-sink r bridge_connected = dispatch-sink _ server connected
  handle_bridge_event-sink r (bridge_message m) = dispatch-sink r server (game_message m)
  handle_bridge_event-sink r bridge_disconnected =
      dispatch-sink (record r { is_connected = false }) server disconnected

  poll_bridge-sink :
      (es : List (BridgeEvent M)) (r : ActorRuntime A)
      → r.sink ≡ []
      → (poll_bridge es r).0.sink ≡ []
  unfolding poll_bridge
  poll_bridge-sink [] r h = h
  poll_bridge-sink (e ∷ es) r h =
      let k = handle_bridge_event-sink r e in
      elim (Status-cases (handle_bridge_event r e).1) [
        | inl up ↦ rw (up, poll_bridge) (poll_bridge-sink es (handle_bridge_event r e).0 k)
        | inr down ↦ rw (down, poll_bridge) k
      ]

  poll_local-sink :
      (ms : List M.Message) (r : ActorRuntime A) → r.sink ≡ [] → (poll_local ms r).sink ≡ []
  unfolding poll_local handle_message
  poll_local-sink [] r h = h
  poll_local-sink (m ∷ ms) r h =
      poll_local-sink ms _ (dispatch-sink r local_source (game_message m))

  arrive-sink : (xs : List (Arrival M)) (r : ActorRuntime A) → (arrive xs r).sink ≡ r.sink
  unfolding arrive
  arrive-sink [] r = refl
  arrive-sink (event e ∷ xs) r = arrive-sink xs _
  arrive-sink (local_message m ∷ xs) r = arrive-sink xs _
  arrive-sink (bridge_closed ∷ xs) r = arrive-sink xs _

  -- A computation on fuel that answers from some fuel on, and always the same.
  abbrev Ends : (ℕ → ActorRuntime A → RuntimeStatus → Type 0) → Type 0
  Ends F =
      (least : ℕ) × (q : ActorRuntime A) × (s : RuntimeStatus) × (q.sink ≡ [])
      × ((fuel : ℕ) → least ≤ fuel → F fuel q s)

module _ {M : ChannelMessage} {A : ClientActor M} {w : M.Message → ℕ} (fades : DiesOut A w) where
  lighter :
      (r : ActorRuntime A) (m : M.Message)
      → r.sink ≡ []
      → weight w (dispatch (record r { self_rx = [] }) internal_source (game_message m)).self_rx
        < w m
  unfolding dispatch
  lighter r m h =
      let os = (A.handle r.state r.extras internal_source (game_message m) r.sink).1.1 in
      let left = drained_self os (record (record r { self_rx = [] }) {
        state = (A.handle r.state r.extras internal_source (game_message m) r.sink).0;
        extras = (A.handle r.state r.extras internal_source (game_message m) r.sink).1.0;
        sink = [];
      }) in
      rw left (rw h (fades r.state r.extras m))

  on_fuel :
      (n fuel : ℕ) (ms : List M.Message) (r : ActorRuntime A) (m : M.Message) (q : ActorRuntime A)
      → (let r' = dispatch (record r { self_rx = [] }) internal_source (game_message m) in
          (fuel : ℕ)
          → n ≤ fuel
          → poll_self fuel (ms ++ r'.self_rx) (record r' { self_rx = [] }) ≡ some q)
      → suc n ≤ fuel
      → poll_self fuel (m ∷ ms) r ≡ some q
  unfolding poll_self handle_message
  on_fuel n zero ms r m q ends enough = absurd (omega (arith, enough))
  on_fuel n (suc fuel) ms r m q ends enough = ends fuel (omega (arith, enough))

  poll_self_ends :
      (n : ℕ) (ms : List M.Message) (r : ActorRuntime A)
      → weight w ms ≤ n
      → r.sink ≡ []
      → (q : ActorRuntime A) × (q.sink ≡ [])
        × ((fuel : ℕ) → n ≤ fuel → poll_self fuel ms r ≡ some q)
  unfolding poll_self handle_message
  poll_self_ends n [] r k h = (r, h, λ fuel enough. refl)
  poll_self_ends zero (m ∷ ms) r k h = absurd (omega (arith, lighter r m h, k))
  poll_self_ends (suc n) (m ∷ ms) r k h =
      let r' = dispatch (record r { self_rx = [] }) internal_source (game_message m) in
      let less : weight w (ms ++ r'.self_rx) ≤ n =
        omega (arith, weight-append w ms r'.self_rx, lighter r m h, k) in
      let (q, empty, ends) =
        poll_self_ends n (ms ++ r'.self_rx) (record r' { self_rx = [] }) less
          (dispatch-sink (record r { self_rx = [] }) internal_source (game_message m)) in
      (q, empty, λ fuel. on_fuel n fuel ms r m q ends)

  poll_ends : (r : ActorRuntime A) → r.sink ≡ [] → Ends (λ fuel q s. poll fuel r ≡ some (q, s))
  unfolding poll poll_queues
  poll_ends r h =
      let b = poll_bridge r.bridge_rx r in
      let k = poll_bridge-sink r.bridge_rx r h in
      elim (Status-cases b.1) [
        | inl up ↦
            let least = weight w b.0.self_rx in
            let (q, empty, ends) =
              poll_self_ends least b.0.self_rx (record b.0 { self_rx = [] }) (omega arith) k in
            let last = poll_local q.local_rx q in
            (
              least,
              last,
              status_of last,
              poll_local-sink q.local_rx q empty,
              λ fuel enough. rw (up, poll) (rw (ends fuel enough, poll_queues) refl),
            )
        | inr down ↦ (0, b.0, is_down, k, λ fuel enough. rw (down, poll) refl)
      ]

  StepEnds : ActorRuntime A → Branch → Type 0
  StepEnds r b =
      ((fuel : ℕ) → step fuel r b ≡ waits) ⊎ Ends (λ fuel q s. step fuel r b ≡ answers q s)

  polled_after_ends :
      (r : ActorRuntime A) → r.sink ≡ [] → Ends (λ fuel q s. polled_after fuel r ≡ answers q s)
  unfolding polled_after
  polled_after_ends r h =
      let (least, q, s, empty, ends) = poll_ends r h in
      (least, q, s, empty, λ fuel enough. rw (ends fuel enough, polled_after) refl)

  bridge_step_ends :
      (es : List (BridgeEvent M)) (r : ActorRuntime A)
      → r.sink ≡ []
      → ((fuel : ℕ) → bridge_step fuel es r ≡ waits)
        ⊎ Ends (λ fuel q s. bridge_step fuel es r ≡ answers q s)
  unfolding bridge_step
  bridge_step_ends [] r h = elim (Bool-cases r.bridge_open) [
    | inl e ↦ inl (λ fuel. rw (e, bridge_step) refl)
    | inr e ↦ inr (0, r, is_down, h, λ fuel enough. rw (e, bridge_step) refl)
  ]
  bridge_step_ends (e ∷ es) r h =
      let r₀ = record r { bridge_rx = es } in
      let k = handle_bridge_event-sink r₀ e in
      elim (Status-cases (handle_bridge_event r₀ e).1) [
        | inl up ↦
            let (least, q, s, empty, ends) = polled_after_ends (handle_bridge_event r₀ e).0 k in
            inr (least, q, s, empty, λ fuel enough. rw (up, bridge_step) (ends fuel enough))
        | inr down ↦ inr (
          0,
          (handle_bridge_event r₀ e).0,
          is_down,
          k,
          λ fuel enough. rw (down, bridge_step) refl,
        )
      ]

  self_step_ends :
      (ms : List M.Message) (r : ActorRuntime A)
      → ((fuel : ℕ) → self_step fuel ms r ≡ waits)
        ⊎ Ends (λ fuel q s. self_step fuel ms r ≡ answers q s)
  unfolding self_step handle_message
  self_step_ends [] r = inl (λ fuel. refl)
  self_step_ends (m ∷ ms) r = inr (
      polled_after_ends _
        (dispatch-sink (record r { self_rx = ms }) internal_source (game_message m)))

  local_step_ends :
      (ms : List M.Message) (r : ActorRuntime A)
      → ((fuel : ℕ) → local_step fuel ms r ≡ waits)
        ⊎ Ends (λ fuel q s. local_step fuel ms r ≡ answers q s)
  unfolding local_step handle_message
  local_step_ends [] r = inl (λ fuel. refl)
  local_step_ends (m ∷ ms) r = inr (
      polled_after_ends _
        (dispatch-sink (record r { local_rx = ms }) local_source (game_message m)))

  step_ends : (b : Branch) (r : ActorRuntime A) → r.sink ≡ [] → StepEnds r b
  unfolding step StepEnds
  step_ends bridge_branch r h = bridge_step_ends r.bridge_rx r h
  step_ends self_branch r h = self_step_ends r.self_rx r
  step_ends local_branch r h = local_step_ends r.local_rx r

  -- If what the actor sends to itself dies out, then every poll of its runtime ends, and `run` with it:
  -- for every history there is an amount of fuel from which on `run` answers, and always the same.
  pub run_ends :
      (history : List (List (Arrival M) × Branch)) (r : ActorRuntime A)
      → r.sink ≡ []
      → (least : ℕ) × (q : ActorRuntime A) × (s : RuntimeStatus) × ((fuel : ℕ)
          → least ≤ fuel
          → run fuel r history ≡ some (q, s))
  unfolding run StepEnds
  run_ends [] r h = (0, r, is_up, λ fuel enough. refl)
  run_ends ((xs, b) ∷ later) r h = elim (step_ends b (arrive xs r) (arrive-sink xs r ∙ h)) [
    | inl e ↦
        let (least, q, s, ends) = run_ends later (arrive xs r) (arrive-sink xs r ∙ h) in
        (least, q, s, λ fuel enough. rw (e fuel, run) (ends fuel enough))
    | inr (least, q, s, empty, e) ↦ elim (Status-cases s) [
      | inl up ↦
          let (more, q', s', ends) = run_ends later q empty in
          (
            least + more,
            q',
            s',
            λ fuel enough.
                rw (e fuel (omega (arith, enough)), run)
                  (rw (up, run) (ends fuel (omega (arith, enough)))),
          )
      | inr down ↦ (least, q, is_down, λ fuel enough. rw (e fuel enough, run) (rw (down, run) refl))
    ]
  ]
