-- ===== src/ClientActor/Invariant.antt =====
-- helpers/src/client_actor/runtime.rs: what an actor's handler keeps, its runtime keeps.
use multiplayer_kit.Base.{
  ℕ, zero, suc, ◌≡◌, Option, some, List, [], ◌∷◌, Bool-cases, inl, inr, Option-cases, false,
}
use multiplayer_kit.ChannelMessage.{ChannelMessage}
use multiplayer_kit.ClientActor.{
  ClientMessage, connected, disconnected, game_message, ClientSource, server, internal_source,
  local_source, ClientOutput, to_server, internal, BridgeEvent, bridge_connected, bridge_message,
  bridge_disconnected,
}
use multiplayer_kit.ClientActor.Runtime.{
  ClientActor, RuntimeStatus, is_down, ActorRuntime, Branch, bridge_branch, self_branch,
  local_branch, Arrival, event, local_message, bridge_closed, drained, dispatch,
  handle_bridge_event, handle_message, poll_bridge, poll_self, poll_local, poll_queues, poll,
  answers, polled_after, bridge_step, self_step, local_step, step, arrive, run,
}
use multiplayer_kit.ClientActor.Told.{Status-cases}
use multiplayer_kit.ClientActor.Order.{Stepped-cases}

-- A relation of the actor's state and its extras that handling a message and shutting down keep.
pub record IsKept {M : ChannelMessage} (A : ClientActor M) (P : A.State → A.Extras → Type 0)
    : Type 0 where
  pub handles :
      (s : A.State) (x : A.Extras) (from : ClientSource) (content : ClientMessage M)
      (sink : List (ClientOutput M))
      → P s x
      → P (A.handle s x from content sink).0 (A.handle s x from content sink).1.0
  pub shuts : (s : A.State) (x : A.Extras) → P s x → P (A.shutdown s x).0 (A.shutdown s x).1

module _ {M : ChannelMessage} {A : ClientActor M} {P : A.State → A.Extras → Type 0}
    (K : IsKept A P) where
  abbrev Holds : ActorRuntime A → Type 0
  Holds r = P r.state r.extras

  drained-Holds : (os : List (ClientOutput M)) (r : ActorRuntime A) → Holds r → Holds (drained os r)
  unfolding drained
  drained-Holds [] r h = h
  drained-Holds (to_server m ∷ os) r h = drained-Holds os _ h
  drained-Holds (internal m ∷ os) r h = drained-Holds os _ h

  dispatch-Holds :
      (r : ActorRuntime A) (from : ClientSource) (content : ClientMessage M)
      → Holds r
      → Holds (dispatch r from content)
  unfolding dispatch
  dispatch-Holds r from content h =
      drained-Holds _ _ (K.handles r.state r.extras from content r.sink h)

  handle_bridge_event-Holds :
      (r : ActorRuntime A) (e : BridgeEvent M) → Holds r → Holds (handle_bridge_event r e).0
  unfolding handle_bridge_event
  handle_bridge_event-Holds r bridge_connected h = dispatch-Holds _ server connected h
  handle_bridge_event-Holds r (bridge_message m) h = dispatch-Holds r server (game_message m) h
  handle_bridge_event-Holds r bridge_disconnected h =
      K.shuts _ _ (dispatch-Holds (record r { is_connected = false }) server disconnected h)

  poll_bridge-Holds :
      (es : List (BridgeEvent M)) (r : ActorRuntime A) → Holds r → Holds (poll_bridge es r).0
  unfolding poll_bridge
  poll_bridge-Holds [] r h = h
  poll_bridge-Holds (e ∷ es) r h =
      let now = handle_bridge_event-Holds r e h in
      elim (Status-cases (handle_bridge_event r e).1) [
        | inl up ↦ rw (up, poll_bridge) (poll_bridge-Holds es (handle_bridge_event r e).0 now)
        | inr down ↦ rw (down, poll_bridge) now
      ]

  poll_self-Holds :
      (fuel : ℕ) (ms : List M.Message) (r r' : ActorRuntime A)
      → poll_self fuel ms r ≡ some r'
      → Holds r
      → Holds r'
  unfolding poll_self handle_message
  poll_self-Holds fuel [] r r' e h = let k : r ≡ r' = cc in rw (← k) h
  poll_self-Holds zero (m ∷ ms) r r' e h = absurd (cc)
  poll_self-Holds (suc fuel) (m ∷ ms) r r' e h =
      poll_self-Holds fuel _ _ r' e
        (dispatch-Holds (record r { self_rx = [] }) internal_source (game_message m) h)

  poll_local-Holds : (ms : List M.Message) (r : ActorRuntime A) → Holds r → Holds (poll_local ms r)
  unfolding poll_local handle_message
  poll_local-Holds [] r h = h
  poll_local-Holds (m ∷ ms) r h =
      poll_local-Holds ms _ (dispatch-Holds r local_source (game_message m) h)

  poll_queues-Holds :
      (fuel : ℕ) (r r' : ActorRuntime A) (s : RuntimeStatus)
      → poll_queues fuel r ≡ some (r', s)
      → Holds r
      → Holds r'
  unfolding poll_queues
  poll_queues-Holds fuel r r' s e h =
      elim (Option-cases (poll_self fuel r.self_rx (record r { self_rx = [] }))) [
        | inl k ↦ absurd (cc (rw (k, poll_queues) at e))
        | inr (q, k) ↦
            let j : poll_local q.local_rx q ≡ r' = cc (rw (k, poll_queues) at e) in
            rw (← j) (
              poll_local-Holds q.local_rx q
                (poll_self-Holds fuel r.self_rx (record r { self_rx = [] }) q k h))
      ]

  poll-Holds :
      (fuel : ℕ) (r r' : ActorRuntime A) (s : RuntimeStatus)
      → poll fuel r ≡ some (r', s)
      → Holds r
      → Holds r'
  unfolding poll
  poll-Holds fuel r r' s e h =
      let now = poll_bridge-Holds r.bridge_rx r h in
      elim (Status-cases (poll_bridge r.bridge_rx r).1) [
        | inl up ↦
            poll_queues-Holds fuel (poll_bridge r.bridge_rx r).0 r' s (rw (up, poll) at e) now
        | inr down ↦
            let k : (poll_bridge r.bridge_rx r).0 ≡ r' = cc (rw (down, poll) at e) in rw (← k) now
      ]

  polled_after-Holds :
      (fuel : ℕ) (r r' : ActorRuntime A) (s : RuntimeStatus)
      → polled_after fuel r ≡ answers r' s
      → Holds r
      → Holds r'
  unfolding polled_after
  polled_after-Holds fuel r r' s e h = elim (Option-cases (poll fuel r)) [
    | inl k ↦ absurd (cc (rw (k, polled_after) at e))
    | inr ((q, t), k) ↦
        let j : q ≡ r' = cc (rw (k, polled_after) at e) in rw (← j) (poll-Holds fuel r q t k h)
  ]

  bridge_step-Holds :
      (fuel : ℕ) (es : List (BridgeEvent M)) (r r' : ActorRuntime A) (s : RuntimeStatus)
      → bridge_step fuel es r ≡ answers r' s
      → Holds r
      → Holds r'
  unfolding bridge_step
  bridge_step-Holds fuel [] r r' s e h = elim (Bool-cases r.bridge_open) [
    | inl k ↦ absurd (cc (rw (k, bridge_step) at e))
    | inr k ↦ let j : r ≡ r' = cc (rw (k, bridge_step) at e) in rw (← j) h
  ]
  bridge_step-Holds fuel (x ∷ es) r r' s e h =
      let r₀ = record r { bridge_rx = es } in
      let now = handle_bridge_event-Holds r₀ x h in
      elim (Status-cases (handle_bridge_event r₀ x).1) [
        | inl up ↦
            polled_after-Holds fuel (handle_bridge_event r₀ x).0 r' s (rw (up, bridge_step) at e)
              now
        | inr down ↦
            let k : (handle_bridge_event r₀ x).0 ≡ r' = cc (rw (down, bridge_step) at e) in
            rw (← k) now
      ]

  self_step-Holds :
      (fuel : ℕ) (ms : List M.Message) (r r' : ActorRuntime A) (s : RuntimeStatus)
      → self_step fuel ms r ≡ answers r' s
      → Holds r
      → Holds r'
  unfolding self_step handle_message
  self_step-Holds fuel [] r r' s e h = absurd (cc)
  self_step-Holds fuel (m ∷ ms) r r' s e h =
      polled_after-Holds fuel _ r' s e
        (dispatch-Holds (record r { self_rx = ms }) internal_source (game_message m) h)

  local_step-Holds :
      (fuel : ℕ) (ms : List M.Message) (r r' : ActorRuntime A) (s : RuntimeStatus)
      → local_step fuel ms r ≡ answers r' s
      → Holds r
      → Holds r'
  unfolding local_step handle_message
  local_step-Holds fuel [] r r' s e h = absurd (cc)
  local_step-Holds fuel (m ∷ ms) r r' s e h =
      polled_after-Holds fuel _ r' s e
        (dispatch-Holds (record r { local_rx = ms }) local_source (game_message m) h)

  step-Holds :
      (fuel : ℕ) (b : Branch) (r r' : ActorRuntime A) (s : RuntimeStatus)
      → step fuel r b ≡ answers r' s
      → Holds r
      → Holds r'
  unfolding step
  step-Holds fuel bridge_branch r r' s e h = bridge_step-Holds fuel r.bridge_rx r r' s e h
  step-Holds fuel self_branch r r' s e h = self_step-Holds fuel r.self_rx r r' s e h
  step-Holds fuel local_branch r r' s e h = local_step-Holds fuel r.local_rx r r' s e h

  arrive-Holds : (xs : List (Arrival M)) (r : ActorRuntime A) → Holds r → Holds (arrive xs r)
  unfolding arrive
  arrive-Holds [] r h = h
  arrive-Holds (event x ∷ xs) r h = arrive-Holds xs _ h
  arrive-Holds (local_message m ∷ xs) r h = arrive-Holds xs _ h
  arrive-Holds (bridge_closed ∷ xs) r h = arrive-Holds xs _ h

  -- Whatever arrives when, and whichever queue each step takes from, a relation between the actor's
  -- state and its extras that its handler and its shutdown keep holds in the runtime as long as it runs
  -- and when it has ended.
  pub run-Holds :
      (fuel : ℕ) (history : List (List (Arrival M) × Branch)) (r r' : ActorRuntime A)
      (s : RuntimeStatus)
      → run fuel r history ≡ some (r', s)
      → P r.state r.extras
      → P r'.state r'.extras
  unfolding run
  run-Holds fuel [] r r' s e h = let k : r ≡ r' = cc in rw (← k) h
  run-Holds fuel ((xs, b) ∷ later) r r' s e h =
      let now = arrive-Holds xs r h in
      elim (Stepped-cases (step fuel (arrive xs r) b)) [
        | inl k ↦ run-Holds fuel later (arrive xs r) r' s (rw (k, run) at e) now
        | inr (inl k) ↦ absurd (cc (rw (k, run) at e))
        | inr (inr (q, t, k)) ↦
            let then_holds = step-Holds fuel b (arrive xs r) q t k now in
            elim (Status-cases t) [
              | inl up ↦ run-Holds fuel later q r' s (rw up at (rw (k, run) at e)) then_holds
              | inr down ↦
                  let ends : ◌≡◌ {A = Option (ActorRuntime A × RuntimeStatus)} (some (q, is_down))
                      (some (r', s)) =
                    rw down at (rw (k, run) at e) in
                  let j : q ≡ r' = cc in rw (← j) then_holds
            ]
      ]
