-- ===== src/ClientActor/Early.antt =====
-- helpers/src/client_actor/runtime.rs: a poll that does not return, and a run that ends too early.
use multiplayer_kit.Base.{
  ℕ, zero, suc, ◌≡◌, ◌≢◌, refl, sym, ap, ◌∙◌, Option, none, some, List, [], ◌∷◌, ◌++◌,
  if◌then◌else◌,
}
use multiplayer_kit.ChannelMessage.{ChannelMessage}
use multiplayer_kit.ClientActor.{
  ClientMessage, game_message, ClientSource, internal_source, local_source, ClientOutput,
  BridgeEvent,
}
use multiplayer_kit.ClientActor.Runtime.{
  ClientActor, RuntimeStatus, is_up, is_down, ActorRuntime, Branch, local_branch, Arrival,
  local_message, new, dispatch, handle_message, poll_bridge, poll_self, poll_local, status_of,
  poll_queues, poll, answers, polled_after, local_step, step, arrive, run,
}
use multiplayer_kit.ClientActor.Told.{KeepsLog, drained_keeps, dispatch_log}
use multiplayer_kit.ClientActor.Polling.{
  to_self, IsQuiet, drained_self, dispatch-IsIdle, poll_queues-IsIdle,
}

-- An actor that answers each message to itself by another one.
abbrev pub IsRestless : {M : ChannelMessage} → ClientActor M → Type 0
IsRestless {M} A =
    (s : A.State) (x : A.Extras) (m : M.Message) (sink : List (ClientOutput M))
    → to_self (A.handle s x internal_source (game_message m) sink).1.1 ≢ []

module _ {M : ChannelMessage} {A : ClientActor M} where
  poll_bridge_none :
      (es : List (BridgeEvent M)) (r : ActorRuntime A)
      → es ≡ []
      → poll_bridge es r ≡ (record r { bridge_rx = [] }, is_up)
  unfolding poll_bridge
  poll_bridge_none [] r h = refl
  poll_bridge_none (e ∷ es) r h = absurd (cc)

  poll_no_event :
      (fuel : ℕ) (r : ActorRuntime A)
      → r.bridge_rx ≡ []
      → poll fuel r ≡ poll_queues fuel (record r { bridge_rx = [] })
  unfolding poll
  poll_no_event fuel r h =
      ap
        (λ (x : ActorRuntime A × RuntimeStatus).
          elim x.1 as (λ _. Option (ActorRuntime A × RuntimeStatus)) [
            | is_up ↦ poll_queues fuel x.0
            | is_down ↦ some (x.0, is_down)
          ])
        (poll_bridge_none r.bridge_rx r h)

  local_step-answers :
      (fuel : ℕ) (m : M.Message) (r r' : ActorRuntime A) (s : RuntimeStatus)
      → poll fuel (dispatch (record r { local_rx = [] }) local_source (game_message m))
        ≡ some (r', s)
      → local_step fuel (m ∷ []) r ≡ answers r' s
  unfolding local_step polled_after handle_message
  local_step-answers fuel m r r' s h = rw (h, polled_after) refl

  run-answers :
      (fuel : ℕ) (xs : List (Arrival M)) (b : Branch) (later : List (List (Arrival M) × Branch))
      (r r' : ActorRuntime A)
      → step fuel (arrive xs r) b ≡ answers r' is_down
      → run fuel r ((xs, b) ∷ later) ≡ some (r', is_down)
  unfolding run
  run-answers fuel xs b later r r' h = rw (h, run) refl

  poll_local_none :
      (ms : List M.Message) (r : ActorRuntime A)
      → ms ≡ []
      → poll_local ms r ≡ record r { local_rx = [] }
  unfolding poll_local
  poll_local_none [] r h = refl
  poll_local_none (m ∷ ms) r h = absurd (cc)

  dispatch-local_rx :
      (r : ActorRuntime A) (from : ClientSource) (content : ClientMessage M)
      → (dispatch r from content).local_rx ≡ r.local_rx
  unfolding dispatch
  dispatch-local_rx r from content =
      let answer = A.handle r.state r.extras from content r.sink in
      (drained_keeps answer.1.1 (record r { state = answer.0; extras = answer.1.0; sink = [] })).2

append-ne-nil : {A : Type 0} (xs ys : List A) → ys ≢ [] → xs ++ ys ≢ []
append-ne-nil [] ys h = h
append-ne-nil (x ∷ xs) ys h = λ e. absurd (cc)

module _ {M : ChannelMessage} {A : ClientActor M} (restless : IsRestless A) where
  poll_self_restless :
      (fuel : ℕ) (ms : List M.Message) (r : ActorRuntime A) → ms ≢ [] → poll_self fuel ms r ≡ none
  unfolding poll_self handle_message dispatch
  poll_self_restless fuel [] r h = absurd (h refl)
  poll_self_restless zero (m ∷ ms) r h = refl
  poll_self_restless (suc fuel) (m ∷ ms) r h =
      let r₀ = record r { self_rx = [] } in
      let answer = A.handle r.state r.extras internal_source (game_message m) r.sink in
      let left : (dispatch r₀ internal_source (game_message m)).self_rx ≡ to_self answer.1.1 =
        drained_self answer.1.1 (record r₀ { state = answer.0; extras = answer.1.0; sink = [] }) in
      poll_self_restless fuel _ _
        (append-ne-nil ms _ (λ e. restless r.state r.extras m r.sink (sym left ∙ e)))

  -- If an actor answers each message to itself by another one, and one such waits, then a poll that
  -- finds no event of the bridge does not return: no number of rounds is enough.
  pub poll_restless :
      (fuel : ℕ) (r : ActorRuntime A) → r.bridge_rx ≡ [] → r.self_rx ≢ [] → poll fuel r ≡ none
  unfolding poll poll_queues poll_bridge
  poll_restless fuel r b h =
      let r₀ = record r { bridge_rx = [] } in
      poll_no_event fuel r b
      ∙ rw (poll_self_restless fuel r.self_rx (record r₀ { self_rx = [] }) h, poll_queues) refl

module _ {M : ChannelMessage} {A : ClientActor M} (L : KeepsLog A) (quiet : IsQuiet A) where
  -- If an actor never sends to itself and has a log that is empty at its start, and if the first
  -- step of its runtime takes a local message, before the bridge has sent anything, then the
  -- runtime ends there: the actor is told that message and nothing else, whatever comes later,
  -- the connection included.
  pub run_early :
      (fuel : ℕ) (config : A.Config) (extras : A.Extras) (m : M.Message)
      (later : List (List (Arrival M) × Branch))
      → L.log (A.startup config) ≡ []
      → (r : ActorRuntime A) × (run fuel
            (new config extras)
            ((local_message m ∷ [], local_branch) ∷ later)
          ≡ some (r, is_down))
        × (L.log r.state ≡ (local_source, game_message m) ∷ [])
  unfolding arrive step new status_of
  run_early fuel config extras m later fresh =
      let r₀ : ActorRuntime A = new config extras in
      let q = dispatch r₀ local_source (game_message m) in
      let (idle, down) =
        dispatch-IsIdle quiet r₀ local_source (game_message m)
          (record { no_output = refl; no_self = refl }) in
      let (logged, no_event) = dispatch_log L r₀ local_source (game_message m) in
      let r₁ = record q { bridge_rx = [] } in
      let (polled, i, c) =
        poll_queues-IsIdle quiet fuel r₁
          (record { no_output = idle.no_output; no_self = idle.no_self }) in
      let r = poll_local q.local_rx (record r₁ { self_rx = [] }) in
      let ends : poll fuel q ≡ some (r, is_down) =
        poll_no_event fuel q no_event
        ∙ polled
        ∙ ap (λ b. some (r, if b then is_up else is_down)) (c ∙ down) in
      (
        r,
        run-answers fuel (local_message m ∷ []) local_branch later r₀ r
            (local_step-answers fuel m (record r₀ { local_rx = m ∷ [] }) r is_down ends),
        rw
            (poll_local_none q.local_rx (record r₁ { self_rx = [] })
              (dispatch-local_rx r₀ local_source (game_message m)))
            (logged ∙ rw fresh refl),
      )
