-- ===== src/ClientActor/Polling.antt =====
-- helpers/src/client_actor/runtime.rs: the polls of a runtime whose actor never sends to itself.
use multiplayer_kit.Base.{
  ℕ, ◌≡◌, refl, sym, ◌∙◌, some, List, [], ◌∷◌, ◌++◌, append_assoc, append-nil,
}
use multiplayer_kit.ChannelMessage.{ChannelMessage}
use multiplayer_kit.ClientActor.{
  ClientMessage, game_message, ClientSource, local_source, ClientOutput, to_server, internal,
}
use multiplayer_kit.ClientActor.Runtime.{
  ClientActor, ActorRuntime, drained, dispatch, handle_message, poll_self, poll_local, status_of,
  poll_queues,
}
use multiplayer_kit.ClientActor.Told.{drained_keeps}

-- What an actor leaves for itself.
unfoldable pub to_self : {M : ChannelMessage} → List (ClientOutput M) → List M.Message
to_self [] = []
to_self (to_server m ∷ outputs) = to_self outputs
to_self (internal m ∷ outputs) = m ∷ to_self outputs

-- An actor that never sends to itself.
abbrev pub IsQuiet : {M : ChannelMessage} → ClientActor M → Type 0
IsQuiet {M} A =
    (s : A.State) (x : A.Extras) (from : ClientSource) (content : ClientMessage M)
    → to_self (A.handle s x from content []).1.1 ≡ []

module _ {M : ChannelMessage} {A : ClientActor M} where
  -- Nothing waits in the sink, and nothing that the actor sent to itself.
  pub record IsIdle (r : ActorRuntime A) : Type 0 where
    pub no_output : r.sink ≡ []
    pub no_self : r.self_rx ≡ []

  pub drained_self :
      (os : List (ClientOutput M)) (r : ActorRuntime A)
      → (drained os r).self_rx ≡ r.self_rx ++ to_self os
  unfolding drained to_self
  drained_self [] r = sym (append-nil r.self_rx)
  drained_self (to_server m ∷ os) r = drained_self os _
  drained_self (internal m ∷ os) r =
      drained_self os (record r { self_rx = r.self_rx ++ m ∷ [] })
      ∙ append_assoc r.self_rx (m ∷ []) (to_self os)

module _ {M : ChannelMessage} {A : ClientActor M} (quiet : IsQuiet A) where
  pub dispatch-IsIdle :
      (r : ActorRuntime A) (from : ClientSource) (content : ClientMessage M)
      → IsIdle r
      → IsIdle (dispatch r from content) × ((dispatch r from content).is_connected ≡ r.is_connected)
  unfolding dispatch
  dispatch-IsIdle r from content h =
      let answer = A.handle r.state r.extras from content r.sink in
      let r' = record r { state = answer.0; extras = answer.1.0; sink = [] } in
      let k = drained_keeps answer.1.1 r' in
      let none_left : to_self answer.1.1 ≡ [] =
        rw h.no_output (quiet r.state r.extras from content) in
      (
        record {
          no_output = k.4;
          no_self = drained_self answer.1.1 r' ∙ rw (h.no_self, none_left) refl;
        },
        k.3,
      )

  pub poll_local-IsIdle :
      (ms : List M.Message) (r : ActorRuntime A)
      → IsIdle r
      → IsIdle (poll_local ms r) × ((poll_local ms r).is_connected ≡ r.is_connected)
  unfolding poll_local handle_message
  poll_local-IsIdle [] r h = (record { no_output = h.no_output; no_self = h.no_self }, refl)
  poll_local-IsIdle (m ∷ ms) r h =
      let (i, c) = dispatch-IsIdle r local_source (game_message m) h in
      let (j, d) = poll_local-IsIdle ms (dispatch r local_source (game_message m)) i in (j, d ∙ c)

  pub poll_queues-IsIdle :
      (fuel : ℕ) (r : ActorRuntime A)
      → IsIdle r
      → let r' = poll_local r.local_rx (record r { self_rx = [] }) in
        (poll_queues fuel r ≡ some (r', status_of r'))
        × IsIdle r'
        × (r'.is_connected ≡ r.is_connected)
  unfolding poll_queues poll_self
  poll_queues-IsIdle fuel r h =
      let (i, c) =
        poll_local-IsIdle r.local_rx (record r { self_rx = [] })
          (record { no_output = h.no_output; no_self = refl }) in
      (rw (h.no_self, poll_queues) refl, i, c)
