-- ===== src/ClientActor/Answers.antt =====
-- helpers/src/client_actor/runtime.rs with connector.rs: what an actor has been told when `run`
-- answers, for actors whose messages to themselves die out.
use multiplayer_kit.Base.{
  ℕ, ◌≤◌, ◌≡◌, refl, sym, ◌∙◌, ap, some, List, [], ◌++◌, map, append-nil, arith,
}
use multiplayer_kit.ChannelMessage.{ChannelMessage}
use multiplayer_kit.ClientActor.{ClientMessage, BridgeEvent}
use multiplayer_kit.ClientActor.Connector.{Poll}
use multiplayer_kit.ClientActor.Connector
use multiplayer_kit.ClientActor.Runtime.{
  ClientActor, RuntimeStatus, is_up, ActorRuntime, Branch, Arrival, new, run,
}
use multiplayer_kit.ClientActor.Told.{KeepsLog, told, log_of}
use multiplayer_kit.ClientActor.Order.{all_events, map-append, run-log}
use multiplayer_kit.ClientActor.Ending.{DiesOut, run_ends}
use multiplayer_kit.ClientActor.Session.{IsSession, IsSession-prefix, connector_loop-IsSession}

module _ {M : ChannelMessage} {A : ClientActor M} (L : KeepsLog A) {w : M.Message → ℕ}
    (fades : DiesOut A w) where
  -- For an actor whose messages to itself die out, and whose state has a log of what it is told,
  -- empty at its start: for every history of arrivals and of branches taken, `run` answers on
  -- enough fuel, and the server has then told the actor what the bridge sends, in its order and
  -- once each: what it was told, with what waits and a rest that is not looked at, is all that has
  -- arrived, and there is no such rest while the runtime goes on.
  pub run-told :
      (config : A.Config) (extras : A.Extras) (history : List (List (Arrival M) × Branch))
      → L.log (A.startup config) ≡ []
      → (least : ℕ) × (r : ActorRuntime A) × (s : RuntimeStatus) × (rest : List (ClientMessage M))
        × ((fuel : ℕ) → least ≤ fuel → run fuel (new config extras) history ≡ some (r, s))
        × (log_of L r ++ (map told r.bridge_rx ++ rest) ≡ map told (all_events history))
        × (s ≡ is_up → rest ≡ [])
  unfolding new
  run-told config extras history fresh =
      let (least, r, s, ends) = run_ends fades history (new config extras) refl in
      let (rest, all, none_left) =
        run-log L least config extras history r s fresh (ends least (omega arith)) in
      (least, r, s, rest, ends, all, none_left)

  -- With the runtime of such an actor behind the connector, whatever the queues of the two answer,
  -- and however much of what the connector sent has arrived when: `run` answers on enough fuel, and
  -- the server has then told the actor of nothing yet, or of a connection first and once, then of
  -- messages, and of a disconnection last and at most once. While the runtime goes on with no event
  -- waiting, the actor was told of all that has arrived.
  pub run-IsSession :
      (polls : List (Poll M)) (unseen : List (BridgeEvent M)) (config : A.Config)
      (extras : A.Extras) (history : List (List (Arrival M) × Branch))
      → all_events history ++ unseen ≡ (Connector.run polls).bridge_tx
      → L.log (A.startup config) ≡ []
      → (least : ℕ) × (r : ActorRuntime A) × (s : RuntimeStatus) × ((fuel : ℕ)
          → least ≤ fuel
          → run fuel (new config extras) history ≡ some (r, s))
        × IsSession (log_of L r)
        × (s ≡ is_up → r.bridge_rx ≡ [] → log_of L r ≡ map told (all_events history))
  unfolding Connector.run
  run-IsSession polls unseen config extras history sent fresh =
      let (least, r, s, rest, ends, all, none_left) = run-told config extras history fresh in
      let waiting = map told r.bridge_rx ++ rest in
      let whole : IsSession (map told (all_events history ++ unseen)) =
        rw sent (connector_loop-IsSession polls [] [] tt) in
      let seen_part : IsSession (map told (all_events history)) =
        IsSession-prefix (map told (all_events history)) (map told unseen)
          (rw (map-append told (all_events history) unseen) at whole) in
      (
        least,
        r,
        s,
        ends,
        IsSession-prefix (log_of L r) waiting (rw all seen_part),
        λ up idle.
            sym (append-nil (log_of L r))
            ∙ ap (λ x. log_of L r ++ x) (sym (rw (idle, none_left up) refl))
            ∙ all,
      )
