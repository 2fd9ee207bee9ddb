-- ===== src/ClientActor/Told.antt =====
-- helpers/src/client_actor/runtime.rs: what the actor is told, in which order.
use multiplayer_kit.Base.{
  ℕ, zero, suc, ◌≡◌, refl, sym, ap, ◌∙◌, some, List, [], ◌∷◌, ◌++◌, map, true, false, append_assoc,
  append-nil, ◌⊎◌, inl, inr, Option-cases,
}
use multiplayer_kit.ChannelMessage.{ChannelMessage}
use multiplayer_kit.ClientActor.{
  ClientMessage, connected, disconnected, game_message, ClientSource, server, internal_source,
  local_source, ClientOutput, to_server, internal, BridgeEvent, bridge_connected, bridge_message,
  bridge_disconnected,
}
use multiplayer_kit.ClientActor.Runtime.{
  ClientActor, RuntimeStatus, is_up, is_down, ActorRuntime, drained, dispatch, handle_bridge_event,
  handle_message, poll_bridge, poll_self, poll_local, poll_queues, poll,
}

-- An actor whose state has a log of what it is told.
pub record KeepsLog {M : ChannelMessage} (A : ClientActor M) : Type 0 where
  pub log : A.State → List (ClientSource × ClientMessage M)
  pub handles :
      (s : A.State) (x : A.Extras) (from : ClientSource) (content : ClientMessage M)
      (sink : List (ClientOutput M))
      → log (A.handle s x from content sink).0 ≡ log s ++ (from, content) ∷ []
  pub shuts : (s : A.State) (x : A.Extras) → log (A.shutdown s x).0 ≡ log s

-- Any actor, with such a log.
abbrev pub recorded : {M : ChannelMessage} → ClientActor M → ClientActor M
recorded {M} A = record {
  Config = A.Config;
  State = A.State × List (ClientSource × ClientMessage M);
  Extras = A.Extras;
  startup = λ c. (A.startup c, []);
  handle = λ s x from content sink.
      let answer = A.handle s.0 x from content sink in
      ((answer.0, s.1 ++ (from, content) ∷ []), answer.1);
  shutdown = λ s x. let (s', x') = A.shutdown s.0 x in ((s', s.1), x');
}

unfoldable pub recorded-KeepsLog : {M : ChannelMessage} (A : ClientActor M) → KeepsLog (recorded A)
recorded-KeepsLog A = record {
  log = λ s. s.1;
  handles = λ s x from content sink. refl;
  shuts = λ s x. refl;
}

-- What the server has told.
unfoldable pub from_server :
    {M : ChannelMessage} → List (ClientSource × ClientMessage M) → List (ClientMessage M)
from_server [] = []
from_server ((server, m) ∷ log) = m ∷ from_server log
from_server ((internal_source, m) ∷ log) = from_server log
from_server ((local_source, m) ∷ log) = from_server log

abbrev pub told : {M : ChannelMessage} → BridgeEvent M → ClientMessage M
told bridge_connected = connected
told (bridge_message m) = game_message m
told bridge_disconnected = disconnected

pub from_server-append :
    {M : ChannelMessage} (xs ys : List (ClientSource × ClientMessage M))
    → from_server (xs ++ ys) ≡ from_server xs ++ from_server ys
unfolding from_server
from_server-append [] ys = refl
from_server-append ((server, m) ∷ xs) ys = ap (◌∷◌ m) (from_server-append xs ys)
from_server-append ((internal_source, m) ∷ xs) ys = from_server-append xs ys
from_server-append ((local_source, m) ∷ xs) ys = from_server-append xs ys

module _ {M : ChannelMessage} {A : ClientActor M} where
  pub drained_keeps :
      (os : List (ClientOutput M)) (r : ActorRuntime A)
      → ((drained os r).state ≡ r.state)
        × ((drained os r).bridge_rx ≡ r.bridge_rx)
        × ((drained os r).local_rx ≡ r.local_rx)
        × ((drained os r).is_connected ≡ r.is_connected)
        × ((drained os r).sink ≡ r.sink)
  unfolding drained
  drained_keeps [] r = (refl, refl, refl, refl, refl)
  drained_keeps (to_server m ∷ os) r = drained_keeps os _
  drained_keeps (internal m ∷ os) r = drained_keeps os _

pub Status-cases : (s : RuntimeStatus) → (s ≡ is_up) ⊎ (s ≡ is_down)
Status-cases is_up = inl refl
Status-cases is_down = inr refl

module _ {M : ChannelMessage} {A : ClientActor M} (L : KeepsLog A) where
  -- What the server has told, and with what waits to be told.
  abbrev pub log_of : ActorRuntime A → List (ClientMessage M)
  log_of r = from_server (L.log r.state)

  abbrev pub seen : ActorRuntime A → List (ClientMessage M)
  seen r = log_of r ++ map told r.bridge_rx

  pub dispatch_log :
      (r : ActorRuntime A) (from : ClientSource) (m : ClientMessage M)
      → (L.log (dispatch r from m).state ≡ L.log r.state ++ (from, m) ∷ [])
        × ((dispatch r from m).bridge_rx ≡ r.bridge_rx)
  unfolding dispatch
  dispatch_log r from m =
      let answer = A.handle r.state r.extras from m r.sink in
      let k =
        drained_keeps answer.1.1 (record r { state = answer.0; extras = answer.1.0; sink = [] }) in
      (ap L.log k.0 ∙ L.handles r.state r.extras from m r.sink, k.1)

  dispatch-server :
      (r : ActorRuntime A) (m : ClientMessage M)
      → (log_of (dispatch r server m) ≡ log_of r ++ m ∷ [])
        × ((dispatch r server m).bridge_rx ≡ r.bridge_rx)
  unfolding from_server
  dispatch-server r m =
      let (e, b) = dispatch_log r server m in
      (ap from_server e ∙ from_server-append (L.log r.state) ((server, m) ∷ []), b)

  pub dispatch_other :
      (r : ActorRuntime A) (from : ClientSource) (m : ClientMessage M)
      → from_server ((from, m) ∷ []) ≡ []
      → seen (dispatch r from m) ≡ seen r
  dispatch_other r from m h =
      let (e, b) = dispatch_log r from m in
      rw (e, b)
        (rw (from_server-append (L.log r.state) ((from, m) ∷ [])) (rw h (rw append-nil refl)))

  -- An event is told at once, and nothing else.
  pub handle_bridge_event-seen :
      (r : ActorRuntime A) (e : BridgeEvent M)
      → (log_of (handle_bridge_event r e).0 ≡ log_of r ++ told e ∷ [])
        × ((handle_bridge_event r e).0.bridge_rx ≡ r.bridge_rx)
  unfolding handle_bridge_event
  handle_bridge_event-seen r bridge_connected =
      dispatch-server (record r { is_connected = true }) connected
  handle_bridge_event-seen r (bridge_message m) = dispatch-server r (game_message m)
  handle_bridge_event-seen r bridge_disconnected =
      let r' = dispatch (record r { is_connected = false }) server disconnected in
      let (e, b) = dispatch-server (record r { is_connected = false }) disconnected in
      (ap from_server (L.shuts r'.state r'.extras) ∙ e, b)

  pub handled_seen :
      (r : ActorRuntime A) (e : BridgeEvent M) (es : List (BridgeEvent M))
      → log_of (handle_bridge_event r e).0 ++ map told es ≡ log_of r ++ map told (e ∷ es)
  handled_seen r e es =
      rw (handle_bridge_event-seen r e).0 (append_assoc (log_of r) (told e ∷ []) (map told es))

  poll_bridge-seen :
      (es : List (BridgeEvent M)) (r : ActorRuntime A)
      → seen (poll_bridge es r).0 ≡ log_of r ++ map told es
  unfolding poll_bridge
  poll_bridge-seen [] r = refl
  poll_bridge-seen (e ∷ es) r = elim (Status-cases (handle_bridge_event r e).1) [
    | inl up ↦
        rw (up, poll_bridge) (poll_bridge-seen es (handle_bridge_event r e).0 ∙ handled_seen r e es)
    | inr down ↦ rw (down, poll_bridge) (handled_seen r e es)
  ]

  poll_self-seen :
      (fuel : ℕ) (ms : List M.Message) (r r' : ActorRuntime A)
      → poll_self fuel ms r ≡ some r'
      → seen r' ≡ seen r
  unfolding poll_self handle_message from_server
  poll_self-seen fuel [] r r' h = let e : r ≡ r' = cc in ap seen (sym e)
  poll_self-seen zero (m ∷ ms) r r' h = absurd (cc)
  poll_self-seen (suc fuel) (m ∷ ms) r r' h =
      let r'' = dispatch (record r { self_rx = [] }) internal_source (game_message m) in
      poll_self-seen fuel (ms ++ r''.self_rx) (record r'' { self_rx = [] }) r' h
      ∙ dispatch_other (record r { self_rx = [] }) internal_source (game_message m) refl

  poll_local-seen : (ms : List M.Message) (r : ActorRuntime A) → seen (poll_local ms r) ≡ seen r
  unfolding poll_local handle_message from_server
  poll_local-seen [] r = refl
  poll_local-seen (m ∷ ms) r =
      poll_local-seen ms _ ∙ dispatch_other r local_source (game_message m) refl

  poll_queues-seen :
      (fuel : ℕ) (r r' : ActorRuntime A) (status : RuntimeStatus)
      → poll_queues fuel r ≡ some (r', status)
      → seen r' ≡ seen r
  unfolding poll_queues
  poll_queues-seen fuel r r' status h =
      elim (Option-cases (poll_self fuel r.self_rx (record r { self_rx = [] }))) [
        | inl e ↦ absurd (cc (rw (e, poll_queues) at h))
        | inr (q, e) ↦
            let k : poll_local q.local_rx q ≡ r' = cc (rw (e, poll_queues) at h) in
            ap seen (sym k)
            ∙ poll_local-seen q.local_rx q
            ∙ poll_self-seen fuel r.self_rx (record r { self_rx = [] }) q e
      ]

  pub poll-seen :
      (fuel : ℕ) (r r' : ActorRuntime A) (status : RuntimeStatus)
      → poll fuel r ≡ some (r', status)
      → seen r' ≡ seen r
  unfolding poll
  poll-seen fuel r r' status h = elim (Status-cases (poll_bridge r.bridge_rx r).1) [
    | inl up ↦
        poll_queues-seen fuel (poll_bridge r.bridge_rx r).0 r' status (rw (up, poll) at h)
        ∙ poll_bridge-seen r.bridge_rx r
    | inr down ↦
        let k : (poll_bridge r.bridge_rx r).0 ≡ r' = cc (rw (down, poll) at h) in
        ap seen (sym k) ∙ poll_bridge-seen r.bridge_rx r
  ]
