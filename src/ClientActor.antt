-- ===== src/ClientActor.antt =====
-- helpers/src/client_actor/types.rs, sink.rs and bridge.rs: what the client's actor is told and sends,
-- and the two forwarding loops of the network bridge.
pub mod Channel
pub mod Connector
pub mod Senders
pub mod Runtime
pub mod Told
pub mod Order
pub mod Polling
pub mod Early
pub mod Delivery
pub mod Session
pub mod Sending
pub mod Answers
pub mod Ending
pub mod Invariant
mod Tests
use multiplayer_kit.Base.{
  ℕ, ◌≡◌, refl, ap, Option, none, some, List, [], ◌∷◌, ◌++◌, Result, ok, err,
}
use multiplayer_kit.Base.Map.{Map, get}
use multiplayer_kit.Framing.{frame_message}
use multiplayer_kit.ChannelMessage.{ChannelMessage, EncodeError}

pub data ClientMessage (M : ChannelMessage) : Type 0 where
  connected : ClientMessage M
  disconnected : ClientMessage M
  game_message : M.Message → ClientMessage M

pub data ClientSource : Type 0 where
  server : ClientSource
  internal_source : ClientSource
  local_source : ClientSource

pub data ClientOutput (M : ChannelMessage) : Type 0 where
  to_server : M.Message → ClientOutput M
  internal : M.Message → ClientOutput M

pub data InternalEvent (M : ChannelMessage) : Type 0 where
  received : M.Message → InternalEvent M
  lost : InternalEvent M

pub data BridgeEvent (M : ChannelMessage) : Type 0 where
  bridge_connected : BridgeEvent M
  bridge_message : M.Message → BridgeEvent M
  bridge_disconnected : BridgeEvent M

module _ {M : ChannelMessage} where
  unfoldable pub send_to_server : List (ClientOutput M) → M.Message → List (ClientOutput M)
  send_to_server outputs m = outputs ++ to_server m ∷ []

  unfoldable pub send_to_self : List (ClientOutput M) → M.Message → List (ClientOutput M)
  send_to_self outputs m = outputs ++ internal m ∷ []

  -- The last loop, as long as the receiver of the bridge is there: it ends behind the first
  -- disconnection.
  unfoldable pub forward_events : List (InternalEvent M) → List (BridgeEvent M)
  forward_events [] = []
  forward_events (received m ∷ events) = bridge_message m ∷ forward_events events
  forward_events (lost ∷ events) = bridge_disconnected ∷ []

  -- Nothing is forwarded behind a disconnection.
  forward_events-lost :
      (before after : List (InternalEvent M))
      → forward_events (before ++ lost ∷ after) ≡ forward_events (before ++ lost ∷ [])
  unfolding forward_events
  forward_events-lost [] after = refl
  forward_events-lost (received m ∷ before) after =
      ap (λ es. bridge_message m ∷ es) (forward_events-lost before after)
  forward_events-lost (lost ∷ before) after = refl

module _ (M : ChannelMessage) {Sender : Type 0} where
  framed_to : Option Sender → List ℕ → List (Sender × List ℕ)
  framed_to none bytes = []
  framed_to (some tx) bytes = (tx, frame_message bytes) ∷ []

  encoded_to : Option Sender → Result (List ℕ) EncodeError → List (Sender × List ℕ)
  encoded_to tx (err e) = []
  encoded_to tx (ok bytes) = framed_to tx bytes

  typed_to : Map M.Channel Sender → M.Message → Option M.Channel → List (Sender × List ℕ)
  typed_to senders m none = []
  typed_to senders m (some ct) = encoded_to (get M.channel_discrete ct senders) (M.encode m)

  -- The loop that sends the outgoing messages, each on the channel of its type.
  unfoldable pub forward_outgoing : Map M.Channel Sender → List M.Message → List (Sender × List ℕ)
  unfolding typed_to encoded_to framed_to
  forward_outgoing senders [] = []
  forward_outgoing senders (m ∷ ms) =
      typed_to senders m (M.channel m) ++ forward_outgoing senders ms
