-- ===== src/ClientActor/Connector.antt =====
-- helpers/src/client_actor/bridge.rs and connector.rs: opening the channels of a connection, and the loop
-- between the bridge and the runtime. What the client library's `open_channel` answers is an argument.
use multiplayer_kit.Base.{Option, none, some, List, [], ◌∷◌, ◌++◌, Bool, true, false, if◌then◌else◌}
use multiplayer_kit.Base.Map.{Map, insert}
use multiplayer_kit.ChannelMessage.{ChannelMessage}
use multiplayer_kit.ClientActor.{
  InternalEvent, BridgeEvent, bridge_connected, bridge_message, bridge_disconnected, forward_events,
}

-- What `run_bridge_loop` has done when it has gone through the channels: the queue of writes of each
-- channel, the tasks that it has spawned, and whether all channels are open.
pub record Bridge (M : ChannelMessage) (Sender : Type 0) : Type 0 where
  pub channel_senders : Map M.Channel Sender
  pub spawned : List (M.Channel × Sender)
  pub all_open : Bool

module _ {M : ChannelMessage} {Sender : Type 0} where
  -- The loop over `all_channels`, with the new queue and the answer of `open_channel` for each. The
  -- queue is entered before the channel is opened.
  unfoldable pub open_channels :
      List (M.Channel × (Sender × Bool)) → Bridge M Sender → Bridge M Sender
  open_channels [] b = b
  open_channels ((ct, (tx, opened)) ∷ rest) b =
      let entered = record b {
        channel_senders = insert M.channel_discrete ct tx b.channel_senders;
      } in
      let later = open_channels rest (record entered { spawned = b.spawned ++ (ct, tx) ∷ [] }) in
      if opened then later else record entered { all_open = false }

  -- What `run_bridge_loop` sends to its caller, as long as that listens.
  unfoldable pub bridge_events :
      List (M.Channel × (Sender × Bool)) → List (InternalEvent M) → List (BridgeEvent M)
  bridge_events channels events =
      let b =
        open_channels channels (record { channel_senders = []; spawned = []; all_open = true }) in
      if b.all_open then bridge_connected ∷ forward_events events else bridge_disconnected ∷ []

-- What one of the two queues of the connector answers.
pub data Poll (M : ChannelMessage) : Type 0 where
  incoming : Option (BridgeEvent M) → Poll M
  from_runtime : Option M.Message → Poll M

-- The events for the runtime, the messages for the bridge, and whether the loop goes on.
pub record Connector (M : ChannelMessage) : Type 0 where
  pub bridge_tx : List (BridgeEvent M)
  pub outgoing : List M.Message
  pub live : Bool

module _ {M : ChannelMessage} where
  unfoldable pub poll_connector : Connector M → Poll M → Connector M
  poll_connector c (incoming (some (bridge_message m))) = record c {
    bridge_tx = c.bridge_tx ++ bridge_message m ∷ [];
  }
  poll_connector c (incoming (some bridge_connected)) = c
  poll_connector c (incoming (some bridge_disconnected)) = record c {
    bridge_tx = c.bridge_tx ++ bridge_disconnected ∷ [];
    live = false;
  }
  poll_connector c (incoming none) = record c {
    bridge_tx = c.bridge_tx ++ bridge_disconnected ∷ [];
    live = false;
  }
  poll_connector c (from_runtime (some m)) = record c { outgoing = c.outgoing ++ m ∷ [] }
  poll_connector c (from_runtime none) = record c { live = false }

  unfoldable pub connector_loop : Connector M → List (Poll M) → Connector M
  unfolding poll_connector
  connector_loop c [] = c
  connector_loop c (p ∷ ps) =
      let later = connector_loop (poll_connector c p) ps in if c.live then later else c

  -- `run`, as long as the runtime listens: it reports a connection as soon as the bridge is spawned.
  unfoldable pub run : List (Poll M) → Connector M
  run = connector_loop (record { bridge_tx = bridge_connected ∷ []; outgoing = []; live = true })
