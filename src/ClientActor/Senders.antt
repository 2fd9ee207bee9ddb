-- ===== src/ClientActor/Senders.antt =====
-- helpers/src/client_actor/mod.rs: the senders that a handle of a client actor has.
use multiplayer_kit.Base.{List, [], ◌∷◌, ◌++◌, Bool, if◌then◌else◌, Result, ok, err}
use multiplayer_kit.ChannelMessage.{ChannelMessage}

pub data ActorSendError : Type 0 where
  channel_closed : ActorSendError
  not_connected : ActorSendError

module _ (M : ChannelMessage) where
  -- `ClientActorSender::send` and `LocalSender::send`, with whether the queue still has its receiver:
  -- the queue afterwards.
  unfoldable pub send_on :
      Bool → List M.Message → M.Message → Result (List M.Message) ActorSendError
  send_on has_receiver queue m = if has_receiver then ok (queue ++ m ∷ []) else err channel_closed
