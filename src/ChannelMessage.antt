-- ===== src/ChannelMessage.antt =====
-- helpers/src/utils/channel_message.rs: the messages of a game, each on a channel of its own kind.
use Prim.Native.String.{String}
use multiplayer_kit.Base.{ℕ, Option, List, Result}

pub data DecodeError : Type 0 where
  unknown_channel : ℕ → DecodeError
  deserialize : String → DecodeError

pub data EncodeError : Type 0 where
  serialize : String → EncodeError

-- The trait: `Channel: Copy + Eq + Hash`.
pub record ChannelMessage : Type 1 where
  pub Message : Type 0
  pub Channel : Type 0
  pub channel_discrete : Discrete Channel
  pub channel : Message → Option Channel
  pub all_channels : List Channel
  pub channel_to_id : Channel → ℕ
  pub channel_from_id : ℕ → Option Channel
  pub encode : Message → Result (List ℕ) EncodeError
  pub decode : Channel → List ℕ → Result Message DecodeError
