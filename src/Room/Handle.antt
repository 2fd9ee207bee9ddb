-- ===== src/Room/Handle.antt =====
-- server/src/room.rs: what a room's handler is given: `Room`, `RoomHandle` and `ServerChannel`. The
-- shared state of a `Room` is the one of its entry.
use multiplayer_kit.Base.{ℕ, ◌≡◌, Option, List, Bool, true, false, Result, ok, err, ℕ_discrete}
use multiplayer_kit.Base.Map.{Distinct}
use multiplayer_kit.Protocol.{UserContext, RoomId, ChannelId}
use multiplayer_kit.Room.{
  Tokio, ServerChannel, RoomShared, Room, broadcast as broadcast_shared,
  broadcast_except as broadcast_except_shared, channel_ids as channel_ids_shared,
  send_to as send_to_shared,
}
use multiplayer_kit.Room.Broadcast.{send_to-channel_ids}

pub data ChannelError : Type 0 where
  closed : ChannelError

pub record RoomHandle (T : UserContext) (R : Tokio) : Type 0 where
  pub shared : RoomShared T R

module _ {R : Tokio} where
  unfoldable pub room_id : Room R → RoomId
  room_id room = room.id

  -- `sent` is the answer of `write_tx.send`.
  unfoldable pub write : ServerChannel R → List ℕ → Bool → Result (R.Sender × List ℕ) ChannelError
  write channel bytes true = ok (channel.write_tx, bytes)
  write channel bytes false = err closed

  -- The signal that is sent.
  unfoldable pub close : ServerChannel R → Option R.OneshotSender
  close channel = channel.close_tx

module _ {T : UserContext} {R : Tokio} where
  unfoldable pub handle : RoomShared T R → RoomHandle T R
  handle shared = record { shared = shared }

  unfoldable pub user_count : RoomShared T R → ℕ
  user_count shared = shared.user_count

  unfoldable pub broadcast : RoomHandle T R → List ℕ → List (R.Sender × List ℕ)
  broadcast h bytes = broadcast_shared h.shared.channels bytes

  unfoldable pub broadcast_except : RoomHandle T R → ChannelId → List ℕ → List (R.Sender × List ℕ)
  broadcast_except h exclude bytes = broadcast_except_shared h.shared.channels exclude bytes

  unfoldable pub send_to : RoomHandle T R → List ChannelId → List ℕ → List (R.Sender × List ℕ)
  send_to h ids bytes = send_to_shared h.shared.channels ids bytes

  unfoldable pub channel_ids : RoomHandle T R → List ChannelId
  channel_ids h = channel_ids_shared h.shared.channels

  -- Sending to all channels that a handle lists is broadcasting, if channel ids are distinct.
  send_to-all :
      (h : RoomHandle T R) (bytes : List ℕ)
      → Distinct ℕ_discrete h.shared.channels
      → send_to h (channel_ids h) bytes ≡ broadcast h bytes
  unfolding send_to channel_ids broadcast
  send_to-all h bytes d = send_to-channel_ids h.shared.channels bytes d
