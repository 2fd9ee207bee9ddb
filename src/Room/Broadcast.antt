-- ===== src/Room/Broadcast.antt =====
-- server/src/room.rs: `RoomShared::broadcast`, `broadcast_except` and `send_to`.
use multiplayer_kit.Base.{ℕ, ◌≡◌, ◌≢◌, refl, none, List, [], ◌∷◌, All, arith, ℕ_discrete}
use multiplayer_kit.Base.Map.{Map, get, remove, Distinct}
use multiplayer_kit.Protocol.{ChannelId}
use multiplayer_kit.Room.{
  Tokio, ChannelBroadcast, broadcast, broadcast_except, channel_ids, send_to,
}

module _ {R : Tokio} where
  -- Excluding a channel is broadcasting as if the channel were closed.
  pub broadcast_except-remove :
      (m : Map ChannelId (ChannelBroadcast R)) (c : ChannelId) (bytes : List ℕ)
      → broadcast_except m c bytes ≡ broadcast (remove ℕ_discrete c m) bytes
  unfolding broadcast_except broadcast remove
  broadcast_except-remove [] c bytes = refl
  broadcast_except-remove ((j, b) ∷ m) c bytes = ground (arith, broadcast_except-remove m c bytes)

  send_to_skip :
      (c : ChannelId) (b : ChannelBroadcast R) (m : Map ChannelId (ChannelBroadcast R))
      (cs : List ChannelId) (bytes : List ℕ)
      → All (λ j. j ≢ c) cs
      → send_to ((c, b) ∷ m) cs bytes ≡ send_to m cs bytes
  unfolding send_to get
  send_to_skip c b m [] bytes h = refl
  send_to_skip c b m (j ∷ cs) bytes h = ground (arith, send_to_skip c b m cs bytes h.1)

  channel_ids_missing :
      (c : ChannelId) (m : Map ChannelId (ChannelBroadcast R))
      → get ℕ_discrete c m ≡ none
      → All (λ j. j ≢ c) (channel_ids m)
  unfolding channel_ids get
  channel_ids_missing c [] h = tt
  channel_ids_missing c ((j, b) ∷ m) h = ground (arith, channel_ids_missing c m)

  -- With distinct channel ids, a broadcast is one send to each of the open channels, in the order of `channel_ids`.
  pub send_to-channel_ids :
      (m : Map ChannelId (ChannelBroadcast R)) (bytes : List ℕ)
      → Distinct ℕ_discrete m
      → send_to m (channel_ids m) bytes ≡ broadcast m bytes
  unfolding broadcast send_to channel_ids Distinct get
  send_to-channel_ids [] bytes h = refl
  send_to-channel_ids ((c, b) ∷ m) bytes h = ground (
    arith,
    send_to-channel_ids m bytes h.1,
    send_to_skip c b m (channel_ids m) bytes,
    channel_ids_missing c m,
  )
