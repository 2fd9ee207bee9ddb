-- ===== src/Lobby.antt =====
-- server/src/lobby.rs. The broadcast channel is tokio's: a lobby is the list of the events handed
-- to it, oldest first. (`send` drops an event that nobody subscribes to.)
use multiplayer_kit.Base.{ℕ, Option, none, some, List, [], ◌∷◌, ◌++◌, length, drop}
use multiplayer_kit.Protocol.{
  LobbyEvent, room_created, room_updated, room_deleted, RoomInfo, RoomId,
}

abbrev pub Lobby : Type 0 → Type 0
Lobby V = List (LobbyEvent V)

module _ {V : Type 0} where
  unfoldable pub notify_room_created : Lobby V → RoomInfo V → Lobby V
  notify_room_created l room = l ++ (room_created room ∷ [])

  unfoldable pub notify_room_updated : Lobby V → RoomInfo V → Lobby V
  notify_room_updated l room = l ++ (room_updated room ∷ [])

  unfoldable pub notify_room_deleted : Lobby V → RoomId → Lobby V
  notify_room_deleted l room_id = l ++ (room_deleted room_id ∷ [])

  -- A receiver gets the events that are sent after `subscribe`: it stands for their place in the lobby.
  unfoldable pub subscribe : Lobby V → ℕ
  subscribe l = length l

  -- What a receiver that keeps up has got by the time the lobby is `l`.
  unfoldable pub received_by : ℕ → Lobby V → Lobby V
  received_by rx l = drop rx l

-- Notifies the lobby of a room that is there.
abbrev pub notify_updated : {V : Type 0} → Lobby V → Option (RoomInfo V) → Lobby V
notify_updated l none = l
notify_updated l (some info) = notify_room_updated l info

-- What `recv` of a receiver answers. A receiver that is more than 256 events behind has lagged.
pub data Received (V : Type 0) : Type 0 where
  event : LobbyEvent V → Received V
  lagged : Received V
  closed : Received V
