-- ===== src/Examples/Rooms.antt =====
-- A manager of the small game in which user 7 has created room 1 for two players.
use multiplayer_kit.Base.{◌+◌, ◌^◌, ◌<◌, ◌≡◌, refl, none, some, arith, ℕ_discrete}
use multiplayer_kit.Base.Map.{get, insert}
use multiplayer_kit.Room.{RoomEntry}
use multiplayer_kit.Manager.{RoomManager, new, new_entry, create_room}
use multiplayer_kit.Manager.Invariant.{IsSound, HasIds, new-IsSound, create_room-IsSound}
use multiplayer_kit.Manager.Isolation.{room}
use multiplayer_kit.Examples.{people, game, handles, room_pipes, defaults}

abbrev pub started : RoomManager people game handles
started = new defaults none

abbrev pub with_room : RoomManager people game handles
with_room = (create_room started 7 2 0 0 (room_pipes 1)).manager

abbrev pub entry : RoomEntry people game handles
entry = new_entry 7 2 0 0 (room_pipes 1)

pub with_room-IsSound : IsSound with_room
unfolding new
with_room-IsSound =
    create_room-IsSound started 7 2 0 0 (room_pipes 1) (omega arith) (new-IsSound defaults none)

pub room-with_room : room with_room 1 ≡ some entry
unfolding new create_room insert get ℕ_discrete
room-with_room = refl

entry-next :
    (e : RoomEntry people game handles) → some entry ≡ some e → e.next_channel_id + 1 < 2 ^ 64
unfolding new_entry
entry-next e h = ground arith

pub with_room-HasIds : HasIds with_room 1
unfolding new create_room insert get ℕ_discrete
with_room-HasIds e h = entry-next e h
