-- ===== src/Manager/Occupancy.antt =====
-- server/src/room.rs: who is where, as the answers of `RoomManager` tell it: a table of rooms and of
-- seats, which knows nothing of entries, counts and time stamps.
use Prim.Native.String.{String}
use multiplayer_kit.Base.{
  ℕ, ◌+◌, ◌^◌, ◌<◌, Option, none, some, List, [], ◌∷◌, ◌++◌, Bool, true, false, ite, ℕ_discrete,
  Result, ok, err,
}
use multiplayer_kit.Base.Map.{contains_key}
use multiplayer_kit.Protocol.{
  UserContext, RoomConfig, RoomId, ChannelId, LobbyEvent, snapshot, room_created, room_updated,
  room_deleted,
}
use multiplayer_kit.Lobby.{Lobby}
use multiplayer_kit.Room.{Tokio, Instant, RoomEntry, Pipes, Opened}
use multiplayer_kit.Room.Sessions.{holder}
use multiplayer_kit.Manager.{
  RoomManager, RoomPipes, create_room, delete_room, open_channel, close_channel,
  run_lifecycle_checks,
}
use multiplayer_kit.Manager.Invariant.{HasIds}
use multiplayer_kit.Manager.Isolation.{room}

-- A channel is a seat in its room.
pub record Occupancy (T : UserContext) : Type 0 where
  pub is_open : RoomId → Bool
  pub seat : RoomId → ChannelId → Option T.UserId

-- What an answer says has happened.
pub data Action (T : UserContext) : Type 0 where
  room_opened : RoomId → Action T
  room_closed : RoomId → Action T
  seated : RoomId → ChannelId → T.UserId → Action T
  vacated : RoomId → ChannelId → Action T

module _ {T : UserContext} where
  unfoldable pub apply : Action T → Occupancy T → Occupancy T
  apply (room_opened id) o = record {
    is_open = λ j. ite (ℕ_discrete id j) true (o.is_open j);
    seat = λ j k. ite (ℕ_discrete id j) none (o.seat j k);
  }
  apply (room_closed id) o = record {
    is_open = λ j. ite (ℕ_discrete id j) false (o.is_open j);
    seat = λ j k. ite (ℕ_discrete id j) none (o.seat j k);
  }
  apply (seated id c u) o = record o {
    seat = λ j k. ite (ℕ_discrete id j) (ite (ℕ_discrete c k) (some u) (o.seat j k)) (o.seat j k);
  }
  apply (vacated id c) o = record o {
    seat = λ j k. ite (ℕ_discrete id j) (ite (ℕ_discrete c k) none (o.seat j k)) (o.seat j k);
  }

  unfoldable pub replay : List (Action T) → Occupancy T → Occupancy T
  replay [] o = o
  replay (a ∷ as') o = replay as' (apply a o)

module _ {T : UserContext} {V : Type 0} where
  abbrev announced_of : LobbyEvent V → List (Action T) → List (Action T)
  announced_of (room_deleted id) later = room_closed id ∷ later
  announced_of (room_created info) later = later
  announced_of (room_updated info) later = later
  announced_of (snapshot rooms) later = later

  -- What the lobby is told of rooms that are gone.
  unfoldable pub announced : Lobby V → List (Action T)
  announced [] = []
  announced (e ∷ es) = announced_of e (announced es)

-- The calls of the server's handlers. The handler of a room that is joined is running.
pub data Call (T : UserContext) (C : RoomConfig) (R : Tokio) : Type 0 where
  creates : T.User → C.Config → Instant → ℕ → RoomPipes R → Call T C R
  deletes : RoomId → T.UserId → Call T C R
  opens : RoomId → T.User → Instant → Pipes R → Call T C R
  closes : RoomId → ChannelId → Instant → Call T C R
  checks : Instant → Call T C R

module _ {T : UserContext} where
  abbrev pub created_action : Result RoomId String → List (Action T)
  created_action (ok id) = room_opened id ∷ []
  created_action (err e) = []

  abbrev pub deleted_action : RoomId → Result (Unit {0}) String → List (Action T)
  deleted_action id (ok u) = room_closed id ∷ []
  deleted_action id (err e) = []

module _ {T : UserContext} {R : Tokio} where
  abbrev pub opened_action : RoomId → T.UserId → Option (Opened R) → List (Action T)
  opened_action id u none = []
  opened_action id u (some o) = seated id o.channel_id u ∷ []

module _ {T : UserContext} {C : RoomConfig} {R : Tokio} where
  abbrev seat_in : Option (RoomEntry T C R) → ChannelId → Option T.UserId
  seat_in none c = none
  seat_in (some e) c = holder e c

  unfoldable pub occupancy : RoomManager T C R → Occupancy T
  occupancy m = record {
    is_open = λ id. contains_key ℕ_discrete id m.rooms;
    seat = λ id c. seat_in (room m id) c;
  }

  unfoldable pub after : RoomManager T C R → Call T C R → RoomManager T C R
  after m (creates creator config now unix p) = (create_room m creator config now unix p).manager
  after m (deletes id requester) = (delete_room m id requester).manager
  after m (opens id user now p) = (open_channel m id user now p true).manager
  after m (closes id c now) = close_channel m id c now
  after m (checks now) = (run_lifecycle_checks m [] now).manager

  -- What the answer of a call says, and for the lifecycle checks, which rooms they announce as deleted.
  unfoldable pub actions : RoomManager T C R → Call T C R → List (Action T)
  actions m (creates creator config now unix p) =
      created_action (create_room m creator config now unix p).answer
  actions m (deletes id requester) = deleted_action id (delete_room m id requester).answer
  actions m (opens id user now p) =
      opened_action id (T.id user) (open_channel m id user now p true).answer
  actions m (closes id c now) = vacated id c ∷ []
  actions m (checks now) = announced (run_lifecycle_checks m [] now).lobby

  unfoldable pub run : RoomManager T C R → List (Call T C R) → RoomManager T C R
  run m [] = m
  run m (q ∷ qs) = run (after m q) qs

  unfoldable pub log : RoomManager T C R → List (Call T C R) → List (Action T)
  log m [] = []
  log m (q ∷ qs) = actions m q ++ log (after m q) qs

  -- No 64-bit counter wraps around.
  abbrev FitsOne : RoomManager T C R → Call T C R → Type 0
  FitsOne m (creates creator config now unix p) = m.next_room_id + 1 < 2 ^ 64
  FitsOne m (deletes id requester) = Unit
  FitsOne m (opens id user now p) = HasIds m id
  FitsOne m (closes id c now) = Unit
  FitsOne m (checks now) = Unit

  abbrev pub Fits : RoomManager T C R → List (Call T C R) → Type 0
  Fits m [] = Unit
  Fits m (q ∷ qs) = FitsOne m q × Fits (after m q) qs
