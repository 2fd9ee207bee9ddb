-- ===== src/Manager.antt =====
-- server/src/room.rs: `RoomManager`. Each operation is one step, also one that awaits, as if the calls
-- ran one after another. The handler factory is a parameter: `create_room` returns the room and the
-- configuration with which it would be started.
pub mod Cases
pub mod Invariant
pub mod Ids
pub mod Reach
pub mod Isolation
pub mod Quickplay
pub mod Lifecycle
pub mod Sweep
pub mod Opening
pub mod Occupancy
pub mod Refinement
mod Tests
use Prim.Native.String.{String}
use multiplayer_kit.Base.{
  ℕ, ◌+◌, ◌%◌, ◌^◌, Option, none, some, List, [], ◌∷◌, ◌++◌, map, Bool, true, false, ltb, ◌==◌,
  ◌&&◌, if◌then◌else◌, is_some, ite, ℕ_discrete, Result, ok, err,
}
use multiplayer_kit.Base.Map.{Map, get, insert, remove, contains_key}
use multiplayer_kit.Protocol.{UserContext, RoomConfig, RoomId, ChannelId, RoomInfo}
use multiplayer_kit.Lobby.{Lobby, notify_room_deleted}
use multiplayer_kit.Room.{
  Tokio, Instant, duration_since, ServerChannel, RoomShared, Room, RoomEntry, Pipes, Opened,
  open_entry, close_entry,
}

pub record RoomSettings : Type 0 where
  pub max_lifetime : ℕ
  pub first_connect_timeout : ℕ
  pub empty_timeout : ℕ

-- `quickplay_filter` is applied to the server's context.
pub record RoomManager (T : UserContext) (C : RoomConfig) (R : Tokio) : Type 0 where
  pub rooms : Map RoomId (RoomEntry T C R)
  pub next_room_id : ℕ
  pub settings : RoomSettings
  pub quickplay_filter : Option (RoomId → C.Config → Bool)

-- The channel for new channels and the shutdown signal of a new room, and the clock when its entry is
-- made, which is read once more behind that of its last activity.
pub record RoomPipes (R : Tokio) : Type 0 where
  pub channel_tx : R.ChannelSender
  pub channel_rx : R.ChannelReceiver
  pub shutdown_tx : R.OneshotSender
  pub shutdown_rx : R.OneshotReceiver
  pub entered_at : Instant

-- The manager afterwards, the answer, and what the handler is started with.
pub record Creation (T : UserContext) (C : RoomConfig) (R : Tokio) : Type 0 where
  pub manager : RoomManager T C R
  pub answer : Result RoomId String
  pub started : Option (Room R × C.Config)

-- The manager afterwards, the answer, the shutdown signal that was sent, and the state that the
-- handler of the removed room still shares.
pub record Deletion (T : UserContext) (C : RoomConfig) (R : Tokio) : Type 0 where
  pub manager : RoomManager T C R
  pub answer : Result (Unit {0}) String
  pub signal : Option R.OneshotSender
  pub left : Option (RoomShared T R)

pub record Admission (T : UserContext) (C : RoomConfig) (R : Tokio) : Type 0 where
  pub manager : RoomManager T C R
  pub to_handler : Option (T.User × ServerChannel R)
  pub answer : Option (Opened R)

-- After the lifecycle checks: the manager, the lobby, and the shutdown signals that were sent.
pub record Checked (T : UserContext) (C : RoomConfig) (R : Tokio) : Type 0 where
  pub manager : RoomManager T C R
  pub lobby : Lobby C.Value
  pub signals : List R.OneshotSender

unfoldable pub is_joinable : Option ℕ → ℕ → Bool
is_joinable none player_count = true
is_joinable (some max) player_count = ltb player_count max

abbrev map_u32 : Option ℕ → Option ℕ
map_u32 none = none
map_u32 (some m) = some (m % 2 ^ 32)

abbrev get_or_else {ℓ} : {A : Type ℓ} → Option A → A → A
get_or_else none d = d
get_or_else (some a) d = a

abbrev passes {ℓ} : {A : Type ℓ} → Option (RoomId → A → Bool) → RoomId → A → Bool
passes none id config = true
passes (some handler) id config = handler id config

module _ {T : UserContext} {C : RoomConfig} {R : Tokio} where
  unfoldable pub new : RoomSettings → Option (RoomId → C.Config → Bool) → RoomManager T C R
  new settings filter = record {
    rooms = [];
    next_room_id = 1;
    settings = settings;
    quickplay_filter = filter;
  }

  unfoldable pub new_entry : T.User → C.Config → Instant → ℕ → RoomPipes R → RoomEntry T C R
  new_entry creator config now unix p = record {
    config = config;
    channel_tx = p.channel_tx;
    shutdown_tx = some p.shutdown_tx;
    shared = record { channels = []; user_channels = []; user_count = 0; last_activity = now };
    creator_id = T.id creator;
    created_at = p.entered_at;
    created_at_unix = unix;
    next_channel_id = 1;
  }

  unfoldable pub create_room :
      RoomManager T C R → T.User → C.Config → Instant → ℕ → RoomPipes R → Creation T C R
  create_room m creator config now unix p = elim (C.validate config) [
    | err e ↦ record { manager = m; answer = err e; started = none }
    | ok _ ↦
        let id = m.next_room_id in
        record {
          manager = record m {
            rooms = insert ℕ_discrete id (new_entry creator config now unix p) m.rooms;
            next_room_id = (id + 1) % 2 ^ 64;
          };
          answer = ok id;
          started =
              some (
                record { id = id; channel_rx = p.channel_rx; shutdown_rx = p.shutdown_rx },
                config,
              );
        }
  ]

  unfoldable pub delete_room : RoomManager T C R → RoomId → T.UserId → Deletion T C R
  delete_room m room_id requester_id = elim (get ℕ_discrete room_id m.rooms) [
    | none ↦ record { manager = m; answer = err "room not found"; signal = none; left = none }
    | some e ↦
        ite (T.id_discrete e.creator_id requester_id)
          (record {
            manager = record m { rooms = remove ℕ_discrete room_id m.rooms };
            answer = ok tt;
            signal = e.shutdown_tx;
            left = some (record e.shared { channels = [] });
          })
          (record {
            manager = m;
            answer = err "only creator can delete room";
            signal = none;
            left = none;
          })
  ]

  unfoldable pub open_channel :
      RoomManager T C R → RoomId → T.User → Instant → Pipes R → Bool → Admission T C R
  open_channel m room_id user now p sent = elim (get ℕ_discrete room_id m.rooms) [
    | none ↦ record { manager = m; to_handler = none; answer = none }
    | some e ↦
        let o = open_entry e user now p sent in
        record {
          manager = record m { rooms = insert ℕ_discrete room_id o.entry m.rooms };
          to_handler = o.to_handler;
          answer = o.answer;
        }
  ]

  unfoldable pub close_channel :
      RoomManager T C R → RoomId → ChannelId → Instant → RoomManager T C R
  close_channel m room_id c now = elim (get ℕ_discrete room_id m.rooms) [
    | none ↦ m
    | some e ↦ record m { rooms = insert ℕ_discrete room_id (close_entry e c now) m.rooms }
  ]

  unfoldable pub room_info : RoomId → RoomEntry T C R → RoomInfo C.Value
  unfolding is_joinable
  room_info room_id e = record {
    id = room_id;
    name = C.name e.config;
    player_count = e.shared.user_count;
    max_players = map_u32 (C.max_players e.config);
    is_joinable = is_joinable (map_u32 (C.max_players e.config)) e.shared.user_count;
    created_at = e.created_at_unix;
    config = get_or_else (C.to_value e.config) C.null;
  }

  unfoldable pub get_room_info : RoomManager T C R → RoomId → Option (RoomInfo C.Value)
  get_room_info m room_id = elim (get ℕ_discrete room_id m.rooms) [
    | none ↦ none
    | some e ↦ some (room_info room_id e)
  ]

  filter_infos : RoomManager T C R → Map RoomId (RoomEntry T C R) → List (RoomInfo C.Value)
  filter_infos m [] = []
  filter_infos m ((id, e) ∷ rest) =
      let infos = filter_infos m rest in
      elim (get_room_info m id) [ none ↦ infos | some info ↦ info ∷ infos ]

  unfoldable pub get_all_rooms : RoomManager T C R → List (RoomInfo C.Value)
  unfolding filter_infos
  get_all_rooms m = filter_infos m m.rooms

  unfoldable pub room_exists : RoomManager T C R → RoomId → Bool
  room_exists m room_id = contains_key ℕ_discrete room_id m.rooms

  -- The tests of one round, in the order of the source.
  unfoldable pub is_match : RoomManager T C R → C.Value → RoomId → RoomEntry T C R → Bool
  unfolding is_joinable
  is_match m request id e =
      if is_joinable (C.max_players e.config) e.shared.user_count
      then (if C.matches_quickplay e.config request
          then passes m.quickplay_filter id e.config
          else false)
      else false

  unfoldable pub find_in :
      RoomManager T C R → C.Value → Map RoomId (RoomEntry T C R) → Option RoomId
  find_in m request [] = none
  find_in m request ((id, e) ∷ rest) =
      let later = find_in m request rest in if is_match m request id e then some id else later

  unfoldable pub find_quickplay_room : RoomManager T C R → C.Value → Option RoomId
  find_quickplay_room m request = find_in m request m.rooms

  unfoldable pub is_expired : RoomSettings → Instant → RoomEntry T C R → Bool
  is_expired s now e =
      let age = duration_since now e.created_at in
      let idle_time = duration_since now e.shared.last_activity in
      if ltb s.max_lifetime age
      then true
      else if (e.shared.user_count == 0) && ltb s.first_connect_timeout age
      then true
      else (e.shared.user_count == 0) && ltb s.empty_timeout idle_time

  unfoldable pub to_remove : RoomSettings → Instant → Map RoomId (RoomEntry T C R) → List RoomId
  to_remove s now [] = []
  to_remove s now ((id, e) ∷ rest) =
      let later = to_remove s now rest in if is_expired s now e then id ∷ later else later

  abbrev signal_of : Option (RoomEntry T C R) → List R.OneshotSender
  signal_of none = []
  signal_of (some e) = elim e.shutdown_tx [ none ↦ [] | some tx ↦ tx ∷ [] ]

  unfoldable pub remove_all : List RoomId → Checked T C R → Checked T C R
  remove_all [] k = k
  remove_all (id ∷ ids) k = remove_all ids (record {
    manager = record k.manager { rooms = remove ℕ_discrete id k.manager.rooms };
    lobby = notify_room_deleted k.lobby id;
    signals = k.signals ++ signal_of (get ℕ_discrete id k.manager.rooms);
  })

  unfoldable pub run_lifecycle_checks : RoomManager T C R → Lobby C.Value → Instant → Checked T C R
  run_lifecycle_checks m lobby now =
      remove_all (to_remove m.settings now m.rooms)
        (record { manager = m; lobby = lobby; signals = [] })
