-- ===== src/Room.antt =====
-- server/src/room.rs: a room's entry and the state that it shares with its handler: broadcasting,
-- and the parts of `open_channel` and `close_channel` that work on one entry.
--
-- tokio is a parameter: its senders and receivers are opaque values, the pairs that a call of
-- `channel` creates and the answer of a `send` are arguments, and a `try_send` is an item of the
-- list of sends that an operation makes. `Instant` is a number of nanoseconds.
pub mod Users
pub mod Broadcast
pub mod Invariant
pub mod Admission
pub mod Leak
pub mod Race
pub mod Handle
pub mod Sessions
mod Tests
use multiplayer_kit.Base.{
  ℕ, ◌+◌, ◌-◌, ◌%◌, ◌^◌, ◌≡◌, Option, none, some, List, [], ◌∷◌, ◌++◌, map, Bool, true, false, not,
  leb, if◌then◌else◌, is_some, ite, ℕ_discrete,
}
use multiplayer_kit.Base.Map.{Map, get, insert, remove, contains_key}
use multiplayer_kit.Protocol.{UserContext, RoomConfig, RoomId, ChannelId}
use Users.{UserChannels, track, untrack, close_users}

pub record Tokio : Type 1 where
  -- `mpsc::Sender<Vec<u8>>` and its receiver.
  pub Sender : Type 0
  pub Receiver : Type 0
  -- `mpsc::Sender<(T, ServerChannel)>` and its receiver.
  pub ChannelSender : Type 0
  pub ChannelReceiver : Type 0
  pub OneshotSender : Type 0
  pub OneshotReceiver : Type 0

abbrev pub Instant : Type 0
Instant = ℕ

-- `duration_since` is 0 for a later instant.
abbrev pub duration_since : Instant → Instant → ℕ
duration_since later earlier = later - earlier

pub record ServerChannel (R : Tokio) : Type 0 where
  pub id : ChannelId
  pub read_rx : R.Receiver
  pub write_tx : R.Sender
  pub close_tx : Option R.OneshotSender

pub record ChannelBroadcast (R : Tokio) : Type 0 where
  pub write_tx : R.Sender

pub record RoomShared (T : UserContext) (R : Tokio) : Type 0 where
  pub channels : Map ChannelId (ChannelBroadcast R)
  pub user_channels : UserChannels T.UserId
  pub user_count : ℕ
  pub last_activity : Instant

-- What the handler of a room is started with. Its `shared` is the one of the entry.
pub record Room (R : Tokio) : Type 0 where
  pub id : RoomId
  pub channel_rx : R.ChannelReceiver
  pub shutdown_rx : R.OneshotReceiver

pub data Accept (T : UserContext) (R : Tokio) : Type 0 where
  new_channel : T.User → ServerChannel R → Accept T R
  closing : Accept T R

pub record RoomEntry (T : UserContext) (C : RoomConfig) (R : Tokio) : Type 0 where
  pub config : C.Config
  pub channel_tx : R.ChannelSender
  pub shutdown_tx : Option R.OneshotSender
  pub shared : RoomShared T R
  pub creator_id : T.UserId
  pub created_at : Instant
  pub created_at_unix : ℕ
  pub next_channel_id : ℕ

-- The two channels and the oneshot that `open_channel` creates.
pub record Pipes (R : Tokio) : Type 0 where
  pub read_tx : R.Sender
  pub read_rx : R.Receiver
  pub write_tx : R.Sender
  pub write_rx : R.Receiver
  pub close_tx : R.OneshotSender
  pub close_rx : R.OneshotReceiver

-- `(ChannelId, Sender, Receiver, oneshot::Receiver)` for the transport.
pub record Opened (R : Tokio) : Type 0 where
  pub channel_id : ChannelId
  pub read_tx : R.Sender
  pub write_rx : R.Receiver
  pub close_rx : R.OneshotReceiver

-- The entry afterwards, what was sent to the handler, and the answer to the transport.
pub record Opening (T : UserContext) (C : RoomConfig) (R : Tokio) : Type 0 where
  pub entry : RoomEntry T C R
  pub to_handler : Option (T.User × ServerChannel R)
  pub answer : Option (Opened R)

module _ {T : UserContext} {R : Tokio} where
  -- `biased`: the shutdown signal is looked at first.
  unfoldable pub accept : Bool → Option (T.User × ServerChannel R) → Option (Accept T R)
  accept true received = some closing
  accept false none = none
  accept false (some (user, channel)) = some (new_channel user channel)

  -- The user and the channel enter the shared state. `fetch_add` wraps around.
  unfoldable pub join : RoomShared T R → T.UserId → ChannelId → R.Sender → RoomShared T R
  join s u c tx = record s {
    user_channels = track T.id_discrete u c s.user_channels;
    user_count =
        if contains_key T.id_discrete u s.user_channels
        then s.user_count
        else (s.user_count + 1) % 2 ^ 32;
    channels = insert ℕ_discrete c (record { write_tx = tx }) s.channels;
  }

  -- The channel leaves the shared state. `fetch_sub` wraps around.
  unfoldable pub close_shared : RoomShared T R → ChannelId → Instant → RoomShared T R
  close_shared s c now = record {
    channels = remove ℕ_discrete c s.channels;
    user_channels = close_users T.id_discrete c s.user_channels;
    user_count =
        if is_some (untrack c s.user_channels).1
        then (s.user_count + 2 ^ 32 - 1) % 2 ^ 32
        else s.user_count;
    last_activity = now;
  }

module _ {R : Tokio} where
  unfoldable pub broadcast : Map ChannelId (ChannelBroadcast R) → List ℕ → List (R.Sender × List ℕ)
  broadcast [] bytes = []
  broadcast ((c, b) ∷ m) bytes = (b.write_tx, bytes) ∷ broadcast m bytes

  unfoldable pub broadcast_except :
      Map ChannelId (ChannelBroadcast R) → ChannelId → List ℕ → List (R.Sender × List ℕ)
  broadcast_except [] exclude bytes = []
  broadcast_except ((c, b) ∷ m) exclude bytes =
      ite (ℕ_discrete c exclude) (broadcast_except m exclude bytes)
        ((b.write_tx, bytes) ∷ broadcast_except m exclude bytes)

  -- `Room::channel_ids` and `RoomHandle::channel_ids`.
  unfoldable pub channel_ids : Map ChannelId (ChannelBroadcast R) → List ChannelId
  channel_ids = map (λ r. r.0)

  abbrev send_one :
      Option (ChannelBroadcast R) → List ℕ → List (R.Sender × List ℕ) → List (R.Sender × List ℕ)
  send_one none bytes rest = rest
  send_one (some b) bytes rest = (b.write_tx, bytes) ∷ rest

  unfoldable pub send_to :
      Map ChannelId (ChannelBroadcast R) → List ChannelId → List ℕ → List (R.Sender × List ℕ)
  send_to m [] bytes = []
  send_to m (c ∷ cs) bytes = send_one (get ℕ_discrete c m) bytes (send_to m cs bytes)

module _ {T : UserContext} {C : RoomConfig} {R : Tokio} where
  -- The check on `max_players`, for users who have no channel yet.
  unfoldable pub admits : RoomEntry T C R → T.UserId → Bool
  admits e u = elim (C.max_players e.config) [
    | none ↦ true
    | some max ↦
        if contains_key T.id_discrete u e.shared.user_channels
        then true
        else not (leb max e.shared.user_count)
  ]

  -- `open_channel` behind the check on `max_players`. `sent` is the answer of `channel_tx.send`: it is
  -- `false` if the handler is gone.
  unfoldable pub enter : RoomEntry T C R → T.User → Instant → Pipes R → Bool → Opening T C R
  enter e user now p sent =
      let c = e.next_channel_id in
      let s = join e.shared (T.id user) c p.write_tx in
      let e' = record e { next_channel_id = (c + 1) % 2 ^ 64; shared = s } in
      if sent
      then record {
        entry = record e' { shared = record s { last_activity = now } };
        to_handler = some (
          user,
          record { id = c; read_rx = p.read_rx; write_tx = p.write_tx; close_tx = some p.close_tx },
        );
        answer = some (record {
          channel_id = c;
          read_tx = p.read_tx;
          write_rx = p.write_rx;
          close_rx = p.close_rx;
        });
      }
      else record { entry = e'; to_handler = none; answer = none }

  -- `open_channel` behind the lookup of the room.
  unfoldable pub open_entry : RoomEntry T C R → T.User → Instant → Pipes R → Bool → Opening T C R
  unfolding enter
  open_entry e user now p sent =
      if admits e (T.id user)
      then enter e user now p sent
      else record { entry = e; to_handler = none; answer = none }

  -- `close_channel` behind the lookup of the room.
  unfoldable pub close_entry : RoomEntry T C R → ChannelId → Instant → RoomEntry T C R
  close_entry e c now = record e { shared = close_shared e.shared c now }
