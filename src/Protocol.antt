-- ===== src/Protocol.antt =====
-- protocol/src/lib.rs: the types that server and client share. The traits are interfaces: records of
-- a type and its operations, which the other modules take as parameters.
use Prim.Native.String.{String}
use Prim.Native.String
use multiplayer_kit.Base.{ℕ, Bool, Option, some, List, [], ◌∷◌, Result}

-- `User` implements the trait; its `Id: Eq + Hash` is `UserId`.
pub record UserContext : Type 1 where
  pub User : Type 0
  pub UserId : Type 0
  pub id : User → UserId
  pub id_discrete : Discrete UserId

-- `Value` is `serde_json::Value`, with its parser. `to_value` and `from_slice` are what deriving `Serialize` and
-- `Deserialize` gives for the implementing type (`none` and `err` are serde's errors).
pub record RoomConfig : Type 1 where
  pub Config : Type 0
  pub Value : Type 0
  pub null : Value
  pub to_value : Config → Option Value
  pub from_slice : List ℕ → Result Config String
  pub value_from_slice : List ℕ → Option Value
  pub name : Config → String
  pub validate : Config → Result (Unit {0}) String
  pub max_players : Config → Option ℕ
  pub matches_quickplay : Config → Value → Bool
  pub quickplay_default : Value → Option Config

abbrev pub RoomId : Type 0
RoomId = ℕ

abbrev pub ChannelId : Type 0
ChannelId = ℕ

pub record RoomInfo (C : Type 0) : Type 0 where
  pub id : RoomId
  pub name : String
  pub player_count : ℕ
  pub max_players : Option ℕ
  pub is_joinable : Bool
  pub created_at : ℕ
  pub config : C

pub data LobbyEvent (C : Type 0) : Type 0 where
  snapshot : List (RoomInfo C) → LobbyEvent C
  room_created : RoomInfo C → LobbyEvent C
  room_updated : RoomInfo C → LobbyEvent C
  room_deleted : RoomId → LobbyEvent C

pub record TicketClaims (T : Type 0) : Type 0 where
  pub exp : ℕ
  pub user : T

pub record QuickplayResponse : Type 0 where
  pub room_id : RoomId
  pub created : Bool

pub data Route : Type 0 where
  channels : List ChannelId → Route
  nobody : Route

pub record Outgoing : Type 0 where
  pub payload : List ℕ
  pub route : Route

unfoldable pub outgoing : List ℕ → Route → Outgoing
outgoing payload route = record { payload = payload; route = route }

unfoldable pub to_channels : List ℕ → List ChannelId → Outgoing
unfolding outgoing
to_channels payload ids = outgoing payload (channels ids)

unfoldable pub to_channel : List ℕ → ChannelId → Outgoing
unfolding outgoing
to_channel payload id = outgoing payload (channels (id ∷ []))

pub data RoomEvent (T : Type 0) : Type 0 where
  user_joined : T → RoomEvent T
  user_left : T → RoomEvent T
  channel_opened : T → ChannelId → RoomEvent T
  channel_closed : T → ChannelId → RoomEvent T
  room_message : T → ChannelId → List ℕ → RoomEvent T
  shutdown : RoomEvent T

pub data RejectReason : Type 0 where
  invalid_ticket : RejectReason
  room_not_found : RejectReason
  room_full : RejectReason
  validation_failed : String → RejectReason
  custom : String → RejectReason

-- `Display`.
unfoldable pub reject_text : RejectReason → String
reject_text invalid_ticket = "Invalid or expired ticket"
reject_text room_not_found = "Room not found"
reject_text room_full = "Room is full"
reject_text (validation_failed msg) = String.◌++◌ "Validation failed: " msg
reject_text (custom msg) = msg

unfoldable pub map_config : {C D : Type 0} → RoomInfo C → (C → D) → RoomInfo D
map_config r f = record {
  id = r.id;
  name = r.name;
  player_count = r.player_count;
  max_players = r.max_players;
  is_joinable = r.is_joinable;
  created_at = r.created_at;
  config = f r.config;
}

pub record SimpleConfig : Type 0 where
  pub name : String

unfoldable pub simple_new : String → SimpleConfig
simple_new name = record { name = name }

-- `suffix` is the text of the random number; `Default` is this configuration.
unfoldable pub simple_auto : String → SimpleConfig
simple_auto suffix = record { name = String.◌++◌ "Auto-room " suffix }

unfoldable pub simple_quickplay_default : {V : Type 0} → V → String → Option SimpleConfig
unfolding simple_auto
simple_quickplay_default request suffix = some (simple_auto suffix)
