-- ===== src/Chat.antt =====
-- example/chat-protocol/src/lib.rs: the configuration of a chat room, the messages of the chat, and its
-- users, as instances of the interfaces of the library. bincode and serde are arguments.
pub mod Names
pub mod Server
pub mod Honesty
pub mod Client
pub mod Shown
mod Tests
use Prim.Native.Char.{Char, code}
use Prim.Native.String.{String, len}
use Prim.Native.String
use multiplayer_kit.Base.{
  ℕ, refl, Option, none, some, List, [], ◌∷◌, Bool, true, false, not, ◌&&◌, ◌||◌, ◌==◌, ltb, leb,
  if◌then◌else◌, ℕ_discrete, Result, ok, err,
}
use multiplayer_kit.Protocol.{UserContext, RoomConfig}
use multiplayer_kit.ChannelMessage.{
  ChannelMessage, DecodeError, deserialize, EncodeError, serialize,
}

pub record ChatRoomConfig : Type 0 where
  pub name : String
  pub max_players : Option ℕ

-- `char::is_whitespace`: the characters with the property White_Space of Unicode.
unfoldable pub is_whitespace : Char → Bool
is_whitespace c =
    (leb 9 (code c) && leb (code c) 13)
    || code c == 32
    || code c == 133
    || code c == 160
    || code c == 5760
    || (leb 8192 (code c) && leb (code c) 8202)
    || code c == 8232
    || code c == 8233
    || code c == 8239
    || code c == 8287
    || code c == 12288

unfoldable pub trim_start : String → String
trim_start String.[] = String.[]
trim_start (String.◌∷◌ c s) =
    let rest = trim_start s in if is_whitespace c then rest else String.◌∷◌ c s

-- A character is left out at the end if nothing is left behind it.
trim_last : Char → String → String
trim_last c String.[] = if is_whitespace c then String.[] else String.◌∷◌ c String.[]
trim_last c (String.◌∷◌ d s) = String.◌∷◌ c (String.◌∷◌ d s)

unfoldable pub trim_end : String → String
unfolding trim_last
trim_end String.[] = String.[]
trim_end (String.◌∷◌ c s) = trim_last c (trim_end s)

unfoldable pub trim : String → String
trim s = trim_end (trim_start s)

unfoldable pub is_empty : String → Bool
is_empty String.[] = true
is_empty (String.◌∷◌ c s) = false

-- `String::len` counts bytes of UTF-8.
unfoldable pub validate : ChatRoomConfig → Result (Unit {0}) String
validate config =
    if is_empty (trim config.name)
    then err "Room name cannot be empty"
    else if ltb 50 (len config.name)
    then err "Room name too long (max 50 chars)"
    else ok tt

-- `suffix` is the text of the random number.
unfoldable pub quickplay_default : String → ChatRoomConfig
quickplay_default suffix = record { name = String.◌++◌ "Quick Chat " suffix; max_players = some 20 }

-- serde_json, and what deriving `Serialize` and `Deserialize` gives for the configuration.
pub record Json : Type 1 where
  pub Value : Type 0
  pub null : Value
  pub to_value : ChatRoomConfig → Option Value
  pub from_slice : List ℕ → Result ChatRoomConfig String
  pub value_from_slice : List ℕ → Option Value

-- `matches_quickplay` is the trait's own.
abbrev pub chat_rooms : Json → String → RoomConfig
chat_rooms J suffix = record {
  Config = ChatRoomConfig;
  Value = J.Value;
  null = J.null;
  to_value = J.to_value;
  from_slice = J.from_slice;
  value_from_slice = J.value_from_slice;
  name = λ c. c.name;
  validate = validate;
  max_players = λ c. c.max_players;
  matches_quickplay = λ c v. true;
  quickplay_default = λ v. some (quickplay_default suffix);
}

pub data ChatChannel : Type 0 where
  chat_channel : ChatChannel

pub data ChatMessage : Type 0 where
  send_text : String → ChatMessage
  text_sent : String → String → ChatMessage
  system : String → ChatMessage

pub data ChatEvent : Type 0 where
  chat : ChatMessage → ChatEvent

pub ChatChannel_discrete : Discrete ChatChannel
ChatChannel_discrete chat_channel chat_channel = yes refl

-- bincode, with its errors as texts.
pub record Bincode : Type 0 where
  pub serialize : ChatMessage → Result (List ℕ) String
  pub deserialize : List ℕ → Result ChatMessage String

encoded : Result (List ℕ) String → Result (List ℕ) EncodeError
encoded (ok bytes) = ok bytes
encoded (err e) = err (serialize e)

decoded : Result ChatMessage String → Result ChatEvent DecodeError
decoded (ok msg) = ok (chat msg)
decoded (err e) = err (deserialize e)

unfoldable pub channel : ChatEvent → Option ChatChannel
channel (chat msg) = some chat_channel

unfoldable pub channel_to_id : ChatChannel → ℕ
channel_to_id chat_channel = 0

unfoldable pub channel_from_id : ℕ → Option ChatChannel
channel_from_id id = if id == 0 then some chat_channel else none

unfoldable pub encode : Bincode → ChatEvent → Result (List ℕ) EncodeError
unfolding encoded
encode B (chat msg) = encoded (B.serialize msg)

unfoldable pub decode : Bincode → ChatChannel → List ℕ → Result ChatEvent DecodeError
unfolding decoded
decode B chat_channel bytes = decoded (B.deserialize bytes)

abbrev pub chat_events : Bincode → ChannelMessage
chat_events B = record {
  Message = ChatEvent;
  Channel = ChatChannel;
  channel_discrete = ChatChannel_discrete;
  channel = channel;
  all_channels = chat_channel ∷ [];
  channel_to_id = channel_to_id;
  channel_from_id = channel_from_id;
  encode = encode B;
  decode = decode B;
}

pub record ChatUser : Type 0 where
  pub id : ℕ
  pub username : String

abbrev pub chat_users : UserContext
chat_users = record { User = ChatUser; UserId = ℕ; id = λ u. u.id; id_discrete = ℕ_discrete }
