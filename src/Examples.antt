-- ===== src/Examples.antt =====
-- A small game for the tests: users are numbers, a configuration is the number of players that it
-- allows, and the handles of tokio are numbers.
pub mod Rooms
pub mod Tokens
use multiplayer_kit.Base.{
  ◌+◌, get_or, leb, ℕ, List, [], ◌∷◌, Option, none, some, true, ok, err, Result, ◌==◌,
  if◌then◌else◌, ℕ_discrete,
}
use Prim.Native.String.{String}
use multiplayer_kit.Protocol.{UserContext, RoomConfig, TicketClaims}
use multiplayer_kit.Room.{Tokio, Pipes}
use multiplayer_kit.Manager.{RoomPipes, RoomSettings}
use multiplayer_kit.Ticket.{Jwt}
use multiplayer_kit.ChannelMessage.{ChannelMessage, DecodeError, deserialize}

abbrev pub people : UserContext
people = record { User = ℕ; UserId = ℕ; id = λ u. u; id_discrete = ℕ_discrete }

abbrev first_byte : List ℕ → Result ℕ String
first_byte [] = err "empty"
first_byte (b ∷ bs) = ok b

abbrev check_players : ℕ → Result (Unit {0}) String
check_players c = if c == 0 then err "no players" else ok tt

abbrev pub game : RoomConfig
game = record {
  Config = ℕ;
  Value = ℕ;
  null = 0;
  to_value = some;
  from_slice = first_byte;
  value_from_slice = λ bs. none;
  name = λ c. "room";
  validate = check_players;
  max_players = some;
  matches_quickplay = λ c v. true;
  quickplay_default = λ v. some 4;
}

abbrev pub handles : Tokio
handles = record {
  Sender = ℕ;
  Receiver = ℕ;
  ChannelSender = ℕ;
  ChannelReceiver = ℕ;
  OneshotSender = ℕ;
  OneshotReceiver = ℕ;
}

abbrev pub pipes : ℕ → Pipes handles
pipes n = record {
  read_tx = n;
  read_rx = n;
  write_tx = n;
  write_rx = n;
  close_tx = n;
  close_rx = n;
}

abbrev pub room_pipes : ℕ → RoomPipes handles
room_pipes n = record {
  channel_tx = n;
  channel_rx = n;
  shutdown_tx = n;
  shutdown_rx = n;
  entered_at = 0;
}

-- In seconds: an hour, and five minutes twice.
abbrev pub defaults : RoomSettings
defaults = record { max_lifetime = 3600; first_connect_timeout = 300; empty_timeout = 300 }

-- Two channels, 0 and 1, whose messages are one byte long.
abbrev one_byte : List ℕ → Result ℕ DecodeError
one_byte [] = err (deserialize "empty")
one_byte (b ∷ bs) = ok b

abbrev channel_of : ℕ → Option ℕ
channel_of c = if c == 0 then some 0 else if c == 1 then some 1 else none

abbrev pub chat : ChannelMessage
chat = record {
  Message = ℕ;
  Channel = ℕ;
  channel_discrete = ℕ_discrete;
  channel = λ m. some 0;
  all_channels = 0 ∷ 1 ∷ [];
  channel_to_id = λ c. c;
  channel_from_id = channel_of;
  encode = λ m. ok (m ∷ []);
  decode = λ c bs. one_byte bs;
}

-- Tokens whose first byte is the first byte of the secret.
abbrev written : TicketClaims ℕ → ℕ → Result (List ℕ) String
written claims key = ok (key ∷ claims.exp ∷ claims.user ∷ [])

abbrev read_token : List ℕ → ℕ → ℕ → Result (TicketClaims ℕ) String
read_token (k ∷ exp ∷ user ∷ []) key now =
    if k == key
    then (if leb now (exp + 60) then ok (record { exp = exp; user = user }) else err "expired")
    else err "signature"
read_token [] key now = err "malformed"
read_token (k ∷ []) key now = err "malformed"
read_token (k ∷ exp ∷ []) key now = err "malformed"
read_token (k ∷ exp ∷ user ∷ b ∷ bs) key now = err "malformed"

abbrev pub tokens : Jwt people
tokens = record {
  EncodingKey = ℕ;
  DecodingKey = ℕ;
  Error = String;
  to_string = λ e. e;
  encoding_from_secret = λ s. get_or s 0 0;
  decoding_from_secret = λ s. get_or s 0 0;
  encode = written;
  decode = read_token;
}
