-- ===== src/Quic.antt =====
-- server/src/quic.rs: WebTransport sessions. wtransport is a parameter: what a connection does is a list
-- of events, and what is written to a stream a list of bytes. `str` operations are on the bytes of the path.
pub mod Paths
pub mod RoomSessions
pub mod Cleanup
pub mod Streams
mod Tests
use Prim.Native.String.{String}
use multiplayer_kit.Base.{
  ℕ, ◌+◌, ◌*◌, ◌-◌, ◌^◌, Option, none, some, List, [], ◌∷◌, ◌++◌, Bool, true, false, ltb, leb, ◌==◌,
  ◌&&◌, if◌then◌else◌, Result, ok, err, is_some, length,
}
use multiplayer_kit.Protocol.{UserContext, RoomConfig, RoomId, ChannelId, LobbyEvent, snapshot}
use multiplayer_kit.Lobby.{Lobby, notify_updated}
use multiplayer_kit.Framing.{to_be_bytes}
use multiplayer_kit.Room.{Tokio, Instant, Pipes, ServerChannel, Opened}
use multiplayer_kit.Ticket.{Jwt, TicketManager, validate}
use multiplayer_kit.Rest.{strip_prefix}
use multiplayer_kit.Manager.{
  RoomManager, Admission, open_channel, close_channel, get_room_info, room_exists, get_all_rooms,
}

pub record QuicState {T : UserContext} (C : RoomConfig) (R : Tokio) (J : Jwt T) : Type 0 where
  pub room_manager : RoomManager T C R
  pub ticket_manager : TicketManager J
  pub lobby : Lobby C.Value

-- The paths and their parts, as bytes.
abbrev pub lobby_path : List ℕ
lobby_path = b'/' ∷ b'l' ∷ b'o' ∷ b'b' ∷ b'b' ∷ b'y' ∷ []

abbrev pub room_path : List ℕ
room_path = b'/' ∷ b'r' ∷ b'o' ∷ b'o' ∷ b'm' ∷ b'/' ∷ []

abbrev pub ticket_param : List ℕ
ticket_param = b't' ∷ b'i' ∷ b'c' ∷ b'k' ∷ b'e' ∷ b't' ∷ b'=' ∷ []

unfoldable pub starts_with : List ℕ → List ℕ → Bool
starts_with s p = is_some (strip_prefix p s)

-- `split_once(c).unwrap_or((s, ""))`.
unfoldable pub split_once : ℕ → List ℕ → List ℕ × List ℕ
split_once c [] = ([], [])
split_once c (b ∷ bs) =
    let (before, after) : List ℕ × List ℕ = split_once c bs in
    if b == c then ([], bs) else (b ∷ before, after)

-- The first part of `split`, and the others.
unfoldable pub split_at : ℕ → List ℕ → List ℕ × List (List ℕ)
split_at c [] = ([], [])
split_at c (b ∷ bs) =
    let (part, parts) : List ℕ × List (List ℕ) = split_at c bs in
    if b == c then ([], part ∷ parts) else (b ∷ part, parts)

unfoldable pub split : ℕ → List ℕ → List (List ℕ)
unfolding split_at
split c s = let (part, parts) : List ℕ × List (List ℕ) = split_at c s in part ∷ parts

or_later : {A : Type 0} → Option A → Option A → Option A
or_later none later = later
or_later (some a) later = some a

find_ticket : List (List ℕ) → Option (List ℕ)
unfolding or_later
find_ticket [] = none
find_ticket (param ∷ params) = or_later (strip_prefix ticket_param param) (find_ticket params)

-- The `ticket` of the query.
unfoldable pub ticket_of : List ℕ → Option (List ℕ)
unfolding find_ticket
ticket_of query = find_ticket (split b'&' query)

is_digit : ℕ → Bool
is_digit b = leb b'0' b && leb b b'9'

-- The number that the digits say after the number so far; `none` where a byte is no digit or the
-- number is 2^64 or more.
parse_digits : ℕ → List ℕ → Option ℕ
unfolding is_digit
parse_digits n [] = some n
parse_digits n (b ∷ bs) =
    let n' = n * 10 + (b - b'0') in
    let rest = parse_digits n' bs in
    if is_digit b then (if ltb n' (2 ^ 64) then rest else none) else none

parse_sign : ℕ → List ℕ → Option ℕ
unfolding parse_digits
parse_sign b [] = parse_digits 0 (b ∷ [])
parse_sign b (c ∷ cs) = if b == b'+' then parse_digits 0 (c ∷ cs) else parse_digits 0 (b ∷ c ∷ cs)

-- `str::parse::<u64>`: a sign `+` may stand before the digits.
unfoldable pub parse_u64 : List ℕ → Option ℕ
unfolding parse_sign
parse_u64 [] = none
parse_u64 (b ∷ bs) = parse_sign b bs

abbrev unwrap_or : {A : Type 0} → Option A → A → A
unwrap_or none d = d
unwrap_or (some a) d = a

-- The id and the query of a path to a room.
unfoldable pub room_of : List ℕ → RoomId × List ℕ
room_of path =
    let (room_part, query) : List ℕ × List ℕ = split_once b'?' path in
    (unwrap_or (parse_u64 (unwrap_or (strip_prefix room_path room_part) (b'0' ∷ []))) 0, query)

-- What `handle_session` decides before it accepts the connection.
pub data Session (T : UserContext) (E : Type 0) : Type 0 where
  to_lobby : T.User → Session T E
  to_room : RoomId → T.User → Session T E
  unknown_path : Session T E
  missing_ticket : Session T E
  invalid_ticket : E → Session T E
  room_not_found : Session T E

module _ {T : UserContext} {C : RoomConfig} {R : Tokio} {J : Jwt T} where
  authenticated :
      QuicState C R J → ℕ → Option (List ℕ) → (T.User → Session T J.Error) → Session T J.Error
  authenticated s unix none next = missing_ticket
  authenticated s unix (some ticket) next = elim (validate s.ticket_manager ticket unix) [
    | ok user ↦ next user
    | err e ↦ invalid_ticket e
  ]

  room_session : QuicState C R J → RoomId → T.User → Session T J.Error
  room_session s id user = if room_exists s.room_manager id then to_room id user else room_not_found

  unfoldable pub handle_session : QuicState C R J → List ℕ → ℕ → Session T J.Error
  unfolding authenticated room_session
  handle_session s path unix =
      if starts_with path lobby_path
      then (let (part, query) : List ℕ × List ℕ = split_once b'?' path in
          authenticated s unix (ticket_of query) to_lobby)
      else if starts_with path room_path
      then (let (id, query) : RoomId × List ℕ = room_of path in
          authenticated s unix (ticket_of query) (room_session s id))
      else unknown_path
