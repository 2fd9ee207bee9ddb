-- ===== src/Quic/Tests.antt =====
-- User 8 asks for room 1 of the example by WebTransport, and opens a stream.
use multiplayer_kit.Base.{ℕ, ◌≡◌, refl, List, [], ◌∷◌, true, arith, if◌then◌else◌}
use multiplayer_kit.Ticket
use multiplayer_kit.Manager.{room_exists}
use multiplayer_kit.Manager.Occupancy.{occupancy}
use multiplayer_kit.Examples.{game, handles, pipes, tokens}
use multiplayer_kit.Examples.Rooms.{with_room, with_room-IsSound, with_room-HasIds}
use multiplayer_kit.Quic.{
  QuicState, to_room, to_lobby, room_not_found, handle_session, room_of, split_once, parse_u64,
}
use multiplayer_kit.Rest.{strip_prefix}
use multiplayer_kit.Quic.Paths.{room_url, lobby_url, decimal, Decides, handle_session-room_url}
use multiplayer_kit.Quic.RoomSessions.{
  SessionEvent, accepts, accept_fails, task_ends, handle_room_connection,
}
use multiplayer_kit.Quic.Cleanup.{handle_room_connection-occupancy}

abbrev state : QuicState game handles tokens
state = record {
  room_manager = with_room;
  ticket_manager = Ticket.new tokens (9 ∷ []) 60;
  lobby = [];
}

-- 9, 100, 8.
abbrev token : List ℕ
token = 9 ∷ 100 ∷ 8 ∷ []

handle_session-room_url_example :
    (handle_session state (room_url 1 token) 99
      ≡ Decides state token 99
          (λ user. if room_exists with_room 1 then to_room 1 user else room_not_found))
    × (handle_session state (lobby_url token) 99 ≡ Decides state token 99 to_lobby)
handle_session-room_url_example =
    handle_session-room_url state 1 token 99 (omega arith) (ground arith)

-- A path to no room is a path to room 0.
unnamed : (room_of (b'/' ∷ b'r' ∷ b'o' ∷ b'o' ∷ b'm' ∷ b'/' ∷ b'x' ∷ [])) ≡ (0, [])
unfolding room_of split_once strip_prefix parse_u64
unnamed = refl

in_decimal : decimal 1024 ≡ b'1' ∷ b'0' ∷ b'2' ∷ b'4' ∷ []
unfolding decimal
in_decimal = refl

abbrev events : List (SessionEvent handles)
events = accepts 10 (pipes 5) true ∷ task_ends 1 20 ∷ accept_fails ∷ []

handle_room_connection-occupancy_example :
    occupancy (handle_room_connection state 1 8 events 30).room_manager ≡ occupancy with_room
handle_room_connection-occupancy_example =
    handle_room_connection-occupancy state 1 8 events 30 with_room-IsSound
      ((refl, with_room-HasIds), (tt, (tt, tt)))
