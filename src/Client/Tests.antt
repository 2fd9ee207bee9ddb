-- ===== src/Client/Tests.antt =====
-- The client against the server of the examples.
use Prim.Native.String.{String}
use multiplayer_kit.Base.{
  ℕ, ◌≡◌, refl, Option, none, some, List, [], ◌∷◌, ◌++◌, length, Bool, Bool-cases, inl, inr, ◌==◌,
  ◌&&◌, if◌then◌else◌, true, false, Result, ok, err, arith,
}
use multiplayer_kit.Protocol.{LobbyEvent, snapshot, room_created, room_updated, room_deleted}
use multiplayer_kit.Lobby.{event}
use multiplayer_kit.Manager.{get_all_rooms}
use multiplayer_kit.ClientErrors.{connection, disconnected_by, server_closed, timeout, connected}
use multiplayer_kit.Framing.{frame_message, to_be_bytes, new, push_all}
use multiplayer_kit.Ticket
use multiplayer_kit.Ticket.{TicketManager, validate}
use multiplayer_kit.Rest.{Http}
use multiplayer_kit.Quic.Streams.{Poll, poll_stream, handle_channel_stream, handle_lobby_connection}
use multiplayer_kit.Examples.{tokens}
use multiplayer_kit.Examples.Rooms.{with_room}
use multiplayer_kit.Client.{auto, web_socket}
use multiplayer_kit.Client.Streams.{
  WebTransportStream, WebSocketStream, data_frame, webtransport_read, websocket_read, read_exact,
}
use multiplayer_kit.Client.Streams.Exact.{read_exact_parts}
use multiplayer_kit.Client.Delivery.{
  recv_many, handle_lobby_connection-delivers, handle_channel_stream-delivers,
}
use multiplayer_kit.Client.Api.{Ehttp, Response, authorization, content_type}
use multiplayer_kit.Client.Access.{KeepsHeaders}
use multiplayer_kit.Client.LobbyClient.{LobbyClient, on_websocket}
use multiplayer_kit.Client.Connection
use multiplayer_kit.Client.Connection.{ConnectionConfig, Transports, RoomConnection, connect}

abbrev hello : List ℕ
hello = 104 ∷ 101 ∷ 108 ∷ 108 ∷ 111 ∷ []

read_exact_parts_example :
    let t : WebTransportStream = record { chunks = hello ∷ []; failure = none; connected = true } in
    let w : WebSocketStream = record { frames = data_frame hello ∷ []; connected = true } in
    let first = read_exact webtransport_read 2 t in
    let lossy = read_exact websocket_read 2 w in
    (first.0 ≡ ok (104 ∷ 101 ∷ []))
    × ((read_exact webtransport_read 3 first.1).0 ≡ ok (108 ∷ 108 ∷ 111 ∷ []))
    × (lossy.0 ≡ ok (104 ∷ 101 ∷ []))
    × ((read_exact websocket_read 3 lossy.1).0 ≡ err (disconnected_by server_closed))
read_exact_parts_example = read_exact_parts 2 hello (omega arith) (omega arith)

-- The kind of an event, with the number of rooms of a snapshot and the id of a room that is gone.
abbrev encode : LobbyEvent ℕ → List ℕ
encode (snapshot rooms) = 0 ∷ length rooms ∷ []
encode (room_created info) = 1 ∷ info.id ∷ []
encode (room_updated info) = 2 ∷ info.id ∷ info.player_count ∷ []
encode (room_deleted id) = 3 ∷ id ∷ []

handle_lobby_connection-delivers_example :
    recv_many 2 (
      handle_lobby_connection
        (λ e. some (encode e))
        with_room
        ((event (room_deleted 1), true) ∷ []))
    ≡ ((0 ∷ length (get_all_rooms with_room) ∷ []) ∷ (3 ∷ 1 ∷ []) ∷ [], [])
handle_lobby_connection-delivers_example =
    handle_lobby_connection-delivers encode with_room (room_deleted 1 ∷ []) (omega arith)
      (omega arith, tt)

-- The frame of a message arrives in two chunks.
abbrev chunk : List ℕ → Poll
chunk bytes = record {
  closes = false;
  read = some (some bytes);
  taken = true;
  outgoing = none;
  written = true;
}

abbrev polls : List Poll
polls = chunk (0 ∷ 0 ∷ 0 ∷ []) ∷ chunk (2 ∷ 7 ∷ 8 ∷ []) ∷ []

handle_channel_stream-delivers_example :
    push_all new (handle_channel_stream polls).to_handler ≡ (ok (7 ∷ 8 ∷ []) ∷ [], new)
unfolding poll_stream frame_message to_be_bytes
handle_channel_stream-delivers_example =
    handle_channel_stream-delivers ((7 ∷ 8 ∷ []) ∷ []) polls (omega arith, tt) (refl, (refl, tt))
      refl

abbrev Pairs : Type 0
Pairs = List (List ℕ × List ℕ)

abbrev same_name : List ℕ → List ℕ → Bool
same_name [] [] = true
same_name [] (c ∷ cs) = false
same_name (b ∷ bs) [] = false
same_name (b ∷ bs) (c ∷ cs) = let rest = same_name bs cs in (b == c) && rest

-- The first header of a name, and one more behind the others.
abbrev header_of : List ℕ → Pairs → Option (List ℕ)
header_of k [] = none
header_of k ((j, v) ∷ hs) = let later = header_of k hs in if same_name j k then some v else later

same_name_self : (k : List ℕ) → same_name k k ≡ true
same_name_self [] = refl
same_name_self (b ∷ bs) = ground (arith, same_name_self bs)

header_of-end :
    (k v : List ℕ) (hs : Pairs) → header_of k hs ≡ none → header_of k (hs ++ (k, v) ∷ []) ≡ some v
header_of-end k v [] h = rw (same_name_self k) refl
header_of-end k v ((j, x) ∷ hs) h = elim (Bool-cases (same_name j k)) [
  | inl e ↦ absurd (cc (rw e at h))
  | inr e ↦ rw e (header_of-end k v hs (rw e at h))
]

header_of-other :
    (v : List ℕ) (hs : Pairs)
    → header_of authorization (hs ++ (content_type, v) ∷ []) ≡ header_of authorization hs
header_of-other v [] = refl
header_of-other v ((j, x) ∷ hs) = rw (header_of-other v hs) refl

abbrev ehttp : Ehttp
ehttp = record {
  Headers = Pairs;
  new_headers = λ hs. hs;
  insert = λ k v hs. hs ++ (k, v) ∷ [];
  get = header_of;
  of_post = [];
  of_get = [];
  status_text = λ n. "503";
}

keeps : KeepsHeaders ehttp
keeps = record {
  inserted = header_of-end;
  content_type_only = header_of-other;
  listed = λ k v. rw (same_name_self k) refl;
  post_plain = refl;
  get_plain = refl;
}

abbrev visible : Http
visible = record { HeaderValue = List ℕ; to_str = some }

abbrev tickets : TicketManager tokens
tickets = Ticket.new tokens (9 ∷ []) 60

abbrev token : List ℕ
token = 9 ∷ 1000 ∷ 8 ∷ []

validated : validate tickets token 990 ≡ ok 8
unfolding validate Ticket.new
validated = refl

abbrev unavailable : Response
unavailable = record { is_ok = false; status = 503; text = none; bytes = [] }

abbrev no_hash : Option String
no_hash = none

abbrev parse_hash : List ℕ → Result (List ℕ) String
parse_hash bytes = ok bytes

-- An event is its first byte.
abbrev parse_event : List ℕ → Result ℕ String
parse_event [] = err "EOF while parsing"
parse_event (b ∷ bs) = ok b

abbrev lobby_client : LobbyClient
lobby_client = record {
  inner = on_websocket (record { frames = []; connected = true });
  state = connected;
  transport = web_socket;
}

-- WebTransport fails, and the WebSocket connects.
abbrev transports : Transports
transports = record {
  WebTransportConnection = ℕ;
  WebSocketConnection = ℕ;
  connect_webtransport = λ url hash validate. err (connection timeout);
  connect_websocket = λ url. ok 1;
  is_webtransport_supported = true;
}

abbrev by_default : ConnectionConfig
by_default = record { transport = auto; cert_hash = none; validate_certs = false }

abbrev fallback : RoomConnection transports
fallback = record { inner = Connection.on_websocket 1; room_id = 5; transport = web_socket }

connects : connect transports [] token 5 by_default ≡ ok fallback
unfolding connect Connection.connect_auto Connection.connect_webtransport
    Connection.connect_websocket
connects = refl
