-- ===== src/ClientErrors.antt =====
-- client/src/error.rs: the errors of the client and the state of its connection.
use Prim.Native.String.{String}
use Prim.Native.String
use multiplayer_kit.Base.{Option, none, some, Bool, true, false, is_some, ◌≡◌, refl, ◌&&◌}

pub data ConnectionError : Type 0 where
  invalid_url : String → ConnectionError
  dns_resolution : String → ConnectionError
  tls_handshake : String → ConnectionError
  refused : String → ConnectionError
  timeout : ConnectionError
  server_rejected : String → ConnectionError
  invalid_ticket : ConnectionError
  room_not_found : ConnectionError
  room_full : ConnectionError
  transport : String → ConnectionError

pub data SendError : Type 0 where
  not_connected : SendError
  connection_closed : SendError
  stream : String → SendError
  message_too_large : SendError

pub data ReceiveError : Type 0 where
  not_connected : ReceiveError
  connection_closed : ReceiveError
  stream : String → ReceiveError
  malformed_message : String → ReceiveError

pub data DisconnectReason : Type 0 where
  server_closed : DisconnectReason
  network_error : String → DisconnectReason
  kicked : String → DisconnectReason
  ticket_expired : DisconnectReason
  room_deleted : DisconnectReason
  idle_timeout : DisconnectReason
  client_closed : DisconnectReason
  unknown : String → DisconnectReason

pub data ClientError : Type 0 where
  connection : ConnectionError → ClientError
  send : SendError → ClientError
  receive : ReceiveError → ClientError
  disconnected_by : DisconnectReason → ClientError
  serialization : String → ClientError

pub data ConnectionState : Type 0 where
  disconnected : ConnectionState
  connecting : ConnectionState
  connected : ConnectionState
  lost : DisconnectReason → ConnectionState

unfoldable pub is_connected : ConnectionState → Bool
is_connected disconnected = false
is_connected connecting = false
is_connected connected = true
is_connected (lost reason) = false

unfoldable pub is_lost : ConnectionState → Bool
is_lost disconnected = false
is_lost connecting = false
is_lost connected = false
is_lost (lost reason) = true

unfoldable pub disconnect_reason : ConnectionState → Option DisconnectReason
disconnect_reason disconnected = none
disconnect_reason connecting = none
disconnect_reason connected = none
disconnect_reason (lost reason) = some reason

-- `Display`.
unfoldable pub reason_text : DisconnectReason → String
reason_text server_closed = "Connection closed by server"
reason_text (network_error e) = String.◌++◌ "Network error: " e
reason_text (kicked e) = String.◌++◌ "Kicked from room: " e
reason_text ticket_expired = "Ticket expired"
reason_text room_deleted = "Room was deleted"
reason_text idle_timeout = "Idle timeout"
reason_text client_closed = "Client closed connection"
reason_text (unknown e) = String.◌++◌ "Unknown: " e

-- A lost connection has a reason, and no other state has one; it is not connected.
is_lost-disconnect_reason :
    (s : ConnectionState)
    → (is_lost s ≡ is_some (disconnect_reason s)) × (is_lost s && is_connected s ≡ false)
unfolding is_lost is_connected disconnect_reason
is_lost-disconnect_reason disconnected = (refl, refl)
is_lost-disconnect_reason connecting = (refl, refl)
is_lost-disconnect_reason connected = (refl, refl)
is_lost-disconnect_reason (lost reason) = (refl, refl)
