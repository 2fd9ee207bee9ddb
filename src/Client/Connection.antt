-- ===== src/Client/Connection.antt =====
-- client/src/room/connection.rs: which transport a connection to a room uses. What the transports answer for
-- an address is a parameter.
use Prim.Native.String.{String}
use multiplayer_kit.Base.{
  ℕ, suc, zero, ◌-◌, Option, none, List, [], ◌∷◌, ◌++◌, Bool, true, length, is_some, if◌then◌else◌,
  Result, ok, err,
}
use multiplayer_kit.Protocol.{RoomId}
use multiplayer_kit.ClientErrors.{ClientError}
use multiplayer_kit.Client.{Transport, auto, web_transport, web_socket}
use multiplayer_kit.Rest.{strip_prefix}
use multiplayer_kit.Quic.Paths.{room_url}

pub record ConnectionConfig : Type 0 where
  pub transport : Transport
  pub cert_hash : Option String
  pub validate_certs : Bool

unfoldable pub production : ConnectionConfig
production = record { transport = web_transport; cert_hash = none; validate_certs = true }

-- `WebTransportConnection::connect` and `WebSocketConnection::connect`, and whether the platform has WebTransport.
pub record Transports : Type 1 where
  pub WebTransportConnection : Type 0
  pub WebSocketConnection : Type 0
  pub connect_webtransport :
      List ℕ → Option String → Bool → Result WebTransportConnection ClientError
  pub connect_websocket : List ℕ → Result WebSocketConnection ClientError
  pub is_webtransport_supported : Bool

pub data ConnectionInner (W : Transports) : Type 0 where
  on_webtransport : W.WebTransportConnection → ConnectionInner W
  on_websocket : W.WebSocketConnection → ConnectionInner W

pub record RoomConnection (W : Transports) : Type 0 where
  pub inner : ConnectionInner W
  pub room_id : RoomId
  pub transport : Transport

-- `str::replace`: behind a match, the bytes of the match are skipped.
replace_in : List ℕ → List ℕ → ℕ → List ℕ → List ℕ
replace_in from to skip [] = []
replace_in from to (suc skip) (b ∷ bs) = replace_in from to skip bs
replace_in from to zero (b ∷ bs) =
    let rest = replace_in from to 0 bs in
    let behind = replace_in from to (length from - 1) bs in
    if is_some (strip_prefix from (b ∷ bs)) then to ++ behind else b ∷ rest

unfoldable pub replace : List ℕ → List ℕ → List ℕ → List ℕ
unfolding replace_in
replace from to s = replace_in from to 0 s

-- "https://", "wss://", "http://" and "ws://".
abbrev pub https : List ℕ
https = b'h' ∷ b't' ∷ b't' ∷ b'p' ∷ b's' ∷ b':' ∷ b'/' ∷ b'/' ∷ []

abbrev pub wss : List ℕ
wss = b'w' ∷ b's' ∷ b's' ∷ b':' ∷ b'/' ∷ b'/' ∷ []

abbrev pub http : List ℕ
http = b'h' ∷ b't' ∷ b't' ∷ b'p' ∷ b':' ∷ b'/' ∷ b'/' ∷ []

abbrev pub ws : List ℕ
ws = b'w' ∷ b's' ∷ b':' ∷ b'/' ∷ b'/' ∷ []

unfoldable pub websocket_url : List ℕ → List ℕ
websocket_url url = replace http ws (replace https wss url)

-- "/ws", before the path of the room.
abbrev pub ws_path : List ℕ
ws_path = b'/' ∷ b'w' ∷ b's' ∷ []

module _ (W : Transports) where
  on_stream :
      RoomId → Result W.WebTransportConnection ClientError → Result (RoomConnection W) ClientError
  on_stream id (ok c) =
      ok (record { inner = on_webtransport c; room_id = id; transport = web_transport })
  on_stream id (err e) = err e

  on_socket :
      RoomId → Result W.WebSocketConnection ClientError → Result (RoomConnection W) ClientError
  on_socket id (ok c) = ok (record { inner = on_websocket c; room_id = id; transport = web_socket })
  on_socket id (err e) = err e

  unfoldable pub connect_webtransport :
      List ℕ → List ℕ → RoomId → Option String → Bool → Result (RoomConnection W) ClientError
  unfolding on_stream
  connect_webtransport url ticket id cert_hash validate_certs =
      on_stream id (W.connect_webtransport (url ++ room_url id ticket) cert_hash validate_certs)

  unfoldable pub connect_websocket :
      List ℕ → List ℕ → RoomId → Result (RoomConnection W) ClientError
  unfolding on_socket
  connect_websocket url ticket id =
      on_socket id (W.connect_websocket (websocket_url url ++ (ws_path ++ room_url id ticket)))

  -- The fallback where the first attempt fails.
  or_else :
      Result (RoomConnection W) ClientError
      → Result (RoomConnection W) ClientError
      → Result (RoomConnection W) ClientError
  or_else (ok c) later = ok c
  or_else (err e) later = later

  unfoldable pub connect_auto :
      List ℕ → List ℕ → RoomId → Option String → Bool → Result (RoomConnection W) ClientError
  unfolding or_else
  connect_auto url ticket id cert_hash validate_certs =
      if W.is_webtransport_supported
      then or_else (connect_webtransport url ticket id cert_hash validate_certs)
          (connect_websocket url ticket id)
      else connect_websocket url ticket id

  connect_by :
      Transport
      → List ℕ
      → List ℕ
      → RoomId
      → ConnectionConfig
      → Result (RoomConnection W) ClientError
  connect_by auto url ticket id config =
      connect_auto url ticket id config.cert_hash config.validate_certs
  connect_by web_transport url ticket id config =
      connect_webtransport url ticket id config.cert_hash config.validate_certs
  connect_by web_socket url ticket id config = connect_websocket url ticket id

  unfoldable pub connect :
      List ℕ → List ℕ → RoomId → ConnectionConfig → Result (RoomConnection W) ClientError
  unfolding connect_by
  connect url ticket id config = connect_by config.transport url ticket id config
