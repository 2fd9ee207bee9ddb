-- ===== src/Client.antt =====
-- client/src: the transport that a client chooses, the streams of its connections, the lobby client and the API client.
pub mod Streams
pub mod Delivery
pub mod Api
pub mod LobbyClient
pub mod Connection
pub mod Fallback
mod Tests
pub mod Access
use Prim.Native.String.{String}
use multiplayer_kit.Base.{ℕ}

-- client/src/lib.rs.
pub data Transport : Type 0 where
  auto : Transport
  web_transport : Transport
  web_socket : Transport

unfoldable pub transport_name : Transport → String
transport_name auto = "auto"
transport_name web_transport = "webtransport"
transport_name web_socket = "websocket"
