-- ===== src/Server/Startup.antt =====
-- server/src/lib.rs: `run` up to where both servers are served: the state that the handlers of the three
-- transports share, and what can fail. The lifecycle task and the QUIC endpoint are not modelled.
use Prim.Native.String.{String}
use multiplayer_kit.Base.{ℕ, ◌*◌, ◌^◌, Option, none, some, [], Bool, Result, ok, ◌>>=◌}
use multiplayer_kit.Protocol.{UserContext, RoomConfig, RoomId}
use multiplayer_kit.Room.{Tokio}
use multiplayer_kit.Ticket.{Jwt}
use multiplayer_kit.Ticket
use multiplayer_kit.Manager.{RoomSettings}
use multiplayer_kit.Manager
use multiplayer_kit.Rest.{AppState}
use multiplayer_kit.Ws.{WsState}
use multiplayer_kit.Quic.{QuicState}
use multiplayer_kit.Server.{Game, Server, ServerConfig}
use multiplayer_kit.Server.Cors.{Cors, allowed_origins, cors_of}
use multiplayer_kit.Server.Tls.{
  ServerError, Identities, Binding, load_identity, cert_hash_b64, bind_http,
}

-- The three states share their managers and the lobby.
pub record Started {T : UserContext} {C : RoomConfig} (G : Game C) (R : Tokio) (J : Jwt T)
    (I : Identities) (B : Binding) : Type 0 where
  pub app_state : AppState C R J
  pub ws_state : WsState C R J
  pub quic_state : QuicState C R J
  pub auth_handler : G.AuthHandler
  pub handler_factory : G.RoomHandlerFactory
  pub context : G.Context
  pub cert_hash : Option String
  pub identity : I.Identity
  pub cors : Cors
  pub http_server : B.HttpServer

-- `Duration::from_secs`, in nanoseconds.
abbrev pub from_secs : ℕ → ℕ
from_secs secs = secs * 10 ^ 9

unfoldable pub settings_of : ServerConfig → RoomSettings
settings_of c = record {
  max_lifetime = from_secs c.room_max_lifetime_secs;
  first_connect_timeout = from_secs c.room_first_connect_timeout_secs;
  empty_timeout = from_secs c.room_empty_timeout_secs;
}

-- The filter at the server's context.
abbrev pub filter_of :
    {Config Context : Type 0}
    → Option (RoomId → Config → Context → Bool)
    → Context
    → Option (RoomId → Config → Bool)
filter_of none ctx = none
filter_of (some filter) ctx = some (λ id config. filter id config ctx)

module _ {T : UserContext} {C : RoomConfig} {G : Game C} {R : Tokio} {J : Jwt T} (I : Identities)
    (B : Binding) where
  unfoldable pub started_with : Server G → I.Identity → B.HttpServer → Started G R J I B
  started_with s identity http_server =
      let room_manager =
        Manager.new (settings_of s.config) (filter_of s.quickplay_filter s.context) in
      let ticket_manager = Ticket.new J s.jwt_secret s.config.ticket_expiry_secs in
      record {
        app_state = record {
          room_manager = room_manager;
          ticket_manager = ticket_manager;
          lobby = [];
        };
        ws_state = record {
          room_manager = room_manager;
          ticket_manager = ticket_manager;
          lobby = [];
        };
        quic_state = record {
          room_manager = room_manager;
          ticket_manager = ticket_manager;
          lobby = [];
        };
        auth_handler = s.auth_handler;
        handler_factory = s.handler_factory;
        context = s.context;
        cert_hash = cert_hash_b64 I identity;
        identity = identity;
        cors = cors_of (allowed_origins s.config);
        http_server = http_server;
      }

  unfoldable pub run : Server G → Result (Started G R J I B) (ServerError B.Io J.Error)
  unfolding started_with
  run s = do
    identity ← load_identity I s.config
    http_server ← bind_http B s.config
    ok (started_with s identity http_server)
