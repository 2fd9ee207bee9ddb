-- ===== src/Server.antt =====
-- server/src/builder.rs, and the configuration and the server of server/src/lib.rs. Paths, hosts and
-- addresses are bytes. The handlers and the context of the game are values of opaque types.
pub mod Cors
pub mod Tls
pub mod Startup
pub mod Serving
mod Tests
use Prim.Native.String.{String}
use multiplayer_kit.Base.{ℕ, Option, none, some, List, [], ◌∷◌, Bool, Result, ok, ok_or, ◌>>=◌}
use multiplayer_kit.Protocol.{RoomConfig, RoomId}

pub record ServerConfig : Type 0 where
  pub http_addr : List ℕ
  pub quic_addr : List ℕ
  pub room_max_lifetime_secs : ℕ
  pub room_first_connect_timeout_secs : ℕ
  pub room_empty_timeout_secs : ℕ
  pub tls_cert : Option (List ℕ)
  pub tls_key : Option (List ℕ)
  pub http_tls_cert : Option (List ℕ)
  pub http_tls_key : Option (List ℕ)
  pub self_signed_hosts : List (List ℕ)
  pub ticket_expiry_secs : ℕ
  pub cors_origins : List (List ℕ)

abbrev pub any_address : List ℕ
any_address = b'0' ∷ b'.' ∷ b'0' ∷ b'.' ∷ b'0' ∷ b'.' ∷ b'0' ∷ b':' ∷ b'8' ∷ b'0' ∷ b'8' ∷ b'0' ∷ []

abbrev pub localhost : List ℕ
localhost = b'l' ∷ b'o' ∷ b'c' ∷ b'a' ∷ b'l' ∷ b'h' ∷ b'o' ∷ b's' ∷ b't' ∷ []

abbrev pub loopback : List ℕ
loopback = b'1' ∷ b'2' ∷ b'7' ∷ b'.' ∷ b'0' ∷ b'.' ∷ b'0' ∷ b'.' ∷ b'1' ∷ []

-- The inherent `ServerConfig::default`, which is private to the crate and which `new` calls.
unfoldable pub default : ServerConfig
default = record {
  http_addr = any_address;
  quic_addr = any_address;
  room_max_lifetime_secs = 3600;
  room_first_connect_timeout_secs = 300;
  room_empty_timeout_secs = 300;
  tls_cert = none;
  tls_key = none;
  http_tls_cert = none;
  http_tls_key = none;
  self_signed_hosts = localhost ∷ loopback ∷ [];
  ticket_expiry_secs = 3600;
  cors_origins = [];
}

-- The types of the game: its handlers and its context.
pub record Game (C : RoomConfig) : Type 1 where
  pub AuthHandler : Type 0
  pub RoomHandlerFactory : Type 0
  pub Context : Type 0

abbrev pub QuickplayFilter : {C : RoomConfig} → Game C → Type 0
QuickplayFilter {C} G = RoomId → C.Config → G.Context → Bool

pub record ServerBuilder {C : RoomConfig} (G : Game C) : Type 0 where
  pub config : ServerConfig
  pub auth_handler : Option G.AuthHandler
  pub handler_factory : Option G.RoomHandlerFactory
  pub jwt_secret : Option (List ℕ)
  pub context : Option G.Context
  pub quickplay_filter : Option (QuickplayFilter G)

pub record Server {C : RoomConfig} (G : Game C) : Type 0 where
  pub config : ServerConfig
  pub auth_handler : G.AuthHandler
  pub handler_factory : G.RoomHandlerFactory
  pub jwt_secret : List ℕ
  pub context : G.Context
  pub quickplay_filter : Option (QuickplayFilter G)

module _ {C : RoomConfig} {G : Game C} where
  unfoldable pub new : ServerBuilder G
  new = record {
    config = default;
    auth_handler = none;
    handler_factory = none;
    jwt_secret = none;
    context = none;
    quickplay_filter = none;
  }

  unfoldable pub context : ServerBuilder G → G.Context → ServerBuilder G
  context b ctx = record b { context = some ctx }

  unfoldable pub config : ServerBuilder G → ServerConfig → ServerBuilder G
  config b c = record b { config = c }

  unfoldable pub http_addr : ServerBuilder G → List ℕ → ServerBuilder G
  http_addr b addr = record b { config = record b.config { http_addr = addr } }

  unfoldable pub quic_addr : ServerBuilder G → List ℕ → ServerBuilder G
  quic_addr b addr = record b { config = record b.config { quic_addr = addr } }

  unfoldable pub jwt_secret : ServerBuilder G → List ℕ → ServerBuilder G
  jwt_secret b secret = record b { jwt_secret = some secret }

  unfoldable pub tls_cert : ServerBuilder G → List ℕ → ServerBuilder G
  tls_cert b path = record b { config = record b.config { tls_cert = some path } }

  unfoldable pub tls_key : ServerBuilder G → List ℕ → ServerBuilder G
  tls_key b path = record b { config = record b.config { tls_key = some path } }

  unfoldable pub http_tls_cert : ServerBuilder G → List ℕ → ServerBuilder G
  http_tls_cert b path = record b { config = record b.config { http_tls_cert = some path } }

  unfoldable pub http_tls_key : ServerBuilder G → List ℕ → ServerBuilder G
  http_tls_key b path = record b { config = record b.config { http_tls_key = some path } }

  unfoldable pub self_signed_hosts : ServerBuilder G → List (List ℕ) → ServerBuilder G
  self_signed_hosts b hosts = record b { config = record b.config { self_signed_hosts = hosts } }

  unfoldable pub ticket_expiry_secs : ServerBuilder G → ℕ → ServerBuilder G
  ticket_expiry_secs b secs = record b { config = record b.config { ticket_expiry_secs = secs } }

  unfoldable pub cors_origins : ServerBuilder G → List (List ℕ) → ServerBuilder G
  cors_origins b origins = record b { config = record b.config { cors_origins = origins } }

  unfoldable pub auth_handler : ServerBuilder G → G.AuthHandler → ServerBuilder G
  auth_handler b handler = record b { auth_handler = some handler }

  unfoldable pub quickplay_filter : ServerBuilder G → QuickplayFilter G → ServerBuilder G
  quickplay_filter b filter = record b { quickplay_filter = some filter }

  unfoldable pub room_handler : ServerBuilder G → G.RoomHandlerFactory → ServerBuilder G
  room_handler b factory = record b { handler_factory = some factory }

  unfoldable pub build : ServerBuilder G → Result (Server G) String
  build b = do
    auth_handler ← ok_or b.auth_handler "auth_handler is required"
    handler_factory ← ok_or b.handler_factory "room_handler is required"
    jwt_secret ← ok_or b.jwt_secret "jwt_secret is required"
    context ← ok_or b.context "context is required"
    ok (record {
      config = b.config;
      auth_handler = auth_handler;
      handler_factory = handler_factory;
      jwt_secret = jwt_secret;
      context = context;
      quickplay_filter = b.quickplay_filter;
    })
