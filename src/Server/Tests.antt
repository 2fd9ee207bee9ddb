-- ===== src/Server/Tests.antt =====
-- A server of the examples with the default configuration.
use Prim.Native.String.{String}
use mathlib.Core.List.{Memᴰ}
use multiplayer_kit.Base.{ℕ, ◌≡◌, ◌≢◌, ◌↔◌, none, some, List, [], ◌∷◌, ok, err, refl, arith, All}
use multiplayer_kit.Ticket.{issue, validate}
use multiplayer_kit.Ticket
use multiplayer_kit.Manager.Invariant.{IsSound}
use multiplayer_kit.Examples.{game, handles, tokens}
use multiplayer_kit.Examples.Tokens.{tokens-Verifies}
use multiplayer_kit.Server.{
  Game, Server, ServerBuilder, default, any_address, localhost, loopback, new, build, auth_handler,
  room_handler, jwt_secret, context,
}
use multiplayer_kit.Server.Cors.{permissive, star}
use multiplayer_kit.Server.Tls.{Identities, Binding, config, IsPaired, load_identity, bind_http}
use multiplayer_kit.Server.Startup.{Started, run, started_with}
use multiplayer_kit.Server.Serving.{run_lem, run-validate}

abbrev parts : Game game
parts = record { AuthHandler = ℕ; RoomHandlerFactory = ℕ; Context = ℕ }

abbrev builder : ServerBuilder parts
builder = jwt_secret (context (room_handler (auth_handler new 1) 2) 3) (9 ∷ [])

abbrev server : Server parts
server = record {
  config = default;
  auth_handler = 1;
  handler_factory = 2;
  jwt_secret = 9 ∷ [];
  context = 3;
  quickplay_filter = none;
}

build-builder : build builder ≡ ok server
unfolding build new auth_handler room_handler context jwt_secret
build-builder = refl

build_no_secret :
    build {G = parts} (auth_handler (context (room_handler new 2) 3) 1)
    ≡ err "jwt_secret is required"
unfolding build new auth_handler room_handler context
build_no_secret = refl

-- An identity is the list of the hosts, and each address can be bound.
abbrev identities : Identities
identities = record {
  Identity = List (List ℕ);
  Certificate = List ℕ;
  load_pemfiles = λ cert key. err "no such file";
  self_signed = λ hosts. ok hosts;
  certificate_chain = λ hosts. hosts;
  hash = λ host. host;
  base64 = λ bytes. "hash";
}

abbrev binding : Binding
binding = record {
  Io = String;
  File = List ℕ;
  CertificateDer = ℕ;
  PrivateKey = ℕ;
  RustlsConfig = ℕ;
  HttpServer = List ℕ;
  open_file = λ path. err "no such file";
  certs = λ f. [];
  private_key = λ f. ok none;
  with_single_cert = λ certs key. ok key;
  bind = λ addr. ok addr;
  bind_rustls = λ addr c. ok addr;
}

abbrev started : Started {C = game} parts handles tokens identities binding
unfolding started_with
started = started_with identities binding server (localhost ∷ loopback ∷ []) any_address

run-server : run identities binding server ≡ ok started
unfolding run default load_identity bind_http
run-server = refl

run_no_key :
    run {R = handles} {J = tokens} identities binding
      (record server { config = record default { tls_cert = some [] } })
    ≡ err (config "tls_cert specified without tls_key")
unfolding run default load_identity bind_http
run_no_key = refl

run_lem_example :
    IsPaired server.config.tls_cert server.config.tls_key
    × IsPaired server.config.http_tls_cert server.config.http_tls_key
    × IsSound started.app_state.room_manager
    × ((started.cors ≡ permissive) ↔ Memᴰ star server.config.cors_origins)
run_lem_example = run_lem identities binding server started run-server

run-validate_example :
    (validate started.ws_state.ticket_manager (9 ∷ 4600 ∷ 8 ∷ []) 4000 ≡ ok 8)
    × (validate started.quic_state.ticket_manager (9 ∷ 4600 ∷ 8 ∷ []) 4000 ≡ ok 8)
unfolding default issue started_with Ticket.new
run-validate_example =
    run-validate identities binding server server started started 8 (9 ∷ 4600 ∷ 8 ∷ []) 1000 4000
      tokens-Verifies run-server run-server refl (omega arith) refl (omega arith)

port_digits : All {A = ℕ} (λ b. b ≢ b':') (b'8' ∷ b'0' ∷ b'8' ∷ b'0' ∷ [])
port_digits = (omega arith, (omega arith, (omega arith, (omega arith, tt))))
