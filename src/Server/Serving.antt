-- ===== src/Server/Serving.antt =====
-- server/src/lib.rs: what a server that has started is.
use multiplayer_kit.Base.{ℕ, ◌+◌, ◌^◌, ◌≤◌, ◌<◌, ◌≡◌, ◌↔◌, ok, List, refl, sym, subst, >>=-ok}
use mathlib.Core.List.{Memᴰ}
use multiplayer_kit.Protocol.{UserContext, RoomConfig}
use multiplayer_kit.Room.{Tokio}
use multiplayer_kit.Ticket
use multiplayer_kit.Ticket.{Jwt, Verifies, issue, validate, validate-issue}
use multiplayer_kit.Manager.Invariant.{IsSound, new-IsSound}
use multiplayer_kit.Server.{Game, Server}
use multiplayer_kit.Server.Cors.{permissive, star, cors_permissive}
use multiplayer_kit.Server.Tls.{
  Identities, Binding, IsPaired, load_identity, bind_http, load_identity-IsPaired,
  bind_http-IsPaired,
}
use multiplayer_kit.Server.Startup.{Started, started_with, run}

module _ {T : UserContext} {C : RoomConfig} {G : Game C} {R : Tokio} {J : Jwt T} (I : Identities)
    (B : Binding) where
  run_cases {κ} :
      (P : Started G R J I B → Type κ) (s : Server G) (st : Started G R J I B)
      → run I B s ≡ ok st
      → ((identity : I.Identity) (http_server : B.HttpServer)
          → load_identity {Io = B.Io} {Jwt = J.Error} I s.config ≡ ok identity
          → bind_http B {Jwt = J.Error} s.config ≡ ok http_server
          → P (started_with I B s identity http_server))
      → P st
  unfolding run
  run_cases P s st h each =
      let (identity, e, k) = >>=-ok (load_identity I s.config) _ st h in
      let (http_server, f, l) = >>=-ok (bind_http B s.config) _ st k in
      subst P (cc) (each identity http_server e f)

  -- A server that starts has, for QUIC and for HTTP, either both a certificate and a key configured
  -- or neither; its room manager is sound; and it allows every origin just if `*` is listed.
  pub run_lem :
      (s : Server G) (st : Started G R J I B)
      → run I B s ≡ ok st
      → IsPaired s.config.tls_cert s.config.tls_key
        × IsPaired s.config.http_tls_cert s.config.http_tls_key
        × IsSound st.app_state.room_manager
        × ((st.cors ≡ permissive) ↔ Memᴰ star s.config.cors_origins)
  unfolding started_with
  run_lem s st h =
      run_cases
        (λ x.
          IsPaired s.config.tls_cert s.config.tls_key
          × IsPaired s.config.http_tls_cert s.config.http_tls_key
          × IsSound x.app_state.room_manager
          × ((x.cors ≡ permissive) ↔ Memᴰ star s.config.cors_origins))
        s st h
        (λ identity http_server e f. (
          load_identity-IsPaired I s.config identity e,
          bind_http-IsPaired B s.config http_server f,
          new-IsSound _ _,
          cors_permissive s.config,
        ))

  run_tickets :
      (s : Server G) (st : Started G R J I B)
      → run I B s ≡ ok st
      → let m = Ticket.new J s.jwt_secret s.config.ticket_expiry_secs in
        (st.app_state.ticket_manager ≡ m)
        × (st.ws_state.ticket_manager ≡ m)
        × (st.quic_state.ticket_manager ≡ m)
  unfolding started_with
  run_tickets s st h =
      run_cases
        (λ x.
          let m = Ticket.new J s.jwt_secret s.config.ticket_expiry_secs in
          (x.app_state.ticket_manager ≡ m)
          × (x.ws_state.ticket_manager ≡ m)
          × (x.quic_state.ticket_manager ≡ m))
        s st h (λ identity http_server e f. (refl, refl, refl))

  -- Two servers with the same secret: a ticket that the REST handlers of the one issue is valid for
  -- the WebSocket and the QUIC handlers of the other until its lifetime and a minute are over.
  pub run-validate :
      (s t : Server G) (ss ts : Started G R J I B) (user : T.User) (token : List ℕ) (now later : ℕ)
      → Verifies J
      → run I B s ≡ ok ss
      → run I B t ≡ ok ts
      → s.jwt_secret ≡ t.jwt_secret
      → now + s.config.ticket_expiry_secs < 2 ^ 64
      → issue ss.app_state.ticket_manager user now ≡ ok token
      → later ≤ now + s.config.ticket_expiry_secs + 60
      → (validate ts.ws_state.ticket_manager token later ≡ ok user)
        × (validate ts.quic_state.ticket_manager token later ≡ ok user)
  unfolding started_with
  run-validate s t ss ts user token now later v hs ht same small issued soon =
      let (of_rest, p, q) = run_tickets s ss hs in
      let (r, of_ws, of_quic) = run_tickets t ts ht in
      let good =
        (validate-issue J s.jwt_secret token s.config.ticket_expiry_secs t.config.ticket_expiry_secs
            now later user v small (rw of_rest at issued)).0
          soon in
      (rw of_ws (rw (sym same) good), rw of_quic (rw (sym same) good))
