-- ===== src/Ws/LobbyActor.antt =====
-- server/src/ws.rs: the actor of a WebSocket connection to the lobby, and the handler that starts it.
-- serde_json is a parameter: the bytes of an event, if it can be serialized.
use multiplayer_kit.Base.{
  ℕ, ◌≡◌, refl, Option, none, some, List, [], ◌∷◌, ◌++◌, map, Bool, true, false, ltb, if◌then◌else◌,
  Result, ok, err, drop-append_self, arith, Result-cases, inl, inr, sym, ap, ◌∙◌,
}
use multiplayer_kit.Protocol.{UserContext, RoomConfig, LobbyEvent, snapshot}
use multiplayer_kit.Lobby.{Lobby, Received, event, lagged, closed, subscribe, received_by}
use multiplayer_kit.Room.{Tokio, Instant, duration_since}
use multiplayer_kit.Ticket.{Jwt, validate}
use multiplayer_kit.Manager.{RoomManager, get_all_rooms}
use multiplayer_kit.Ws.{
  WsState, WsMessage, ping, pong, text, binary, close, other, Effect, run_interval, sends_ping,
  sends_pong, sends_binary, stop, listens_lobby, WsError, error_unauthorized, handshake_failed,
  heartbeat_interval, client_timeout,
}

pub record LobbyWsActor (T : UserContext) : Type 0 where
  pub user_id : T.UserId
  pub lobby_rx : Option ℕ
  pub last_heartbeat : Instant

abbrev listen_lobby : {R : Tokio} → Option ℕ → List (Effect R)
listen_lobby none = []
listen_lobby (some rx) = listens_lobby rx ∷ []

abbrev pub binary_of : {R : Tokio} → Option (List ℕ) → List (Effect R)
binary_of none = []
binary_of (some bytes) = sends_binary bytes ∷ []

module _ {T : UserContext} where
  unfoldable pub new_lobby : T.UserId → ℕ → Instant → LobbyWsActor T
  new_lobby user_id rx now = record { user_id = user_id; lobby_rx = some rx; last_heartbeat = now }

module _ {T : UserContext} {R : Tokio} where
  unfoldable pub lobby_tick : LobbyWsActor T → Instant → List (Effect R)
  lobby_tick act now =
      if ltb client_timeout (duration_since now act.last_heartbeat)
      then stop ∷ []
      else sends_ping ∷ []

  unfoldable pub start_lobby_listener : LobbyWsActor T → LobbyWsActor T × List (Effect R)
  start_lobby_listener act = (record act { lobby_rx = none }, listen_lobby act.lobby_rx)

  unfoldable pub handle_lobby_message : LobbyWsActor T → List ℕ → List (Effect R)
  handle_lobby_message act bytes = sends_binary bytes ∷ []

  -- `StreamHandler::handle`.
  unfoldable pub handle_lobby :
      LobbyWsActor T → WsMessage → Instant → LobbyWsActor T × List (Effect R)
  handle_lobby act (ping msg) now = (record act { last_heartbeat = now }, sends_pong msg ∷ [])
  handle_lobby act (pong msg) now = (record act { last_heartbeat = now }, [])
  handle_lobby act (text payload) now = (act, [])
  handle_lobby act (binary payload) now = (act, [])
  handle_lobby act close now = (act, stop ∷ [])
  handle_lobby act other now = (act, [])

module _ {V : Type 0} (to_vec : LobbyEvent V → Option (List ℕ)) where
  -- The rest of the loop behind an event: `none` if `try_send` has refused its message.
  abbrev forward_one : Option (List ℕ) → Bool → List (List ℕ) → List (List ℕ)
  forward_one none accepted later = later
  forward_one (some bytes) true later = bytes ∷ later
  forward_one (some bytes) false later = []

  -- The loop of `start_lobby_listener`, on what `recv` answers and whether `try_send` accepts a message.
  unfoldable pub forward_events : List (Received V × Bool) → List (List ℕ)
  forward_events [] = []
  forward_events ((event e, accepted) ∷ rest) =
      forward_one (to_vec e) accepted (forward_events rest)
  forward_events ((closed, accepted) ∷ rest) = []
  forward_events ((lagged, accepted) ∷ rest) = forward_events rest

module _ {T : UserContext} {C : RoomConfig} {R : Tokio} where
  unfoldable pub lobby_started :
      (LobbyEvent C.Value → Option (List ℕ))
      → RoomManager T C R
      → LobbyWsActor T
      → LobbyWsActor T × List (Effect R)
  unfolding start_lobby_listener
  lobby_started to_vec m act =
      let (act', listening) : LobbyWsActor T × List (Effect R) = start_lobby_listener act in
      (
        act',
        run_interval heartbeat_interval
            ∷ (binary_of (to_vec (snapshot (get_all_rooms m))) ++ listening),
      )

module _ {T : UserContext} {C : RoomConfig} {R : Tokio} {J : Jwt T} where
  lobby_ws_as :
      {E : Type 0}
      → WsState C R J
      → Instant
      → Bool
      → Result T.User E
      → Result (LobbyWsActor T) WsError
  lobby_ws_as s now upgrades (err e) = err (error_unauthorized "Invalid ticket")
  lobby_ws_as s now upgrades (ok user) =
      if upgrades then ok (new_lobby (T.id user) (subscribe s.lobby) now) else err handshake_failed

  -- `upgrades` is whether the request is one that actix can upgrade.
  unfoldable pub lobby_ws :
      WsState C R J → List ℕ → Instant → ℕ → Bool → Result (LobbyWsActor T) WsError
  unfolding lobby_ws_as
  lobby_ws s ticket now unix upgrades =
      lobby_ws_as s now upgrades (validate s.ticket_manager ticket unix)

module _ {V : Type 0} (to_vec : LobbyEvent V → Option (List ℕ)) where
  abbrev encoded_then : Option (List ℕ) → List (List ℕ) → List (List ℕ)
  encoded_then none later = later
  encoded_then (some bytes) later = bytes ∷ later

  -- The events that can be serialized, as bytes.
  abbrev pub encoded : Lobby V → List (List ℕ)
  encoded [] = []
  encoded (e ∷ es) = encoded_then (to_vec e) (encoded es)

  forward_events-encoded :
      (es : Lobby V) → forward_events to_vec (map (λ e. (event e, true)) es) ≡ encoded es
  unfolding forward_events
  forward_events-encoded [] = refl
  forward_events-encoded (e ∷ es) = ground (arith, forward_events-encoded es)

module _ {T : UserContext} {C : RoomConfig} {R : Tokio} {J : Jwt T} where
  -- A connection to the lobby is accepted only with a valid ticket, as its user,
  -- and only if the handshake succeeds. It is sent the rooms at its
  -- start; then, if its receiver keeps up, each event that follows the request and can be
  -- serialized, in order and once: also those between the request and the start.
  pub lobby_ws_lem :
      (to_vec : LobbyEvent C.Value → Option (List ℕ)) (s : WsState C R J) (m : RoomManager T C R)
      (ticket : List ℕ) (now : Instant) (unix : ℕ) (upgrades : Bool) (act : LobbyWsActor T)
      → lobby_ws s ticket now unix upgrades ≡ ok act
      → (user : T.User) × (rx : ℕ) × (validate s.ticket_manager ticket unix ≡ ok user)
        × (upgrades ≡ true)
        × (act.user_id ≡ T.id user)
        × ((lobby_started to_vec m act).1
            ≡ run_interval heartbeat_interval
              ∷ (binary_of (to_vec (snapshot (get_all_rooms m))) ++ (listens_lobby rx ∷ [])))
        × ((later : Lobby C.Value)
            → forward_events to_vec (map (λ e. (event e, true)) (received_by rx (s.lobby ++ later)))
              ≡ encoded to_vec later)
  unfolding lobby_ws lobby_started new_lobby received_by subscribe
  lobby_ws_lem to_vec s m ticket now unix upgrades act h =
      elim (Result-cases (validate s.ticket_manager ticket unix)) [
        | inr (x, bad) ↦ absurd (ground (arith, rw bad at h))
        | inl (user, good) ↦
            let accepted = rw good at h in
            let same : new_lobby (T.id user) (subscribe s.lobby) now ≡ act =
              ground (arith, accepted) in
            (
              user,
              subscribe s.lobby,
              good,
              ground (arith, accepted),
              sym (ap (λ a. a.user_id) same),
              rw (sym (ap (λ a. a.lobby_rx) same)) refl,
              λ later.
                  ap (λ es. forward_events to_vec (map (λ e. (event e, true)) es))
                    (drop-append_self s.lobby later)
                  ∙ forward_events-encoded to_vec later,
            )
      ]
