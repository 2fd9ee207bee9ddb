-- ===== src/Rest.antt =====
-- server/src/rest.rs: the handlers of the REST requests, as functions of the server's state and of a
-- request. actix-web is a parameter: a request is what its headers and its body are. A handler is one
-- step, also one that awaits.
pub mod Access
pub mod Rooms
mod Tests
use Prim.Native.String.{String}
use Prim.Native.String
use multiplayer_kit.Base.{
  ℕ, ◌≡◌, Option, none, some, List, [], ◌∷◌, Bool, true, false, Result, ok, err, ◌==◌,
  if◌then◌else◌,
}
use multiplayer_kit.Protocol.{
  UserContext, RoomConfig, RoomId, RoomInfo, TicketClaims, QuickplayResponse,
}
use multiplayer_kit.Lobby.{Lobby, notify_room_created, notify_room_deleted}
use multiplayer_kit.Room.{Tokio, Instant, Room, RoomShared}
use multiplayer_kit.Ticket.{Jwt, TicketManager, issue, validate}
use multiplayer_kit.Manager.{
  RoomManager, RoomPipes, Creation, Deletion, get_room_info, get_all_rooms, find_quickplay_room,
}
use multiplayer_kit.Manager

-- `HeaderValue::to_str`, which answers text for visible ASCII.
pub record Http : Type 1 where
  pub HeaderValue : Type 0
  pub to_str : HeaderValue → Option (List ℕ)

-- `authorization` is the answer of `headers().get("Authorization")`.
pub record HttpRequest (H : Http) : Type 0 where
  pub headers : List (List ℕ × H.HeaderValue)
  pub authorization : Option H.HeaderValue
  pub body : List ℕ

pub record AuthRequest : Type 0 where
  pub headers : List (List ℕ × List ℕ)
  pub body : Option (List ℕ)

-- The status of an answer with what its JSON holds.
pub data HttpResponse (V : Type 0) : Type 0 where
  ticket : List ℕ → HttpResponse V
  created : RoomId → HttpResponse V
  deleted : HttpResponse V
  rooms : List (RoomInfo V) → HttpResponse V
  quickplayed : QuickplayResponse → HttpResponse V
  cert_hash : String → HttpResponse V
  bad_request : String → HttpResponse V
  unauthorized : String → HttpResponse V
  forbidden : String → HttpResponse V
  internal_server_error : String → HttpResponse V
  service_unavailable : String → HttpResponse V

pub record AppState {T : UserContext} (C : RoomConfig) (R : Tokio) (J : Jwt T) : Type 0 where
  pub room_manager : RoomManager T C R
  pub ticket_manager : TicketManager J
  pub lobby : Lobby C.Value

-- The state and the answer, and the handler of the game that was started.
pub record Handled {T : UserContext} (C : RoomConfig) (R : Tokio) (J : Jwt T) : Type 0 where
  pub state : AppState C R J
  pub response : HttpResponse C.Value
  pub started : Option (Room R × C.Config)

-- What a request reads of its surroundings: the clocks, and the pipes of a room that it creates.
pub record Surroundings (R : Tokio) : Type 0 where
  pub now : Instant
  pub unix : ℕ
  pub pipes : RoomPipes R

-- `str::strip_prefix` of the standard library.
unfoldable pub strip_prefix : List ℕ → List ℕ → Option (List ℕ)
strip_prefix [] s = some s
strip_prefix (c ∷ cs) [] = none
strip_prefix (c ∷ cs) (b ∷ bs) = let rest = strip_prefix cs bs in if c == b then rest else none

abbrev pub bearer : List ℕ
bearer = b'B' ∷ b'e' ∷ b'a' ∷ b'r' ∷ b'e' ∷ b'r' ∷ b' ' ∷ []

abbrev pub and_then : {A B : Type 0} → Option A → (A → Option B) → Option B
and_then none f = none
and_then (some a) f = f a

abbrev body_of : List ℕ → Option (List ℕ)
body_of [] = none
body_of (b ∷ bs) = some (b ∷ bs)

module _ {H : Http} where
  unfoldable pub extract_ticket : HttpRequest H → Option (List ℕ)
  extract_ticket req = and_then req.authorization (λ v. and_then (H.to_str v) (strip_prefix bearer))

text_header : List ℕ → Option (List ℕ) → List (List ℕ × List ℕ) → List (List ℕ × List ℕ)
text_header k none rest = rest
text_header k (some v) rest = (k, v) ∷ rest

text_headers : (H : Http) → List (List ℕ × H.HeaderValue) → List (List ℕ × List ℕ)
unfolding text_header
text_headers H [] = []
text_headers H ((k, v) ∷ hs) = text_header k (H.to_str v) (text_headers H hs)

unfoldable pub auth_request : {H : Http} → HttpRequest H → AuthRequest
unfolding text_headers
auth_request {H} req = record { headers = text_headers H req.headers; body = body_of req.body }

named : {U E : Type 0} → Result U E → Result U String
named (ok user) = ok user
named (err e) = err "Invalid ticket"

announce : {V : Type 0} → Lobby V → Option (RoomInfo V) → Lobby V
announce l none = l
announce l (some info) = notify_room_created l info

module _ {T : UserContext} {J : Jwt T} where
  authenticate_with : TicketManager J → ℕ → Option (List ℕ) → Result T.User String
  unfolding named
  authenticate_with m unix none = err "Missing Authorization header"
  authenticate_with m unix (some token) = named (validate m token unix)

  -- The ticket check with which the handlers begin.
  unfoldable pub authenticate :
      {H : Http} → TicketManager J → HttpRequest H → ℕ → Result T.User String
  unfolding authenticate_with
  authenticate m req unix = authenticate_with m unix (extract_ticket req)

  -- `auth_handler` is the game's, applied to its context.
  unfoldable pub issue_ticket :
      {H : Http} {V : Type 0}
      → TicketManager J
      → (AuthRequest → Result T.User String)
      → HttpRequest H
      → ℕ
      → HttpResponse V
  issue_ticket m auth_handler req unix = elim (auth_handler (auth_request req)) [
    | err reason ↦ unauthorized reason
    | ok user ↦ elim (issue m user unix) [
      | ok t ↦ ticket t
      | err e ↦ internal_server_error (J.to_string e)
    ]
  ]

unfoldable pub get_cert_hash : {V : Type 0} → Option String → HttpResponse V
get_cert_hash none = service_unavailable "Certificate hash not yet available"
get_cert_hash (some h) = cert_hash h

module _ {T : UserContext} {C : RoomConfig} {R : Tokio} {J : Jwt T} where
  abbrev pub refused : AppState C R J → HttpResponse C.Value → Handled C R J
  refused s r = record { state = s; response = r; started = none }

  created_with :
      AppState C R J
      → Creation T C R
      → (RoomId → HttpResponse C.Value)
      → (String → HttpResponse C.Value)
      → Result RoomId String
      → Handled C R J
  unfolding announce
  created_with s k done failed (err e) = record {
    state = record s { room_manager = k.manager };
    response = failed e;
    started = k.started;
  }
  created_with s k done failed (ok id) = record {
    state = record s {
      room_manager = k.manager;
      lobby = announce s.lobby (get_room_info k.manager id);
    };
    response = done id;
    started = k.started;
  }

  -- `create_room` of the manager and the notice to the lobby, with the answers of either branch.
  unfoldable pub create_with :
      AppState C R J
      → T.User
      → C.Config
      → Surroundings R
      → (RoomId → HttpResponse C.Value)
      → (String → HttpResponse C.Value)
      → Handled C R J
  unfolding created_with
  create_with s user config w done failed =
      let k = Manager.create_room s.room_manager user config w.now w.unix w.pipes in
      created_with s k done failed k.answer

  create_parsed : AppState C R J → T.User → Surroundings R → Result C.Config String → Handled C R J
  create_parsed s user w (err e) = refused s (bad_request (String.◌++◌ "Invalid room config: " e))
  create_parsed s user w (ok config) =
      create_with s user config w created
        (λ e. bad_request (String.◌++◌ "Room creation failed: " e))

  create_from : AppState C R J → T.User → Surroundings R → List ℕ → Handled C R J
  unfolding create_parsed
  create_from s user w [] = refused s (bad_request "Room config required in request body")
  create_from s user w (b ∷ bs) = create_parsed s user w (C.from_slice (b ∷ bs))

  create_as : AppState C R J → Surroundings R → List ℕ → Result T.User String → Handled C R J
  unfolding create_from
  create_as s w body (err e) = refused s (unauthorized e)
  create_as s w body (ok user) = create_from s user w body

  unfoldable pub create_room :
      {H : Http} → AppState C R J → HttpRequest H → Surroundings R → Handled C R J
  unfolding create_as
  create_room s req w = create_as s w req.body (authenticate s.ticket_manager req w.unix)

  deleted_with : AppState C R J → RoomId → Deletion T C R → Result (Unit {0}) String → Handled C R J
  deleted_with s id k (ok _) = record {
    state = record s { room_manager = k.manager; lobby = notify_room_deleted s.lobby id };
    response = deleted;
    started = none;
  }
  deleted_with s id k (err e) = record {
    state = record s { room_manager = k.manager };
    response = forbidden e;
    started = none;
  }

  delete_as : AppState C R J → RoomId → Result T.User String → Handled C R J
  unfolding deleted_with
  delete_as s id (err e) = refused s (unauthorized e)
  delete_as s id (ok user) =
      let k = Manager.delete_room s.room_manager id (T.id user) in deleted_with s id k k.answer

  unfoldable pub delete_room :
      {H : Http} → AppState C R J → HttpRequest H → RoomId → ℕ → Handled C R J
  unfolding delete_as
  delete_room s req id unix = delete_as s id (authenticate s.ticket_manager req unix)

  list_as : AppState C R J → Result T.User String → Handled C R J
  list_as s (err e) = refused s (unauthorized e)
  list_as s (ok user) = refused s (rooms (get_all_rooms s.room_manager))

  unfoldable pub list_rooms : {H : Http} → AppState C R J → HttpRequest H → ℕ → Handled C R J
  unfolding list_as
  list_rooms s req unix = list_as s (authenticate s.ticket_manager req unix)

module _ (C : RoomConfig) where
  value_or_null : Option C.Value → C.Value
  value_or_null none = C.null
  value_or_null (some v) = v

  unfoldable pub quickplay_filter : List ℕ → C.Value
  unfolding value_or_null
  quickplay_filter [] = C.null
  quickplay_filter (b ∷ bs) = value_or_null (C.value_from_slice (b ∷ bs))

module _ {T : UserContext} {C : RoomConfig} {R : Tokio} {J : Jwt T} where
  quickplay_new : AppState C R J → T.User → Surroundings R → Option C.Config → Handled C R J
  quickplay_new s user w none = refused s (bad_request "Quickplay not enabled for this game")
  quickplay_new s user w (some config) =
      create_with s user config w (λ id. quickplayed (record { room_id = id; created = true }))
        (λ e. internal_server_error (String.◌++◌ "Failed to create quickplay room: " e))

  quickplay_found :
      AppState C R J → T.User → Surroundings R → C.Value → Option RoomId → Handled C R J
  unfolding quickplay_new
  quickplay_found s user w filter (some id) =
      refused s (quickplayed (record { room_id = id; created = false }))
  quickplay_found s user w filter none = quickplay_new s user w (C.quickplay_default filter)

  quickplay_as : AppState C R J → Surroundings R → List ℕ → Result T.User String → Handled C R J
  unfolding quickplay_found
  quickplay_as s w body (err e) = refused s (unauthorized e)
  quickplay_as s w body (ok user) =
      let filter = quickplay_filter C body in
      quickplay_found s user w filter (find_quickplay_room s.room_manager filter)

  unfoldable pub quickplay :
      {H : Http} → AppState C R J → HttpRequest H → Surroundings R → Handled C R J
  unfolding quickplay_as
  quickplay s req w = quickplay_as s w req.body (authenticate s.ticket_manager req w.unix)
