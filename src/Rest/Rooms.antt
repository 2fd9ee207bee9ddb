-- ===== src/Rest/Rooms.antt =====
-- server/src/rest.rs: what creating a room and quickplay do for an authenticated user.
use Prim.Native.String.{String}
use Prim.Native.String
use multiplayer_kit.Base.{
  ℕ, ◌+◌, ◌%◌, ◌^◌, ◌<◌, ◌≡◌, ◌⊎◌, Bool, none, some, List, [], ◌∷◌, ◌++◌, ok, err, Result-cases,
  inl, inr, arith, refl, ℕ_discrete, true,
}
use multiplayer_kit.Base.Map.{get, insert, get-insert}
use multiplayer_kit.Protocol.{UserContext, RoomConfig, RoomId, room_created}
use multiplayer_kit.Lobby.{notify_room_created}
use multiplayer_kit.Room.{Tokio, RoomEntry}
use multiplayer_kit.Ticket.{Jwt}
use multiplayer_kit.Manager.{RoomManager, new_entry, room_info, get_room_info}
use multiplayer_kit.Manager
use multiplayer_kit.Manager.Isolation.{room}
use multiplayer_kit.Manager.Invariant.{IsSound}
use multiplayer_kit.Rest.{
  Http, HttpRequest, HttpResponse, AppState, Handled, Surroundings, authenticate, create_with,
  created_with, created, create_room, quickplay_filter, bad_request,
}

module _ {T : UserContext} {C : RoomConfig} {R : Tokio} where
  create_room-ok :
      (m : RoomManager T C R) (user : T.User) (config : C.Config) (w : Surroundings R)
      → C.validate config ≡ ok tt
      → Manager.create_room m user config w.now w.unix w.pipes ≡ record {
        manager = record m {
          rooms =
              insert ℕ_discrete m.next_room_id (new_entry user config w.now w.unix w.pipes) m.rooms;
          next_room_id = (m.next_room_id + 1) % 2 ^ 64;
        };
        answer = ok m.next_room_id;
        started = some (
          record {
            id = m.next_room_id;
            channel_rx = w.pipes.channel_rx;
            shutdown_rx = w.pipes.shutdown_rx;
          },
          config,
        );
      }
  unfolding Manager.create_room
  create_room-ok m user config w h = rw (h, Manager.create_room) refl

  create_room-err :
      (m : RoomManager T C R) (user : T.User) (config : C.Config) (w : Surroundings R) (e : String)
      → C.validate config ≡ err e
      → Manager.create_room m user config w.now w.unix w.pipes
        ≡ record { manager = m; answer = err e; started = none }
  unfolding Manager.create_room
  create_room-err m user config w e h = rw (h, Manager.create_room) refl

  get_room_info-some :
      (m : RoomManager T C R) (id : RoomId) (e : RoomEntry T C R)
      → get ℕ_discrete id m.rooms ≡ some e
      → get_room_info m id ≡ some (room_info id e)
  unfolding get_room_info
  get_room_info-some m id e h = rw (h, get_room_info) refl

  -- A room to play in: its limit on users, if it has one, is not reached, its configuration matches
  -- the filter of the request, and the filter of the server, if there is one, lets it through.
  abbrev pub IsFit : RoomManager T C R → C.Value → RoomId → RoomEntry T C R → Type 0
  IsFit m filter id e =
      ((C.max_players e.config ≡ none)
        ⊎ ((max : ℕ) × (C.max_players e.config ≡ some max) × (e.shared.user_count < max)))
      × (C.matches_quickplay e.config filter ≡ true)
      × ((m.quickplay_filter ≡ none)
          ⊎ ((test : RoomId → C.Config → Bool) × (m.quickplay_filter ≡ some test)
              × (test id e.config ≡ true)))

module _ {T : UserContext} {C : RoomConfig} {R : Tokio} {J : Jwt T} where
  -- The room is there, the answer names it, and the lobby is told of it with its information.
  abbrev pub Opens :
      AppState C R J
      → T.User
      → C.Config
      → Surroundings R
      → (RoomId → HttpResponse C.Value)
      → Handled C R J
      → Type 0
  Opens s user config w done k =
      let id = s.room_manager.next_room_id in
      let e = new_entry user config w.now w.unix w.pipes in
      (C.validate config ≡ ok tt)
      × (k.response ≡ done id)
      × (room s.room_manager id ≡ none)
      × (room k.state.room_manager id ≡ some e)
      × (k.state.lobby ≡ s.lobby ++ (room_created (room_info id e) ∷ []))

  -- Nothing has changed, and the answer is the error of the validation.
  abbrev pub Fails :
      AppState C R J → C.Config → (String → HttpResponse C.Value) → Handled C R J → Type 0
  Fails s config failed k =
      (e : String) × (C.validate config ≡ err e) × (k.response ≡ failed e) × (k.state ≡ s)

  -- In a sound manager, a valid configuration opens a new room and announces it, and an invalid one
  -- changes nothing.
  create_with_lem :
      (s : AppState C R J) (user : T.User) (config : C.Config) (w : Surroundings R)
      (done : RoomId → HttpResponse C.Value) (failed : String → HttpResponse C.Value)
      → IsSound s.room_manager
      → let k = create_with s user config w done failed in
        Opens s user config w done k ⊎ Fails s config failed k
  unfolding create_with notify_room_created
  create_with_lem s user config w done failed v =
      let m = s.room_manager in
      let e : RoomEntry T C R = new_entry user config w.now w.unix w.pipes in
      let found : get ℕ_discrete m.next_room_id (insert ℕ_discrete m.next_room_id e m.rooms)
          ≡ some e =
        ground (arith, get-insert ℕ_discrete m.next_room_id m.next_room_id e m.rooms) in
      let added : RoomManager T C R = record m {
        rooms = insert ℕ_discrete m.next_room_id e m.rooms;
        next_room_id = (m.next_room_id + 1) % 2 ^ 64;
      } in
      elim (Result-cases (C.validate config)) [
        | inl (_, good) ↦
            let k = create_room-ok m user config w good in
            inl (
              good,
              rw k refl,
              v.fresh m.next_room_id (omega arith),
              rw k found,
              rw k (rw (get_room_info-some added m.next_room_id e found, created_with) refl),
            )
        | inr (x, bad) ↦
            let k = create_room-err m user config w x bad in inr (x, bad, rw k refl, rw k refl)
      ]

  -- In a sound manager, an authenticated request to create a room whose body parses opens a new room,
  -- answers its id and announces it, or its configuration is invalid, an error is answered, and
  -- nothing changes.
  pub create_room-Opens :
      {H : Http} (s : AppState C R J) (req : HttpRequest H) (w : Surroundings R) (user : T.User)
      (b : ℕ) (bs : List ℕ) (config : C.Config)
      → IsSound s.room_manager
      → authenticate s.ticket_manager req w.unix ≡ ok user
      → req.body ≡ b ∷ bs
      → C.from_slice (b ∷ bs) ≡ ok config
      → let k = create_room s req w in
        Opens s user config w created k
        ⊎ Fails s config (λ e. bad_request (String.◌++◌ "Room creation failed: " e)) k
  unfolding create_room
  create_room-Opens s req w user b bs config v h body parsed =
      rw (h, create_room) (rw (body, parsed) (create_with_lem s user config w _ _ v))
