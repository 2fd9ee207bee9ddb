-- ===== src/Ws/Requests.antt =====
-- server/src/ws.rs: what a request for a connection to a room answers and changes.
use multiplayer_kit.Base.{
  ℕ, ◌≡◌, ◌⊎◌, inl, inr, refl, none, some, List, [], ◌∷◌, ◌++◌, true, false, ok, err, ℕ_discrete,
  arith, Result-cases, Bool-cases, if◌then◌else◌,
}
use multiplayer_kit.Base.Map.{insert, get-insert, get-insert_self}
use multiplayer_kit.Protocol.{UserContext, RoomConfig, RoomId, room_updated}
use multiplayer_kit.Lobby.{notify_room_updated}
use multiplayer_kit.Room.{Tokio, RoomEntry, admits, open_entry}
use multiplayer_kit.Room.Sessions.{holder, holder-open_entry}
use multiplayer_kit.Ticket.{Jwt, validate}
use multiplayer_kit.Manager.{room_info}
use multiplayer_kit.Manager.Invariant.{IsSound}
use multiplayer_kit.Manager.Isolation.{room, SameElsewhere}
use multiplayer_kit.Manager.Opening.{
  opened_of, channel_of, NoSeat, NoPlace, open_channel_shut, open_channel_leaves,
  open_channel_seats, get_room_info_found, open_channel_refuses, open_channel_seats_or_refuses,
}
use multiplayer_kit.Ws.{
  WsState, Connecting, Connected, error_unauthorized, error_not_found, handshake_failed, new,
  room_ws,
}

module _ {T : UserContext} {C : RoomConfig} {R : Tokio} {J : Jwt T} where
  -- There is no such room, or it does not admit the user.
  abbrev pub IsShut : WsState C R J → RoomId → T.User → Type 0
  IsShut s id user = NoPlace s.room_manager id user

  -- The handler of the room is gone: the user is left with a channel of the room, and the other rooms are
  -- as they were.
  abbrev pub IsLeft : WsState C R J → RoomId → T.User → Connecting R → Connected C R J → Type 0
  IsLeft s id user w k =
      (e : RoomEntry T C R) × (e' : RoomEntry T C R) × (w.sent ≡ false)
      × (room s.room_manager id ≡ some e)
      × (admits e (T.id user) ≡ true)
      × (room k.state.room_manager id ≡ some e')
      × (holder e' e.next_channel_id ≡ some (T.id user))
      × SameElsewhere s.room_manager id k.state.room_manager

  -- The request is refused: neither the lobby nor a handler hears of it, and unless the handler is gone,
  -- the whole state is as it was.
  abbrev pub IsRefused : WsState C R J → RoomId → T.User → Connecting R → Connected C R J → Type 0
  IsRefused s id user w k =
      (k.answer ≡ err (error_not_found "Room not found or closed"))
      × (k.to_handler ≡ none)
      × (k.state.lobby ≡ s.lobby)
      × ((IsShut s id user × (k.state ≡ s)) ⊎ IsLeft s id user w k)

  -- The user holds a new channel, the handler of the room gets its other end, the other rooms are as they
  -- were, the lobby hears of it, and the actor starts if actix can upgrade the connection.
  abbrev pub IsSeated : WsState C R J → RoomId → T.User → Connecting R → Connected C R J → Type 0
  IsSeated s id user w k =
      (e : RoomEntry T C R) × (e' : RoomEntry T C R) × (room s.room_manager id ≡ some e)
      × (admits e (T.id user) ≡ true)
      × (room k.state.room_manager id ≡ some e')
      × (holder e' e.next_channel_id ≡ some (T.id user))
      × SameElsewhere s.room_manager id k.state.room_manager
      × (k.to_handler ≡ some (user, channel_of e w.pipes))
      × (k.state.lobby ≡ s.lobby ++ (room_updated (room_info id e') ∷ []))
      × (k.answer ≡ (
          if w.upgrades
          then ok (new id (T.id user) (opened_of e w.pipes) w.now)
          else err handshake_failed))

  -- What the request gives where the user is admitted and the handler of the room is running.
  pub room_ws_seats :
      (s : WsState C R J) (id : RoomId) (ticket : List ℕ) (w : Connecting R) (user : T.User)
      (e : RoomEntry T C R)
      → validate s.ticket_manager ticket w.unix ≡ ok user
      → room s.room_manager id ≡ some e
      → admits e (T.id user) ≡ true
      → w.sent ≡ true
      → let m = s.room_manager in
        let e' = (open_entry e user w.now w.pipes true).entry in
        room_ws s id ticket w ≡ record {
          state = record s {
            room_manager = record m { rooms = insert ℕ_discrete id e' m.rooms };
            lobby = s.lobby ++ (room_updated (room_info id e') ∷ []);
          };
          to_handler = some (user, channel_of e w.pipes);
          answer =
              if w.upgrades
              then ok (new id (T.id user) (opened_of e w.pipes) w.now)
              else err handshake_failed;
        }
  unfolding room_ws notify_room_updated
  room_ws_seats s id ticket w user e h r a there =
      let m = s.room_manager in
      let e' = (open_entry e user w.now w.pipes true).entry in
      let seats = open_channel_seats m id e user w.now w.pipes r a in
      let info =
        get_room_info_found (record m { rooms = insert ℕ_discrete id e' m.rooms }) id e'
          (get-insert_self ℕ_discrete id e' m.rooms) in
      rw (h, there, seats, info) refl

  room_ws-IsSeated :
      (s : WsState C R J) (id : RoomId) (ticket : List ℕ) (w : Connecting R) (user : T.User)
      (e : RoomEntry T C R)
      → IsSound s.room_manager
      → validate s.ticket_manager ticket w.unix ≡ ok user
      → room s.room_manager id ≡ some e
      → admits e (T.id user) ≡ true
      → w.sent ≡ true
      → IsSeated s id user w (room_ws s id ticket w)
  room_ws-IsSeated s id ticket w user e v h r a there =
      let e' = (open_entry e user w.now w.pipes true).entry in
      let held =
        holder-open_entry e user w.now w.pipes true e.next_channel_id (v.well_formed id e r) in
      let found = get-insert_self ℕ_discrete id e' s.room_manager.rooms in
      rw (room_ws_seats s id ticket w user e h r a there) (
        e,
        e',
        r,
        a,
        found,
        ground (arith, held, a),
        λ j n. ground (arith, get-insert ℕ_discrete id j e' s.room_manager.rooms),
        refl,
        refl,
        refl,
      )

  shut_unchanged :
      (s : WsState C R J) (id : RoomId) (ticket : List ℕ) (w : Connecting R) (user : T.User)
      → validate s.ticket_manager ticket w.unix ≡ ok user
      → IsShut s id user
      → (room_ws s id ticket w).state ≡ s
  unfolding room_ws
  shut_unchanged s id ticket w user h why =
      rw (h, open_channel_shut s.room_manager id user w.now w.pipes w.sent why) refl

  room_ws-IsLeft :
      (s : WsState C R J) (id : RoomId) (ticket : List ℕ) (w : Connecting R) (user : T.User)
      (e : RoomEntry T C R)
      → IsSound s.room_manager
      → validate s.ticket_manager ticket w.unix ≡ ok user
      → room s.room_manager id ≡ some e
      → admits e (T.id user) ≡ true
      → w.sent ≡ false
      → IsLeft s id user w (room_ws s id ticket w)
  unfolding room_ws
  room_ws-IsLeft s id ticket w user e v h r a gone =
      let m = s.room_manager in
      let e' = (open_entry e user w.now w.pipes false).entry in
      let held =
        holder-open_entry e user w.now w.pipes false e.next_channel_id (v.well_formed id e r) in
      let after = open_channel_leaves m id e user w.now w.pipes r a in
      (
        e,
        e',
        gone,
        r,
        a,
        rw (h, gone, after) (get-insert_self ℕ_discrete id e' m.rooms),
        ground (arith, held, a),
        λ j n. rw (h, gone, after) (ground (arith, get-insert ℕ_discrete id j e' m.rooms)),
      )

  room_ws-leaves :
      (s : WsState C R J) (id : RoomId) (ticket : List ℕ) (w : Connecting R) (user : T.User)
      → IsSound s.room_manager
      → validate s.ticket_manager ticket w.unix ≡ ok user
      → NoSeat s.room_manager id user w.sent
      → let k = room_ws s id ticket w in (IsShut s id user × (k.state ≡ s)) ⊎ IsLeft s id user w k
  room_ws-leaves s id ticket w user v h (inl missing) =
      inl (inl missing, shut_unchanged s id ticket w user h (inl missing))
  room_ws-leaves s id ticket w user v h (inr (e, r, inl full)) =
      inl (inr (e, r, full), shut_unchanged s id ticket w user h (inr (e, r, full)))
  room_ws-leaves s id ticket w user v h (inr (e, r, inr gone)) =
      elim (Bool-cases (admits e (T.id user))) [
        | inl a ↦ inr (room_ws-IsLeft s id ticket w user e v h r a gone)
        | inr full ↦ inl (inr (e, r, full), shut_unchanged s id ticket w user h (inr (e, r, full)))
      ]

  pub room_ws-IsRefused :
      (s : WsState C R J) (id : RoomId) (ticket : List ℕ) (w : Connecting R) (user : T.User)
      → IsSound s.room_manager
      → validate s.ticket_manager ticket w.unix ≡ ok user
      → NoSeat s.room_manager id user w.sent
      → IsRefused s id user w (room_ws s id ticket w)
  unfolding room_ws
  room_ws-IsRefused s id ticket w user v h why =
      let (handler, answer) =
        open_channel_refuses s.room_manager id user w.now w.pipes w.sent why in
      (
        rw (h, answer) refl,
        rw (h, answer) handler,
        rw (h, answer) refl,
        room_ws-leaves s id ticket w user v h why,
      )

  -- A request without a valid ticket changes nothing. With one, in a sound manager: if there is no such room, or it
  -- does not admit the user, the answer is 404, and nothing changes. If the handler of the room is gone, the answer is
  -- 404, the user is left holding a channel, and the other rooms and the lobby are as before. Else the user holds a new
  -- channel, the handler is sent its other end, the other rooms are as before, and the lobby is told: also if the
  -- handshake then fails, so that no actor is there to close the channel.
  pub room_ws_lem :
      (s : WsState C R J) (id : RoomId) (ticket : List ℕ) (w : Connecting R)
      → IsSound s.room_manager
      → let k = room_ws s id ticket w in
        ((x : J.Error) × (validate s.ticket_manager ticket w.unix ≡ err x)
          × (k ≡ record {
            state = s;
            to_handler = none;
            answer = err (error_unauthorized "Invalid ticket");
          }))
        ⊎ ((user : T.User) × (validate s.ticket_manager ticket w.unix ≡ ok user)
            × (IsRefused s id user w k ⊎ IsSeated s id user w k))
  unfolding room_ws
  room_ws_lem s id ticket w v = elim (Result-cases (validate s.ticket_manager ticket w.unix)) [
    | inr (x, h) ↦ inl (x, h, rw h refl)
    | inl (user, h) ↦ elim (open_channel_seats_or_refuses s.room_manager id user w.sent) [
      | inl (e, r, a, there) ↦
          inr (user, h, inr (room_ws-IsSeated s id ticket w user e v h r a there))
      | inr why ↦ inr (user, h, inl (room_ws-IsRefused s id ticket w user v h why))
    ]
  ]
