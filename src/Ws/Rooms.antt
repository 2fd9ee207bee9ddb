-- ===== src/Ws/Rooms.antt =====
-- server/src/ws.rs: how a connection to a room ends.
use multiplayer_kit.Base.{
  append_assoc, subst, ℕ, ◌+◌, ◌%◌, ◌^◌, ◌≡◌, inl, inr, refl, none, some, List, [], ◌∷◌, ◌++◌, true,
  ok, ℕ_discrete, arith, Bool-cases,
}
use multiplayer_kit.Base.Map.{insert, get-insert, get-insert_self}
use multiplayer_kit.Protocol.{UserContext, RoomConfig, RoomId, ChannelId, RoomInfo, room_updated}
use multiplayer_kit.Lobby.{notify_room_updated}
use multiplayer_kit.Room.{Tokio, Instant, RoomEntry, admits, open_entry, close_entry}
use multiplayer_kit.Room.Sessions.{close_entry-open_entry}
use multiplayer_kit.Ticket.{Jwt, validate}
use multiplayer_kit.Manager.{room_info}
use multiplayer_kit.Manager.Invariant.{IsSound}
use multiplayer_kit.Manager.Isolation.{room, SameElsewhere}
use multiplayer_kit.Manager.Opening.{
  opened_of, NoSeat, open_entry_sent, close_channel_found, get_room_info_found,
}
use multiplayer_kit.Ws.{WsState, RoomWsActor, Connecting, new, room_ws, stopped}
use multiplayer_kit.Ws.Requests.{room_ws_seats, room_ws-IsRefused}

module _ {T : UserContext} {C : RoomConfig} {R : Tokio} where
  -- The entry of a room after a channel was opened and closed.
  abbrev pub restored : RoomEntry T C R → Instant → RoomEntry T C R
  restored e later = record e {
    next_channel_id = (e.next_channel_id + 1) % 2 ^ 64;
    shared = record e.shared { last_activity = later };
  }

module _ {T : UserContext} {C : RoomConfig} {R : Tokio} {J : Jwt T} where
  -- Stopping an actor that has a channel in a room that is there.
  stopped_found :
      (s : WsState C R J) (act : RoomWsActor T R) (e : RoomEntry T C R) (c : ChannelId)
      (later : Instant)
      → act.channel_id ≡ some c
      → room s.room_manager act.room_id ≡ some e
      → let closed = close_entry e c later in
        stopped s act later ≡ (
          record s {
            room_manager = record s.room_manager {
              rooms = insert ℕ_discrete act.room_id closed s.room_manager.rooms;
            };
            lobby = s.lobby ++ (room_updated (room_info act.room_id closed) ∷ []);
          },
          record act { channel_id = none },
        )
  unfolding stopped notify_room_updated
  stopped_found s act e c later h r =
      let m = s.room_manager in
      let closed = close_entry e c later in
      let closes = close_channel_found m act.room_id e c later r in
      let info =
        get_room_info_found (record m { rooms = insert ℕ_discrete act.room_id closed m.rooms })
          act.room_id closed (get-insert_self ℕ_discrete act.room_id closed m.rooms) in
      rw (h, closes, info) refl

  stopped_idle :
      (s : WsState C R J) (act : RoomWsActor T R) (again : Instant)
      → stopped s (record act { channel_id = none }) again ≡ (s, record act { channel_id = none })
  unfolding stopped
  stopped_idle s act again = refl

  -- What a connection leaves behind.
  abbrev pub IsRestored :
      WsState C R J → RoomId → RoomEntry T C R → Instant → WsState C R J × RoomWsActor T R → Type 0
  IsRestored s id e later r =
      (room r.0.room_manager id ≡ some (restored e later))
      × SameElsewhere s.room_manager id r.0.room_manager
      × ((during : RoomInfo C.Value) × (r.0.lobby
            ≡ s.lobby ++ (room_updated during ∷ room_updated (room_info id e) ∷ [])))
      × ((again : Instant) → stopped r.0 r.1 again ≡ r)

  stopped_seats :
      (s : WsState C R J) (id : RoomId) (ticket : List ℕ) (w : Connecting R) (user : T.User)
      (e : RoomEntry T C R) (later : Instant)
      → IsSound s.room_manager
      → validate s.ticket_manager ticket w.unix ≡ ok user
      → room s.room_manager id ≡ some e
      → admits e (T.id user) ≡ true
      → w.sent ≡ true
      → IsRestored s id e later (
          stopped
            (room_ws s id ticket w).state
            (new id (T.id user) (opened_of e w.pipes) w.now)
            later)
  unfolding new room_info
  stopped_seats s id ticket w user e later v h r a there =
      let m = s.room_manager in
      let e' = (open_entry e user w.now w.pipes true).entry in
      let rooms = insert ℕ_discrete id e' m.rooms in
      let found = get-insert_self ℕ_discrete id e' m.rooms in
      let during : WsState C R J = record s {
        room_manager = record m { rooms = rooms };
        lobby = s.lobby ++ (room_updated (room_info id e') ∷ []);
      } in
      let back =
        close_entry-open_entry e user w.now later w.pipes (opened_of e w.pipes)
          (v.well_formed id e r) (open_entry_sent e user w.now w.pipes a).1 in
      let act = new id (T.id user) (opened_of e w.pipes) w.now in
      let closes = stopped_found during act e' e.next_channel_id later refl found in
      rw (room_ws_seats s id ticket w user e h r a there) (
        rw closes (
          rw back (
            get-insert_self ℕ_discrete id (restored e later) rooms,
            λ j n. ground (
              arith,
              get-insert ℕ_discrete id j (restored e later) rooms,
              get-insert ℕ_discrete id j e' m.rooms,
            ),
            (room_info id e', append_assoc s.lobby _ _),
            λ again. stopped_idle _ act again,
          )))

  -- In a sound manager, a connection that is made and stopped leaves the room as it was, but for the next channel id
  -- and the time stamp; the other rooms are not changed; the lobby is told twice, the second time what it
  -- would have been told before; and stopping again changes nothing.
  pub stopped-room_ws :
      (s : WsState C R J) (id : RoomId) (ticket : List ℕ) (w : Connecting R) (user : T.User)
      (e : RoomEntry T C R) (act : RoomWsActor T R) (later : Instant)
      → IsSound s.room_manager
      → validate s.ticket_manager ticket w.unix ≡ ok user
      → room s.room_manager id ≡ some e
      → (room_ws s id ticket w).answer ≡ ok act
      → IsRestored s id e later (stopped (room_ws s id ticket w).state act later)
  stopped-room_ws s id ticket w user e act later v h r a =
      let refuses : NoSeat s.room_manager id user w.sent → ⊥ =
        λ why. ground (arith, a, (room_ws-IsRefused s id ticket w user v h why).0) in
      elim (Bool-cases (admits e (T.id user))) [
        | inr full ↦ absurd (refuses (inr (e, r, inl full)))
        | inl ad ↦ elim (Bool-cases w.sent) [
          | inr gone ↦ absurd (refuses (inr (e, r, inr gone)))
          | inl there ↦
              let answers = rw (room_ws_seats s id ticket w user e h r ad there) at a in
              let same : new id (T.id user) (opened_of e w.pipes) w.now ≡ act =
                ground (arith, answers) in
              subst (λ x. IsRestored s id e later (stopped (room_ws s id ticket w).state x later))
                same (stopped_seats s id ticket w user e later v h r ad there)
        ]
      ]
