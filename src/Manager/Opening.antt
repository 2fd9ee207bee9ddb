-- ===== src/Manager/Opening.antt =====
-- server/src/room.rs: `open_channel`, case by case, for the transports that call it.
use multiplayer_kit.Base.{
  ◌≡◌, ◌⊎◌, inl, inr, refl, none, some, Bool, true, false, arith, Option-cases, Bool-cases,
  ℕ_discrete,
}
use multiplayer_kit.Base.Map.{insert, insert_same}
use multiplayer_kit.Protocol.{UserContext, RoomConfig, RoomId, ChannelId}
use multiplayer_kit.Room.{
  Tokio, Instant, RoomEntry, Pipes, Opened, ServerChannel, admits, open_entry, close_entry,
}
use multiplayer_kit.Manager.{RoomManager, open_channel, close_channel, get_room_info, room_info}
use multiplayer_kit.Manager.Isolation.{room}

module _ {T : UserContext} {C : RoomConfig} {R : Tokio} where
  -- What the transport is answered.
  abbrev pub opened_of : RoomEntry T C R → Pipes R → Opened R
  opened_of e p = record {
    channel_id = e.next_channel_id;
    read_tx = p.read_tx;
    write_rx = p.write_rx;
    close_rx = p.close_rx;
  }

  -- What the handler of the room is sent.
  abbrev pub channel_of : RoomEntry T C R → Pipes R → ServerChannel R
  channel_of e p = record {
    id = e.next_channel_id;
    read_rx = p.read_rx;
    write_tx = p.write_tx;
    close_tx = some p.close_tx;
  }

  pub get_room_info_found :
      (m : RoomManager T C R) (id : RoomId) (e : RoomEntry T C R)
      → room m id ≡ some e
      → get_room_info m id ≡ some (room_info id e)
  unfolding get_room_info
  get_room_info_found m id e h = rw (h, get_room_info) refl

  pub close_channel_found :
      (m : RoomManager T C R) (id : RoomId) (e : RoomEntry T C R) (c : ChannelId) (now : Instant)
      → room m id ≡ some e
      → close_channel m id c now
        ≡ record m { rooms = insert ℕ_discrete id (close_entry e c now) m.rooms }
  unfolding close_channel
  close_channel_found m id e c now h = rw (h, close_channel) refl

  pub open_entry_sent :
      (e : RoomEntry T C R) (user : T.User) (now : Instant) (p : Pipes R)
      → admits e (T.id user) ≡ true
      → ((open_entry e user now p true).to_handler ≡ some (user, channel_of e p))
        × ((open_entry e user now p true).answer ≡ some (opened_of e p))
  unfolding open_entry
  open_entry_sent e user now p a = (rw a refl, rw a refl)

  open_entry_refused :
      (e : RoomEntry T C R) (user : T.User) (now : Instant) (p : Pipes R) (sent : Bool)
      → (admits e (T.id user) ≡ false) ⊎ (sent ≡ false)
      → ((open_entry e user now p sent).to_handler ≡ none)
        × ((open_entry e user now p sent).answer ≡ none)
  unfolding open_entry
  open_entry_refused e user now p sent h = (ground arith, ground arith)

  pub open_channel_seats :
      (m : RoomManager T C R) (id : RoomId) (e : RoomEntry T C R) (user : T.User) (now : Instant)
      (p : Pipes R)
      → room m id ≡ some e
      → admits e (T.id user) ≡ true
      → open_channel m id user now p true ≡ record {
        manager = record m {
          rooms = insert ℕ_discrete id (open_entry e user now p true).entry m.rooms;
        };
        to_handler = some (user, channel_of e p);
        answer = some (opened_of e p);
      }
  unfolding open_channel
  open_channel_seats m id e user now p h a =
      let (handler, answer) = open_entry_sent e user now p a in
      rw (h, open_channel)
        λ i. record {
          manager = record m {
            rooms = insert ℕ_discrete id (open_entry e user now p true).entry m.rooms;
          };
          to_handler = handler i;
          answer = answer i;
        }

  -- There is no such room, or it does not admit the user.
  abbrev pub NoPlace : RoomManager T C R → RoomId → T.User → Type 0
  NoPlace m id user =
      (room m id ≡ none)
      ⊎ ((e : RoomEntry T C R) × (room m id ≡ some e) × (admits e (T.id user) ≡ false))

  pub open_channel_shut :
      (m : RoomManager T C R) (id : RoomId) (user : T.User) (now : Instant) (p : Pipes R)
      (sent : Bool)
      → NoPlace m id user
      → open_channel m id user now p sent ≡ record { manager = m; to_handler = none; answer = none }
  unfolding open_channel open_entry
  open_channel_shut m id user now p sent (inl h) = rw (h, open_channel) refl
  open_channel_shut m id user now p sent (inr (e, h, full)) =
      rw (h, open_channel)
        (rw full λ i. record {
          manager = record m { rooms = insert_same ℕ_discrete id e m.rooms h i };
          to_handler = none;
          answer = none;
        })

  -- The handler of the room is gone.
  pub open_channel_leaves :
      (m : RoomManager T C R) (id : RoomId) (e : RoomEntry T C R) (user : T.User) (now : Instant)
      (p : Pipes R)
      → room m id ≡ some e
      → admits e (T.id user) ≡ true
      → open_channel m id user now p false ≡ record {
        manager = record m {
          rooms = insert ℕ_discrete id (open_entry e user now p false).entry m.rooms;
        };
        to_handler = none;
        answer = none;
      }
  unfolding open_channel
  open_channel_leaves m id e user now p h a =
      let (handler, answer) = open_entry_refused e user now p false (inr refl) in
      rw (h, open_channel)
        λ i. record {
          manager = record m {
            rooms = insert ℕ_discrete id (open_entry e user now p false).entry m.rooms;
          };
          to_handler = handler i;
          answer = answer i;
        }

  -- Why a transport is answered nothing.
  abbrev pub NoSeat : RoomManager T C R → RoomId → T.User → Bool → Type 0
  NoSeat m id user sent =
      (room m id ≡ none)
      ⊎ ((e : RoomEntry T C R) × (room m id ≡ some e)
          × ((admits e (T.id user) ≡ false) ⊎ (sent ≡ false)))

  pub open_channel_refuses :
      (m : RoomManager T C R) (id : RoomId) (user : T.User) (now : Instant) (p : Pipes R)
      (sent : Bool)
      → NoSeat m id user sent
      → ((open_channel m id user now p sent).to_handler ≡ none)
        × ((open_channel m id user now p sent).answer ≡ none)
  unfolding open_channel
  open_channel_refuses m id user now p sent (inl h) = (rw (h, open_channel), rw (h, open_channel))
  open_channel_refuses m id user now p sent (inr (e, h, why)) =
      let (handler, answer) = open_entry_refused e user now p sent why in
      (rw (h, open_channel) handler, rw (h, open_channel) answer)

  pub open_channel_seats_or_refuses :
      (m : RoomManager T C R) (id : RoomId) (user : T.User) (sent : Bool)
      → ((e : RoomEntry T C R) × (room m id ≡ some e)
          × (admits e (T.id user) ≡ true)
          × (sent ≡ true))
        ⊎ NoSeat m id user sent
  open_channel_seats_or_refuses m id user sent = elim (Option-cases (room m id)) [
    | inl h ↦ inr (inl h)
    | inr (e, h) ↦ elim (Bool-cases (admits e (T.id user))) [
      | inr full ↦ inr (inr (e, h, inl full))
      | inl a ↦ elim (Bool-cases sent) [
        | inl there ↦ inl (e, h, a, there)
        | inr gone ↦ inr (inr (e, h, inr gone))
      ]
    ]
  ]
