-- ===== src/Manager/Isolation.antt =====
-- server/src/room.rs: what creating and deleting a room answers, and that an operation on one room
-- leaves the others alone.
use Prim.Native.String.{String}
use multiplayer_kit.Base.{
  ℕ, ◌≡◌, ◌≢◌, ◌⊎◌, inl, inr, refl, Option, none, some, Bool, arith, ℕ_discrete, ok, err,
  Result-cases, Option-cases,
}
use multiplayer_kit.Base.Map.{get, insert, get-insert, get-remove}
use multiplayer_kit.Protocol.{UserContext, RoomConfig, RoomId, ChannelId}
use multiplayer_kit.Room.{Tokio, Instant, RoomEntry, Pipes}
use multiplayer_kit.Manager.{
  RoomManager, RoomPipes, new_entry, create_room, delete_room, open_channel, close_channel,
}
use multiplayer_kit.Manager.Cases.{open_channel_cases, close_channel_cases}
use multiplayer_kit.Manager.Invariant.{IsSound}

module _ {T : UserContext} {C : RoomConfig} {R : Tokio} where
  abbrev pub room : RoomManager T C R → RoomId → Option (RoomEntry T C R)
  room m id = get ℕ_discrete id m.rooms

  abbrev pub SameElsewhere : RoomManager T C R → RoomId → RoomManager T C R → Type 0
  SameElsewhere m id n = (j : RoomId) → j ≢ id → room n j ≡ room m j

  -- In a sound manager, a valid configuration makes a new room under an id that no room has; an invalid one changes
  -- nothing, and its error is the answer.
  pub create_room_lem :
      (m : RoomManager T C R) (creator : T.User) (config : C.Config) (now : Instant) (unix : ℕ)
      (p : RoomPipes R)
      → IsSound m
      → let k = create_room m creator config now unix p in
        ((C.validate config ≡ ok tt)
          × (k.answer ≡ ok m.next_room_id)
          × (room m m.next_room_id ≡ none)
          × (room k.manager m.next_room_id ≡ some (new_entry creator config now unix p))
          × SameElsewhere m m.next_room_id k.manager)
        ⊎ ((e : String) × (C.validate config ≡ err e)
            × (k.answer ≡ err e)
            × (k.started ≡ none)
            × (k.manager ≡ m))
  unfolding create_room
  create_room_lem m creator config now unix p v = elim (Result-cases (C.validate config)) [
    | inl (tt, e) ↦ inl (
      e,
      rw (e, create_room),
      v.fresh m.next_room_id (omega arith),
      rw (e, create_room)
          (ground (arith, get-insert ℕ_discrete m.next_room_id m.next_room_id entry m.rooms)),
      λ j h.
          rw (e, create_room)
            (ground (arith, get-insert ℕ_discrete m.next_room_id j entry m.rooms)),
    )
    | inr (x, e) ↦ inr (x, e, rw (e, create_room), rw (e, create_room), rw (e, create_room))
  ]
    where
      entry : RoomEntry T C R
      entry = new_entry creator config now unix p

  -- Only the creator deletes a room, and the room is gone then; every other request changes nothing.
  pub delete_room_lem :
      (m : RoomManager T C R) (id : RoomId) (requester : T.UserId)
      → let k = delete_room m id requester in
        ((e : RoomEntry T C R) × (room m id ≡ some e)
          × (e.creator_id ≡ requester)
          × (k.answer ≡ ok tt)
          × (k.signal ≡ e.shutdown_tx)
          × (room k.manager id ≡ none)
          × SameElsewhere m id k.manager)
        ⊎ (((e : RoomEntry T C R) → room m id ≡ some e → e.creator_id ≢ requester)
            × (k.answer ≢ ok tt)
            × (k.signal ≡ none)
            × (k.manager ≡ m))
  unfolding delete_room
  delete_room_lem m id requester = elim (Option-cases (room m id)) [
    | inl missing ↦ inr (
      λ e found. absurd (cc),
      rw (missing, delete_room) (λ q. cc),
      rw (missing, delete_room),
      rw (missing, delete_room),
    )
    | inr (e, found) ↦ elim (T.id_discrete e.creator_id requester) [
      | yes own ↦ inl (
        e,
        found,
        own,
        ground (arith, found, own),
        ground (arith, found, own),
        ground (arith, found, own, get-remove ℕ_discrete id id m.rooms),
        λ j h. ground (arith, found, own, get-remove ℕ_discrete id j m.rooms),
      )
      | no other ↦ inr (
        λ f same. ground (arith, other, found),
        ground (arith, found, other),
        ground (arith, found, other),
        ground (arith, found, other),
      )
    ]
  ]

  insert_elsewhere :
      (m : RoomManager T C R) (id : RoomId) (e : RoomEntry T C R)
      → SameElsewhere m id (record m { rooms = insert ℕ_discrete id e m.rooms })
  insert_elsewhere m id e j h = ground (arith, get-insert ℕ_discrete id j e m.rooms)

  -- A channel that is opened or closed in one room leaves the other rooms as they are.
  pub channel_elsewhere :
      (m : RoomManager T C R) (id : RoomId) (user : T.User) (c : ChannelId) (now : Instant)
      (p : Pipes R) (sent : Bool)
      → SameElsewhere m id (open_channel m id user now p sent).manager
        × SameElsewhere m id (close_channel m id c now)
  channel_elsewhere m id user c now p sent = (
    open_channel_cases (SameElsewhere m id) m id user now p sent (λ j h. refl)
        (λ e found. insert_elsewhere m id _),
    close_channel_cases (SameElsewhere m id) m id c now (λ j h. refl)
        (λ e found. insert_elsewhere m id _),
  )
