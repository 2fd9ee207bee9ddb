-- ===== src/Manager/Cases.antt =====
-- server/src/room.rs: an induction rule for each operation of the manager, by its branches.
use multiplayer_kit.Base.{
  ℕ, ◌+◌, ◌%◌, ◌^◌, ◌≡◌, some, Result-cases, Option-cases, inl, inr, ℕ_discrete, ite_cases, Bool,
}
use multiplayer_kit.Base.Map.{get, insert, remove}
use multiplayer_kit.Protocol.{UserContext, RoomConfig, RoomId, ChannelId}
use multiplayer_kit.Room.{Tokio, Instant, RoomEntry, Pipes, open_entry, close_entry}
use multiplayer_kit.Manager.{
  RoomManager, RoomPipes, Deletion, new_entry, create_room, delete_room, open_channel,
  close_channel,
}

module _ {T : UserContext} {C : RoomConfig} {R : Tokio} (P : RoomManager T C R → Type 0)
    (m : RoomManager T C R) where
  pub create_room_cases :
      (creator : T.User) (config : C.Config) (now : Instant) (unix : ℕ) (p : RoomPipes R)
      → P m
      → P (record m {
        rooms = insert ℕ_discrete m.next_room_id (new_entry creator config now unix p) m.rooms;
        next_room_id = (m.next_room_id + 1) % 2 ^ 64;
      })
      → P (create_room m creator config now unix p).manager
  unfolding create_room
  create_room_cases creator config now unix p same added = elim (Result-cases (C.validate config)) [
    | inl (_, e) ↦ rw (e, create_room) added
    | inr (_, e) ↦ rw (e, create_room) same
  ]

  pub delete_room_cases :
      (id : RoomId) (requester : T.UserId)
      → P m
      → ((e : RoomEntry T C R)
          → get ℕ_discrete id m.rooms ≡ some e
          → e.creator_id ≡ requester
          → P (record m { rooms = remove ℕ_discrete id m.rooms }))
      → P (delete_room m id requester).manager
  unfolding delete_room
  delete_room_cases id requester same removed = elim (Option-cases (get ℕ_discrete id m.rooms)) [
    | inl e ↦ rw (e, delete_room) same
    | inr (entry, e) ↦
        rw (e, delete_room)
          (ite_cases (λ (r : Deletion T C R). P r.manager)
            (T.id_discrete entry.creator_id requester) _ _ (removed entry e) (λ _. same))
  ]

  pub open_channel_cases :
      (id : RoomId) (user : T.User) (now : Instant) (p : Pipes R) (sent : Bool)
      → P m
      → ((e : RoomEntry T C R)
          → get ℕ_discrete id m.rooms ≡ some e
          → P (record m {
            rooms = insert ℕ_discrete id (open_entry e user now p sent).entry m.rooms;
          }))
      → P (open_channel m id user now p sent).manager
  unfolding open_channel
  open_channel_cases id user now p sent same opened =
      elim (Option-cases (get ℕ_discrete id m.rooms)) [
        | inl e ↦ rw (e, open_channel) same
        | inr (entry, e) ↦ rw (e, open_channel) (opened entry e)
      ]

  pub close_channel_cases :
      (id : RoomId) (c : ChannelId) (now : Instant)
      → P m
      → ((e : RoomEntry T C R)
          → get ℕ_discrete id m.rooms ≡ some e
          → P (record m { rooms = insert ℕ_discrete id (close_entry e c now) m.rooms }))
      → P (close_channel m id c now)
  unfolding close_channel
  close_channel_cases id c now same closed = elim (Option-cases (get ℕ_discrete id m.rooms)) [
    | inl e ↦ rw (e, close_channel) same
    | inr (entry, e) ↦ rw (e, close_channel) (closed entry e)
  ]
