-- ===== src/Manager/Invariant.antt =====
-- server/src/room.rs: what holds of the manager in every state that the operations reach.
use multiplayer_kit.Base.{
  ℕ, suc, ◌+◌, ◌%◌, ◌^◌, ◌≤◌, ◌<◌, ◌≡◌, refl, Option, none, some, List, [], ◌∷◌, Bool, arith,
  ℕ_discrete,
}
use multiplayer_kit.Base.Map.{
  get, insert, remove, Distinct, get-insert, get-remove, insert-Distinct, remove-Distinct, Every,
  insert-Every, remove-Every,
}
use multiplayer_kit.Protocol.{UserContext, RoomConfig, RoomId, ChannelId}
use multiplayer_kit.Lobby.{Lobby}
use multiplayer_kit.Room.{Tokio, Instant, RoomEntry, Pipes}
use multiplayer_kit.Room.Invariant.{
  WellFormed, open_entry-WellFormed, close_entry-WellFormed, empty-IsConsistent,
}
use multiplayer_kit.Manager.Cases.{
  create_room_cases, delete_room_cases, open_channel_cases, close_channel_cases,
}
use multiplayer_kit.Manager.{
  RoomManager, RoomSettings, RoomPipes, Checked, new, new_entry, create_room, delete_room,
  open_channel, close_channel, remove_all, to_remove, run_lifecycle_checks,
}

pub record IsSound {T : UserContext} {C : RoomConfig} {R : Tokio} (m : RoomManager T C R)
    : Type 0 where
  pub distinct : Distinct ℕ_discrete m.rooms
  pub fresh : (id : RoomId) → m.next_room_id ≤ id → get ℕ_discrete id m.rooms ≡ none
  pub well_formed : Every ℕ_discrete WellFormed m.rooms

module _ {T : UserContext} {C : RoomConfig} {R : Tokio} where
  pub new-IsSound :
      (settings : RoomSettings) (filter : Option (RoomId → C.Config → Bool))
      → IsSound {T = T} {C = C} {R = R} (new settings filter)
  unfolding new get Distinct
  new-IsSound settings filter = record {
    distinct = tt;
    fresh = λ id h. refl;
    well_formed = λ id e h. absurd (cc);
  }

  -- Replacing or adding a well-formed entry.
  insert-IsSound :
      (m : RoomManager T C R) (id next : RoomId) (e : RoomEntry T C R)
      → IsSound m
      → id < next
      → m.next_room_id ≤ next
      → WellFormed e
      → IsSound (record m { rooms = insert ℕ_discrete id e m.rooms; next_room_id = next })
  insert-IsSound m id next e v h k w = record {
    distinct = insert-Distinct ℕ_discrete id e m.rooms v.distinct;
    fresh = λ j l. ground (arith, get-insert ℕ_discrete id j e m.rooms, v.fresh j);
    well_formed = insert-Every ℕ_discrete WellFormed id e m.rooms w v.well_formed;
  }

  remove-IsSound :
      (m : RoomManager T C R) (id : RoomId)
      → IsSound m
      → IsSound (record m { rooms = remove ℕ_discrete id m.rooms })
  remove-IsSound m id v = record {
    distinct = remove-Distinct ℕ_discrete id m.rooms v.distinct;
    fresh = λ j l. ground (arith, get-remove ℕ_discrete id j m.rooms, v.fresh j);
    well_formed = remove-Every ℕ_discrete WellFormed id m.rooms v.well_formed;
  }

  pub create_room-IsSound :
      (m : RoomManager T C R) (creator : T.User) (config : C.Config) (now : Instant) (unix : ℕ)
      (p : RoomPipes R)
      → m.next_room_id + 1 < 2 ^ 64
      → IsSound m
      → IsSound (create_room m creator config now unix p).manager
  unfolding new_entry
  create_room-IsSound m creator config now unix p h v =
      let wrap : (m.next_room_id + 1) % 2 ^ 64 ≡ suc m.next_room_id = omega arith in
      create_room_cases IsSound m creator config now unix p v (
        rw wrap (
          insert-IsSound m m.next_room_id (suc m.next_room_id) _ v (omega arith) (omega arith)
            (empty-IsConsistent now)))

  pub delete_room-IsSound :
      (m : RoomManager T C R) (id : RoomId) (requester : T.UserId)
      → IsSound m
      → IsSound (delete_room m id requester).manager
  delete_room-IsSound m id requester v =
      delete_room_cases IsSound m id requester v (λ e found own. remove-IsSound m id v)

  -- The room has channel ids left.
  abbrev pub HasIds : RoomManager T C R → RoomId → Type 0
  HasIds m id =
      (e : RoomEntry T C R) → get ℕ_discrete id m.rooms ≡ some e → e.next_channel_id + 1 < 2 ^ 64

  found-lt :
      (m : RoomManager T C R) (id : RoomId) (e : RoomEntry T C R)
      → IsSound m
      → get ℕ_discrete id m.rooms ≡ some e
      → id < m.next_room_id
  found-lt m id e v h = ground (arith, v.fresh id)

  pub open_channel-IsSound :
      (m : RoomManager T C R) (id : RoomId) (user : T.User) (now : Instant) (p : Pipes R)
      (sent : Bool)
      → HasIds m id
      → IsSound m
      → IsSound (open_channel m id user now p sent).manager
  open_channel-IsSound m id user now p sent h v =
      open_channel_cases IsSound m id user now p sent v λ e found.
        insert-IsSound m id m.next_room_id _ v (found-lt m id e v found) (omega arith)
          (open_entry-WellFormed e user now p sent (h e found) (v.well_formed id e found))

  pub close_channel-IsSound :
      (m : RoomManager T C R) (id : RoomId) (c : ChannelId) (now : Instant)
      → IsSound m
      → IsSound (close_channel m id c now)
  close_channel-IsSound m id c now v = close_channel_cases IsSound m id c now v λ e found.
      insert-IsSound m id m.next_room_id _ v (found-lt m id e v found) (omega arith)
        (close_entry-WellFormed e c now (v.well_formed id e found))

  remove_all-IsSound :
      (ids : List RoomId) (k : Checked T C R)
      → IsSound k.manager
      → IsSound (remove_all ids k).manager
  unfolding remove_all
  remove_all-IsSound [] k v = v
  remove_all-IsSound (id ∷ ids) k v = remove_all-IsSound ids _ (remove-IsSound k.manager id v)

  pub run_lifecycle_checks-IsSound :
      (m : RoomManager T C R) (lobby : Lobby C.Value) (now : Instant)
      → IsSound m
      → IsSound (run_lifecycle_checks m lobby now).manager
  unfolding run_lifecycle_checks
  run_lifecycle_checks-IsSound m lobby now v =
      remove_all-IsSound (to_remove m.settings now m.rooms) _ v
