-- ===== src/Manager/Lifecycle.antt =====
-- server/src/room.rs: `run_lifecycle_checks`.
use multiplayer_kit.Base.{
  ◌-◌, ◌^◌, ◌<◌, ◌≡◌, ◌≢◌, ◌↔◌, ◌⊎◌, inl, inr, Option-cases, Bool-cases, refl, sym, ◌∙◌, none, some,
  List, [], ◌∷◌, map, true, false, arith, ℕ_discrete, if◌then◌else◌, ◌++◌, append_assoc, append-nil,
}
use multiplayer_kit.Base.Map.{Map, get, Distinct, get-remove}
use multiplayer_kit.Base.Set.{member}
use multiplayer_kit.Protocol.{UserContext, RoomConfig, RoomId, ChannelId, room_deleted}
use multiplayer_kit.Lobby.{Lobby, notify_room_deleted}
use multiplayer_kit.Room.{Tokio, Instant, RoomEntry, close_entry}
use multiplayer_kit.Room.Admission.{users}
use multiplayer_kit.Room.Invariant.{WellFormed, close_entry-WellFormed}
use multiplayer_kit.Manager.{
  RoomManager, RoomSettings, Checked, is_expired, to_remove, remove_all, run_lifecycle_checks,
}
use multiplayer_kit.Manager.Isolation.{room}
use multiplayer_kit.Manager.Invariant.{IsSound}

-- No room is announced twice.
abbrev pub Once : List RoomId → Type 0
Once [] = Unit
Once (id ∷ ids) = (member id ids ≡ false) × Once ids

module _ {T : UserContext} {C : RoomConfig} {R : Tokio} where
  -- When a room is over: at the end of its lifetime, or without users, if the time for a first
  -- connection is over or there has been no activity for the time of an empty room.
  abbrev pub IsOver : RoomSettings → Instant → RoomEntry T C R → Type 0
  IsOver s now e =
      (s.max_lifetime < now - e.created_at)
      ⊎ ((users e ≡ 0)
          × ((s.first_connect_timeout < now - e.created_at)
              ⊎ (s.empty_timeout < now - e.shared.last_activity)))

  is_expired-IsOver :
      (s : RoomSettings) (now : Instant) (e : RoomEntry T C R)
      → WellFormed e
      → users e < 2 ^ 32
      → (is_expired s now e ≡ true) ↔ IsOver s now e
  unfolding is_expired
  is_expired-IsOver s now e v h =
      let count : e.shared.user_count ≡ users e = omega (arith, v.counted, h) in
      ground (arith, count)

  room-remove_all :
      (ids : List RoomId) (k : Checked T C R) (id : RoomId)
      → room (remove_all ids k).manager id ≡ (if member id ids then none else room k.manager id)
  unfolding remove_all member
  room-remove_all [] k id = refl
  room-remove_all (j ∷ ids) k id =
      room-remove_all ids _ id ∙ ground (arith, get-remove ℕ_discrete j id k.manager.rooms)

  pub lobby-remove_all :
      (ids : List RoomId) (k : Checked T C R)
      → (remove_all ids k).lobby ≡ k.lobby ++ map room_deleted ids
  unfolding remove_all notify_room_deleted
  lobby-remove_all [] k = sym (append-nil k.lobby)
  lobby-remove_all (j ∷ ids) k =
      lobby-remove_all ids _ ∙ append_assoc k.lobby (room_deleted j ∷ []) (map room_deleted ids)

  missing-to_remove :
      (s : RoomSettings) (now : Instant) (rooms : Map RoomId (RoomEntry T C R)) (id : RoomId)
      → get ℕ_discrete id rooms ≡ none
      → member id (to_remove s now rooms) ≡ false
  unfolding to_remove get member
  missing-to_remove s now [] id h = refl
  missing-to_remove s now ((j, e) ∷ rooms) id h = ground (arith, missing-to_remove s now rooms id)

  member-to_remove :
      (s : RoomSettings) (now : Instant) (rooms : Map RoomId (RoomEntry T C R)) (id : RoomId)
      (e : RoomEntry T C R)
      → Distinct ℕ_discrete rooms
      → get ℕ_discrete id rooms ≡ some e
      → member id (to_remove s now rooms) ≡ is_expired s now e
  unfolding to_remove get Distinct member
  member-to_remove s now [] id e d h = absurd (cc)
  member-to_remove s now ((j, f) ∷ rooms) id e d h =
      ground (arith, member-to_remove s now rooms id e d.1, missing-to_remove s now rooms id)

  to_remove-Once :
      (s : RoomSettings) (now : Instant) (rooms : Map RoomId (RoomEntry T C R))
      → Distinct ℕ_discrete rooms
      → Once (to_remove s now rooms)
  unfolding to_remove Distinct
  to_remove-Once s now [] d = tt
  to_remove-Once s now ((j, f) ∷ rooms) d = elim (Bool-cases (is_expired s now f)) [
    | inl e ↦
        rw (e, to_remove) (missing-to_remove s now rooms j d.0, to_remove-Once s now rooms d.1)
    | inr e ↦ rw (e, to_remove) (to_remove-Once s now rooms d.1)
  ]

  -- What the checks make of a room: it is removed exactly if it is over, and else as it was.
  abbrev pub IsChecked : RoomManager T C R → Instant → RoomManager T C R → RoomId → Type 0
  IsChecked m now n id =
      ((room m id ≡ none) × (room n id ≡ none))
      ⊎ ((e : RoomEntry T C R) × (room m id ≡ some e)
          × ((IsOver m.settings now e × (room n id ≡ none))
              ⊎ ((¬ IsOver m.settings now e) × (room n id ≡ some e))))

  IsChecked-room :
      (m : RoomManager T C R) (lobby : Lobby C.Value) (now : Instant) (id : RoomId)
      → IsSound m
      → ((e : RoomEntry T C R) → room m id ≡ some e → users e < 2 ^ 32)
      → IsChecked m now (run_lifecycle_checks m lobby now).manager id
  unfolding run_lifecycle_checks
  IsChecked-room m lobby now id v small =
      let ids = to_remove m.settings now m.rooms in
      let k : Checked T C R = record { manager = m; lobby = lobby; signals = [] } in
      let after = room-remove_all ids k id in
      elim (Option-cases (room m id)) [
        | inl h ↦ inl (h, after ∙ rw (missing-to_remove m.settings now m.rooms id h) h)
        | inr (e, h) ↦
            let over = is_expired-IsOver m.settings now e (v.well_formed id e h) (small e h) in
            let gone = member-to_remove m.settings now m.rooms id e v.distinct h in
            elim (Bool-cases (is_expired m.settings now e)) [
              | inl x ↦ inr (e, h, inl (over.0 x, after ∙ rw (gone ∙ x) refl))
              | inr x ↦ inr (e, h, inr (λ y. ground (arith, over.1 y, x), after ∙ rw (gone ∙ x) h))
            ]
      ]

  -- In a sound manager whose rooms have less than 2^32 users each, the checks remove a room exactly if its
  -- lifetime is over, or if it has no users and either the time for a first connection is over or there was no
  -- activity for the time of an empty room; a room that is not removed is as it was; and the lobby is told, behind
  -- what it was told before, of the rooms that are gone, of each once.
  pub run_lifecycle_checks_lem :
      (m : RoomManager T C R) (lobby : Lobby C.Value) (now : Instant)
      → IsSound m
      → ((id : RoomId) (e : RoomEntry T C R) → room m id ≡ some e → users e < 2 ^ 32)
      → let k = run_lifecycle_checks m lobby now in
        ((id : RoomId) → IsChecked m now k.manager id)
        × ((gone : List RoomId) × (k.lobby ≡ lobby ++ map room_deleted gone)
            × Once gone
            × ((id : RoomId)
                → (member id gone ≡ true) ↔ ((room m id ≢ none) × (room k.manager id ≡ none))))
  unfolding run_lifecycle_checks
  run_lifecycle_checks_lem m lobby now v small =
      let ids = to_remove m.settings now m.rooms in
      let k : Checked T C R = record { manager = m; lobby = lobby; signals = [] } in
      (
        λ id. IsChecked-room m lobby now id v (small id),
        (
          ids,
          lobby-remove_all ids k,
          to_remove-Once m.settings now m.rooms v.distinct,
          λ id.
              ground (arith, room-remove_all ids k id, missing-to_remove m.settings now m.rooms id),
        ),
      )

  -- A well-formed room with users, less than 2^32 of them, lives until its maximal lifetime is over.
  pub is_expired-users :
      (s : RoomSettings) (now : Instant) (e : RoomEntry T C R)
      → WellFormed e
      → 0 < users e
      → users e < 2 ^ 32
      → (is_expired s now e ≡ true) ↔ (s.max_lifetime < now - e.created_at)
  unfolding is_expired
  is_expired-users s now e v h k = ground (arith, v.counted)

  -- A well-formed room that is older than the timeout for its first connection is removed as soon as its last
  -- user has left, however long the timeout for empty rooms is.
  pub is_expired_last_close :
      (s : RoomSettings) (now : Instant) (e : RoomEntry T C R) (c : ChannelId)
      → WellFormed e
      → users (close_entry e c now) ≡ 0
      → s.first_connect_timeout < now - e.created_at
      → is_expired s now (close_entry e c now) ≡ true
  unfolding is_expired close_entry
  is_expired_last_close s now e c v h k =
      let count = (close_entry-WellFormed e c now v).counted in ground arith
