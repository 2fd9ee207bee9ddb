-- ===== src/Manager/Quickplay.antt =====
-- server/src/room.rs: `find_quickplay_room`, `get_room_info` and `get_all_rooms`.
use multiplayer_kit.Base.{
  ℕ, ◌^◌, ◌<◌, ◌≡◌, ◌⊎◌, inl, inr, refl, Option, none, some, [], ◌∷◌, map, true, false, arith,
  ℕ_discrete, Option-cases, Bool-cases,
}
use multiplayer_kit.Base.Map.{Map, get, Distinct, contains_key}
use multiplayer_kit.Protocol.{UserContext, RoomConfig, RoomId}
use multiplayer_kit.Room.{Tokio, RoomEntry, admits}
use multiplayer_kit.Manager.{
  RoomManager, is_match, find_in, find_quickplay_room, room_info, get_room_info, filter_infos,
  get_all_rooms,
}
use multiplayer_kit.Manager.Isolation.{room}
use multiplayer_kit.Manager.Invariant.{IsSound}

module _ {T : UserContext} {C : RoomConfig} {R : Tokio} where
  abbrev Found : RoomManager T C R → C.Value → Map RoomId (RoomEntry T C R) → Option RoomId → Type 0
  Found m request rooms (some id) =
      (e : RoomEntry T C R) × (get ℕ_discrete id rooms ≡ some e) × (is_match m request id e ≡ true)
  Found m request rooms none =
      (id : RoomId) (e : RoomEntry T C R)
      → get ℕ_discrete id rooms ≡ some e
      → is_match m request id e ≡ false

  find_in-Found :
      (m : RoomManager T C R) (request : C.Value) (rooms : Map RoomId (RoomEntry T C R))
      (o : Option RoomId)
      → Distinct ℕ_discrete rooms
      → find_in m request rooms ≡ o
      → Found m request rooms o
  unfolding find_in get Distinct
  find_in-Found m request [] (some id) d h = absurd (cc)
  find_in-Found m request [] none d h = λ id e k. absurd (cc)
  find_in-Found m request ((j, f) ∷ rooms) (some id) d h =
      elim (Bool-cases (is_match m request j f)) [
        | inl hit ↦ (f, ground arith, ground arith)
        | inr miss ↦
            let (e, found, fits) = find_in-Found m request rooms (some id) d.1 (ground arith) in
            (e, ground arith, fits)
      ]
  find_in-Found m request ((j, f) ∷ rooms) none d h =
      λ id e k. ground (arith, find_in-Found m request rooms none d.1 (ground arith) id e)

  -- In a sound manager, quickplay answers a room that is not full, matches the request and passes the
  -- filter, and it answers none only if there is no such room.
  pub find_quickplay_room_lem :
      (m : RoomManager T C R) (request : C.Value)
      → IsSound m
      → ((id : RoomId) × (e : RoomEntry T C R) × (find_quickplay_room m request ≡ some id)
          × (room m id ≡ some e)
          × (is_match m request id e ≡ true))
        ⊎ ((find_quickplay_room m request ≡ none)
            × ((id : RoomId) (e : RoomEntry T C R)
                → room m id ≡ some e
                → is_match m request id e ≡ false))
  unfolding find_quickplay_room
  find_quickplay_room_lem m request v = elim (Option-cases (find_quickplay_room m request)) [
    | inl e ↦ inr (e, find_in-Found m request m.rooms none v.distinct e)
    | inr (id, e) ↦
        let (f, found, fits) = find_in-Found m request m.rooms (some id) v.distinct e in
        inl (id, f, e, found, fits)
  ]

  -- A room that quickplay picks lets any user in, as long as nothing changes in between.
  pub is_match-admits :
      (m : RoomManager T C R) (request : C.Value) (id : RoomId) (e : RoomEntry T C R) (u : T.UserId)
      → is_match m request id e ≡ true
      → admits e u ≡ true
  unfolding is_match admits
  is_match-admits m request id e u h = ground arith

  -- The lobby lists a room as joinable exactly if a user who has no channel in it would be let in,
  -- for a limit of 32 bits.
  pub room_info-admits :
      (id : RoomId) (e : RoomEntry T C R) (u : T.UserId)
      → contains_key T.id_discrete u e.shared.user_channels ≡ false
      → ((max : ℕ) → C.max_players e.config ≡ some max → max < 2 ^ 32)
      → (room_info id e).is_joinable ≡ admits e u
  unfolding room_info admits
  room_info-admits id e u new small = elim (Option-cases (C.max_players e.config)) [
    | inl n ↦ ground (arith, n)
    | inr (max, s) ↦ ground (arith, s, small max s)
  ]

  filter_infos-map :
      (m : RoomManager T C R) (rooms : Map RoomId (RoomEntry T C R))
      → ((id : RoomId) (e : RoomEntry T C R)
          → get ℕ_discrete id rooms ≡ some e
          → room m id ≡ some e)
      → Distinct ℕ_discrete rooms
      → filter_infos m rooms ≡ map (λ r. room_info r.0 r.1) rooms
  unfolding filter_infos get_room_info get Distinct
  filter_infos-map m [] h d = refl
  filter_infos-map m ((j, f) ∷ rooms) h d =
      ground (
        arith,
        h j f (ground arith),
        filter_infos-map m rooms (λ id e k. h id e (ground arith)) d.1,
      )

  -- In a sound manager, the snapshot of the lobby holds the information of each room once.
  pub get_all_rooms_lem :
      (m : RoomManager T C R) → IsSound m → get_all_rooms m ≡ map (λ r. room_info r.0 r.1) m.rooms
  unfolding get_all_rooms
  get_all_rooms_lem m v = filter_infos-map m m.rooms (λ id e k. k) v.distinct
