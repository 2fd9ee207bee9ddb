-- ===== src/Manager/Tests.antt =====
-- Runs of the manager, and the theorems about it at concrete managers.
use multiplayer_kit.Base.{
  List, ◌∷◌, ◌+◌, ◌^◌, ◌≤◌, ◌<◌, ◌≡◌, ◌≢◌, ◌↔◌, refl, none, some, [], ◌++◌, map, true, arith,
  ℕ_discrete, is_some,
}
use multiplayer_kit.Base.Map.{get, insert}
use multiplayer_kit.Base.Set.{member, set_insert}
use multiplayer_kit.Protocol.{RoomId, room_deleted}
use multiplayer_kit.Room.{RoomEntry, admits, join, open_entry}
use multiplayer_kit.Room.Users.{track}
use multiplayer_kit.Room.Invariant.{WellFormed, empty-IsConsistent}
use multiplayer_kit.Room.Admission.{users}
use multiplayer_kit.Manager.{
  RoomManager, new, new_entry, create_room, open_channel, close_channel, is_match, find_in,
  find_quickplay_room, to_remove, run_lifecycle_checks, Checked, is_expired,
}
use multiplayer_kit.Manager.Sweep.{
  begin_removal, run_sweep, joins, run_sweep-run_lifecycle_checks, run_sweep_race,
}
use multiplayer_kit.Manager.Invariant.{IsSound, new-IsSound}
use multiplayer_kit.Manager.Reach.{
  Step, Reach, here, next, creates, opens, closes, Reach-IsSound, Reach-capacity,
}
use multiplayer_kit.Manager.Ids.{Follows}
use multiplayer_kit.Manager.Isolation.{room}
use multiplayer_kit.Manager.Lifecycle.{IsChecked, Once, run_lifecycle_checks_lem}
use multiplayer_kit.Manager.Occupancy
use multiplayer_kit.Manager.Occupancy.{Call, occupancy, replay, run, log}
use multiplayer_kit.Manager.Refinement.{run_refines}
use multiplayer_kit.Examples.Rooms.{with_room-IsSound, with_room-HasIds}
use multiplayer_kit.Examples.{people, game, handles, pipes, room_pipes, defaults}

abbrev started : RoomManager people game handles
started = new defaults none

started-IsSound : IsSound started
started-IsSound = new-IsSound defaults none

-- User 7 creates room 1 for two players.
abbrev with_room : RoomManager people game handles
with_room = (create_room started 7 2 0 0 (room_pipes 1)).manager

-- User 8 enters it.
abbrev with_user : RoomManager people game handles
with_user = (open_channel with_room 1 8 10 (pipes 5) true).manager

started-next : started.next_room_id ≡ 1
unfolding new
started-next = refl

to_with_room : Reach started with_room
unfolding new
to_with_room = next here (creates 7 2 0 0 (room_pipes 1) (omega arith) refl)

abbrev entry : RoomEntry people game handles
entry = new_entry 7 2 0 0 (room_pipes 1)

room-with_room : room with_room 1 ≡ some entry
unfolding new create_room insert get ℕ_discrete
room-with_room = refl

entry-WellFormed : WellFormed entry
unfolding new_entry
entry-WellFormed = empty-IsConsistent 0

enters : Step with_room with_user
unfolding create_room new insert get ℕ_discrete
enters = opens 1 8 10 (pipes 5) true (λ e h. subst_next e h) refl
  where
    subst_next :
        (e : RoomEntry people game handles) → some entry ≡ some e → e.next_channel_id + 1 < 2 ^ 64
    subst_next e h = unfold new_entry in ground arith

entered : Reach with_room with_user
entered = next here enters

to_with_user : Reach started with_user
to_with_user = next to_with_room enters

with_user-IsSound : IsSound with_user
with_user-IsSound = (Reach-IsSound defaults none with_room with_user to_with_room entered).0

-- User 8 leaves again.
abbrev left : RoomManager people game handles
left = close_channel with_user 1 1 20

Reach-IsSound_example : IsSound left × Follows with_room left
Reach-IsSound_example =
    Reach-IsSound defaults none with_room left to_with_room (next entered (closes 1 1 20 refl))

room-with_user : room with_user 1 ≡ some (open_entry entry 8 10 (pipes 5) true).entry
unfolding new create_room open_channel new_entry insert get ℕ_discrete
room-with_user = refl

users-with_user : users (open_entry entry 8 10 (pipes 5) true).entry ≡ 1
unfolding new_entry open_entry admits join track get insert set_insert member ℕ_discrete
users-with_user = refl

Reach-capacity_example : users (open_entry entry 8 10 (pipes 5) true).entry ≤ 2
unfolding open_entry admits new_entry get
Reach-capacity_example =
    Reach-capacity defaults none with_user 1 (open_entry entry 8 10 (pipes 5) true).entry 2
      to_with_user room-with_user refl (omega arith)

found_room : find_quickplay_room with_user 0 ≡ some 1
unfolding new create_room open_channel new_entry open_entry admits join track insert get ℕ_discrete
    find_quickplay_room find_in is_match set_insert member
found_room = refl

few_users :
    (id : RoomId) (e : RoomEntry people game handles)
    → room with_room id ≡ some e
    → users e < 2 ^ 32
unfolding new create_room new_entry insert get ℕ_discrete
few_users id e h = ground arith

run_lifecycle_checks_lem_example :
    let k = run_lifecycle_checks with_room [] 400 in
    ((id : RoomId) → IsChecked with_room 400 k.manager id)
    × ((gone : List RoomId) × (k.lobby ≡ [] ++ map room_deleted gone)
        × Once gone
        × ((id : RoomId)
            → (member id gone ≡ true) ↔ ((room with_room id ≢ none) × (room k.manager id ≡ none))))
run_lifecycle_checks_lem_example =
    run_lifecycle_checks_lem with_room [] 400 with_room-IsSound few_users

abbrev occupied : RoomEntry people game handles
occupied = (open_entry entry 8 10 (pipes 5) true).entry

occupied-WellFormed : WellFormed occupied
occupied-WellFormed = with_user-IsSound.well_formed 1 occupied room-with_user

-- User 8 enters and leaves the room, and user 7 deletes it.
abbrev calls : List (Call people game handles)
calls =
    Occupancy.opens 1 8 10 (pipes 5)
    ∷ Occupancy.closes 1 1 20
    ∷ Occupancy.deletes 1 7
    ∷ Occupancy.checks 30
    ∷ []

run_refines_example :
    occupancy (run with_room calls) ≡ replay (log with_room calls) (occupancy with_room)
run_refines_example =
    run_refines with_room calls with_room-IsSound (with_room-HasIds, (tt, (tt, (tt, tt))))

-- The room has had no user for 400 seconds, and user 8 asks for a channel while its removal yields.
run_sweep-run_lifecycle_checks_example :
    run_sweep (λ id k. k) with_room [] 400 ≡ run_lifecycle_checks with_room [] 400
run_sweep-run_lifecycle_checks_example = run_sweep-run_lifecycle_checks with_room [] 400

run_sweep_race_example :
    let start : Checked people game handles = record {
      manager = with_room;
      lobby = [];
      signals = [];
    } in
    (is_some (open_channel (begin_removal 1 start).manager 1 8 400 (pipes 5) true).answer ≡ true)
    × (get ℕ_discrete 1 (run_sweep (joins 1 8 400 (pipes 5)) with_room [] 400).manager.rooms ≡ none)
unfolding new create_room new_entry insert get ℕ_discrete admits to_remove is_expired
run_sweep_race_example =
    run_sweep_race with_room [] 400 400 1 entry 8 (pipes 5) room-with_room refl refl
