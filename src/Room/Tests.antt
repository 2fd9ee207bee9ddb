-- ===== src/Room/Tests.antt =====
-- Runs of one room, and the theorems about it at concrete rooms.
use multiplayer_kit.Base.{◌≡◌, refl, none, some, List, [], ◌∷◌, true, false, arith, ℕ_discrete}
use multiplayer_kit.Base.Map.{get, insert}
use multiplayer_kit.Base.Set.{member, set_insert}
use multiplayer_kit.Room.{RoomEntry, Opened, admits, join, enter, open_entry, broadcast}
use multiplayer_kit.Room.Users.{track}
use multiplayer_kit.Room.Invariant.{WellFormed, empty-IsConsistent}
use multiplayer_kit.Room.Admission.{users}
use multiplayer_kit.Room.Sessions.{holder}
use multiplayer_kit.Room.Race.{enter_race}
use multiplayer_kit.Room.Leak.{RoomCall, opens, closes, after, run, run-WellFormed, open_entry_leak}
use multiplayer_kit.Examples.{people, game, handles, pipes}

-- A room for two that nobody has entered yet.
abbrev fresh_room : RoomEntry people game handles
fresh_room = record {
  config = 2;
  channel_tx = 0;
  shutdown_tx = some 0;
  shared = record { channels = []; user_channels = []; user_count = 0; last_activity = 5 };
  creator_id = 7;
  created_at = 0;
  created_at_unix = 0;
  next_channel_id = 1;
}

fresh_room-WellFormed : WellFormed fresh_room
fresh_room-WellFormed = empty-IsConsistent 5

-- User 7 opens two channels, and user 8 one.
abbrev calls : List (RoomCall people handles)
calls = opens 7 10 (pipes 11) true ∷ opens 7 11 (pipes 12) true ∷ opens 8 12 (pipes 13) true ∷ []

abbrev busy_room : RoomEntry people game handles
busy_room = run fresh_room calls

busy_room-WellFormed : WellFormed busy_room
busy_room-WellFormed = run-WellFormed fresh_room calls (omega arith) fresh_room-WellFormed

busy_room-users : users busy_room ≡ 2
unfolding run after open_entry join track set_insert member get insert admits ℕ_discrete
busy_room-users = refl

busy_room-next : busy_room.next_channel_id ≡ 4
unfolding run after open_entry join track set_insert member get insert admits ℕ_discrete
busy_room-next = refl

third_user : admits busy_room 9 ≡ false
unfolding run after open_entry join track set_insert member get insert admits ℕ_discrete
third_user = refl

-- A user who is there opens more channels in a full room.
more_channels : admits busy_room 8 ≡ true
unfolding run after open_entry join track set_insert member get insert admits ℕ_discrete
more_channels = refl

broadcast_test :
    broadcast busy_room.shared.channels (65 ∷ [])
    ≡ (11, 65 ∷ []) ∷ (12, 65 ∷ []) ∷ (13, 65 ∷ []) ∷ []
unfolding broadcast run after open_entry join track set_insert member get insert admits ℕ_discrete
broadcast_test = refl

abbrev first_opened : Opened handles
first_opened = record { channel_id = 1; read_tx = 11; write_rx = 11; close_rx = 11 }

open_entry_leak_example :
    ((open_entry fresh_room 7 10 (pipes 11) false).answer ≡ none)
    × (holder
          (run
            (open_entry fresh_room 7 10 (pipes 11) false).entry
            (opens 8 12 (pipes 13) true ∷ closes 2 20 ∷ []))
          1
        ≡ some 7)
unfolding admits get
open_entry_leak_example =
    open_entry_leak fresh_room 7 10 (pipes 11) (opens 8 12 (pipes 13) true ∷ closes 2 20 ∷ [])
      fresh_room-WellFormed (omega arith) refl (tt, (λ e. omega arith, tt))

abbrev one_left : RoomEntry people game handles
one_left = record fresh_room { config = 1 }

enter_race_example :
    (admits one_left 7 ≡ true)
    × (admits one_left 8 ≡ true)
    × (users (enter (enter one_left 7 10 (pipes 1) true).entry 8 11 (pipes 2) true).entry ≡ 2)
unfolding get
enter_race_example =
    enter_race one_left 7 8 10 11 (pipes 1) (pipes 2) 1 (empty-IsConsistent 5) refl (omega arith)
      refl refl refl (omega arith)
