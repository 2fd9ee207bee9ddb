-- ===== src/Manager/Sweep.antt =====
-- server/src/room.rs: the removals of `run_lifecycle_checks` with what other tasks do meanwhile: each
-- removal yields between its signal and the removal itself.
use multiplayer_kit.Base.{
  ◌≡◌, refl, sym, ap, ◌∙◌, Option, none, some, List, [], ◌∷◌, ◌++◌, true, is_some, ℕ_discrete,
  append-nil, arith,
}
use multiplayer_kit.Base.Map.{Map, get, insert, remove, get-insert_self, get-remove}
use multiplayer_kit.Protocol.{UserContext, RoomConfig, RoomId}
use multiplayer_kit.Lobby.{Lobby, notify_room_deleted}
use multiplayer_kit.Room.{Tokio, Instant, RoomEntry, Pipes, admits, enter, open_entry}
use multiplayer_kit.Manager.{
  RoomManager, Checked, to_remove, signal_of, remove_all, open_channel, run_lifecycle_checks,
}

remove-insert_same :
    {A : Type 0} (id : RoomId) (a : A) (m : Map RoomId A)
    → remove ℕ_discrete id (insert ℕ_discrete id a m) ≡ remove ℕ_discrete id m
unfolding remove insert
remove-insert_same id a [] = ground arith
remove-insert_same id a ((j, b) ∷ m) = ground (arith, remove-insert_same id a m)

module _ {T : UserContext} {C : RoomConfig} {R : Tokio} where
  begun : RoomId → Checked T C R → Option (RoomEntry T C R) → Checked T C R
  begun id k none = k
  begun id k (some e) = record k {
    manager = record k.manager {
      rooms = insert ℕ_discrete id (record e { shutdown_tx = none }) k.manager.rooms;
    };
    signals = k.signals ++ signal_of (some e);
  }

  -- Before the yield: the handler of the room is signalled.
  unfoldable pub begin_removal : RoomId → Checked T C R → Checked T C R
  unfolding begun
  begin_removal id k = begun id k (get ℕ_discrete id k.manager.rooms)

  unfoldable pub finish_removal : RoomId → Checked T C R → Checked T C R
  finish_removal id k = record k {
    manager = record k.manager { rooms = remove ℕ_discrete id k.manager.rooms };
    lobby = notify_room_deleted k.lobby id;
  }

  -- The loop, where `meanwhile id` is what the other tasks do while the removal of that room yields.
  unfoldable pub sweep :
      (RoomId → Checked T C R → Checked T C R) → List RoomId → Checked T C R → Checked T C R
  sweep meanwhile [] k = k
  sweep meanwhile (id ∷ ids) k =
      sweep meanwhile ids (finish_removal id (meanwhile id (begin_removal id k)))

  unfoldable pub run_sweep :
      (RoomId → Checked T C R → Checked T C R)
      → RoomManager T C R
      → Lobby C.Value
      → Instant
      → Checked T C R
  run_sweep meanwhile m lobby now =
      sweep meanwhile (to_remove m.settings now m.rooms)
        (record { manager = m; lobby = lobby; signals = [] })

  -- A removal without a signal, with the signals that are sent.
  abbrev removed : RoomId → Checked T C R → List R.OneshotSender → Checked T C R
  removed id k signals = record {
    manager = record k.manager { rooms = remove ℕ_discrete id k.manager.rooms };
    lobby = notify_room_deleted k.lobby id;
    signals = signals;
  }

  undisturbed :
      (id : RoomId) (k : Checked T C R) (o : Option (RoomEntry T C R))
      → finish_removal id (begun id k o) ≡ removed id k (k.signals ++ signal_of o)
  unfolding begun finish_removal
  undisturbed id k none = ap (removed id k) (sym (append-nil k.signals))
  undisturbed id k (some e) =
      let e' = record e { shutdown_tx = none } in
      λ i. record (removed id k (k.signals ++ signal_of (some e))) {
        manager = record k.manager { rooms = remove-insert_same id e' k.manager.rooms i };
      }

  sweep-remove_all :
      (ids : List RoomId) (k : Checked T C R) → sweep (λ id k'. k') ids k ≡ remove_all ids k
  unfolding sweep remove_all begin_removal
  sweep-remove_all [] k = refl
  sweep-remove_all (id ∷ ids) k =
      ap (sweep (λ j k'. k') ids) (undisturbed id k (get ℕ_discrete id k.manager.rooms))
      ∙ sweep-remove_all ids _

  -- For every manager: a sweep whose yields nobody uses is the atomic `run_lifecycle_checks`, in the
  -- manager, in what the lobby is told, and in the signals that are sent.
  pub run_sweep-run_lifecycle_checks :
      (m : RoomManager T C R) (lobby : Lobby C.Value) (now : Instant)
      → run_sweep (λ id k. k) m lobby now ≡ run_lifecycle_checks m lobby now
  unfolding run_sweep run_lifecycle_checks
  run_sweep-run_lifecycle_checks m lobby now =
      sweep-remove_all (to_remove m.settings now m.rooms)
        (record { manager = m; lobby = lobby; signals = [] })

  -- What opening a channel in a room comes to while a removal yields.
  abbrev pub joins : RoomId → T.User → Instant → Pipes R → RoomId → Checked T C R → Checked T C R
  joins room user later p id k = record k {
    manager = (open_channel k.manager room user later p true).manager;
  }

  -- The answer to the transport is there if the user is admitted and the handler still listens.
  admitted_answer :
      (e : RoomEntry T C R) (user : T.User) (now : Instant) (p : Pipes R)
      → admits e (T.id user) ≡ true
      → is_some (open_entry e user now p true).answer ≡ true
  unfolding open_entry enter
  admitted_answer e user now p h = rw (h, open_entry) refl

  begun_admits :
      (id : RoomId) (k : Checked T C R) (e : RoomEntry T C R) (user : T.User) (now : Instant)
      (p : Pipes R)
      → admits e (T.id user) ≡ true
      → get ℕ_discrete id k.manager.rooms ≡ some e
      → is_some (open_channel (begin_removal id k).manager id user now p true).answer ≡ true
  unfolding begin_removal begun open_channel admits
  begun_admits id k e user now p h found =
      let e' : RoomEntry T C R = record e { shutdown_tx = none } in
      rw (found, begin_removal)
        (rw (get-insert_self ℕ_discrete id e' k.manager.rooms, open_channel)
          (admitted_answer e' user now p h))

  -- If exactly one room has expired, and a user whom it admits asks for a channel while its removal
  -- yields, its handler still listening, then the user is answered a channel of the room, and the room
  -- is gone behind the sweep all the same.
  pub run_sweep_race :
      (m : RoomManager T C R) (lobby : Lobby C.Value) (now later : Instant) (id : RoomId)
      (e : RoomEntry T C R) (user : T.User) (p : Pipes R)
      → get ℕ_discrete id m.rooms ≡ some e
      → admits e (T.id user) ≡ true
      → to_remove m.settings now m.rooms ≡ id ∷ []
      → let start : Checked T C R = record { manager = m; lobby = lobby; signals = [] } in
        (is_some (open_channel (begin_removal id start).manager id user later p true).answer ≡ true)
        × (get ℕ_discrete id (run_sweep (joins id user later p) m lobby now).manager.rooms ≡ none)
  unfolding run_sweep sweep finish_removal
  run_sweep_race m lobby now later id e user p found h expired =
      let start : Checked T C R = record { manager = m; lobby = lobby; signals = [] } in
      let yielded = joins id user later p id (begin_removal id start) in
      (
        begun_admits id start e user later p h found,
        rw expired (get-remove ℕ_discrete id id yielded.manager.rooms ∙ ground arith),
      )
