-- ===== src/Manager/Refinement.antt =====
-- server/src/room.rs: the manager implements the table that its answers describe.
use multiplayer_kit.Base.{
  ℕ, ◌+◌, ◌^◌, ◌≡◌, refl, none, List, [], ◌∷◌, ◌++◌, map, true, ℕ_discrete, arith, ◌∙◌, ap,
  Result-cases, Option-cases, inl, inr, sym, ite_cases, ◌%◌, if◌then◌else◌, Bool-cases,
}
use multiplayer_kit.Base.Map.{get, insert, remove, get-insert, get-remove}
use multiplayer_kit.Protocol.{UserContext, RoomConfig, RoomId, ChannelId, room_deleted}
use multiplayer_kit.Room.{Tokio, Instant, RoomEntry, Pipes, admits, open_entry, close_entry}
use multiplayer_kit.Room.Users.{owner}
use multiplayer_kit.Room.Sessions.{holder, holder-open_entry, holder-close_entry}
use multiplayer_kit.Manager.{
  RoomManager, RoomPipes, Checked, Deletion, new_entry, create_room, delete_room, open_channel,
  close_channel, to_remove, remove_all, run_lifecycle_checks,
}
use multiplayer_kit.Manager.Invariant.{
  IsSound, create_room-IsSound, delete_room-IsSound, open_channel-IsSound, close_channel-IsSound,
  run_lifecycle_checks-IsSound,
}
use multiplayer_kit.Manager.Lifecycle.{lobby-remove_all}
use multiplayer_kit.Manager.Occupancy.{
  Occupancy, Action, deleted_action, opened_action, room_opened, room_closed, seated, apply, replay,
  announced, Call, creates, deletes, opens, closes, checks, occupancy, after, actions, run, log,
  Fits,
}

module _ (T : UserContext) (V : Type 0) where
  announced-room_deleted :
      (ids : List RoomId) → announced {T = T} {V = V} (map room_deleted ids) ≡ map room_closed ids
  unfolding announced
  announced-room_deleted [] = refl
  announced-room_deleted (id ∷ ids) = ap (λ x. room_closed id ∷ x) (announced-room_deleted ids)

module _ {T : UserContext} where
  pub same_occupancy :
      (o p : Occupancy T)
      → ((j : RoomId) → o.is_open j ≡ p.is_open j)
      → ((j : RoomId) (k : ChannelId) → o.seat j k ≡ p.seat j k)
      → o ≡ p
  same_occupancy o p f g = λ i. record { is_open = λ j. f j i; seat = λ j k. g j k i }

  replay-append :
      (xs ys : List (Action T)) (o : Occupancy T) → replay (xs ++ ys) o ≡ replay ys (replay xs o)
  unfolding replay
  replay-append [] ys o = refl
  replay-append (x ∷ xs) ys o = replay-append xs ys (apply x o)

module _ {T : UserContext} {C : RoomConfig} {R : Tokio} where
  occupancy-insert :
      (m : RoomManager T C R) (id next : RoomId) (e : RoomEntry T C R)
      → ((k : ChannelId) → holder e k ≡ none)
      → occupancy (record m { rooms = insert ℕ_discrete id e m.rooms; next_room_id = next })
        ≡ apply (room_opened id) (occupancy m)
  unfolding occupancy apply
  occupancy-insert m id next e h =
      same_occupancy _ _ (λ j. ground (arith, get-insert ℕ_discrete id j e m.rooms))
        (λ j k. ground (arith, get-insert ℕ_discrete id j e m.rooms, h k))

  occupancy-remove :
      (m : RoomManager T C R) (id : RoomId)
      → occupancy (record m { rooms = remove ℕ_discrete id m.rooms })
        ≡ apply (room_closed id) (occupancy m)
  unfolding occupancy apply
  occupancy-remove m id =
      same_occupancy _ _ (λ j. ground (arith, get-remove ℕ_discrete id j m.rooms))
        (λ j k. ground (arith, get-remove ℕ_discrete id j m.rooms))

  occupancy-create_room :
      (m : RoomManager T C R) (creator : T.User) (config : C.Config) (now : Instant) (unix : ℕ)
      (p : RoomPipes R)
      → let q = creates creator config now unix p in
        occupancy (after m q) ≡ replay (actions m q) (occupancy m)
  unfolding after actions create_room replay occupancy new_entry owner
  occupancy-create_room m creator config now unix p = elim (Result-cases (C.validate config)) [
    | inl (_, e) ↦
        rw (e, after, actions, create_room)
          (occupancy-insert m m.next_room_id ((m.next_room_id + 1) % 2 ^ 64)
            (new_entry creator config now unix p) (λ k. refl))
    | inr (_, e) ↦ rw (e, after, actions, create_room) refl
  ]

  occupancy-delete_room :
      (m : RoomManager T C R) (id : RoomId) (requester : T.UserId)
      → let q = deletes id requester in occupancy (after m q) ≡ replay (actions m q) (occupancy m)
  unfolding after actions delete_room replay occupancy
  occupancy-delete_room m id requester = elim (Option-cases (get ℕ_discrete id m.rooms)) [
    | inl e ↦ rw (e, after, actions, delete_room) refl
    | inr (entry, e) ↦
        rw (e, after, actions, delete_room)
          (ite_cases
            (λ (r : Deletion T C R).
              occupancy r.manager ≡ replay (deleted_action id r.answer) (occupancy m))
            (T.id_discrete entry.creator_id requester) _ _ (λ own. occupancy-remove m id)
            (λ other. refl))
  ]

  occupancy-remove_all :
      (ids : List RoomId) (k : Checked T C R)
      → occupancy (remove_all ids k).manager ≡ replay (map room_closed ids) (occupancy k.manager)
  unfolding remove_all replay
  occupancy-remove_all [] k = refl
  occupancy-remove_all (id ∷ ids) k =
      occupancy-remove_all ids _ ∙ ap (replay (map room_closed ids)) (occupancy-remove k.manager id)

  occupancy-run_lifecycle_checks :
      (m : RoomManager T C R) (now : Instant)
      → let q = checks now in occupancy (after m q) ≡ replay (actions m q) (occupancy m)
  unfolding after actions run_lifecycle_checks
  occupancy-run_lifecycle_checks m now =
      let ids = to_remove m.settings now m.rooms in
      let k : Checked T C R = record { manager = m; lobby = []; signals = [] } in
      let told = ap announced (lobby-remove_all ids k) ∙ announced-room_deleted T C.Value ids in
      occupancy-remove_all ids k ∙ ap (λ xs. replay xs (occupancy m)) (sym told)

  opened_action-open_entry :
      (id : RoomId) (e : RoomEntry T C R) (user : T.User) (now : Instant) (p : Pipes R)
      → opened_action {T = T} id (T.id user) (open_entry e user now p true).answer
        ≡ (if admits e (T.id user) then seated id e.next_channel_id (T.id user) ∷ [] else [])
  unfolding open_entry
  opened_action-open_entry id e user now p = ground arith

  pub occupancy-open_channel :
      (m : RoomManager T C R) (id : RoomId) (user : T.User) (now : Instant) (p : Pipes R)
      → IsSound m
      → let q = opens id user now p in occupancy (after m q) ≡ replay (actions m q) (occupancy m)
  unfolding after actions open_channel replay occupancy apply
  occupancy-open_channel m id user now p v = elim (Option-cases (get ℕ_discrete id m.rooms)) [
    | inl e ↦ rw (e, after, actions, open_channel) refl
    | inr (entry, e) ↦
        let o = open_entry entry user now p true in
        let acts = opened_action-open_entry id entry user now p in
        rw (e, after, actions, open_channel)
          (rw acts (elim (Bool-cases (admits entry (T.id user))) [
            | inl a ↦ rw a (
                same_occupancy _ _
                  (λ j. ground (arith, get-insert ℕ_discrete id j o.entry m.rooms, e))
                  (λ j k. ground (
                    arith,
                    get-insert ℕ_discrete id j o.entry m.rooms,
                    e,
                    a,
                    holder-open_entry entry user now p true k (v.well_formed id entry e),
                  )))
            | inr a ↦ rw a (
                same_occupancy _ _
                  (λ j. ground (arith, get-insert ℕ_discrete id j o.entry m.rooms, e))
                  (λ j k. ground (
                    arith,
                    get-insert ℕ_discrete id j o.entry m.rooms,
                    e,
                    a,
                    holder-open_entry entry user now p true k (v.well_formed id entry e),
                  )))
          ]))
  ]

  pub occupancy-close_channel :
      (m : RoomManager T C R) (id : RoomId) (c : ChannelId) (now : Instant)
      → IsSound m
      → let q = closes id c now in occupancy (after m q) ≡ replay (actions m q) (occupancy m)
  unfolding after actions close_channel replay occupancy apply
  occupancy-close_channel m id c now v = elim (Option-cases (get ℕ_discrete id m.rooms)) [
    | inl e ↦
        rw (e, after, close_channel) (same_occupancy _ _ (λ j. refl) (λ j k. ground (arith, e)))
    | inr (entry, e) ↦
        let closed = close_entry entry c now in
        rw (e, after, close_channel)
          (same_occupancy _ _ (λ j. ground (arith, get-insert ℕ_discrete id j closed m.rooms, e))
            (λ j k. ground (
              arith,
              get-insert ℕ_discrete id j closed m.rooms,
              e,
              holder-close_entry entry c now k (v.well_formed id entry e),
            )))
  ]

  after-occupancy :
      (m : RoomManager T C R) (q : Call T C R) (qs : List (Call T C R))
      → IsSound m
      → Fits m (q ∷ qs)
      → IsSound (after m q) × (occupancy (after m q) ≡ replay (actions m q) (occupancy m))
  unfolding after
  after-occupancy m (creates creator config now unix p) qs v f = (
    create_room-IsSound m creator config now unix p f.0 v,
    occupancy-create_room m creator config now unix p,
  )
  after-occupancy m (deletes id requester) qs v f =
      (delete_room-IsSound m id requester v, occupancy-delete_room m id requester)
  after-occupancy m (opens id user now p) qs v f =
      (open_channel-IsSound m id user now p true f.0 v, occupancy-open_channel m id user now p v)
  after-occupancy m (closes id c now) qs v f =
      (close_channel-IsSound m id c now v, occupancy-close_channel m id c now v)
  after-occupancy m (checks now) qs v f =
      (run_lifecycle_checks-IsSound m [] now v, occupancy-run_lifecycle_checks m now)

  -- The manager implements a table of rooms and seats: from a sound manager, after any calls, the rooms
  -- that are open and the users who hold their channels are what the answers of the calls say, and what
  -- the lifecycle checks announce to the lobby, replayed on the table at the start, as long as the handlers of the rooms are running and the 64-bit counters do not wrap around.
  pub run_refines :
      (m : RoomManager T C R) (qs : List (Call T C R))
      → IsSound m
      → Fits m qs
      → occupancy (run m qs) ≡ replay (log m qs) (occupancy m)
  unfolding run log replay
  run_refines m [] v f = refl
  run_refines m (q ∷ qs) v f =
      let (v', step) = after-occupancy m q qs v f in
      run_refines (after m q) qs v' f.1
      ∙ (ap (replay (log (after m q) qs)) step
          ∙ sym (replay-append (actions m q) (log (after m q) qs) (occupancy m)))
