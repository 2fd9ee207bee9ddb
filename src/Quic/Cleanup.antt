-- ===== src/Quic/Cleanup.antt =====
-- server/src/quic.rs: a WebTransport connection to a room leaves nobody in it.
use multiplayer_kit.Base.{
  ◌≡◌, refl, none, some, List, [], ◌∷◌, ◌++◌, Bool, true, ℕ_discrete, arith, ◌∙◌, ap, sym,
  Bool-cases, inl, inr,
}
use multiplayer_kit.Protocol.{UserContext, RoomConfig, RoomId, ChannelId}
use multiplayer_kit.Room.{Tokio, Instant, Pipes, RoomEntry}
use multiplayer_kit.Ticket.{Jwt}
use multiplayer_kit.Manager.{RoomManager, open_channel, close_channel}
use multiplayer_kit.Manager.Invariant.{IsSound, HasIds, open_channel-IsSound, close_channel-IsSound}
use multiplayer_kit.Manager.Isolation.{room}
use multiplayer_kit.Manager.Opening.{
  opened_of, open_channel_seats, open_channel_refuses, open_channel_seats_or_refuses,
}
use multiplayer_kit.Manager.Occupancy.{
  Occupancy, seated, vacated, apply, replay, occupancy, after, actions,
}
use multiplayer_kit.Manager.Refinement.{
  same_occupancy, occupancy-open_channel, occupancy-close_channel,
}
use multiplayer_kit.Quic.{QuicState}
use multiplayer_kit.Quic.RoomSessions.{
  SessionEvent, accepts, accept_fails, task_ends, RoomSession, is_running, finish, session_step,
  session_loop, close_all, handle_room_connection,
}

module _ {T : UserContext} where
  -- The table after all channels of a session are closed.
  abbrev vacate : RoomId → List (ChannelId × Bool) → Occupancy T → Occupancy T
  vacate id [] o = o
  vacate id ((c, running) ∷ ts) o = vacate id ts (apply (vacated id c) o)

  vacated_twice :
      (id : RoomId) (c : ChannelId) (o : Occupancy T)
      → apply (vacated id c) (apply (vacated id c) o) ≡ apply (vacated id c) o
  unfolding apply
  vacated_twice id c o = same_occupancy _ _ (λ j. refl) (λ j k. ground arith)

  vacated_swap :
      (id : RoomId) (c d : ChannelId) (o : Occupancy T)
      → apply (vacated id c) (apply (vacated id d) o)
        ≡ apply (vacated id d) (apply (vacated id c) o)
  unfolding apply
  vacated_swap id c d o = same_occupancy _ _ (λ j. refl) (λ j k. ground arith)

  vacated-seated :
      (id : RoomId) (c : ChannelId) (u : T.UserId) (o : Occupancy T)
      → o.seat id c ≡ none
      → apply (vacated id c) (apply (seated id c u) o) ≡ o
  unfolding apply
  vacated-seated id c u o h = same_occupancy _ _ (λ j. refl) (λ j k. ground (arith, h))

  vacate-append :
      (id : RoomId) (ts us : List (ChannelId × Bool)) (o : Occupancy T)
      → vacate id (ts ++ us) o ≡ vacate id us (vacate id ts o)
  vacate-append id [] us o = refl
  vacate-append id ((c, b) ∷ ts) us o = vacate-append id ts us (apply (vacated id c) o)

  vacate-vacated :
      (id : RoomId) (ts : List (ChannelId × Bool)) (c : ChannelId) (o : Occupancy T)
      → vacate id ts (apply (vacated id c) o) ≡ apply (vacated id c) (vacate id ts o)
  vacate-vacated id [] c o = refl
  vacate-vacated id ((d, b) ∷ ts) c o =
      ap (vacate id ts) (vacated_swap id d c o) ∙ vacate-vacated id ts c (apply (vacated id d) o)

  -- Closing a channel of the session before the cleanup makes no difference to what the cleanup gives.
  vacate_closed :
      (id : RoomId) (ts : List (ChannelId × Bool)) (c : ChannelId) (o : Occupancy T)
      → is_running c ts ≡ true
      → vacate id ts (apply (vacated id c) o) ≡ vacate id ts o
  vacate_closed id [] c o h = absurd (cc)
  vacate_closed id ((d, b) ∷ ts) c o h = elim (ℕ_discrete d c) [
    | yes e ↦ rw e (ap (vacate id ts) (vacated_twice id c o))
    | no n ↦
        ap (vacate id ts) (vacated_swap id d c o)
        ∙ vacate_closed id ts c (apply (vacated id d) o) (ground (arith, h, n))
  ]

  vacate-finish :
      (id : RoomId) (ts : List (ChannelId × Bool)) (c : ChannelId) (o : Occupancy T)
      → vacate id (finish c ts) o ≡ vacate id ts o
  vacate-finish id [] c o = refl
  vacate-finish id ((d, b) ∷ ts) c o = vacate-finish id ts c (apply (vacated id d) o)

module _ {T : UserContext} {C : RoomConfig} {R : Tokio} where
  close_all-vacate :
      (m : RoomManager T C R) (id : RoomId) (ts : List (ChannelId × Bool)) (now : Instant)
      → IsSound m
      → occupancy (close_all m id ts now) ≡ vacate id ts (occupancy m)
  unfolding close_all after actions replay
  close_all-vacate m id [] now v = refl
  close_all-vacate m id ((c, b) ∷ ts) now v =
      close_all-vacate (close_channel m id c now) id ts now (close_channel-IsSound m id c now v)
      ∙ ap (vacate id ts) (occupancy-close_channel m id c now v)

  -- The next channel of a room is nobody's.
  next_is_free :
      (m : RoomManager T C R) (id : RoomId) (e : RoomEntry T C R)
      → IsSound m
      → room m id ≡ some e
      → (occupancy m).seat id e.next_channel_id ≡ none
  unfolding occupancy
  next_is_free m id e v r = rw r ((v.well_formed id e r).fresh e.next_channel_id (omega arith))

module _ {T : UserContext} {C : RoomConfig} {R : Tokio} {J : Jwt T} where
  -- The handler of the room is running, and the room has channel ids left, whenever a stream is accepted.
  abbrev IsHealthyAt : RoomSession C R J → RoomId → SessionEvent R → Type 0
  IsHealthyAt q id (accepts now p sent) = (sent ≡ true) × HasIds q.state.room_manager id
  IsHealthyAt q id accept_fails = Unit
  IsHealthyAt q id (task_ends c now) = Unit

  abbrev pub IsHealthy : RoomSession C R J → RoomId → T.User → List (SessionEvent R) → Type 0
  IsHealthy q id user [] = Unit
  IsHealthy q id user (v ∷ vs) =
      IsHealthyAt q id v × IsHealthy (session_step q id user v).0 id user vs

  -- The manager is sound, and the cleanup would give the table.
  abbrev CleansTo : Occupancy T → RoomId → RoomSession C R J → Type 0
  CleansTo o id q =
      IsSound q.state.room_manager
      × (vacate id q.channel_tasks (occupancy q.state.room_manager) ≡ o)

  accepts-CleansTo :
      (o : Occupancy T) (q : RoomSession C R J) (id : RoomId) (user : T.User) (now : Instant)
      (p : Pipes R)
      → HasIds q.state.room_manager id
      → CleansTo o id q
      → CleansTo o id (session_step q id user (accepts now p true)).0
  unfolding session_step after actions replay
  accepts-CleansTo o q id user now p h (v, c) =
      let m = q.state.room_manager in
      let sound = open_channel-IsSound m id user now p true h v in
      let seats = occupancy-open_channel m id user now p v in
      elim (open_channel_seats_or_refuses m id user true) [
        | inl (e, r, a, _) ↦
            let answer : (open_channel m id user now p true).answer ≡ some (opened_of e p) =
              ap (λ k. k.answer) (open_channel_seats m id e user now p r a) in
            let taken = rw answer at seats in
            let ts = q.channel_tasks in
            let d = e.next_channel_id in
            let free = next_is_free m id e v r in
            let left = (open_channel m id user now p true).manager in
            rw answer (
              sound,
              vacate-append id ts ((d, true) ∷ []) (occupancy left)
                  ∙ (sym (vacate-vacated id ts d (occupancy left))
                      ∙ (ap (λ x. vacate id ts (apply (vacated id d) x)) taken
                          ∙ (ap (vacate id ts) (vacated-seated id d (T.id user) (occupancy m) free)
                              ∙ c))),
            )
        | inr why ↦
            let answer = (open_channel_refuses m id user now p true why).1 in
            let same = rw answer at seats in
            rw answer (sound, ap (vacate id q.channel_tasks) same ∙ c)
      ]

  ends_CleansTo :
      (o : Occupancy T) (q : RoomSession C R J) (id : RoomId) (user : T.User)
      → CleansTo o id q
      → CleansTo o id (session_step q id user accept_fails).0
  unfolding session_step
  ends_CleansTo o q id user k = k

  task_ends-CleansTo :
      (o : Occupancy T) (q : RoomSession C R J) (id : RoomId) (user : T.User) (c : ChannelId)
      (now : Instant)
      → CleansTo o id q
      → CleansTo o id (session_step q id user (task_ends c now)).0
  unfolding session_step after actions replay
  task_ends-CleansTo o q id user c now (v, k) =
      let m = q.state.room_manager in
      let ts = q.channel_tasks in
      elim (Bool-cases (is_running c ts)) [
        | inl running ↦ rw running (
          close_channel-IsSound m id c now v,
          vacate-finish id ts c (occupancy (close_channel m id c now))
              ∙ (ap (vacate id ts) (occupancy-close_channel m id c now v)
                  ∙ (vacate_closed id ts c (occupancy m) running ∙ k)),
        )
        | inr ended ↦ rw ended (v, k)
      ]

  session_step-CleansTo :
      (o : Occupancy T) (q : RoomSession C R J) (id : RoomId) (user : T.User) (v : SessionEvent R)
      → IsHealthyAt q id v
      → CleansTo o id q
      → CleansTo o id (session_step q id user v).0
  session_step-CleansTo o q id user (accepts now p sent) (there, h) k =
      rw there (accepts-CleansTo o q id user now p h k)
  session_step-CleansTo o q id user accept_fails h k = ends_CleansTo o q id user k
  session_step-CleansTo o q id user (task_ends c now) h k = task_ends-CleansTo o q id user c now k

  session_loop-CleansTo :
      (o : Occupancy T) (q : RoomSession C R J) (id : RoomId) (user : T.User)
      (vs : List (SessionEvent R))
      → IsHealthy q id user vs
      → CleansTo o id q
      → CleansTo o id (session_loop q id user vs)
  unfolding session_loop
  session_loop-CleansTo o q id user [] h k = k
  session_loop-CleansTo o q id user (v ∷ vs) h k =
      let stepped = session_step-CleansTo o q id user v h.0 k in
      let rest = session_loop-CleansTo o (session_step q id user v).0 id user vs h.1 stepped in
      elim (Bool-cases (session_step q id user v).1) [
        | inl goes_on ↦ rw goes_on rest
        | inr breaks ↦ rw breaks stepped
      ]

  -- In a sound manager, a connection to a room, whatever channels it opens and whatever tasks end before it does,
  -- leaves the rooms open that were open, and each channel with the user who held it before, if the
  -- handler of the room is running and has channel ids left whenever a stream is accepted.
  pub handle_room_connection-occupancy :
      (s : QuicState C R J) (id : RoomId) (user : T.User) (vs : List (SessionEvent R))
      (now : Instant)
      → IsSound s.room_manager
      → IsHealthy (record { state = s; channel_tasks = [] }) id user vs
      → occupancy (handle_room_connection s id user vs now).room_manager ≡ occupancy s.room_manager
  unfolding handle_room_connection
  handle_room_connection-occupancy s id user vs now v h =
      let q : RoomSession C R J =
        session_loop (record { state = s; channel_tasks = [] }) id user vs in
      let (sound, cleans) =
        session_loop-CleansTo (occupancy s.room_manager) (record { state = s; channel_tasks = [] })
          id user vs h (v, refl) in
      close_all-vacate q.state.room_manager id q.channel_tasks now sound ∙ cleans
