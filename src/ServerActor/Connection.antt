-- ===== src/ServerActor/Connection.antt =====
-- helpers/src/server_actor/channel.rs: when users are connected and disconnected.
use multiplayer_kit.Base.{
  ℕ, ◌+◌, ◌≤◌, ◌≡◌, refl, Option, some, List, [], ◌∷◌, is_some, Bool-cases, if◌then◌else◌,
  ℕ_discrete, arith, Option-cases, inl, inr,
}
use multiplayer_kit.Base.Map.{Map, get, contains_key, get-insert, get-remove}
use multiplayer_kit.Protocol.{UserContext, ChannelId}
use multiplayer_kit.Framing.{MessageBuffer}
use multiplayer_kit.ChannelMessage.{ChannelMessage}
use multiplayer_kit.ServerActor.Cases.{read_cases}
use multiplayer_kit.ServerActor.{
  InternalServerEvent, Tables, Task, Outcome, pending_entry, identified, closed, read, System, Turn,
  accepts, answers, sends, empty, next_unsent, turn, run,
}
use multiplayer_kit.ServerActor.Reports.{
  readies, gones, readies-append, gones-append, deliver-silent, unsent_events,
  unsent_events-of_task, next_unsent-counts,
}

module _ {T : UserContext} {M : ChannelMessage} where
  -- 1 for a connected user.
  abbrev pub connected : T.UserId → Tables T M → ℕ
  connected u t = if contains_key T.id_discrete u t.connected_users then 1 else 0

  -- A pending user is filed under the user's id.
  abbrev pub IsFiled : Tables T M → Type 0
  IsFiled t =
      (u : T.UserId) (v : T.User) (m : Map M.Channel ChannelId)
      → get T.id_discrete u t.pending_users ≡ some (v, m)
      → T.id v ≡ u

  -- A `user_gone` ends a connection that a `user_ready` has begun.
  abbrev Balanced : T.UserId → Tables T M → Outcome T M → Type 0
  Balanced u t o = gones u o.events + connected u o.tables ≤ readies u o.events + connected u t

  pending_entry-id :
      (t : Tables T M) (task : Task T M) (ct : M.Channel)
      → IsFiled t
      → T.id (pending_entry t task ct).0 ≡ T.id task.user
  unfolding pending_entry
  pending_entry-id t task ct f =
      elim (Option-cases (get T.id_discrete (T.id task.user) t.pending_users)) [
        | inl e ↦ rw (e, pending_entry) refl
        | inr ((v, m), e) ↦ rw (e, pending_entry) (f (T.id task.user) v m e)
      ]

  identified-Balanced :
      (u : T.UserId) (expected : ℕ) (t : Tables T M) (task : Task T M) (ct : M.Channel)
      (rest : MessageBuffer)
      → IsFiled t
      → Balanced u t (identified expected t task ct rest)
  unfolding identified readies gones
  identified-Balanced u expected t task ct rest f = ground (
    arith,
    pending_entry-id t task ct f,
    get-insert T.id_discrete (T.id task.user) u (pending_entry t task ct).0 t.connected_users,
  )

  closed-Balanced : (u : T.UserId) (t : Tables T M) (task : Task T M) → Balanced u t (closed t task)
  unfolding closed readies gones
  closed-Balanced u t task =
      ground (arith, get-remove T.id_discrete (T.id task.user) u t.connected_users)

  read-Balanced :
      (u : T.UserId) (expected : ℕ) (t : Tables T M) (task : Task T M) (answer : Option (List ℕ))
      → IsFiled t
      → Balanced u t (read expected t task answer)
  unfolding readies gones
  read-Balanced u expected t task answer f =
      read_cases (Balanced u t) expected t task (λ phase. omega arith)
        (λ ct rest. identified-Balanced u expected t task ct rest f)
        (λ ct m items. omega (arith, deliver-silent T M u task.user ct items))
        (closed-Balanced u t task) answer

  identified-IsFiled :
      (expected : ℕ) (t : Tables T M) (task : Task T M) (ct : M.Channel) (rest : MessageBuffer)
      → IsFiled t
      → IsFiled (identified expected t task ct rest).tables
  unfolding identified
  identified-IsFiled expected t task ct rest f u v m h = ground (
    arith,
    f u v m,
    pending_entry-id t task ct f,
    get-insert T.id_discrete (T.id task.user) u (pending_entry t task ct) t.pending_users,
    get-remove T.id_discrete (T.id task.user) u t.pending_users,
  )

  closed-IsFiled : (t : Tables T M) (task : Task T M) → IsFiled t → IsFiled (closed t task).tables
  unfolding closed
  closed-IsFiled t task f u v m h =
      ground (arith, f u v m, get-remove T.id_discrete (T.id task.user) u t.pending_users)

  read-IsFiled :
      (expected : ℕ) (t : Tables T M) (task : Task T M) (answer : Option (List ℕ))
      → IsFiled t
      → IsFiled (read expected t task answer).tables
  read-IsFiled expected t task answer f =
      read_cases (λ o. IsFiled o.tables) expected t task (λ phase. f)
        (λ ct rest. identified-IsFiled expected t task ct rest f) (λ ct m items. f)
        (closed-IsFiled t task f) answer

  -- The reports of a turn and those still to be sent, counted against those to be sent before.
  abbrev Keeps : T.UserId → System T M → System T M × List (InternalServerEvent T M) → Type 0
  Keeps u s r =
      (gones u r.1
          + gones u (unsent_events r.0.unsent)
          + connected u r.0.tables
          + readies u (unsent_events s.unsent)
        ≤ readies u r.1
          + readies u (unsent_events r.0.unsent)
          + connected u s.tables
          + gones u (unsent_events s.unsent))
      × IsFiled r.0.tables

  idle-Keeps : (u : T.UserId) (s : System T M) → IsFiled s.tables → Keeps u s (s, [])
  unfolding readies gones
  idle-Keeps u s f = (omega arith, f)

  turn-Keeps :
      (u : T.UserId) (expected : ℕ) (s : System T M) (x : Turn T)
      → IsFiled s.tables
      → Keeps u s (turn expected s x)
  unfolding turn
  turn-Keeps u expected s (accepts c user) f = ((idle-Keeps u s f).0, f)
  turn-Keeps u expected s (answers c answer) f =
      elim (Bool-cases (is_some (next_unsent c s.unsent))) [
        | inl busy ↦ rw (busy, turn) (idle-Keeps u s f)
        | inr free ↦ elim (Option-cases (get ℕ_discrete c s.tasks)) [
          | inl e ↦ rw (free, e, turn) (idle-Keeps u s f)
          | inr (task, e) ↦
              let o = read expected s.tables task answer in
              let balanced = read-Balanced u expected s.tables task answer f in
              rw (free, e, turn)
                (
                  rw (unsent_events-of_task task.channel_id s.unsent o.events) (
                      omega (
                        arith,
                        balanced,
                        (idle-Keeps u s f).0,
                        readies-append u (unsent_events s.unsent) o.events,
                        gones-append u (unsent_events s.unsent) o.events,
                      )),
                  read-IsFiled expected s.tables task answer f,
                )
        ]
      ]
  turn-Keeps u expected s (sends c) f = elim (Option-cases (next_unsent c s.unsent)) [
    | inl n ↦ rw (n, turn) (idle-Keeps u s f)
    | inr ((e, rest), n) ↦
        let (r, g) = next_unsent-counts u c s.unsent rest e n in
        rw (n, turn) (omega (arith, r, g), f)
  ]

  run_balance :
      (u : T.UserId) (expected : ℕ) (s : System T M) (xs : List (Turn T))
      → IsFiled s.tables
      → Keeps u s (run expected s xs)
  unfolding run
  run_balance u expected s [] f = idle-Keeps u s f
  run_balance u expected s (x ∷ xs) f =
      let (now, filed) = turn-Keeps u expected s x f in
      let (later, filed') = run_balance u expected (turn expected s x).0 xs filed in
      let es = (turn expected s x).1 in
      let fs = (run expected (turn expected s x).0 xs).1 in
      (omega (arith, now, later, readies-append u es fs, gones-append u es fs), filed')

module _ (T : UserContext) (M : ChannelMessage) where
  empty-IsFiled : IsFiled (empty {T = T} {M = M}).tables
  unfolding empty get
  empty-IsFiled u v m h = absurd (cc)

  -- However the tasks interleave at their reads and at their sends, and whatever they read: of the
  -- reports that have come into the queue of the room and those that its tasks have still to send, those
  -- that a user has disconnected are at most as many as those that the user has connected. (In the queue
  -- alone they may be more: the report of a connection may be sent behind that of its end.)
  pub run-gones-le-readies :
      (u : T.UserId) (expected : ℕ) (xs : List (Turn T))
      → let r = run expected (empty {T = T} {M = M}) xs in
        let left = unsent_events r.0.unsent in
        gones u r.1 + gones u left ≤ readies u r.1 + readies u left
  unfolding empty get unsent_events readies gones
  run-gones-le-readies u expected xs =
      let (all, filed) = run_balance u expected (empty {T = T} {M = M}) xs empty-IsFiled in
      omega arith
