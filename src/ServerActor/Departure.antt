-- ===== src/ServerActor/Departure.antt =====
-- helpers/src/server_actor/channel.rs: what a closed channel leaves behind.
use multiplayer_kit.Base.{
  ℕ, ◌≤◌, ◌≡◌, ◌≢◌, some, List, [], ◌∷◌, ◌++◌, true, false, ℕ_discrete, arith,
}
use multiplayer_kit.Base.Map.{
  Map, get, insert, remove, contains_key, get-remove, Distinct, remove-Distinct,
}
use multiplayer_kit.Protocol.{UserContext, ChannelId}
use multiplayer_kit.Framing.{MessageBuffer, push}
use multiplayer_kit.ChannelMessage.{ChannelMessage}
use multiplayer_kit.ServerActor.{
  user_gone, Tables, running, Task, pending_entry, identified, deliver, without_user, closed,
  read_in, read,
}

module _ (T : UserContext) {A : Type 0} where
  -- What is left in the table was there, and is not the user's.
  get-without_user :
      (u : T.UserId) (m : Map ChannelId (T.User × A)) (c : ChannelId) (v : T.User) (a : A)
      → Distinct ℕ_discrete m
      → get ℕ_discrete c (without_user T u m) ≡ some (v, a)
      → (T.id v ≢ u) × (get ℕ_discrete c m ≡ some (v, a))
  unfolding without_user get Distinct
  get-without_user u [] c v a d h = absurd (cc)
  get-without_user u ((j, (w, k)) ∷ m) c v a d h = (
    λ same. ground (arith, get-without_user u m c v a d.1),
    ground (arith, get-without_user u m c v a d.1),
  )

  get-without_user_other :
      (u : T.UserId) (m : Map ChannelId (T.User × A)) (c : ChannelId) (v : T.User) (a : A)
      → T.id v ≢ u
      → get ℕ_discrete c m ≡ some (v, a)
      → get ℕ_discrete c (without_user T u m) ≡ some (v, a)
  unfolding without_user get
  get-without_user_other u [] c v a other h = absurd (cc)
  get-without_user_other u ((j, (w, k)) ∷ m) c v a other h =
      ground (arith, get-without_user_other u m c v a other)

module _ {T : UserContext} {M : ChannelMessage} where
  -- When a channel of a connected user closes, and channel ids are distinct, the user is reported
  -- gone, is no longer connected and has no channel in the routing table; the other channels of other
  -- users stay in it.
  pub closed_connected :
      (t : Tables T M) (task : Task T M)
      → Distinct ℕ_discrete t.user_channels
      → contains_key T.id_discrete (T.id task.user) t.connected_users ≡ true
      → let o = closed t task in
        (o.events ≡ user_gone task.user ∷ [])
        × (contains_key T.id_discrete (T.id task.user) o.tables.connected_users ≡ false)
        × ((c : ChannelId) (v : T.User) (ct : M.Channel)
            → get ℕ_discrete c o.tables.user_channels ≡ some (v, ct)
            → T.id v ≢ T.id task.user)
        × ((c : ChannelId) (v : T.User) (ct : M.Channel)
            → get ℕ_discrete c t.user_channels ≡ some (v, ct)
            → T.id v ≢ T.id task.user
            → c ≢ task.channel_id
            → get ℕ_discrete c o.tables.user_channels ≡ some (v, ct))
  unfolding closed
  closed_connected t task d h = (
    ground arith,
    ground (arith, get-remove T.id_discrete (T.id task.user) (T.id task.user) t.connected_users),
    λ c v ct found.
        (get-without_user T (T.id task.user) (remove ℕ_discrete task.channel_id t.user_channels) c v
          ct (remove-Distinct ℕ_discrete task.channel_id t.user_channels d) (ground arith)).0,
    λ c v ct found other apart. ground (
      arith,
      get-remove ℕ_discrete task.channel_id c t.user_channels,
      get-without_user_other T (T.id task.user) (remove ℕ_discrete task.channel_id t.user_channels)
          c v ct other,
    ),
  )

  -- When a channel of a connected user closes, the task of no other channel stops, be it of the same
  -- user: the messages that it reads afterwards go to the room's actor, behind the report that the
  -- user is gone.
  pub closed-read :
      (expected : ℕ) (t : Tables T M) (gone other : Task T M) (ct : M.Channel) (m : MessageBuffer)
      (bytes : List ℕ)
      → contains_key T.id_discrete (T.id gone.user) t.connected_users ≡ true
      → other.phase ≡ running ct m
      → (closed t gone).events ++ (read expected (closed t gone).tables other (some bytes)).events
        ≡ user_gone gone.user ∷ deliver other.user ct (push m bytes).0
  unfolding closed read read_in
  closed-read expected t gone other ct m bytes h k = rw (h, closed) (rw (k, read))

  -- When a channel of a user who is not connected closes, then no channel of that user is counted any
  -- more: the user's next channel does not complete a connection of two channels or more.
  pub identified-closed :
      (expected : ℕ) (t : Tables T M) (gone next : Task T M) (ct : M.Channel) (rest : MessageBuffer)
      → contains_key T.id_discrete (T.id gone.user) t.connected_users ≡ false
      → T.id next.user ≡ T.id gone.user
      → 2 ≤ expected
      → (identified expected (closed t gone).tables next ct rest).events ≡ []
  unfolding closed identified pending_entry insert
  identified-closed expected t gone next ct rest h k two =
      ground (arith, get-remove T.id_discrete (T.id gone.user) (T.id next.user) t.pending_users)
