-- ===== src/Room/Sessions.antt =====
-- server/src/room.rs: the room as a map from open channels to the users who hold them.
use multiplayer_kit.Base.{
  ℕ, ◌+◌, ◌-◌, ◌%◌, ◌^◌, ◌≡◌, refl, ite, Option, none, some, length, Bool, true, arith, ℕ_discrete,
  if◌then◌else◌, sym, ◌∙◌,
}
use multiplayer_kit.Base.Map.{remove-insert}
use multiplayer_kit.Protocol.{UserContext, RoomConfig, ChannelId}
use multiplayer_kit.Room.{
  Tokio, Instant, RoomShared, RoomEntry, Pipes, join, admits, Opened, open_entry, close_entry,
  close_shared,
}
use multiplayer_kit.Room.Users.{
  owner, track, close_users-forget, owner-forget, owner-track, length-track, length-forget,
  forget-track, track-Distinct, track-NonEmpty, track-Once,
}
use multiplayer_kit.Room.Invariant.{IsConsistent, WellFormed, join-IsConsistent}

module _ {T : UserContext} {R : Tokio} where
  count_back :
      (s : RoomShared T R) (m : ℕ) (b new : Bool)
      → s.user_count ≡ m % 2 ^ 32
      → m + (if new then 0 else 1) ≡ m + (if b then 1 else 0)
      → (if b
          then ((if new then s.user_count else (s.user_count + 1) % 2 ^ 32) + 2 ^ 32 - 1) % 2 ^ 32
          else (if new then s.user_count else (s.user_count + 1) % 2 ^ 32))
        ≡ s.user_count
  count_back s m b new h k = ground arith

  -- Opening a channel and closing it again gives back the shared state, but for the time stamp.
  pub close_shared-join :
      (s : RoomShared T R) (u : T.UserId) (next : ℕ) (tx : R.Sender) (now : Instant)
      → IsConsistent s next
      → close_shared (join s u next tx) next now ≡ record s { last_activity = now }
  unfolding close_shared join
  close_shared-join s u next tx now v =
      let m = s.user_channels in
      let new = v.fresh next (omega arith) in
      let there = join-IsConsistent s u next tx v in
      let gone = forget-track T.id_discrete u next m v.non_empty new in
      let same =
        close_users-forget T.id_discrete next (track T.id_discrete u next m)
          (track-Distinct T.id_discrete u next m v.distinct)
          (track-NonEmpty T.id_discrete u next m v.non_empty)
          (track-Once T.id_discrete u next next m new (v.once next))
        ∙ gone in
      let counts =
        length-forget next (track T.id_discrete u next m)
          (track-NonEmpty T.id_discrete u next m v.non_empty)
          (track-Once T.id_discrete u next next m new (v.once next)) in
      let channels =
        remove-insert ℕ_discrete next (record { write_tx = tx }) s.channels
          (ground (arith, v.listed next, new)) in
      let count =
        count_back s (length m) _ _ v.counted
          (sym (length-track T.id_discrete u next m) ∙ rw gone at counts) in
      λ i. record {
        channels = channels i;
        user_channels = same i;
        user_count = count i;
        last_activity = now;
      }

  close_shared_stamp :
      (s : RoomShared T R) (stamp : Instant) (c : ChannelId) (now : Instant)
      → close_shared (record s { last_activity = stamp }) c now ≡ close_shared s c now
  unfolding close_shared
  close_shared_stamp s stamp c now = refl

module _ {T : UserContext} {C : RoomConfig} {R : Tokio} where
  -- The user who holds a channel, if it is open.
  abbrev pub holder : RoomEntry T C R → ChannelId → Option T.UserId
  holder e c = owner c e.shared.user_channels

  -- Opening, where the user is admitted, gives the next channel to the user and moves no other.
  pub holder-open_entry :
      (e : RoomEntry T C R) (user : T.User) (now : Instant) (p : Pipes R) (sent : Bool)
      (j : ChannelId)
      → WellFormed e
      → holder (open_entry e user now p sent).entry j ≡ (
          if admits e (T.id user)
          then ite (ℕ_discrete e.next_channel_id j) (some (T.id user)) (holder e j)
          else holder e j)
  unfolding open_entry join
  holder-open_entry e user now p sent j v =
      let users = e.shared.user_channels in
      ground (
        arith,
        owner-track T.id_discrete (T.id user) e.next_channel_id j users
            (v.fresh e.next_channel_id (omega arith)),
      )

  -- In a well-formed room, closing a channel takes it from its holder and moves no other.
  pub holder-close_entry :
      (e : RoomEntry T C R) (c : ChannelId) (now : Instant) (j : ChannelId)
      → WellFormed e
      → holder (close_entry e c now) j ≡ ite (ℕ_discrete c j) none (holder e j)
  unfolding close_entry close_shared
  holder-close_entry e c now j v =
      let users = e.shared.user_channels in
      rw (close_users-forget T.id_discrete c users v.distinct v.non_empty (v.once c))
        (owner-forget c j users)

  -- In a well-formed room, a transport that opens a channel and closes it again leaves the room as it
  -- was, but for the next channel id and the time stamp.
  pub close_entry-open_entry :
      (e : RoomEntry T C R) (user : T.User) (now later : Instant) (p : Pipes R) (o : Opened R)
      → WellFormed e
      → (open_entry e user now p true).answer ≡ some o
      → close_entry (open_entry e user now p true).entry o.channel_id later ≡ record e {
        next_channel_id = (e.next_channel_id + 1) % 2 ^ 64;
        shared = record e.shared { last_activity = later };
      }
  unfolding open_entry close_entry
  close_entry-open_entry e user now later p o v a =
      let joined = join e.shared (T.id user) e.next_channel_id p.write_tx in
      ground (
        arith,
        close_shared_stamp joined now e.next_channel_id later,
        close_shared-join e.shared (T.id user) e.next_channel_id p.write_tx later v,
      )
