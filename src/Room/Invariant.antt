-- ===== src/Room/Invariant.antt =====
-- server/src/room.rs: what holds of a room's shared state between operations.
use multiplayer_kit.Base.{
  ℕ, suc, ◌+◌, ◌-◌, ◌%◌, ◌^◌, ◌≤◌, ◌<◌, ◌≡◌, refl, none, [], length, All, Bool, arith, ℕ_discrete,
  is_some, if◌then◌else◌, Bool-cases, inl, inr,
}
use multiplayer_kit.Base.Map.{
  get, contains_key, Distinct, get-insert, get-remove, insert-Distinct, remove-Distinct,
}
use multiplayer_kit.Protocol.{UserContext, RoomConfig, ChannelId}
use multiplayer_kit.Room.{
  Tokio, Instant, RoomShared, RoomEntry, Pipes, join, admits, open_entry, close_entry, close_shared,
}
use multiplayer_kit.Room.Users.{
  owner, Once, NonEmpty, close_users-forget, owner-forget, forget-NonEmpty, forget-Once,
  forget-Distinct, length-forget, owner-track, track-NonEmpty, track-Once, track-Distinct,
  length-track,
}

-- `next` is the channel id that the room hands out next.
pub record IsConsistent {T : UserContext} {R : Tokio} (s : RoomShared T R) (next : ℕ) : Type 0 where
  pub distinct : Distinct T.id_discrete s.user_channels
  pub non_empty : All NonEmpty s.user_channels
  pub once : (c : ChannelId) → Once c s.user_channels
  pub fresh : (c : ChannelId) → next ≤ c → owner c s.user_channels ≡ none
  pub counted : s.user_count ≡ length s.user_channels % 2 ^ 32
  pub listed :
      (c : ChannelId) → contains_key ℕ_discrete c s.channels ≡ is_some (owner c s.user_channels)
  pub senders_distinct : Distinct ℕ_discrete s.channels

count-close :
    (count n m : ℕ) (b : Bool)
    → count ≡ n % 2 ^ 32
    → n ≡ m + (if b then 1 else 0)
    → (if b then (count + 2 ^ 32 - 1) % 2 ^ 32 else count) ≡ m % 2 ^ 32
count-close count n m b h k = ground arith

module _ {T : UserContext} {R : Tokio} where
  count-track :
      (s : RoomShared T R) (u : T.UserId) (c : ChannelId) (n : ℕ) (b : Bool)
      → s.user_count ≡ n % 2 ^ 32
      → (if b then s.user_count else (s.user_count + 1) % 2 ^ 32)
        ≡ (n + (if b then 0 else 1)) % 2 ^ 32
  count-track s u c n b h = ground arith

  pub join-IsConsistent :
      (s : RoomShared T R) (u : T.UserId) (next : ℕ) (tx : R.Sender)
      → IsConsistent s next
      → IsConsistent (join s u next tx) (suc next)
  unfolding join
  join-IsConsistent s u next tx v = record {
    distinct = track-Distinct T.id_discrete u next s.user_channels v.distinct;
    non_empty = track-NonEmpty T.id_discrete u next s.user_channels v.non_empty;
    once = λ c. track-Once T.id_discrete u next c s.user_channels new (v.once c);
    fresh =
        λ c h. ground (arith, owner-track T.id_discrete u next c s.user_channels new, v.fresh c);
    counted =
        rw (length-track T.id_discrete u next s.user_channels) (count-track s u next _ _ v.counted);
    listed = λ c. ground (
      arith,
      v.listed c,
      get-insert ℕ_discrete next c (record { write_tx = tx }) s.channels,
      owner-track T.id_discrete u next c s.user_channels new,
    );
    senders_distinct = insert-Distinct ℕ_discrete next _ s.channels v.senders_distinct;
  }
    where
      new : owner next s.user_channels ≡ none
      new = v.fresh next (omega arith)

  re_stamp :
      {s : RoomShared T R} {next : ℕ} {now : Instant}
      → IsConsistent s next
      → IsConsistent (record s { last_activity = now }) next
  re_stamp v = record {
    distinct = v.distinct;
    non_empty = v.non_empty;
    once = v.once;
    fresh = v.fresh;
    counted = v.counted;
    listed = v.listed;
    senders_distinct = v.senders_distinct;
  }

module _ {T : UserContext} {R : Tokio} where
  -- A room without channels.
  pub empty-IsConsistent :
      (now : Instant)
      → IsConsistent {T = T} {R = R}
          (record { channels = []; user_channels = []; user_count = 0; last_activity = now })
          1
  empty-IsConsistent now =
      unfold Distinct Once owner get in
      record {
        distinct = tt;
        non_empty = tt;
        once = λ c. tt;
        fresh = λ c h. refl;
        counted = refl;
        listed = λ c. refl;
        senders_distinct = tt;
      }

module _ {T : UserContext} {C : RoomConfig} {R : Tokio} where
  abbrev pub WellFormed : RoomEntry T C R → Type 0
  WellFormed e = IsConsistent e.shared e.next_channel_id

  pub open_entry-WellFormed :
      (e : RoomEntry T C R) (user : T.User) (now : Instant) (p : Pipes R) (sent : Bool)
      → e.next_channel_id + 1 < 2 ^ 64
      → WellFormed e
      → WellFormed (open_entry e user now p sent).entry
  unfolding open_entry
  open_entry-WellFormed e user now p sent small v =
      let n = e.next_channel_id in
      let wrap : (n + 1) % 2 ^ 64 ≡ suc n = omega arith in
      let joined = join-IsConsistent e.shared (T.id user) n p.write_tx v in
      elim (Bool-cases (admits e (T.id user))) [
        | inl yes_ ↦ elim (Bool-cases sent) [
          | inl s ↦ rw (yes_, s, wrap) (re_stamp joined)
          | inr s ↦ rw (yes_, s, wrap) joined
        ]
        | inr full ↦ rw full v
      ]

  pub close_entry-WellFormed :
      (e : RoomEntry T C R) (c : ChannelId) (now : Instant)
      → WellFormed e
      → WellFormed (close_entry e c now)
  unfolding close_entry close_shared
  close_entry-WellFormed e c now v =
      let users = e.shared.user_channels in
      let same = close_users-forget T.id_discrete c users v.distinct v.non_empty (v.once c) in
      record {
        distinct = rw same (forget-Distinct T.id_discrete c users v.distinct);
        non_empty = rw same (forget-NonEmpty c users);
        once = λ j. rw same (forget-Once c j users (v.once j));
        fresh = λ j h. rw same (ground (arith, owner-forget c j users, v.fresh j));
        counted = rw same (
            count-close e.shared.user_count _ _ _ v.counted
              (length-forget c users v.non_empty (v.once c)));
        listed = λ j. rw same (
            ground (
              arith,
              v.listed j,
              get-remove ℕ_discrete c j e.shared.channels,
              owner-forget c j users,
            ));
        senders_distinct = remove-Distinct ℕ_discrete c e.shared.channels v.senders_distinct;
      }
