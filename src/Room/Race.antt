-- ===== src/Room/Race.antt =====
-- server/src/room.rs: two calls of `open_channel` on one room that run at the same time. Both hold a
-- shared reference to the entry, so both may check `max_players` before either of them enters.
use multiplayer_kit.Base.{ℕ, ◌+◌, ◌^◌, ◌<◌, ◌≡◌, ◌≢◌, some, true, false, arith}
use multiplayer_kit.Base.Map.{get, contains_key, get-insert}
use multiplayer_kit.Base.Set.{set_insert}
use multiplayer_kit.Protocol.{UserContext, RoomConfig}
use multiplayer_kit.Room.{Tokio, Instant, RoomEntry, Pipes, join, admits, enter}
use multiplayer_kit.Room.Users.{UserChannels, or_default, length-track, track}
use multiplayer_kit.Room.Invariant.{WellFormed}
use multiplayer_kit.Room.Admission.{users, is_present}

absent-track :
    {K : Type 0} (d : Discrete K) (u w : K) (c : ℕ) (m : UserChannels K)
    → u ≢ w
    → contains_key d w m ≡ false
    → contains_key d w (track d u c m) ≡ false
unfolding track
absent-track d u w c m apart h =
    ground (arith, get-insert d u w (set_insert c (or_default (get d u m))) m)

module _ {T : UserContext} {C : RoomConfig} {R : Tokio} where
  -- If two different users who are not in a well-formed room ask for its last place at the same time,
  -- then the check lets both in, and the room has one user more than its limit allows.
  pub enter_race :
      (e : RoomEntry T C R) (user other : T.User) (now later : Instant) (p q : Pipes R) (max : ℕ)
      → WellFormed e
      → C.max_players e.config ≡ some max
      → max < 2 ^ 32
      → users e + 1 ≡ max
      → is_present e (T.id user) ≡ false
      → is_present e (T.id other) ≡ false
      → T.id user ≢ T.id other
      → (admits e (T.id user) ≡ true)
        × (admits e (T.id other) ≡ true)
        × (users (enter (enter e user now p true).entry other later q true).entry ≡ max + 1)
  unfolding admits enter join
  enter_race e user other now later p q max v m small last h k apart = (
    ground (arith, v.counted),
    ground (arith, v.counted),
    ground (
      arith,
      length-track T.id_discrete (T.id user) e.next_channel_id e.shared.user_channels,
      length-track T.id_discrete (T.id other) (enter e user now p true).entry.next_channel_id
          (track T.id_discrete (T.id user) e.next_channel_id e.shared.user_channels),
      absent-track T.id_discrete (T.id user) (T.id other) e.next_channel_id e.shared.user_channels
          apart k,
    ),
  )
