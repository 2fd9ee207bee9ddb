-- ===== src/Room/Leak.antt =====
-- server/src/room.rs: histories of one room, and the channel that `open_channel` leaves behind when
-- the handler is gone.
use multiplayer_kit.Base.{
  ◌+◌, ◌^◌, ◌≤◌, ◌<◌, ◌≡◌, ◌≢◌, none, some, List, [], ◌∷◌, length, All, Bool, true, false, arith,
}
use multiplayer_kit.Protocol.{UserContext, RoomConfig, ChannelId}
use multiplayer_kit.Room.{Tokio, Instant, RoomEntry, Pipes, admits, open_entry, close_entry}
use multiplayer_kit.Room.Invariant.{WellFormed, open_entry-WellFormed, close_entry-WellFormed}
use multiplayer_kit.Room.Sessions.{holder, holder-open_entry, holder-close_entry}

-- What the transports do to a room.
pub data RoomCall (T : UserContext) (R : Tokio) : Type 0 where
  opens : T.User → Instant → Pipes R → Bool → RoomCall T R
  closes : ChannelId → Instant → RoomCall T R

module _ {T : UserContext} {R : Tokio} where
  abbrev pub DoesNotClose : ChannelId → RoomCall T R → Type 0
  DoesNotClose c (opens user now p sent) = Unit
  DoesNotClose c (closes j now) = j ≢ c

module _ {T : UserContext} {C : RoomConfig} {R : Tokio} where
  unfoldable pub after : RoomEntry T C R → RoomCall T R → RoomEntry T C R
  after e (opens user now p sent) = (open_entry e user now p sent).entry
  after e (closes c now) = close_entry e c now

  unfoldable pub run : RoomEntry T C R → List (RoomCall T R) → RoomEntry T C R
  run e [] = e
  run e (q ∷ qs) = run (after e q) qs

  after-next :
      (e : RoomEntry T C R) (q : RoomCall T R)
      → e.next_channel_id + 1 < 2 ^ 64
      → (e.next_channel_id ≤ (after e q).next_channel_id)
        × ((after e q).next_channel_id ≤ e.next_channel_id + 1)
  unfolding after open_entry close_entry
  after-next e (opens user now p sent) h = ground arith
  after-next e (closes c now) h = omega arith

  after-WellFormed :
      (e : RoomEntry T C R) (q : RoomCall T R)
      → e.next_channel_id + 1 < 2 ^ 64
      → WellFormed e
      → WellFormed (after e q)
  unfolding after
  after-WellFormed e (opens user now p sent) h v = open_entry-WellFormed e user now p sent h v
  after-WellFormed e (closes c now) h v = close_entry-WellFormed e c now v

  -- After any calls the room is well formed, as long as the channel ids do not wrap around.
  pub run-WellFormed :
      (e : RoomEntry T C R) (qs : List (RoomCall T R))
      → e.next_channel_id + length qs < 2 ^ 64
      → WellFormed e
      → WellFormed (run e qs)
  unfolding run
  run-WellFormed e [] h v = v
  run-WellFormed e (q ∷ qs) h v =
      run-WellFormed (after e q) qs (omega (arith, after-next e q))
        (after-WellFormed e q (omega arith) v)

  after_keeps :
      (e : RoomEntry T C R) (c : ChannelId) (u : T.UserId) (q : RoomCall T R)
      → WellFormed e
      → c < e.next_channel_id
      → holder e c ≡ some u
      → DoesNotClose c q
      → holder (after e q) c ≡ some u
  unfolding after
  after_keeps e c u (opens user now p sent) v h k d =
      ground (arith, holder-open_entry e user now p sent c v)
  after_keeps e c u (closes j now) v h k d = ground (arith, holder-close_entry e j now c v)

  -- A channel stays with its holder until it is closed.
  pub run_keeps :
      (e : RoomEntry T C R) (c : ChannelId) (u : T.UserId) (qs : List (RoomCall T R))
      → WellFormed e
      → e.next_channel_id + length qs < 2 ^ 64
      → c < e.next_channel_id
      → holder e c ≡ some u
      → All (DoesNotClose c) qs
      → holder (run e qs) c ≡ some u
  unfolding run
  run_keeps e c u [] v n h k d = k
  run_keeps e c u (q ∷ qs) v n h k d =
      run_keeps (after e q) c u qs (after-WellFormed e q (omega arith) v)
        (omega (arith, after-next e q)) (omega (arith, after-next e q))
        (after_keeps e c u q v h k d.0) d.1

  -- If a room is well formed, admits a user, and its handler is gone, then `open_channel` answers
  -- `None`, but the channel that it has entered stays with the user, whatever is opened and closed
  -- later, as long as nothing closes the id that was not answered and ids do not wrap around.
  pub open_entry_leak :
      (e : RoomEntry T C R) (user : T.User) (now : Instant) (p : Pipes R) (qs : List (RoomCall T R))
      → WellFormed e
      → e.next_channel_id + 1 + length qs < 2 ^ 64
      → admits e (T.id user) ≡ true
      → All (DoesNotClose e.next_channel_id) qs
      → let o = open_entry e user now p false in
        (o.answer ≡ none) × (holder (run o.entry qs) e.next_channel_id ≡ some (T.id user))
  unfolding open_entry
  open_entry_leak e user now p qs v n a d =
      let e' = (open_entry e user now p false).entry in
      (
        ground arith,
        run_keeps e' e.next_channel_id (T.id user) qs
            (open_entry-WellFormed e user now p false (omega arith) v) (ground arith) (ground arith)
            (ground (arith, holder-open_entry e user now p false e.next_channel_id v)) d,
      )
