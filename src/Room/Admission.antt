-- ===== src/Room/Admission.antt =====
-- server/src/room.rs: who is let in by `open_channel`, and what a closed channel leaves behind.
use multiplayer_kit.Base.{
  ℕ, ◌^◌, ◌≤◌, ◌<◌, ◌≡◌, some, length, Bool, false, arith, inl, inr, Option-cases, ◌↔◌,
}
use multiplayer_kit.Base.Map.{contains_key}
use multiplayer_kit.Protocol.{UserContext, RoomConfig}
use multiplayer_kit.Room.{Tokio, Instant, RoomEntry, Pipes, join, admits, open_entry}
use multiplayer_kit.Room.Users.{length-track}
use multiplayer_kit.Room.Invariant.{WellFormed}

module _ {T : UserContext} {C : RoomConfig} {R : Tokio} where
  abbrev pub users : RoomEntry T C R → ℕ
  users e = length e.shared.user_channels

  abbrev pub is_present : RoomEntry T C R → T.UserId → Bool
  is_present e u = contains_key T.id_discrete u e.shared.user_channels

  -- A well-formed room of less than 2^32 users turns a user away exactly if it has a limit, the user
  -- has no channel in the room yet, and as many users as the limit allows have one.
  pub admits-false_iff :
      (e : RoomEntry T C R) (u : T.UserId)
      → WellFormed e
      → users e < 2 ^ 32
      → (admits e u ≡ false) ↔ (
          (max : ℕ) × (C.max_players e.config ≡ some max)
          × (is_present e u ≡ false)
          × (max ≤ users e))
  unfolding admits
  admits-false_iff e u v h = elim (Option-cases (C.max_players e.config)) [
    | inl n ↦ (λ x. absurd (ground arith), λ x. absurd (ground arith))
    | inr (max, s) ↦ (
      λ x. (max, s, ground (arith, v.counted), ground (arith, v.counted)),
      λ x. ground (arith, v.counted),
    )
  ]

  -- In a well-formed room whose limit fits 32 bits, opening a channel does not take the number of
  -- users above the limit.
  pub open_entry_capacity :
      (e : RoomEntry T C R) (user : T.User) (now : Instant) (p : Pipes R) (sent : Bool) (max : ℕ)
      → WellFormed e
      → C.max_players e.config ≡ some max
      → max < 2 ^ 32
      → users e ≤ max
      → users (open_entry e user now p sent).entry ≤ max
  unfolding open_entry join admits
  open_entry_capacity e user now p sent max v m small h = ground (
    arith,
    v.counted,
    length-track T.id_discrete (T.id user) e.next_channel_id e.shared.user_channels,
  )
