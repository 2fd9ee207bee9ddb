-- ===== src/Manager/Reach.antt =====
-- server/src/room.rs: the states that the operations of `RoomManager` reach, in any order.
use multiplayer_kit.Base.{
  ℕ, ◌+◌, ◌^◌, ◌≤◌, ◌<◌, ◌≡◌, refl, Option, some, List, [], ◌∷◌, Bool, arith, ℕ_discrete, sym,
  subst,
}
use multiplayer_kit.Base.Map.{get, get-insert, Every, insert-Every, remove-Every}
use multiplayer_kit.Protocol.{UserContext, RoomConfig, RoomId, ChannelId}
use multiplayer_kit.Lobby.{Lobby}
use multiplayer_kit.Room.{Tokio, Instant, RoomEntry, Pipes, open_entry, close_entry, close_shared}
use multiplayer_kit.Room.Invariant.{WellFormed}
use multiplayer_kit.Room.Users.{length-forget, close_users-forget}
use multiplayer_kit.Room.Admission.{users, open_entry_capacity}
use multiplayer_kit.Manager.{
  RoomManager, RoomSettings, RoomPipes, Checked, new, new_entry, create_room, delete_room,
  open_channel, close_channel, remove_all, to_remove, run_lifecycle_checks,
}
use multiplayer_kit.Manager.Cases.{
  create_room_cases, delete_room_cases, open_channel_cases, close_channel_cases,
}
use multiplayer_kit.Manager.Invariant.{
  IsSound, HasIds, new-IsSound, create_room-IsSound, delete_room-IsSound, open_channel-IsSound,
  close_channel-IsSound, run_lifecycle_checks-IsSound,
}
use multiplayer_kit.Manager.Ids.{
  Follows, Follows-refl, Follows-trans, Follows-insert, removed-Follows,
}

-- One operation, on any arguments; the 64-bit counters do not wrap around.
pub data Step {T : UserContext} {C : RoomConfig} {R : Tokio} (m n : RoomManager T C R)
    : Type 0 where
  creates :
      (creator : T.User) (config : C.Config) (now : Instant) (unix : ℕ) (p : RoomPipes R)
      → m.next_room_id + 1 < 2 ^ 64
      → n ≡ (create_room m creator config now unix p).manager
      → Step m n
  deletes :
      (id : RoomId) (requester : T.UserId) → n ≡ (delete_room m id requester).manager → Step m n
  opens :
      (id : RoomId) (user : T.User) (now : Instant) (p : Pipes R) (sent : Bool)
      → HasIds m id
      → n ≡ (open_channel m id user now p sent).manager
      → Step m n
  closes : (id : RoomId) (c : ChannelId) (now : Instant) → n ≡ close_channel m id c now → Step m n
  checks :
      (lobby : Lobby C.Value) (now : Instant)
      → n ≡ (run_lifecycle_checks m lobby now).manager
      → Step m n

pub data Reach {T : UserContext} {C : RoomConfig} {R : Tokio} (m : RoomManager T C R)
    : RoomManager T C R → Type 0 where
  here : Reach m m
  next : {n k : RoomManager T C R} → Reach m n → Step n k → Reach m k

module _ {T : UserContext} {C : RoomConfig} {R : Tokio} where
  -- Each room holds at most as many users as its configuration allows, if that is a 32-bit number.
  abbrev pub HasRoom : RoomEntry T C R → Type 0
  HasRoom e = (max : ℕ) → C.max_players e.config ≡ some max → max < 2 ^ 32 → users e ≤ max

  Step-IsSound : {m n : RoomManager T C R} → Step m n → IsSound m → IsSound n
  Step-IsSound {m} (creates creator config now unix p h e) v =
      subst IsSound (sym e) (create_room-IsSound m creator config now unix p h v)
  Step-IsSound {m} (deletes id requester e) v =
      subst IsSound (sym e) (delete_room-IsSound m id requester v)
  Step-IsSound {m} (opens id user now p sent h e) v =
      subst IsSound (sym e) (open_channel-IsSound m id user now p sent h v)
  Step-IsSound {m} (closes id c now e) v =
      subst IsSound (sym e) (close_channel-IsSound m id c now v)
  Step-IsSound {m} (checks lobby now e) v =
      subst IsSound (sym e) (run_lifecycle_checks-IsSound m lobby now v)

  abbrev IsWithin : RoomManager T C R → Type 0
  IsWithin m = Every ℕ_discrete HasRoom m.rooms

  open_entry-config :
      (e : RoomEntry T C R) (user : T.User) (now : Instant) (p : Pipes R) (sent : Bool)
      → (open_entry e user now p sent).entry.config ≡ e.config
  unfolding open_entry
  open_entry-config e user now p sent = ground arith

  open_entry-HasRoom :
      (e : RoomEntry T C R) (user : T.User) (now : Instant) (p : Pipes R) (sent : Bool)
      → WellFormed e
      → HasRoom e
      → HasRoom (open_entry e user now p sent).entry
  open_entry-HasRoom e user now p sent v h max k s =
      let k' = rw (open_entry-config e user now p sent) at k in
      open_entry_capacity e user now p sent max v k' s (h max k' s)

  close_entry-HasRoom :
      (e : RoomEntry T C R) (c : ChannelId) (now : Instant)
      → WellFormed e
      → HasRoom e
      → HasRoom (close_entry e c now)
  unfolding close_entry close_shared
  close_entry-HasRoom e c now v h max k s =
      let m = e.shared.user_channels in
      rw (close_users-forget T.id_discrete c m v.distinct v.non_empty (v.once c))
        (omega (arith, length-forget c m v.non_empty (v.once c), h max k s))

  remove_all-IsWithin :
      (ids : List RoomId) (k : Checked T C R)
      → IsWithin k.manager
      → IsWithin (remove_all ids k).manager
  unfolding remove_all
  remove_all-IsWithin [] k w = w
  remove_all-IsWithin (id ∷ ids) k w =
      remove_all-IsWithin ids _ (remove-Every ℕ_discrete HasRoom id k.manager.rooms w)

  Step-IsWithin : {m n : RoomManager T C R} → Step m n → IsSound m → IsWithin m → IsWithin n
  unfolding new_entry run_lifecycle_checks
  Step-IsWithin {m} (creates creator config now unix p h e) v w = subst IsWithin (sym e) (
      create_room_cases IsWithin m creator config now unix p w
        (insert-Every ℕ_discrete HasRoom m.next_room_id _ m.rooms (λ max k s. omega arith) w))
  Step-IsWithin {m} (deletes id requester e) v w = subst IsWithin (sym e) (
      delete_room_cases IsWithin m id requester w
        (λ f found own. remove-Every ℕ_discrete HasRoom id m.rooms w))
  Step-IsWithin {m} (opens id user now p sent h e) v w = subst IsWithin (sym e) (
      open_channel_cases IsWithin m id user now p sent w (λ f found.
        insert-Every ℕ_discrete HasRoom id _ m.rooms
          (open_entry-HasRoom f user now p sent (v.well_formed id f found) (w id f found)) w))
  Step-IsWithin {m} (closes id c now e) v w = subst IsWithin (sym e) (
      close_channel_cases IsWithin m id c now w (λ f found.
        insert-Every ℕ_discrete HasRoom id _ m.rooms
          (close_entry-HasRoom f c now (v.well_formed id f found) (w id f found)) w))
  Step-IsWithin {m} (checks lobby now e) v w =
      subst IsWithin (sym e) (remove_all-IsWithin (to_remove m.settings now m.rooms) _ w)

  new-IsWithin :
      (settings : RoomSettings) (filter : Option (RoomId → C.Config → Bool))
      → IsWithin (new settings filter)
  unfolding new get
  new-IsWithin settings filter id e h = absurd (cc)

  Reach-keeps :
      {m n : RoomManager T C R} → IsSound m → IsWithin m → Reach m n → IsSound n × IsWithin n
  Reach-keeps v w here = (v, w)
  Reach-keeps v w (next r st) =
      let (v', w') = Reach-keeps v w r in (Step-IsSound st v', Step-IsWithin st v' w')

  remove_all-Follows :
      (ids : List RoomId) (k : Checked T C R) → Follows k.manager (remove_all ids k).manager
  unfolding remove_all
  remove_all-Follows [] k = Follows-refl k.manager
  remove_all-Follows (id ∷ ids) k =
      Follows-trans (removed-Follows k.manager id) (remove_all-Follows ids _)

  Step-Follows : {m n : RoomManager T C R} → Step m n → Follows m n
  unfolding run_lifecycle_checks open_entry close_entry
  Step-Follows {m} (creates creator config now unix p h e) = subst (Follows m) (sym e) (
      create_room_cases (Follows m) m creator config now unix p (Follows-refl m) (record {
        grows = omega (arith, h);
        same_room = λ id e' less found. (
          e',
          ground (
            arith,
            get-insert ℕ_discrete m.next_room_id id (new_entry creator config now unix p) m.rooms,
          ),
          refl,
          omega arith,
        );
      }))
  Step-Follows {m} (deletes id requester e) = subst (Follows m) (sym e) (
      delete_room_cases (Follows m) m id requester (Follows-refl m)
        (λ f found own. removed-Follows m id))
  Step-Follows {m} (opens id user now p sent h e) = subst (Follows m) (sym e) (
      open_channel_cases (Follows m) m id user now p sent (Follows-refl m)
        (λ f found. Follows-insert m id f _ found (ground arith) (ground (arith, h f found))))
  Step-Follows {m} (closes id c now e) = subst (Follows m) (sym e) (
      close_channel_cases (Follows m) m id c now (Follows-refl m)
        (λ f found. Follows-insert m id f _ found refl (omega arith)))
  Step-Follows {m} (checks lobby now e) =
      subst (Follows m) (sym e) (remove_all-Follows (to_remove m.settings now m.rooms) _)

  Reach-Follows : {m n : RoomManager T C R} → Reach m n → Follows m n
  Reach-Follows {m} here = Follows-refl m
  Reach-Follows (next r st) = Follows-trans (Reach-Follows r) (Step-Follows st)

  -- Let a new manager reach m, and m reach n, by operations during which the 64-bit counters do not
  -- wrap around. Then n is sound: no room has an id from the next one on, the tables of each room agree,
  -- its channel ids are below its next one, and its count is the number of its users. And n follows m:
  -- an id that was handed out is never handed out again, for a room, since what n has under an id below
  -- the next of m is a room that m had, and for a channel of it, since the next channel id of that room
  -- has not gone back.
  pub Reach-IsSound :
      (settings : RoomSettings) (filter : Option (RoomId → C.Config → Bool))
      (m n : RoomManager T C R)
      → Reach (new settings filter) m
      → Reach m n
      → IsSound n × Follows m n
  Reach-IsSound settings filter m n r later =
      let (v, w) = Reach-keeps (new-IsSound settings filter) (new-IsWithin settings filter) r in
      ((Reach-keeps v w later).0, Reach-Follows later)

  -- No sequence of operations lets more users into a room than its configuration allows, for a limit
  -- below 2^32, and as long as the 64-bit counters do not wrap around.
  pub Reach-capacity :
      (settings : RoomSettings) (filter : Option (RoomId → C.Config → Bool)) (m : RoomManager T C R)
      (id : RoomId) (e : RoomEntry T C R) (max : ℕ)
      → Reach (new settings filter) m
      → get ℕ_discrete id m.rooms ≡ some e
      → C.max_players e.config ≡ some max
      → max < 2 ^ 32
      → users e ≤ max
  Reach-capacity settings filter m id e max r found =
      (Reach-keeps (new-IsSound settings filter) (new-IsWithin settings filter) r).1 id e found max
