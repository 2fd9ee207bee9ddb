-- ===== src/Manager/Ids.antt =====
-- server/src/room.rs: the ids that a later state of the manager has, against an earlier one.
use multiplayer_kit.Base.{
  ◌≤◌, ◌<◌, ◌≡◌, ◌⊎◌, inl, inr, refl, ap, ◌∙◌, none, some, arith, ℕ_discrete, sym,
}
use multiplayer_kit.Base.Map.{get, insert, remove, get-insert, get-remove}
use multiplayer_kit.Protocol.{UserContext, RoomConfig, RoomId}
use multiplayer_kit.Room.{Tokio, RoomEntry}
use multiplayer_kit.Manager.{RoomManager}

module _ {T : UserContext} {C : RoomConfig} {R : Tokio} where
  -- Of two managers, the second later: the next id has not gone back, and what the second has under
  -- an id below the next of the first is a room that the first had already, of the same creator, with a
  -- next channel id that has not gone back.
  pub record Follows (m n : RoomManager T C R) : Type 0 where
    pub grows : m.next_room_id ≤ n.next_room_id
    pub same_room :
        (id : RoomId) (e' : RoomEntry T C R)
        → id < m.next_room_id
        → get ℕ_discrete id n.rooms ≡ some e'
        → (e : RoomEntry T C R) × (get ℕ_discrete id m.rooms ≡ some e)
          × (e'.creator_id ≡ e.creator_id)
          × (e.next_channel_id ≤ e'.next_channel_id)

  pub Follows-refl : (m : RoomManager T C R) → Follows m m
  Follows-refl m = record {
    grows = omega arith;
    same_room = λ id e' h found. (e', found, refl, omega arith);
  }

  pub Follows-trans : {m n k : RoomManager T C R} → Follows m n → Follows n k → Follows m k
  Follows-trans f g = record {
    grows = omega (arith, f.grows, g.grows);
    same_room = λ id e' h found.
        let (e₁, there, own, up) = g.same_room id e' (omega (arith, h, f.grows)) found in
        let (e, first, own', up') = f.same_room id e₁ h there in
        (e, first, own ∙ own', omega (arith, up, up'));
  }

  -- Another entry in place of one that is there.
  pub Follows-insert :
      (m : RoomManager T C R) (id : RoomId) (e f : RoomEntry T C R)
      → get ℕ_discrete id m.rooms ≡ some e
      → f.creator_id ≡ e.creator_id
      → e.next_channel_id ≤ f.next_channel_id
      → Follows m (record m { rooms = insert ℕ_discrete id f m.rooms })
  Follows-insert m id e f there own up = record {
    grows = omega arith;
    same_room = λ j e' h found. elim (ℕ_discrete id j) [
      | yes same ↦
          let is_f : f ≡ e' = ground (arith, get-insert ℕ_discrete id j f m.rooms) in
          (e, rw (← same) there, ap (λ x. x.creator_id) (sym is_f) ∙ own, rw (← is_f) up)
      | no other ↦ (e', ground (arith, get-insert ℕ_discrete id j f m.rooms), refl, omega arith)
    ];
  }

  Follows-remove :
      (m n : RoomManager T C R)
      → n.next_room_id ≡ m.next_room_id
      → ((id : RoomId)
          → (get ℕ_discrete id n.rooms ≡ none)
            ⊎ (get ℕ_discrete id n.rooms ≡ get ℕ_discrete id m.rooms))
      → Follows m n
  Follows-remove m n same h = record {
    grows = omega (arith, same);
    same_room = λ id e' k found. elim (h id) [
      | inl gone ↦ absurd (ground (arith, gone, found))
      | inr kept ↦ (e', sym kept ∙ found, refl, omega arith)
    ];
  }

  pub removed-Follows :
      (m : RoomManager T C R) (id : RoomId)
      → Follows m (record m { rooms = remove ℕ_discrete id m.rooms })
  removed-Follows m id =
      Follows-remove m (record m { rooms = remove ℕ_discrete id m.rooms }) refl
        (λ j. ground (arith, get-remove ℕ_discrete id j m.rooms))
