-- ===== src/Testing/Routing.antt =====
-- helpers/src/testing/harness.rs: what a tick of the server leaves in the queues of the users.
use multiplayer_kit.Base.{
  ℕ, suc, ◌≡◌, refl, sym, ap, ◌∙◌, some, List, [], ◌∷◌, ◌++◌, length, ite, ℕ_discrete, arith,
}
use multiplayer_kit.Base.Map.{get}
use multiplayer_kit.ChannelMessage.{ChannelMessage}
use multiplayer_kit.ServerActor.Routing.{ServerOutput, to_user, broadcast, internal}
use multiplayer_kit.Testing.{test_users, TestHarness, route_one, route_server_outputs}
use multiplayer_kit.Testing.Queues.{
  extended, extended_if, HasRoom, send-HasRoom, extended_nil, extended_if_nil, extended_if_twice,
  extended_twice, Roomy, Roomy-fewer, send_to_all-extended, send_to_one-extended,
}

-- What the outputs of an actor have for a user, and for the actor itself.
unfoldable pub for_user :
    {M : ChannelMessage} → ℕ → List (ServerOutput test_users M) → List M.Message
for_user id [] = []
for_user id (to_user u m ∷ outputs) =
    ite (ℕ_discrete u.id id) (m ∷ for_user id outputs) (for_user id outputs)
for_user id (broadcast m ∷ outputs) = m ∷ for_user id outputs
for_user id (internal m ∷ outputs) = for_user id outputs

unfoldable pub for_itself : {M : ChannelMessage} → List (ServerOutput test_users M) → List M.Message
for_itself [] = []
for_itself (to_user u m ∷ outputs) = for_itself outputs
for_itself (broadcast m ∷ outputs) = for_itself outputs
for_itself (internal m ∷ outputs) = m ∷ for_itself outputs

module _ {M : ChannelMessage} where
  abbrev pub IsRoomy : ℕ → TestHarness M → Type 0
  IsRoomy n h = Roomy n h.server_to_client × HasRoom n h.server_internal

  -- What outputs leave in a harness.
  pub record Routes (h : TestHarness M) (outputs : List (ServerOutput test_users M))
      (after : TestHarness M) : Type 0 where
    pub to_users :
        (id : ℕ)
        → get ℕ_discrete id after.server_to_client
          ≡ extended_if (for_user id outputs) (get ℕ_discrete id h.server_to_client)
    pub to_itself : after.server_internal ≡ extended (for_itself outputs) h.server_internal

  route_one-Routes :
      (n : ℕ) (h : TestHarness M) (o : ServerOutput test_users M)
      → IsRoomy (suc n) h
      → (after : TestHarness M) × (route_one h o ≡ some after)
        × Routes h (o ∷ []) after
        × IsRoomy n after
  unfolding route_one for_user for_itself
  route_one-Routes n h (to_user u m) (users, own) =
      let (clients, e, found, room) = send_to_one-extended n u.id h.server_to_client m users in
      (
        record h { server_to_client = clients },
        rw (e, route_one) refl,
        record { to_users = found; to_itself = sym (extended_nil h.server_internal) },
        (room, omega (arith, own)),
      )
  route_one-Routes n h (broadcast m) (users, own) =
      let (clients, e, found, room) = send_to_all-extended n h.server_to_client m users in
      (
        record h { server_to_client = clients },
        rw (e, route_one) refl,
        record { to_users = found; to_itself = sym (extended_nil h.server_internal) },
        (room, omega (arith, own)),
      )
  route_one-Routes n h (internal m) (users, own) =
      let (sent, room) = send-HasRoom n h.server_internal m own in
      (
        record h { server_internal = extended (m ∷ []) h.server_internal },
        rw (sent, route_one) refl,
        record {
          to_users = λ id. sym (extended_if_nil (get ℕ_discrete id h.server_to_client));
          to_itself = refl;
        },
        (Roomy-fewer n h.server_to_client users, room),
      )

  for_user-cons :
      (id : ℕ) (o : ServerOutput test_users M) (outputs : List (ServerOutput test_users M))
      → for_user id (o ∷ []) ++ for_user id outputs ≡ for_user id (o ∷ outputs)
  unfolding for_user
  for_user-cons id (to_user u m) outputs =
      elim (ℕ_discrete u.id id)
        as (λ d.
          ite d (m ∷ []) [] ++ for_user id outputs
          ≡ ite d (m ∷ for_user id outputs) (for_user id outputs)) [ yes k ↦ refl | no k ↦ refl ]
  for_user-cons id (broadcast m) outputs = refl
  for_user-cons id (internal m) outputs = refl

  for_itself-cons :
      (o : ServerOutput test_users M) (outputs : List (ServerOutput test_users M))
      → for_itself (o ∷ []) ++ for_itself outputs ≡ for_itself (o ∷ outputs)
  unfolding for_itself
  for_itself-cons (to_user u m) outputs = refl
  for_itself-cons (broadcast m) outputs = refl
  for_itself-cons (internal m) outputs = refl

  -- If no queue is so full that the outputs could fill it, routing them ends, and then each user has
  -- what was sent to that user or to all, in order and once each, behind what waited already, if the
  -- user's client is there; and what the actor sent to itself waits for the next tick.
  pub route_server_outputs-Routes :
      (outputs : List (ServerOutput test_users M)) (h : TestHarness M)
      → IsRoomy (length outputs) h
      → (after : TestHarness M) × (route_server_outputs h outputs ≡ some after)
        × Routes h outputs after
  unfolding route_server_outputs for_user for_itself
  route_server_outputs-Routes [] h room = (
    h,
    refl,
    record {
      to_users = λ id. sym (extended_if_nil (get ℕ_discrete id h.server_to_client));
      to_itself = sym (extended_nil h.server_internal);
    },
  )
  route_server_outputs-Routes (o ∷ outputs) h room =
      let (next, e, first, room') = route_one-Routes (length outputs) h o room in
      let (after, k, later) = route_server_outputs-Routes outputs next room' in
      (
        after,
        rw (e, route_server_outputs) k,
        record {
          to_users = λ id.
              later.to_users id
              ∙ ap (extended_if (for_user id outputs)) (first.to_users id)
              ∙ extended_if_twice (for_user id (o ∷ [])) (for_user id outputs) _
              ∙ ap (λ ms. extended_if ms (get ℕ_discrete id h.server_to_client))
                  (for_user-cons id o outputs);
          to_itself =
              later.to_itself
              ∙ ap (extended (for_itself outputs)) first.to_itself
              ∙ extended_twice (for_itself (o ∷ [])) (for_itself outputs) h.server_internal
              ∙ ap (λ ms. extended ms h.server_internal) (for_itself-cons o outputs);
        },
      )
