-- ===== src/ClientActor/Order.antt =====
-- helpers/src/client_actor/runtime.rs: what `run` tells the actor, against what the bridge sends.
use multiplayer_kit.Base.{
  ℕ, ◌≡◌, refl, sym, ap, ◌∙◌, Option, some, List, [], ◌∷◌, ◌++◌, map, append_assoc, append-nil, ◌⊎◌,
  inl, inr, Option-cases, Bool-cases,
}
use multiplayer_kit.ChannelMessage.{ChannelMessage}
use multiplayer_kit.ClientActor.{
  ClientMessage, game_message, internal_source, local_source, BridgeEvent,
}
use multiplayer_kit.ClientActor.Runtime.{
  ClientActor, RuntimeStatus, is_up, is_down, ActorRuntime, Branch, bridge_branch, self_branch,
  local_branch, Arrival, event, local_message, bridge_closed, new, handle_bridge_event,
  handle_message, poll, Stepped, waits, unfinished, answers, polled_after, bridge_step, self_step,
  local_step, step, arrive, run,
}
use multiplayer_kit.ClientActor.Told.{
  KeepsLog, from_server, told, Status-cases, log_of, seen, dispatch_other, handle_bridge_event-seen,
  handled_seen, poll-seen,
}

-- The events of the bridge among what arrives.
unfoldable pub events_of : {M : ChannelMessage} → List (Arrival M) → List (BridgeEvent M)
events_of [] = []
events_of (event e ∷ xs) = e ∷ events_of xs
events_of (local_message m ∷ xs) = events_of xs
events_of (bridge_closed ∷ xs) = events_of xs

unfoldable pub all_events :
    {M : ChannelMessage} → List (List (Arrival M) × Branch) → List (BridgeEvent M)
unfolding events_of
all_events [] = []
all_events ((xs, b) ∷ later) = events_of xs ++ all_events later

pub map-append :
    {A B : Type 0} (f : A → B) (xs ys : List A) → map f (xs ++ ys) ≡ map f xs ++ map f ys
map-append f [] ys = refl
map-append f (x ∷ xs) ys = ap (◌∷◌ (f x)) (map-append f xs ys)

module _ {M : ChannelMessage} {A : ClientActor M} where
  -- The cases of `step`.
  pub Stepped-cases :
      (x : Stepped A)
      → (x ≡ waits)
        ⊎ ((x ≡ unfinished) ⊎ ((r : ActorRuntime A) × (s : RuntimeStatus) × (x ≡ answers r s)))
  Stepped-cases waits = inl refl
  Stepped-cases unfinished = inr (inl refl)
  Stepped-cases (answers r s) = inr (inr (r, s, refl))

module _ {M : ChannelMessage} {A : ClientActor M} (L : KeepsLog A) where
  arrive-seen :
      (xs : List (Arrival M)) (r : ActorRuntime A)
      → seen L (arrive xs r) ≡ seen L r ++ map told (events_of xs)
  unfolding arrive events_of
  arrive-seen [] r = sym (append-nil (seen L r))
  arrive-seen (event e ∷ xs) r =
      arrive-seen xs (record r { bridge_rx = r.bridge_rx ++ e ∷ [] })
      ∙ simp (map-append, append_assoc)
  arrive-seen (local_message m ∷ xs) r = arrive-seen xs _
  arrive-seen (bridge_closed ∷ xs) r = arrive-seen xs _

  polled_after-seen :
      (fuel : ℕ) (r r' : ActorRuntime A) (s : RuntimeStatus)
      → polled_after fuel r ≡ answers r' s
      → seen L r' ≡ seen L r
  unfolding polled_after
  polled_after-seen fuel r r' s h = elim (Option-cases (poll fuel r)) [
    | inl e ↦ absurd (cc (rw (e, polled_after) at h))
    | inr ((q, t), e) ↦
        let k : q ≡ r' = cc (rw (e, polled_after) at h) in
        ap (seen L) (sym k) ∙ poll-seen L fuel r q t e
  ]

  handled_event-seen :
      (r : ActorRuntime A) (e : BridgeEvent M)
      → seen L (handle_bridge_event r e).0 ≡ log_of L r ++ map told (e ∷ r.bridge_rx)
  handled_event-seen r e = rw (handle_bridge_event-seen L r e).1 (handled_seen L r e r.bridge_rx)

  bridge_step-seen :
      (fuel : ℕ) (es : List (BridgeEvent M)) (r r' : ActorRuntime A) (s : RuntimeStatus)
      → es ≡ r.bridge_rx
      → bridge_step fuel es r ≡ answers r' s
      → seen L r' ≡ seen L r
  unfolding bridge_step
  bridge_step-seen fuel [] r r' s same h = elim (Bool-cases r.bridge_open) [
    | inl e ↦ absurd (cc (rw (e, bridge_step) at h))
    | inr e ↦ let k : r ≡ r' = cc (rw (e, bridge_step) at h) in ap (seen L) (sym k)
  ]
  bridge_step-seen fuel (e ∷ es) r r' s same h =
      let r₀ = record r { bridge_rx = es } in
      let told_now : seen L (handle_bridge_event r₀ e).0 ≡ seen L r =
        handled_event-seen r₀ e ∙ ap (λ x. log_of L r ++ map told x) same in
      elim (Status-cases (handle_bridge_event r₀ e).1) [
        | inl up ↦
            polled_after-seen fuel (handle_bridge_event r₀ e).0 r' s (rw (up, bridge_step) at h)
            ∙ told_now
        | inr down ↦
            let k : (handle_bridge_event r₀ e).0 ≡ r' = cc (rw (down, bridge_step) at h) in
            ap (seen L) (sym k) ∙ told_now
      ]

  self_step-seen :
      (fuel : ℕ) (ms : List M.Message) (r r' : ActorRuntime A) (s : RuntimeStatus)
      → self_step fuel ms r ≡ answers r' s
      → seen L r' ≡ seen L r
  unfolding self_step handle_message from_server
  self_step-seen fuel [] r r' s h = absurd (cc)
  self_step-seen fuel (m ∷ ms) r r' s h =
      polled_after-seen fuel _ r' s h
      ∙ dispatch_other L (record r { self_rx = ms }) internal_source (game_message m) refl

  local_step-seen :
      (fuel : ℕ) (ms : List M.Message) (r r' : ActorRuntime A) (s : RuntimeStatus)
      → local_step fuel ms r ≡ answers r' s
      → seen L r' ≡ seen L r
  unfolding local_step handle_message from_server
  local_step-seen fuel [] r r' s h = absurd (cc)
  local_step-seen fuel (m ∷ ms) r r' s h =
      polled_after-seen fuel _ r' s h
      ∙ dispatch_other L (record r { local_rx = ms }) local_source (game_message m) refl

  step-seen :
      (fuel : ℕ) (b : Branch) (r r' : ActorRuntime A) (s : RuntimeStatus)
      → step fuel r b ≡ answers r' s
      → seen L r' ≡ seen L r
  unfolding step
  step-seen fuel bridge_branch r r' s h = bridge_step-seen fuel r.bridge_rx r r' s refl h
  step-seen fuel self_branch r r' s h = self_step-seen fuel r.self_rx r r' s h
  step-seen fuel local_branch r r' s h = local_step-seen fuel r.local_rx r r' s h

  onward :
      (xs : List (Arrival M)) (later : List (List (Arrival M) × Branch)) (r q : ActorRuntime A)
      → seen L q ≡ seen L (arrive xs r)
      → seen L q ++ map told (all_events later)
        ≡ seen L r ++ map told (events_of xs ++ all_events later)
  onward xs later r q same = rw (same ∙ arrive-seen xs r) (
      append_assoc (seen L r) (map told (events_of xs)) (map told (all_events later))
      ∙ ap (λ x. seen L r ++ x) (sym (map-append told (events_of xs) (all_events later))))

  run-seen :
      (fuel : ℕ) (history : List (List (Arrival M) × Branch)) (r r' : ActorRuntime A)
      (s : RuntimeStatus)
      → run fuel r history ≡ some (r', s)
      → (rest : List (ClientMessage M)) × (seen L r' ++ rest
          ≡ seen L r ++ map told (all_events history))
        × (s ≡ is_up → rest ≡ [])
  unfolding run all_events
  run-seen fuel [] r r' s h =
      let k : r ≡ r' = cc in
      ([], append-nil (seen L r') ∙ sym (ap (seen L) k) ∙ sym (append-nil (seen L r)), λ up. refl)
  run-seen fuel ((xs, b) ∷ later) r r' s h =
      let r₁ = arrive xs r in
      elim (Stepped-cases (step fuel r₁ b)) [
        | inl e ↦
            let (rest, p, none_left) = run-seen fuel later r₁ r' s (rw (e, run) at h) in
            (rest, p ∙ onward xs later r r₁ refl, none_left)
        | inr (inl e) ↦ absurd (cc (rw (e, run) at h))
        | inr (inr (q, t, e)) ↦ elim (Status-cases t) [
          | inl up ↦
              let (rest, p, none_left) = run-seen fuel later q r' s (rw up at (rw (e, run) at h)) in
              (rest, p ∙ onward xs later r q (step-seen fuel b r₁ q t e), none_left)
          | inr down ↦
              let ends : ◌≡◌ {A = Option (ActorRuntime A × RuntimeStatus)} (some (q, is_down))
                  (some (r', s)) =
                rw down at (rw (e, run) at h) in
              let k : q ≡ r' = cc in
              let left = map told (all_events later) in
              (
                left,
                ap (λ x. seen L x ++ left) (sym k)
                    ∙ onward xs later r q (step-seen fuel b r₁ q t e),
                λ up. absurd (cc),
              )
        ]
      ]

  pub run-log :
      (fuel : ℕ) (config : A.Config) (extras : A.Extras)
      (history : List (List (Arrival M) × Branch)) (r : ActorRuntime A) (s : RuntimeStatus)
      → L.log (A.startup config) ≡ []
      → run fuel (new config extras) history ≡ some (r, s)
      → (rest : List (ClientMessage M)) × (log_of L r ++ (map told r.bridge_rx ++ rest)
          ≡ map told (all_events history))
        × (s ≡ is_up → rest ≡ [])
  unfolding new from_server
  run-log fuel config extras history r s fresh h =
      let (rest, e, none_left) = run-seen fuel history (new config extras) r s h in
      (
        rest,
        sym (append_assoc (log_of L r) (map told r.bridge_rx) rest) ∙ e ∙ rw fresh refl,
        none_left,
      )
