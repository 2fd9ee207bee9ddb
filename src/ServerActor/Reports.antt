-- ===== src/ServerActor/Reports.antt =====
-- helpers/src/server_actor/channel.rs: the reports of users who connect and disconnect, in the queue of
-- a room and still to be sent.
use multiplayer_kit.Base.{
  ℕ, suc, ◌+◌, ◌≡◌, refl, some, List, [], ◌∷◌, ◌++◌, map, ap, ite, ℕ_discrete, ok, err, arith,
  Option-cases, inl, inr,
}
use multiplayer_kit.Protocol.{UserContext, ChannelId}
use multiplayer_kit.Framing.{Item}
use multiplayer_kit.ChannelMessage.{ChannelMessage}
use multiplayer_kit.ServerActor.{
  InternalServerEvent, user_ready, user_gone, message, deliver, of_task, next_unsent,
}

module _ {T : UserContext} {M : ChannelMessage} where
  -- How often a user is reported ready, and gone.
  unfoldable pub readies : T.UserId → List (InternalServerEvent T M) → ℕ
  readies u [] = 0
  readies u (user_ready v ∷ es) = ite (T.id_discrete (T.id v) u) (suc (readies u es)) (readies u es)
  readies u (user_gone v ∷ es) = readies u es
  readies u (message v ct m ∷ es) = readies u es

  unfoldable pub gones : T.UserId → List (InternalServerEvent T M) → ℕ
  gones u [] = 0
  gones u (user_ready v ∷ es) = gones u es
  gones u (user_gone v ∷ es) = ite (T.id_discrete (T.id v) u) (suc (gones u es)) (gones u es)
  gones u (message v ct m ∷ es) = gones u es

  pub readies-append :
      (u : T.UserId) (es fs : List (InternalServerEvent T M))
      → readies u (es ++ fs) ≡ readies u es + readies u fs
  unfolding readies
  readies-append u [] fs = omega arith
  readies-append u (user_ready v ∷ es) fs = ground (arith, readies-append u es fs)
  readies-append u (user_gone v ∷ es) fs = readies-append u es fs
  readies-append u (message v ct m ∷ es) fs = readies-append u es fs

  pub gones-append :
      (u : T.UserId) (es fs : List (InternalServerEvent T M))
      → gones u (es ++ fs) ≡ gones u es + gones u fs
  unfolding gones
  gones-append u [] fs = omega arith
  gones-append u (user_ready v ∷ es) fs = gones-append u es fs
  gones-append u (user_gone v ∷ es) fs = ground (arith, gones-append u es fs)
  gones-append u (message v ct m ∷ es) fs = gones-append u es fs

module _ (T : UserContext) (M : ChannelMessage) where
  pub deliver-silent :
      (u : T.UserId) (user : T.User) (ct : M.Channel) (items : List Item)
      → (readies u (deliver {T = T} {M = M} user ct items) ≡ 0)
        × (gones u (deliver {T = T} {M = M} user ct items) ≡ 0)
  unfolding deliver readies gones
  deliver-silent u user ct [] = (refl, refl)
  deliver-silent u user ct (ok msg ∷ items) = ground (arith, deliver-silent u user ct items)
  deliver-silent u user ct (err e ∷ items) = (refl, refl)

module _ {T : UserContext} {M : ChannelMessage} where
  -- The reports that are still to be sent.
  unfoldable pub unsent_events :
      List (ChannelId × InternalServerEvent T M) → List (InternalServerEvent T M)
  unsent_events = map (λ p. p.1)

  pub unsent_events-of_task :
      (c : ChannelId) (unsent : List (ChannelId × InternalServerEvent T M))
      (es : List (InternalServerEvent T M))
      → unsent_events (unsent ++ of_task c es) ≡ unsent_events unsent ++ es
  unfolding unsent_events
  unsent_events-of_task c [] [] = refl
  unsent_events-of_task c [] (e ∷ es) = ap (λ x. e ∷ x) (unsent_events-of_task c [] es)
  unsent_events-of_task c (p ∷ unsent) es = ap (λ x. p.1 ∷ x) (unsent_events-of_task c unsent es)

  -- A send takes one report from those that are still to be sent.
  pub next_unsent-counts :
      (u : T.UserId) (c : ChannelId) (unsent rest : List (ChannelId × InternalServerEvent T M))
      (e : InternalServerEvent T M)
      → next_unsent c unsent ≡ some (e, rest)
      → (readies u (unsent_events unsent) ≡ readies u (e ∷ []) + readies u (unsent_events rest))
        × (gones u (unsent_events unsent) ≡ gones u (e ∷ []) + gones u (unsent_events rest))
  unfolding next_unsent unsent_events
  next_unsent-counts u c [] rest e h = absurd (cc)
  next_unsent-counts u c ((d, f) ∷ unsent) rest e h = elim (ℕ_discrete d c) [
    | yes same ↦
        let k : ((f ≡ e) × (unsent ≡ rest)) = ground arith in
        rw (k.0, k.1)
          (
            readies-append u (e ∷ []) (unsent_events rest),
            gones-append u (e ∷ []) (unsent_events rest),
          )
    | no other ↦ elim (Option-cases (next_unsent c unsent)) [
      | inl n ↦ absurd (ground arith)
      | inr ((g, left), n) ↦
          let (r, l) = next_unsent-counts u c unsent left g n in
          let k : ((g ≡ e) × ((d, f) ∷ left ≡ rest)) = ground arith in
          rw (← k.0, ← k.1)
            (
              omega (
                arith,
                r,
                readies-append u (f ∷ []) (unsent_events unsent),
                readies-append u (f ∷ []) (unsent_events left),
              ),
              omega (
                arith,
                l,
                gones-append u (f ∷ []) (unsent_events unsent),
                gones-append u (f ∷ []) (unsent_events left),
              ),
            )
    ]
  ]
