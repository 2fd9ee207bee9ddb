-- ===== src/BasicSink/Inboxes.antt =====
-- helpers/src/actor/basic_sink.rs: a sink is a queue for each actor.
use std.HLevel.{hedberg}
use mathlib.Core.Path.{subst_refl}
use multiplayer_kit.Base.{
  ℕ, suc, ◌≡◌, ◌≢◌, ◌⊎◌, inl, inr, Option, none, some, List, [], ◌∷◌, ◌++◌, true, false, subst,
  refl, sym, ap, ◌∙◌, append-nil,
}
use multiplayer_kit.BasicSink.{
  ActorProtocols, Sent, is_yes, cast_by, take_at, Output, BasicSink, has_type, downcast, position,
  remove, receive, send,
}

abbrev pub consed : {A : Type 0} → Option A → List A → List A
consed none xs = xs
consed (some x) xs = x ∷ xs

append-consed :
    {A : Type 0} (o : Option A) (xs ys : List A) → consed o (xs ++ ys) ≡ consed o xs ++ ys
append-consed none xs ys = refl
append-consed (some x) xs ys = refl

module _ {P : ActorProtocols} where
  -- What has been sent to an actor, in order.
  unfoldable pub inbox_of : (a : P.Actor) → List (Output P) → List (Sent P a)
  inbox_of a [] = []
  inbox_of a (o ∷ os) = consed (downcast a o) (inbox_of a os)

  abbrev pub inbox : (a : P.Actor) → BasicSink P → List (Sent P a)
  inbox a s = inbox_of a s.outputs

module _ (P : ActorProtocols) where
  cast_by_self : (a : P.Actor) (d : Dec (a ≡ a)) (m : Sent P a) → cast_by P d m ≡ some m
  cast_by_self a (yes e) m = ap some (
      subst (λ p. subst (Sent P) p m ≡ m) (hedberg P.actor_discrete a a refl e)
        (subst_refl (Sent P) m))
  cast_by_self a (no n) m = absurd (n refl)

  cast_by_cases :
      (b a : P.Actor) (d : Dec (b ≡ a)) (m : Sent P b)
      → ((is_yes d ≡ false) × (b ≢ a) × (cast_by P d m ≡ none))
        ⊎ ((is_yes d ≡ true) × (b ≡ a) × (x : Sent P a) × (cast_by P d m ≡ some x))
  cast_by_cases b a (yes e) m = inr (refl, e, subst (Sent P) e m, refl)
  cast_by_cases b a (no n) m = inl (refl, n, refl)

  downcast_cases :
      (a : P.Actor) (o : Output P)
      → ((has_type a o ≡ false) × (o.actor_type ≢ a) × (downcast a o ≡ none))
        ⊎ ((has_type a o ≡ true) × (o.actor_type ≡ a) × (x : Sent P a) × (downcast a o ≡ some x))
  unfolding has_type downcast
  downcast_cases a o = cast_by_cases o.actor_type a (P.actor_discrete o.actor_type a) o.sent

  downcast_other : (a : P.Actor) (o : Output P) → o.actor_type ≢ a → downcast a o ≡ none
  downcast_other a o n = elim (downcast_cases a o) [
    | inl (t, k, c) ↦ c
    | inr (t, e, x, c) ↦ absurd (n e)
  ]

  -- Where the search of a first output of an actor ends.
  abbrev Found : (a : P.Actor) → List (Output P) → Type 0
  Found a os =
      (i : ℕ) × (o : Output P) × (rest : List (Output P)) × (m : Sent P a) × (position a os
        ≡ some i)
      × (remove i os ≡ some (o, rest))
      × (downcast a o ≡ some m)
      × (inbox_of a os ≡ m ∷ inbox_of a rest)
      × ((b : P.Actor) → b ≢ a → inbox_of b rest ≡ inbox_of b os)

  position_cases :
      (a : P.Actor) (os : List (Output P))
      → ((position a os ≡ none) × (inbox_of a os ≡ [])) ⊎ Found a os
  unfolding position inbox_of remove
  position_cases a [] = inl (refl, refl)
  position_cases a (o ∷ os) = elim (downcast_cases a o) [
    | inr (t, e, m, c) ↦ inr (
      0,
      o,
      os,
      m,
      rw t refl,
      refl,
      c,
      ap (λ d. consed d (inbox_of a os)) c,
      λ b n. sym (ap (λ d. consed d (inbox_of b os)) (downcast_other b o (λ f. n (sym f ∙ e)))),
    )
    | inl (t, n, c) ↦ elim (position_cases a os) [
      | inl (p, q) ↦ inl (rw t (rw p refl), rw c q)
      | inr (i, x, rest, m, p, r, k, q, other) ↦ inr (
        suc i,
        x,
        o ∷ rest,
        m,
        rw t (rw p refl),
        rw r refl,
        k,
        rw c q,
        λ b n. ap (consed (downcast b o)) (other b n),
      )
    ]
  ]

  -- A sink is a queue for each actor: `receive` never panics; it answers nothing, and changes
  -- nothing, if nothing is there for the actor; else it takes what was sent first to the actor, and
  -- leaves what is there for others.
  pub receive_lem :
      (a : P.Actor) (s : BasicSink P)
      → ((inbox a s ≡ []) × (receive a s ≡ some (none, s)))
        ⊎ ((m : Sent P a) × (rest : BasicSink P) × (receive a s ≡ some (some m, rest))
            × (inbox a s ≡ m ∷ inbox a rest)
            × ((b : P.Actor) → b ≢ a → inbox b rest ≡ inbox b s))
  unfolding receive take_at
  receive_lem a s = elim (position_cases a s.outputs) [
    | inl (p, q) ↦ inl (q, rw p refl)
    | inr (i, o, rest, m, p, r, k, q, other) ↦
        inr (m, record { outputs = rest }, rw p (rw (r, take_at) (rw k refl)), q, other)
  ]

  inbox_of-append :
      (a : P.Actor) (xs ys : List (Output P))
      → inbox_of a (xs ++ ys) ≡ inbox_of a xs ++ inbox_of a ys
  unfolding inbox_of
  inbox_of-append a [] ys = refl
  inbox_of-append a (o ∷ os) ys =
      ap (consed (downcast a o)) (inbox_of-append a os ys)
      ∙ append-consed (downcast a o) (inbox_of a os) (inbox_of a ys)

  -- A message that is sent comes last for its actor, and the others have what they had.
  pub inbox-send :
      (a : P.Actor) (s : BasicSink P) (to : P.ActorId a) (message : P.Message a)
      → (inbox a (send a s to message) ≡ inbox a s ++ ((to, message) ∷ []))
        × ((b : P.Actor) → a ≢ b → inbox b (send a s to message) ≡ inbox b s)
  unfolding send inbox_of downcast
  inbox-send a s to message =
      let o : Output P = record { actor_type = a; sent = (to, message) } in
      (
        inbox_of-append a s.outputs (o ∷ [])
            ∙ ap (λ d. inbox_of a s.outputs ++ consed d [])
                (cast_by_self a (P.actor_discrete a a) (to, message)),
        λ b n.
            inbox_of-append b s.outputs (o ∷ [])
            ∙ ap (λ d. inbox_of b s.outputs ++ consed d []) (downcast_other b o n)
            ∙ append-nil (inbox_of b s.outputs),
      )
