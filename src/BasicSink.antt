-- ===== src/BasicSink.antt =====
-- helpers/src/actor/basic_sink.rs, over the protocols of helpers/src/actor/protocol.rs: a sink that keeps
-- what is sent to it. Actors are told apart as their TypeIds are; the id and the message of an output
-- are of the types of its actor, so that the TypeId of the message says nothing more.
pub mod Inboxes
mod Tests
use multiplayer_kit.Base.{
  ℕ, zero, suc, ◌≡◌, Option, none, some, List, [], ◌∷◌, ◌++◌, Bool, true, false, if◌then◌else◌,
  length, ◌==◌, subst,
}

-- The actors of a program, with `ActorId` and `Message` of each.
pub record ActorProtocols : Type 1 where
  pub Actor : Type 0
  pub actor_discrete : (a b : Actor) → Dec (a ≡ b)
  pub ActorId : Actor → Type 0
  pub Message : Actor → Type 0

module _ (P : ActorProtocols) where
  -- An id with a message to it.
  abbrev pub Sent : P.Actor → Type 0
  Sent a = P.ActorId a × P.Message a

  pub record Output : Type 0 where
    pub actor_type : P.Actor
    pub sent : Sent actor_type

  pub record BasicSink : Type 0 where
    pub outputs : List Output

abbrev pub is_yes {ℓ} : {A : Type ℓ} → Dec A → Bool
is_yes (yes a) = true
is_yes (no n) = false

abbrev pub cast_by :
    (P : ActorProtocols) {b a : P.Actor} → Dec (b ≡ a) → Sent P b → Option (Sent P a)
cast_by P (yes e) m = some (subst (Sent P) e m)
cast_by P (no n) m = none

abbrev next_index : Option ℕ → Option ℕ
next_index none = none
next_index (some i) = some (suc i)

module _ {P : ActorProtocols} where
  unfoldable pub new : BasicSink P
  new = record { outputs = [] }

  unfoldable pub clear : BasicSink P → BasicSink P
  clear s = record s { outputs = [] }

  unfoldable pub len : BasicSink P → ℕ
  len s = length s.outputs

  unfoldable pub is_empty : BasicSink P → Bool
  is_empty s = len s == 0

  unfoldable pub has_type : P.Actor → Output P → Bool
  has_type a o = is_yes (P.actor_discrete o.actor_type a)

  unfoldable pub downcast : (a : P.Actor) → Output P → Option (Sent P a)
  downcast a o = cast_by P (P.actor_discrete o.actor_type a) o.sent

  unfoldable pub position : P.Actor → List (Output P) → Option ℕ
  position a [] = none
  position a (o ∷ os) =
      let later = position a os in if has_type a o then some 0 else next_index later

  behind : Output P → Option (Output P × List (Output P)) → Option (Output P × List (Output P))
  behind o none = none
  behind o (some (x, rest)) = some (x, o ∷ rest)

  -- `Vec::remove`, which panics behind the end.
  unfoldable pub remove : ℕ → List (Output P) → Option (Output P × List (Output P))
  unfolding behind
  remove i [] = none
  remove zero (o ∷ os) = some (o, os)
  remove (suc i) (o ∷ os) = behind o (remove i os)

  unfoldable pub take_at :
      (a : P.Actor) → BasicSink P → Option ℕ → Option (Option (Sent P a) × BasicSink P)
  take_at a s none = some (none, s)
  take_at a s (some i) = elim (remove i s.outputs) [
    | none ↦ none
    | some (o, rest) ↦ some (downcast a o, record s { outputs = rest })
  ]

  -- No answer stands for a panic.
  unfoldable pub receive : (a : P.Actor) → BasicSink P → Option (Option (Sent P a) × BasicSink P)
  unfolding take_at
  receive a s = take_at a s (position a s.outputs)

  unfoldable pub send : (a : P.Actor) → BasicSink P → P.ActorId a → P.Message a → BasicSink P
  send a s to message = record s {
    outputs = s.outputs ++ ((record { actor_type = a; sent = (to, message) }) ∷ []);
  }
