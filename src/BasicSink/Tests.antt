-- ===== src/BasicSink/Tests.antt =====
-- The tests of helpers/src/actor/basic_sink.rs as runs, with actors 0 and 1.
use multiplayer_kit.Base.{ℕ, ◌≡◌, ◌≢◌, ◌⊎◌, refl, none, some, [], ◌∷◌, true, ℕ_discrete}
use multiplayer_kit.BasicSink.{
  ActorProtocols, Sent, BasicSink, new, clear, len, is_empty, has_type, downcast, position, remove,
  take_at, receive, send,
}
use multiplayer_kit.BasicSink.Inboxes.{inbox, receive_lem}

abbrev actors : ActorProtocols
actors = record { Actor = ℕ; actor_discrete = ℕ_discrete; ActorId = λ a. ℕ; Message = λ a. ℕ }

abbrev two_outputs : BasicSink actors
two_outputs = send 1 (send 0 new 1 10) 2 20

len-two_outputs : len two_outputs ≡ 2
unfolding len send new
len-two_outputs = refl

receive-two_outputs : receive 1 two_outputs ≡ some (some (2, 20), send 0 new 1 10)
unfolding receive take_at position remove has_type downcast send new ℕ_discrete
receive-two_outputs = refl

receive_missing : receive {P = actors} 1 (send 0 new 1 10) ≡ some (none, send 0 new 1 10)
unfolding receive take_at position remove has_type downcast send new ℕ_discrete
receive_missing = refl

is_empty-clear : is_empty (clear two_outputs) ≡ true
unfolding is_empty len clear
is_empty-clear = refl

receive_lem_example :
    ((inbox 1 two_outputs ≡ []) × (receive 1 two_outputs ≡ some (none, two_outputs)))
    ⊎ ((m : Sent actors 1) × (rest : BasicSink actors) × (receive 1 two_outputs
          ≡ some (some m, rest))
        × (inbox 1 two_outputs ≡ m ∷ inbox 1 rest)
        × ((b : ℕ) → b ≢ 1 → inbox b rest ≡ inbox b two_outputs))
receive_lem_example = receive_lem actors 1 two_outputs
