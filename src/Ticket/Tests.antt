-- ===== src/Ticket/Tests.antt =====
-- Tickets of the library of the examples.
use multiplayer_kit.Base.{◌+◌, ◌≤◌, ◌<◌, ◌≡◌, refl, [], ◌∷◌, ok, err, arith}
use Prim.Native.String.{String}
use multiplayer_kit.Examples.{tokens}
use multiplayer_kit.Examples.Tokens.{tokens-Verifies}
use multiplayer_kit.Ticket.{new, issue, validate, validate-issue}

validate-issue_example :
    (1100 ≤ 1000 + 50 + 60 → validate (new tokens (9 ∷ []) 7) (9 ∷ 1050 ∷ 8 ∷ []) 1100 ≡ ok 8)
    × (1000 + 50 + 60 < 1100
        → (e : String) × (validate (new tokens (9 ∷ []) 7) (9 ∷ 1050 ∷ 8 ∷ []) 1100 ≡ err e))
unfolding issue new
validate-issue_example =
    validate-issue tokens (9 ∷ []) (9 ∷ 1050 ∷ 8 ∷ []) 50 7 1000 1100 8 tokens-Verifies
      (omega arith) refl
