-- ===== src/Examples/Tokens.antt =====
-- The library of the examples verifies tokens as documented.
use multiplayer_kit.Base.{ℕ, ◌+◌, ◌≤◌, ◌<◌, ◌≡◌, List, ok, err, arith}
use Prim.Native.String.{String}
use multiplayer_kit.Protocol.{TicketClaims}
use multiplayer_kit.Examples.{tokens}
use multiplayer_kit.Ticket.{Verifies}

tokens-accepts :
    (claims : TicketClaims ℕ) (secret token : List ℕ) (now : ℕ)
    → tokens.encode claims (tokens.encoding_from_secret secret) ≡ ok token
    → now ≤ claims.exp + 60
    → tokens.decode token (tokens.decoding_from_secret secret) now ≡ ok claims
tokens-accepts claims secret token now h k = ground arith

tokens-expires :
    (claims : TicketClaims ℕ) (secret token : List ℕ) (now : ℕ)
    → tokens.encode claims (tokens.encoding_from_secret secret) ≡ ok token
    → claims.exp + 60 < now
    → (e : String) × (tokens.decode token (tokens.decoding_from_secret secret) now ≡ err e)
tokens-expires claims secret token now h k = ("expired", ground arith)

pub tokens-Verifies : Verifies tokens
tokens-Verifies = record { accepts = tokens-accepts; expires = tokens-expires }
