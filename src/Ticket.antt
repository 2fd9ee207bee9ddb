-- ===== src/Ticket.antt =====
-- server/src/ticket.rs: tickets. jsonwebtoken is a parameter, and a token is a list of bytes. Times
-- are in seconds since the epoch.
mod Tests
use Prim.Native.String.{String}
use multiplayer_kit.Base.{
  ℕ, ◌+◌, ◌%◌, ◌^◌, ◌≤◌, ◌<◌, ◌≡◌, List, Result, ok, err, Result-cases, inl, inr, arith, refl, ap,
  ◌∙◌,
}
use multiplayer_kit.Protocol.{UserContext, TicketClaims}

-- `encode` with `Header::default()`, and `decode` with `Validation::default()` at a time.
pub record Jwt (T : UserContext) : Type 1 where
  pub EncodingKey : Type 0
  pub DecodingKey : Type 0
  pub Error : Type 0
  pub to_string : Error → String
  pub encoding_from_secret : List ℕ → EncodingKey
  pub decoding_from_secret : List ℕ → DecodingKey
  pub encode : TicketClaims T.User → EncodingKey → Result (List ℕ) Error
  pub decode : List ℕ → DecodingKey → ℕ → Result (TicketClaims T.User) Error

pub record TicketManager {T : UserContext} (J : Jwt T) : Type 0 where
  pub encoding_key : J.EncodingKey
  pub decoding_key : J.DecodingKey
  pub expiry_secs : ℕ

abbrev user_of : {U E : Type 0} → Result (TicketClaims U) E → Result U E
user_of (ok claims) = ok claims.user
user_of (err e) = err e

module _ {T : UserContext} (J : Jwt T) where
  unfoldable pub new : List ℕ → ℕ → TicketManager J
  new secret expiry_secs = record {
    encoding_key = J.encoding_from_secret secret;
    decoding_key = J.decoding_from_secret secret;
    expiry_secs = expiry_secs;
  }

module _ {T : UserContext} {J : Jwt T} where
  unfoldable pub issue : TicketManager J → T.User → ℕ → Result (List ℕ) J.Error
  issue m user now =
      J.encode (record { exp = (now + m.expiry_secs) % 2 ^ 64; user = user }) m.encoding_key

  unfoldable pub validate : TicketManager J → List ℕ → ℕ → Result T.User J.Error
  validate m token now = user_of (J.decode token m.decoding_key now)

-- What jsonwebtoken documents: a token that was encoded with a secret decodes to its claims with the
-- same secret, until a leeway of 60 seconds after the expiration, and not later.
pub record Verifies {T : UserContext} (J : Jwt T) : Type 0 where
  pub accepts :
      (claims : TicketClaims T.User) (secret token : List ℕ) (now : ℕ)
      → J.encode claims (J.encoding_from_secret secret) ≡ ok token
      → now ≤ claims.exp + 60
      → J.decode token (J.decoding_from_secret secret) now ≡ ok claims
  pub expires :
      (claims : TicketClaims T.User) (secret token : List ℕ) (now : ℕ)
      → J.encode claims (J.encoding_from_secret secret) ≡ ok token
      → claims.exp + 60 < now
      → (e : J.Error) × (J.decode token (J.decoding_from_secret secret) now ≡ err e)

module _ {T : UserContext} (J : Jwt T) where
  -- With a library that verifies tokens as documented, a ticket that a manager has issued names its
  -- user, to every manager with the same secret, until its lifetime and a minute of leeway are over,
  -- and is refused afterwards, as long as the expiration is below 2^64.
  pub validate-issue :
      (secret token : List ℕ) (expiry other_expiry now later : ℕ) (user : T.User)
      → Verifies J
      → now + expiry < 2 ^ 64
      → issue (new J secret expiry) user now ≡ ok token
      → (later ≤ now + expiry + 60 → validate (new J secret other_expiry) token later ≡ ok user)
        × (now + expiry + 60 < later
            → (e : J.Error) × (validate (new J secret other_expiry) token later ≡ err e))
  unfolding issue validate new
  validate-issue secret token expiry other_expiry now later user v small h =
      let claims : TicketClaims T.User = record { exp = (now + expiry) % 2 ^ 64; user = user } in
      (
        λ soon. rw (v.accepts claims secret token later h (omega arith)) refl,
        λ late.
            let (e, refused) = v.expires claims secret token later h (omega arith) in
            (e, rw refused refl),
      )
