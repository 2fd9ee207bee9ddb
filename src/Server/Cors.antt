-- ===== src/Server/Cors.antt =====
-- server/src/lib.rs: the origins that `run` allows. actix-cors is not modelled: a policy is what its
-- builder is told.
use Prim.Native.String.{String}
use mathlib.Core.List.{Memᴰ}
use mathlib.Core.List.Memᴰ.{head, tail}
use multiplayer_kit.Base.{
  ℕ, ◌≡◌, ◌↔◌, List, [], ◌∷◌, ◌++◌, Bool, true, false, ◌==◌, ◌||◌, if◌then◌else◌, arith, refl,
  subst, ap, Bool-cases, inl, inr, All, ◌≢◌,
}
use multiplayer_kit.Quic.{split_at, split}
use multiplayer_kit.Server.{ServerConfig}

pub data Cors : Type 0 where
  permissive : Cors
  restricted :
      (allowed_methods allowed_headers : List String) (max_age : ℕ) (origins : List (List ℕ)) → Cors

abbrev pub http_scheme : List ℕ
http_scheme = b'h' ∷ b't' ∷ b't' ∷ b'p' ∷ b':' ∷ b'/' ∷ b'/' ∷ []

abbrev pub https_scheme : List ℕ
https_scheme = b'h' ∷ b't' ∷ b't' ∷ b'p' ∷ b's' ∷ b':' ∷ b'/' ∷ b'/' ∷ []

abbrev pub default_port : List ℕ
default_port = b'8' ∷ b'0' ∷ b'8' ∷ b'0' ∷ []

-- `last()` of the parts of `split`, of which there is one at least.
unfoldable pub last_or : List ℕ → List (List ℕ) → List ℕ
last_or d [] = d
last_or d (x ∷ xs) = last_or x xs

-- The port that `run` reads off the address.
unfoldable pub port : List ℕ → List ℕ
port addr = last_or default_port (split b':' addr)

unfoldable pub derived : List ℕ → List (List ℕ) → List (List ℕ)
derived port [] = []
derived port (host ∷ hosts) =
    (http_scheme ++ host)
    ∷ (https_scheme ++ host)
    ∷ (http_scheme ++ (host ++ (b':' ∷ port)))
    ∷ (https_scheme ++ (host ++ (b':' ∷ port)))
    ∷ derived port hosts

origins_of : List (List ℕ) → List (List ℕ) → List (List ℕ)
origins_of [] of_hosts = of_hosts
origins_of (origin ∷ origins) of_hosts = origin ∷ origins

unfoldable pub allowed_origins : ServerConfig → List (List ℕ)
unfolding origins_of
allowed_origins c = origins_of c.cors_origins (derived (port c.http_addr) c.self_signed_hosts)

unfoldable pub is_star : List ℕ → Bool
is_star [] = false
is_star (c ∷ []) = c == b'*'
is_star (c ∷ d ∷ cs) = false

unfoldable pub any_star : List (List ℕ) → Bool
any_star [] = false
any_star (o ∷ os) = is_star o || any_star os

unfoldable pub cors_of : List (List ℕ) → Cors
cors_of origins =
    if any_star origins
    then permissive
    else restricted ("GET" ∷ "POST" ∷ "DELETE" ∷ "OPTIONS" ∷ [])
        ("Authorization" ∷ "Content-Type" ∷ []) 3600 origins

abbrev pub star : List ℕ
star = b'*' ∷ []

any_star-derived : (p : List ℕ) (hosts : List (List ℕ)) → any_star (derived p hosts) ≡ false
unfolding any_star derived is_star
any_star-derived p [] = refl
any_star-derived p (host ∷ hosts) = any_star-derived p hosts

any_star-origins_of :
    (origins : List (List ℕ)) (p : List ℕ) (hosts : List (List ℕ))
    → any_star (origins_of origins (derived p hosts)) ≡ any_star origins
unfolding any_star origins_of
any_star-origins_of [] p hosts = any_star-derived p hosts
any_star-origins_of (origin ∷ origins) p hosts = refl

is_star-eq : (o : List ℕ) → is_star o ≡ true → star ≡ o
unfolding is_star
is_star-eq [] h = ground arith
is_star-eq (c ∷ []) h = ground arith
is_star-eq (c ∷ d ∷ cs) h = ground arith

any_star-Mem : (os : List (List ℕ)) → any_star os ≡ true → Memᴰ star os
unfolding any_star
any_star-Mem [] h = ground arith
any_star-Mem (o ∷ os) h = elim (Bool-cases (is_star o)) [
  | inl e ↦ head (is_star-eq o e)
  | inr e ↦ tail (any_star-Mem os (ground arith))
]

Mem-any_star : (os : List (List ℕ)) → Memᴰ star os → any_star os ≡ true
unfolding any_star is_star
Mem-any_star [] h = elim h [ ]
Mem-any_star (o ∷ os) (head e) = subst (λ x. (is_star x || any_star os) ≡ true) e refl
Mem-any_star (o ∷ os) (tail h) = ground (arith, Mem-any_star os h)

-- Every origin is allowed just if the configuration lists `*` among the origins.
pub cors_permissive :
    (c : ServerConfig) → (cors_of (allowed_origins c) ≡ permissive) ↔ Memᴰ star c.cors_origins
unfolding cors_of allowed_origins
cors_permissive c = ground (
  arith,
  any_star-Mem c.cors_origins,
  Mem-any_star c.cors_origins,
  any_star-origins_of c.cors_origins (port c.http_addr) c.self_signed_hosts,
)

split_at-one : (b : ℕ) (p : List ℕ) → All (λ c. c ≢ b) p → split_at b p ≡ (p, [])
unfolding split_at
split_at-one b [] h = refl
split_at-one b (c ∷ cs) h = ground (arith, split_at-one b cs h.1)

-- Behind a separator there is another part, and the last one is what stands behind the last.
split_at-append :
    (b : ℕ) (a p : List ℕ)
    → All (λ c. c ≢ b) p
    → (x y : List ℕ) × (ys : List (List ℕ)) × (split_at b (a ++ (b ∷ p)) ≡ (x, y ∷ ys))
      × (last_or y ys ≡ p)
unfolding split_at last_or
split_at-append b [] p h = ([], p, [], ground (arith, split_at-one b p h), refl)
split_at-append b (c ∷ cs) p h =
    let (x, y, ys, e, l) = split_at-append b cs p h in
    elim (Bool-cases (c == b)) [
      | inl k ↦ ([], x, y ∷ ys, rw k (rw e refl), l)
      | inr k ↦ (c ∷ x, y, ys, rw k (rw e refl), l)
    ]

port_lem : (a p : List ℕ) → All (λ c. c ≢ b':') p → port (a ++ (b':' ∷ p)) ≡ p
unfolding port split last_or
port_lem a p h = let (x, y, ys, e, l) = split_at-append b':' a p h in rw e l

derived-port :
    (p host : List ℕ) (hosts : List (List ℕ))
    → Memᴰ host hosts
    → Memᴰ (http_scheme ++ (host ++ (b':' ∷ p))) (derived p hosts)
      × Memᴰ (https_scheme ++ (host ++ (b':' ∷ p))) (derived p hosts)
unfolding derived
derived-port p host [] h = elim h [ ]
derived-port p host (x ∷ xs) (head e) = (
  tail (tail (head (ap (λ z. http_scheme ++ (z ++ (b':' ∷ p))) e))),
  tail (tail (tail (head (ap (λ z. https_scheme ++ (z ++ (b':' ∷ p))) e)))),
)
derived-port p host (x ∷ xs) (tail h) =
    let (l, r) = derived-port p host xs h in
    (tail (tail (tail (tail l))), tail (tail (tail (tail r))))

-- If the configuration lists no origin, the page of a self-signed host at the port of the HTTP
-- address is allowed, without TLS and with it.
pub allowed_origins-port :
    (c : ServerConfig) (a p host : List ℕ)
    → c.cors_origins ≡ []
    → c.http_addr ≡ a ++ (b':' ∷ p)
    → All (λ b. b ≢ b':') p
    → Memᴰ host c.self_signed_hosts
    → Memᴰ (http_scheme ++ (host ++ (b':' ∷ p))) (allowed_origins c)
      × Memᴰ (https_scheme ++ (host ++ (b':' ∷ p))) (allowed_origins c)
unfolding allowed_origins origins_of
allowed_origins-port c a p host none_listed addr digits h =
    rw none_listed (rw addr (rw (port_lem a p digits) (derived-port p host c.self_signed_hosts h)))
