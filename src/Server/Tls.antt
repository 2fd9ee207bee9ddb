-- ===== src/Server/Tls.antt =====
-- server/src/lib.rs: the certificates of the two servers, `load_rustls_config`, and how the HTTP server
-- binds. wtransport, rustls, actix-web and the files are parameters; an error of theirs is its text.
use Prim.Native.String.{String, ◌++◌}
use multiplayer_kit.Base.{
  ℕ, Option, none, some, List, [], ◌∷◌, Result, ok, err, ok_or, map_err, ◌>>=◌, ◌≡◌, ◌↔◌, arith,
}
use multiplayer_kit.Server.{ServerConfig}

pub data ServerError (Io Jwt : Type 0) : Type 0 where
  io : Io → ServerError Io Jwt
  http : String → ServerError Io Jwt
  quic : String → ServerError Io Jwt
  jwt : Jwt → ServerError Io Jwt
  config : String → ServerError Io Jwt

-- `Identity` of wtransport, with the bytes of the SHA-256 of a certificate, and base64.
pub record Identities : Type 1 where
  pub Identity : Type 0
  pub Certificate : Type 0
  pub load_pemfiles : List ℕ → List ℕ → Result Identity String
  pub self_signed : List (List ℕ) → Result Identity String
  pub certificate_chain : Identity → List Certificate
  pub hash : Certificate → List ℕ
  pub base64 : List ℕ → String

-- The files with what rustls_pemfile reads in them, the configuration of rustls, and the servers of
-- actix-web that are bound to an address.
pub record Binding : Type 1 where
  pub Io : Type 0
  pub File : Type 0
  pub CertificateDer : Type 0
  pub PrivateKey : Type 0
  pub RustlsConfig : Type 0
  pub HttpServer : Type 0
  pub open_file : List ℕ → Result File String
  pub certs : File → List (Option CertificateDer)
  pub private_key : File → Result (Option PrivateKey) String
  pub with_single_cert : List CertificateDer → PrivateKey → Result RustlsConfig String
  pub bind : List ℕ → Result HttpServer Io
  pub bind_rustls : List ℕ → RustlsConfig → Result HttpServer Io

module _ {Io Jwt : Type 0} (I : Identities) where
  identity_from :
      Option (List ℕ) → Option (List ℕ) → List (List ℕ) → Result I.Identity (ServerError Io Jwt)
  identity_from (some cert_path) (some key_path) hosts =
      map_err (λ e. quic ("Failed to load TLS cert/key: " ++ e))
        (I.load_pemfiles cert_path key_path)
  identity_from (some cert_path) none hosts = err (config "tls_cert specified without tls_key")
  identity_from none (some key_path) hosts = err (config "tls_key specified without tls_cert")
  identity_from none none hosts = map_err quic (I.self_signed hosts)

  unfoldable pub load_identity : ServerConfig → Result I.Identity (ServerError Io Jwt)
  unfolding identity_from
  load_identity c = identity_from c.tls_cert c.tls_key c.self_signed_hosts

first_hash : (I : Identities) → List I.Certificate → Option String
first_hash I [] = none
first_hash I (cert ∷ certs) = some (I.base64 (I.hash cert))

unfoldable pub cert_hash_b64 : (I : Identities) → I.Identity → Option String
unfolding first_hash
cert_hash_b64 I identity = first_hash I (I.certificate_chain identity)

-- `filter_map(|r| r.ok())`.
readable : {A : Type 0} → List (Option A) → List A
readable [] = []
readable (none ∷ rs) = readable rs
readable (some a ∷ rs) = a ∷ readable rs

some_certs : {A E : Type 0} → E → List A → Result (List A) E
some_certs e [] = err e
some_certs e (c ∷ cs) = ok (c ∷ cs)

module _ (B : Binding) {Jwt : Type 0} where
  unfoldable pub load_rustls_config : List ℕ → List ℕ → Result B.RustlsConfig (ServerError B.Io Jwt)
  unfolding readable some_certs
  load_rustls_config cert_path key_path = do
    cert_file ← map_err (λ e. config ("Failed to open cert file: " ++ e)) (B.open_file cert_path)
    key_file ← map_err (λ e. config ("Failed to open key file: " ++ e)) (B.open_file key_path)
    certs ← some_certs (config "No certificates found in cert file") (readable (B.certs cert_file))
    found ← map_err (λ e. config ("Failed to read private key: " ++ e)) (B.private_key key_file)
    key ← ok_or found (config "No private key found in key file")
    map_err (λ e. config ("Failed to build TLS config: " ++ e)) (B.with_single_cert certs key)

  bind_from :
      Option (List ℕ) → Option (List ℕ) → List ℕ → Result B.HttpServer (ServerError B.Io Jwt)
  bind_from (some cert) (some key) addr = do
    tls ← load_rustls_config cert key
    map_err io (B.bind_rustls addr tls)
  bind_from (some cert) none addr = err (config "http_tls_cert specified without http_tls_key")
  bind_from none (some key) addr = err (config "http_tls_key specified without http_tls_cert")
  bind_from none none addr = map_err io (B.bind addr)

  unfoldable pub bind_http : ServerConfig → Result B.HttpServer (ServerError B.Io Jwt)
  unfolding bind_from
  bind_http c = bind_from c.http_tls_cert c.http_tls_key c.http_addr

-- Both files are given, or none.
abbrev pub IsPaired : Option (List ℕ) → Option (List ℕ) → Type 0
IsPaired cert key = (cert ≡ none) ↔ (key ≡ none)

identity_from-IsPaired :
    {Io Jwt : Type 0} (I : Identities) (cert key : Option (List ℕ)) (hosts : List (List ℕ))
    (identity : I.Identity)
    → identity_from {Io = Io} {Jwt = Jwt} I cert key hosts ≡ ok identity
    → IsPaired cert key
unfolding identity_from
identity_from-IsPaired I none none hosts identity h = ground arith
identity_from-IsPaired I none (some k) hosts identity h = ground arith
identity_from-IsPaired I (some c) none hosts identity h = ground arith
identity_from-IsPaired I (some c) (some k) hosts identity h = ground arith

pub load_identity-IsPaired :
    {Io Jwt : Type 0} (I : Identities) (c : ServerConfig) (identity : I.Identity)
    → load_identity {Io = Io} {Jwt = Jwt} I c ≡ ok identity
    → IsPaired c.tls_cert c.tls_key
unfolding load_identity
load_identity-IsPaired I c = identity_from-IsPaired I c.tls_cert c.tls_key c.self_signed_hosts

bind_from-IsPaired :
    {Jwt : Type 0} (B : Binding) (cert key : Option (List ℕ)) (addr : List ℕ)
    (server : B.HttpServer)
    → bind_from B {Jwt = Jwt} cert key addr ≡ ok server
    → IsPaired cert key
unfolding bind_from
bind_from-IsPaired B none none addr server h = ground arith
bind_from-IsPaired B none (some k) addr server h = ground arith
bind_from-IsPaired B (some c) none addr server h = ground arith
bind_from-IsPaired B (some c) (some k) addr server h = ground arith

pub bind_http-IsPaired :
    {Jwt : Type 0} (B : Binding) (c : ServerConfig) (server : B.HttpServer)
    → bind_http B {Jwt = Jwt} c ≡ ok server
    → IsPaired c.http_tls_cert c.http_tls_key
unfolding bind_http
bind_http-IsPaired B c = bind_from-IsPaired B c.http_tls_cert c.http_tls_key c.http_addr
