-- ===== src/Client/Access.antt =====
-- client/src/api.rs and server/src/rest.rs: what the server makes of the requests of the client, and the client of
-- an answer.
use Prim.Native.String.{String}
use multiplayer_kit.Base.{
  ℕ, ◌≡◌, Option, none, some, List, [], ◌∷◌, ◌++◌, Bool, Result, ok, err, refl, ap, ◌∙◌, ltb, leb,
  ◌&&◌,
}
use multiplayer_kit.Protocol.{UserContext}
use multiplayer_kit.Ticket.{Jwt, TicketManager, validate}
use multiplayer_kit.Rest.{
  Http, HttpRequest, HttpResponse, bearer, strip_prefix, extract_ticket, authenticate, cert_hash,
  service_unavailable,
}
use multiplayer_kit.Rest
use multiplayer_kit.Rest.Access.{authenticate-bearer}
use multiplayer_kit.Client.Api.{
  Ehttp, Request, Response, authorization, content_type, application_json, post_json, get_with_auth,
  delete_with_auth, rejected, parse_optional_response, get_cert_hash,
}

-- What ehttp does with headers, which are a list of names and values: the value under a name is the
-- first one, so that of a header which is inserted where the name was not there; inserting one header
-- adds nothing under another name; `new` keeps the header that it is given; and the requests begin
-- without a header `Authorization`.
pub record KeepsHeaders (E : Ehttp) : Type 0 where
  pub inserted :
      (k v : List ℕ) (h : E.Headers) → E.get k h ≡ none → E.get k (E.insert k v h) ≡ some v
  pub content_type_only :
      (v : List ℕ) (h : E.Headers)
      → E.get authorization (E.insert content_type v h) ≡ E.get authorization h
  pub listed : (k v : List ℕ) → E.get k (E.new_headers ((k, v) ∷ [])) ≡ some v
  pub post_plain : E.get authorization E.of_post ≡ none
  pub get_plain : E.get authorization E.of_get ≡ none

-- HTTP hands the body and the header that the ticket check looks at to the server. `value` is the header value of a text.
abbrev value_of : {V : Type 0} → (List ℕ → V) → Option (List ℕ) → Option V
value_of value none = none
value_of value (some t) = some (value t)

abbrev pub arrives : {E : Ehttp} (H : Http) → (List ℕ → H.HeaderValue) → Request E → HttpRequest H
arrives {E} H value r = record {
  headers = [];
  authorization = value_of value (E.get authorization r.headers);
  body = r.body;
}

module _ {T : UserContext} {J : Jwt T} {E : Ehttp} (H : Http) (value : List ℕ → H.HeaderValue) where
  -- The server finds in each kind of request that the client makes the ticket that it was made with, and
  -- takes the request for one of the user of the ticket, if the client's headers are kept, HTTP hands them
  -- on, and the text is visible ASCII.
  pub authenticate-client :
      (m : TicketManager J) (url body token : List ℕ) (unix : ℕ) (user : T.User)
      → KeepsHeaders E
      → H.to_str (value (bearer ++ token)) ≡ some (bearer ++ token)
      → validate m token unix ≡ ok user
      → (authenticate m (arrives H value (post_json {E = E} url body (some token))) unix ≡ ok user)
        × (authenticate m (arrives H value (get_with_auth {E = E} url (some token))) unix ≡ ok user)
        × (authenticate m (arrives H value (delete_with_auth {E = E} url token)) unix ≡ ok user)
  unfolding post_json get_with_auth delete_with_auth
  authenticate-client m url body token unix user k t good =
      let v = value (bearer ++ token) in
      let sent = λ (r : HttpRequest H) (h : r.authorization ≡ some v).
        authenticate-bearer m r unix user v token h t good in
      (
        sent (arrives H value (post_json {E = E} url body (some token))) (
            ap (value_of value) (
              k.inserted authorization (bearer ++ token) _
                (k.content_type_only application_json E.of_post ∙ k.post_plain))),
        sent (arrives H value (get_with_auth {E = E} url (some token)))
            (ap (value_of value) (k.inserted authorization (bearer ++ token) E.of_get k.get_plain)),
        sent (arrives H value (delete_with_auth {E = E} url token))
            (ap (value_of value) (k.listed authorization (bearer ++ token))),
      )

-- The status of an answer of the server's `get_cert_hash`.
abbrev pub hash_status : {V : Type 0} → HttpResponse V → ℕ
hash_status (service_unavailable e) = 503
hash_status (cert_hash h) = 200
hash_status r = 500

abbrev pub is_success : ℕ → Bool
is_success status = leb 200 status && ltb status 300

module _ (E : Ehttp) (V : Type 0) where
  -- If the server has no hash of its certificate, the client's `get_cert_hash` is an error, not `None`; if it has one, the
  -- client's answer is what its parser makes of the body.
  pub get_cert_hash-client :
      {A : Type 0} (from_slice : List ℕ → Result A String) (h : Option String) (r : Response)
      → r.status ≡ hash_status (Rest.get_cert_hash {V = V} h)
      → r.is_ok ≡ is_success r.status
      → ((h ≡ none) → get_cert_hash E from_slice r ≡ err (rejected E r))
        × ((x : String) (a : A)
            → h ≡ some x
            → from_slice r.bytes ≡ ok a
            → get_cert_hash E from_slice r ≡ ok (some a))
  unfolding get_cert_hash parse_optional_response Rest.get_cert_hash
  get_cert_hash-client from_slice none r s o = (λ e. rw (o, s) refl, λ x a e p. absurd (cc))
  get_cert_hash-client from_slice (some y) r s o = (λ e. absurd (cc), λ x a e p. rw (o, s, p) refl)
