-- ===== src/Client/Api.antt =====
-- client/src/api.rs: the API client. ehttp and serde_json are parameters: the headers of a request with their
-- operations, the response to it, and the parsers of its body. Text that is sent is a list of bytes.
use Prim.Native.String.{String}
use Prim.Native.String
use multiplayer_kit.Base.{
  ℕ, Option, none, some, List, [], ◌∷◌, ◌++◌, Bool, ◌==◌, if◌then◌else◌, Result, ok, err,
}
use multiplayer_kit.Protocol.{RoomId}
use multiplayer_kit.ClientErrors.{
  ClientError, connection, receive, malformed_message, server_rejected, transport,
}
use multiplayer_kit.Rest.{bearer}
use multiplayer_kit.Quic.Paths.{decimal}

-- `Headers`, the headers that `Request::post` and `Request::get` begin with, and the text of a status.
pub record Ehttp : Type 1 where
  pub Headers : Type 0
  pub new_headers : List (List ℕ × List ℕ) → Headers
  pub insert : List ℕ → List ℕ → Headers → Headers
  pub get : List ℕ → Headers → Option (List ℕ)
  pub of_post : Headers
  pub of_get : Headers
  pub status_text : ℕ → String

pub record Request (E : Ehttp) : Type 0 where
  pub method : String
  pub url : List ℕ
  pub headers : E.Headers
  pub body : List ℕ

pub record Response : Type 0 where
  pub is_ok : Bool
  pub status : ℕ
  pub text : Option String
  pub bytes : List ℕ

pub record ApiClient : Type 0 where
  pub base_url : List ℕ

abbrev pub authorization : List ℕ
authorization =
    b'A' ∷ b'u' ∷ b't' ∷ b'h' ∷ b'o' ∷ b'r' ∷ b'i' ∷ b'z' ∷ b'a' ∷ b't' ∷ b'i' ∷ b'o' ∷ b'n' ∷ []

abbrev pub content_type : List ℕ
content_type =
    b'C' ∷ b'o' ∷ b'n' ∷ b't' ∷ b'e' ∷ b'n' ∷ b't' ∷ b'-' ∷ b'T' ∷ b'y' ∷ b'p' ∷ b'e' ∷ []

abbrev pub application_json : List ℕ
application_json =
    b'a' ∷ b'p' ∷ b'p' ∷ b'l' ∷ b'i' ∷ b'c' ∷ b'a' ∷ b't' ∷ b'i' ∷ b'o' ∷ b'n' ∷ b'/' ∷ b'j' ∷ b's'
    ∷ b'o' ∷ b'n' ∷ []

-- `trim_end_matches('/')`.
trim_before : ℕ → List ℕ → List ℕ
trim_before b [] = if b == b'/' then [] else b ∷ []
trim_before b (c ∷ cs) = b ∷ c ∷ cs

unfoldable pub trim_end : List ℕ → List ℕ
unfolding trim_before
trim_end [] = []
trim_end (b ∷ bs) = trim_before b (trim_end bs)

unfoldable pub new : List ℕ → ApiClient
new base_url = record { base_url = trim_end base_url }

with_token : (E : Ehttp) → E.Headers → Option (List ℕ) → E.Headers
with_token E h none = h
with_token E h (some token) = E.insert authorization (bearer ++ token) h

module _ {E : Ehttp} where
  unfoldable pub post_json : List ℕ → List ℕ → Option (List ℕ) → Request E
  unfolding with_token
  post_json url body auth = record {
    method = "POST";
    url = url;
    headers = with_token E (E.insert content_type application_json E.of_post) auth;
    body = body;
  }

  unfoldable pub get_with_auth : List ℕ → Option (List ℕ) → Request E
  unfolding with_token
  get_with_auth url auth = record {
    method = "GET";
    url = url;
    headers = with_token E E.of_get auth;
    body = [];
  }

  unfoldable pub delete_with_auth : List ℕ → List ℕ → Request E
  delete_with_auth url auth = record {
    method = "DELETE";
    url = url;
    headers = E.new_headers ((authorization, bearer ++ auth) ∷ []);
    body = [];
  }

abbrev text_or_empty : Option String → String
text_or_empty none = ""
text_or_empty (some t) = t

parsed : {A : Type 0} → Result A String → Result A ClientError
parsed (ok a) = ok a
parsed (err e) = err (receive (malformed_message e))

map_ok : {A B : Type 0} → (A → B) → Result A ClientError → Result B ClientError
map_ok f (ok a) = ok (f a)
map_ok f (err e) = err e

module _ (E : Ehttp) where
  unfoldable pub rejected : Response → ClientError
  rejected r = connection (
      server_rejected
        (String.◌++◌ (E.status_text r.status) (String.◌++◌ ": " (text_or_empty r.text))))

  -- `from_slice` is the parser of the type that is asked for.
  unfoldable pub parse_response :
      {A : Type 0} → (List ℕ → Result A String) → Response → Result A ClientError
  unfolding parsed
  parse_response from_slice r = if r.is_ok then parsed (from_slice r.bytes) else err (rejected r)

  unfoldable pub parse_optional_response :
      {A : Type 0} → (List ℕ → Result A String) → Response → Result (Option A) ClientError
  unfolding parsed map_ok
  parse_optional_response from_slice r =
      if r.status == 404
      then ok none
      else if r.is_ok
      then map_ok some (parsed (from_slice r.bytes))
      else err (rejected r)

-- `get_cert_hash`, on the response; `from_slice` parses the hash.
module _ (E : Ehttp) where
  unfoldable pub get_cert_hash :
      {A : Type 0} → (List ℕ → Result A String) → Response → Result (Option A) ClientError
  get_cert_hash from_slice r = parse_optional_response E from_slice r

  -- `delete_room`, on the response.
  unfoldable pub delete_answer : Response → Result (Unit {0}) ClientError
  delete_answer r = if r.is_ok then ok tt else err (rejected E r)

-- The requests, behind the base URL. A body is none where serde cannot serialize it.
abbrev pub rooms_url : List ℕ
rooms_url = b'/' ∷ b'r' ∷ b'o' ∷ b'o' ∷ b'm' ∷ b's' ∷ []

abbrev pub quickplay_url : List ℕ
quickplay_url = b'/' ∷ b'q' ∷ b'u' ∷ b'i' ∷ b'c' ∷ b'k' ∷ b'p' ∷ b'l' ∷ b'a' ∷ b'y' ∷ []

abbrev pub ticket_url : List ℕ
ticket_url = b'/' ∷ b't' ∷ b'i' ∷ b'c' ∷ b'k' ∷ b'e' ∷ b't' ∷ []

filter_body : Option (Result (List ℕ) String) → Result (List ℕ) String
filter_body none = ok (b'{' ∷ b'}' ∷ [])
filter_body (some body) = body

module _ {E : Ehttp} where
  posted : List ℕ → Option (List ℕ) → Result (List ℕ) String → Result (Request E) ClientError
  posted url auth (ok body) = ok (post_json url body auth)
  posted url auth (err e) = err (connection (transport e))

  -- `to_vec` of the payload, of the configuration and of the filter are the arguments.
  unfoldable pub get_ticket : ApiClient → Result (List ℕ) String → Result (Request E) ClientError
  unfolding posted
  get_ticket c payload = posted (c.base_url ++ ticket_url) none payload

  unfoldable pub list_rooms : ApiClient → List ℕ → Request E
  list_rooms c ticket = get_with_auth (c.base_url ++ rooms_url) (some ticket)

  unfoldable pub create_room :
      ApiClient → List ℕ → Result (List ℕ) String → Result (Request E) ClientError
  unfolding posted
  create_room c ticket config = posted (c.base_url ++ rooms_url) (some ticket) config

  unfoldable pub delete_room : ApiClient → List ℕ → RoomId → Request E
  delete_room c ticket id =
      delete_with_auth (c.base_url ++ (rooms_url ++ (b'/' ∷ decimal id))) ticket

  unfoldable pub quickplay :
      ApiClient → List ℕ → Option (Result (List ℕ) String) → Result (Request E) ClientError
  unfolding posted filter_body
  quickplay c ticket filter =
      posted (c.base_url ++ quickplay_url) (some ticket) (filter_body filter)
