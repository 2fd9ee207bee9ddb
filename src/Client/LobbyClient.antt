-- ===== src/Client/LobbyClient.antt =====
-- client/src/lobby/client.rs: the lobby client over a WebSocket or a WebTransport stream, behind its connection. The
-- parser of an event is a parameter.
use Prim.Native.String.{String}
use multiplayer_kit.Base.{
  ℕ, zero, suc, ◌+◌, ◌≤◌, ◌≡◌, refl, Option, none, some, List, [], ◌∷◌, ◌++◌, All, map, true, false,
  length, take, if◌then◌else◌, Result, ok, err, arith, ap, ap₂,
}
use multiplayer_kit.ClientErrors.{
  ClientError, receive, not_connected, malformed_message, stream, disconnected_by, server_closed,
  network_error, ConnectionState, connected, lost, is_connected,
}
use multiplayer_kit.Client.{Transport}
use multiplayer_kit.Client.Streams.{
  Read, WebSocketStream, data_frame, close_frame, recv_message, websocket_recv_message,
  websocket_read,
}

pub data LobbyTransport : Type 0 where
  -- The bytes that arrive before the stream fails, and how it fails.
  on_webtransport : List ℕ → String → LobbyTransport
  on_websocket : WebSocketStream → LobbyTransport

pub record LobbyClient : Type 0 where
  pub inner : LobbyTransport
  pub state : ConnectionState
  pub transport : Transport

received_on_stream : String → Option (List ℕ × List ℕ) → Read LobbyTransport
received_on_stream e none = (err (receive (stream e)), on_webtransport [] e)
received_on_stream e (some (message, rest)) = (ok message, on_webtransport rest e)

received_on_socket : Read WebSocketStream → Read LobbyTransport
received_on_socket (r, s) = (r, on_websocket s)

recv_data : LobbyTransport → Read LobbyTransport
unfolding received_on_stream received_on_socket
recv_data (on_webtransport bytes e) = received_on_stream e (recv_message bytes)
recv_data (on_websocket s) = received_on_socket (websocket_recv_message s)

abbrev pub event_of : {V : Type 0} → Result V String → Result V ClientError
event_of (ok e) = ok e
event_of (err e) = err (receive (malformed_message e))

module _ {V : Type 0} (from_slice : List ℕ → Result V String)
    (to_string : ClientError → String) where
  recv_with : LobbyClient → Read LobbyTransport → Result V ClientError × LobbyClient
  recv_with c (ok bytes, inner) = (event_of (from_slice bytes), record c { inner = inner })
  recv_with c (err e, inner) =
      (err e, record c { inner = inner; state = lost (network_error (to_string e)) })

  unfoldable pub recv : LobbyClient → Result V ClientError × LobbyClient
  unfolding recv_with recv_data
  recv c =
      if is_connected c.state
      then recv_with c (recv_data c.inner)
      else (err (receive not_connected), c)

  -- So many calls of `recv`.
  unfoldable pub recv_times : ℕ → LobbyClient → List (Result V ClientError) × LobbyClient
  recv_times zero c = ([], c)
  recv_times (suc n) c =
      let (r, c') : Result V ClientError × LobbyClient = recv c in
      let (rs, last) : List (Result V ClientError) × LobbyClient = recv_times n c' in (r ∷ rs, last)

-- A text of the length of a WebSocket buffer, 65536 bytes.
abbrev pub FitsBuffer : List ℕ → Type 0
FitsBuffer message = length message ≤ 65536

abbrev pub not_connected_times : {V : Type 0} → ℕ → List (Result V ClientError)
not_connected_times zero = []
not_connected_times (suc n) = err (receive not_connected) ∷ not_connected_times n

take_all : (n : ℕ) (xs : List ℕ) → length xs ≤ n → take n xs ≡ xs
take_all zero [] h = refl
take_all zero (x ∷ xs) h = absurd (omega arith)
take_all (suc n) [] h = refl
take_all (suc n) (x ∷ xs) h = ap (◌∷◌ x) (take_all n xs (omega arith))

-- A client of a WebSocket on which these messages arrive before it is closed.
abbrev pub on_messages : LobbyClient → List (List ℕ) → LobbyClient
on_messages c ms = record c {
  inner =
      on_websocket (record { frames = map data_frame ms ++ (close_frame ∷ []); connected = true });
  state = connected;
}

module _ {V : Type 0} (from_slice : List ℕ → Result V String)
    (to_string : ClientError → String) where
  recv-message :
      (c : LobbyClient) (m : List ℕ) (ms : List (List ℕ))
      → FitsBuffer m
      → recv from_slice to_string (on_messages c (m ∷ ms))
        ≡ (event_of (from_slice m), on_messages c ms)
  unfolding recv websocket_recv_message websocket_read is_connected
  recv-message c m ms h =
      ap (λ bytes. (event_of (from_slice bytes), on_messages c ms)) (take_all 65536 m h)

  recv-end :
      (c : LobbyClient)
      → let (r, c') = recv from_slice to_string (on_messages c []) in
        (r ≡ err (disconnected_by server_closed)) × (is_connected c'.state ≡ false)
  unfolding recv websocket_recv_message websocket_read is_connected
  recv-end c = (refl, refl)

  recv_times_lost :
      (n : ℕ) (c : LobbyClient)
      → is_connected c.state ≡ false
      → recv_times from_slice to_string n c ≡ (not_connected_times n, c)
  unfolding recv_times recv
  recv_times_lost zero c h = refl
  recv_times_lost (suc n) c h = rw h (rw (recv_times_lost n c h) refl)

  -- Over a WebSocket, the lobby client gives each message of at most 64 KB as its event, or as malformed, which does
  -- not end the connection, in order and once; then the end of the connection, once; and from then on that it is not connected.
  pub recv_times-messages :
      (c : LobbyClient) (ms : List (List ℕ)) (n k : ℕ)
      → All FitsBuffer ms
      → k ≡ suc n + length ms
      → (recv_times from_slice to_string k (on_messages c ms)).0
        ≡ map (λ m. event_of (from_slice m)) ms
          ++ (err (disconnected_by server_closed) ∷ not_connected_times n)
  unfolding recv_times
  recv_times-messages c [] n zero f e = absurd (omega arith)
  recv_times-messages c [] n (suc k) f e =
      let same : k ≡ n = omega arith in
      let (r, gone) = recv-end c in rw same (ap₂ (◌∷◌) r (ap (λ x. x.0) (recv_times_lost n _ gone)))
  recv_times-messages c (m ∷ ms) n zero f e = absurd (omega arith)
  recv_times-messages c (m ∷ ms) n (suc k) f e =
      rw (recv-message c m ms f.0)
        (ap (◌∷◌ (event_of (from_slice m))) (recv_times-messages c ms n k f.1 (omega arith)))
