-- ===== src/Client/Delivery.antt =====
-- server/src/quic.rs and client/src/transport/webtransport.rs: what the server writes to a stream is what the other end reads.
use multiplayer_kit.Base.{
  ℕ, zero, suc, ◌^◌, ◌<◌, ◌≡◌, refl, Option, none, some, List, [], ◌∷◌, ◌++◌, All, map, true,
  length, arith, ap, ◌∙◌, sym, append-nil, ok, length-append, take-append_self, drop-append_self,
}
use multiplayer_kit.Protocol.{UserContext, RoomConfig, LobbyEvent, snapshot}
use multiplayer_kit.Lobby.{Lobby, event}
use multiplayer_kit.Framing.{frame_message, to_be_bytes, new, push_all}
use multiplayer_kit.Framing.RoundTrip.{
  header-frame_message, push_all-frame_message, Fits, try_extract-new,
}
use multiplayer_kit.Framing.Stream.{concat}
use multiplayer_kit.Room.{Tokio}
use multiplayer_kit.Manager.{RoomManager, get_all_rooms}
use multiplayer_kit.Quic.Streams.{
  Poll, write_json_message, lobby_loop, handle_lobby_connection, poll_stream, handle_channel_stream,
}
use multiplayer_kit.Client.Streams.{recv_message}

recv_message-frame_message :
    (b rest : List ℕ) → length b < 2 ^ 32 → recv_message (frame_message b ++ rest) ≡ some (b, rest)
unfolding recv_message frame_message to_be_bytes
recv_message-frame_message b rest h = ground (
  arith,
  header-frame_message b rest h,
  length-append b rest,
  take-append_self b rest,
  drop-append_self b rest,
)

-- Messages as the client receives them, one after another: at most so many.
recv_next :
    Option (List ℕ × List ℕ) → (List ℕ → List (List ℕ) × List ℕ) → List ℕ → List (List ℕ) × List ℕ
recv_next none more bytes = ([], bytes)
recv_next (some (message, rest)) more bytes =
    let (messages, left) = more rest in (message ∷ messages, left)

unfoldable pub recv_many : ℕ → List ℕ → List (List ℕ) × List ℕ
unfolding recv_next
recv_many zero bytes = ([], bytes)
recv_many (suc n) bytes = recv_next (recv_message bytes) (recv_many n) bytes

-- What the client has sent in the polls at which the loop reads.
abbrev chunk_of : Option (Option (List ℕ)) → List (List ℕ) → List (List ℕ)
chunk_of none later = later
chunk_of (some none) later = later
chunk_of (some (some bytes)) later = bytes ∷ later

abbrev pub chunks_of : List Poll → List (List ℕ)
chunks_of [] = []
chunks_of (p ∷ ps) = chunk_of p.read (chunks_of ps)

module _ {V : Type 0} (encode : LobbyEvent V → List ℕ) where
  lobby_loop-delivers :
      (es : Lobby V)
      → All (λ e. length (encode e) < 2 ^ 32) es
      → recv_many (length es) (lobby_loop (λ e. some (encode e)) (map (λ e. (event e, true)) es))
        ≡ (map encode es, [])
  unfolding recv_many lobby_loop write_json_message frame_message
  lobby_loop-delivers [] h = refl
  lobby_loop-delivers (e ∷ es) h = ground (
    arith,
    lobby_loop-delivers es h.1,
    recv_message-frame_message (encode e)
        (lobby_loop (λ e. some (encode e)) (map (λ e. (event e, true)) es)) h.0,
  )

module _ {T : UserContext} {C : RoomConfig} {R : Tokio} where
  -- Over a WebTransport connection to the lobby, the client receives the rooms, and then each event from the
  -- subscription on, whole, in order and once, if the receiver keeps up, each write succeeds, and this snapshot
  -- of the rooms and these events have less than 2^32 bytes each.
  pub handle_lobby_connection-delivers :
      (encode : LobbyEvent C.Value → List ℕ) (m : RoomManager T C R) (es : Lobby C.Value)
      → length (encode (snapshot (get_all_rooms m))) < 2 ^ 32
      → All (λ e. length (encode e) < 2 ^ 32) es
      → recv_many
          (suc (length es))
          (handle_lobby_connection (λ e. some (encode e)) m (map (λ e. (event e, true)) es))
        ≡ (encode (snapshot (get_all_rooms m)) ∷ map encode es, [])
  unfolding recv_many handle_lobby_connection write_json_message frame_message
  handle_lobby_connection-delivers encode m es first h = ground (
    arith,
    lobby_loop-delivers encode es h,
    recv_message-frame_message (encode (snapshot (get_all_rooms m)))
        (lobby_loop (λ e. some (encode e)) (map (λ e. (event e, true)) es)) first,
  )

poll_stream-chunk :
    (p : Poll) (later : List (List ℕ))
    → (poll_stream p).goes_on ≡ true
    → (poll_stream p).to_handler ++ later ≡ chunk_of p.read later
unfolding poll_stream
poll_stream-chunk p later h = ground arith

handle_channel_stream-chunks :
    (ps : List Poll)
    → All (λ p. (poll_stream p).goes_on ≡ true) ps
    → (handle_channel_stream ps).to_handler ≡ chunks_of ps
unfolding handle_channel_stream
handle_channel_stream-chunks [] h = refl
handle_channel_stream-chunks (p ∷ ps) h = rw h.0 (
    ap (λ x. (poll_stream p).to_handler ++ x) (handle_channel_stream-chunks ps h.1)
    ∙ poll_stream-chunk p (chunks_of ps) h.0)

-- Messages of at most 10 MB that a client frames and writes to its stream reach the handler of the room whole, in order and
-- once each, in whatever chunks the server reads them, while the stream goes on.
pub handle_channel_stream-delivers :
    (ms : List (List ℕ)) (ps : List Poll)
    → All Fits ms
    → All (λ p. (poll_stream p).goes_on ≡ true) ps
    → concat (chunks_of ps) ≡ concat (map frame_message ms)
    → push_all new (handle_channel_stream ps).to_handler ≡ (map ok ms, new)
handle_channel_stream-delivers ms ps f h e =
    rw (handle_channel_stream-chunks ps h)
      (push_all-frame_message ms [] (chunks_of ps) f try_extract-new (e ∙ sym (append-nil _)))
