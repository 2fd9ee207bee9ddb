-- ===== src/Quic/Streams.antt =====
-- server/src/quic.rs: what is written to and read from the streams of a connection.
use multiplayer_kit.Base.{
  ℕ, ◌%◌, ◌^◌, Option, none, some, List, [], ◌∷◌, ◌++◌, Bool, true, false, length, if◌then◌else◌,
}
use multiplayer_kit.Protocol.{UserContext, RoomConfig, LobbyEvent, snapshot}
use multiplayer_kit.Lobby.{Received, event, lagged, closed}
use multiplayer_kit.Framing.{to_be_bytes}
use multiplayer_kit.Room.{Tokio}
use multiplayer_kit.Manager.{RoomManager, get_all_rooms}

-- What `write_json_message` writes, if the message can be serialized.
unfoldable pub write_json_message : Option (List ℕ) → Option (List ℕ)
write_json_message none = none
write_json_message (some bytes) = some (to_be_bytes (length bytes % 2 ^ 32) ++ bytes)

module _ {V : Type 0} (to_vec : LobbyEvent V → Option (List ℕ)) where
  -- A message that cannot be serialized or written ends the loop.
  written_then : Option (List ℕ) → Bool → List ℕ → List ℕ
  written_then none accepted later = []
  written_then (some bytes) accepted later = if accepted then bytes ++ later else []

  -- The loop of `handle_lobby_connection`, on what `recv` answers, with whether the write of an event succeeds,
  -- until the connection is closed.
  unfoldable pub lobby_loop : List (Received V × Bool) → List ℕ
  unfolding written_then
  lobby_loop [] = []
  lobby_loop ((event e, accepted) ∷ rest) =
      written_then (write_json_message (to_vec e)) accepted (lobby_loop rest)
  lobby_loop ((closed, accepted) ∷ rest) = []
  lobby_loop ((lagged, accepted) ∷ rest) = lobby_loop rest

module _ {T : UserContext} {C : RoomConfig} {R : Tokio} where
  -- What the stream to the client gets: the snapshot, then the events since the subscription, which comes
  -- behind the write of the snapshot.
  unfoldable pub handle_lobby_connection :
      (LobbyEvent C.Value → Option (List ℕ))
      → RoomManager T C R
      → List (Received C.Value × Bool)
      → List ℕ
  unfolding written_then
  handle_lobby_connection to_vec m answers =
      written_then to_vec (write_json_message (to_vec (snapshot (get_all_rooms m)))) true
        (lobby_loop to_vec answers)

-- What is ready when the loop of a channel stream polls: the close signal; the answer of `read` (`none` is the end
-- of the stream or an error) and whether the handler takes the payload; the answer of `write_rx.recv` and
-- whether the write succeeds.
pub record Poll : Type 0 where
  pub closes : Bool
  pub read : Option (Option (List ℕ))
  pub taken : Bool
  pub outgoing : Option (Option (List ℕ))
  pub written : Bool

-- What went to the handler and to the client, and whether the loop goes on.
pub record Streamed : Type 0 where
  pub to_handler : List (List ℕ)
  pub to_client : List (List ℕ)
  pub goes_on : Bool

abbrev stream_end : Streamed
stream_end = record { to_handler = []; to_client = []; goes_on = false }

read_of : Option (List ℕ) → Bool → Streamed
read_of none taken = stream_end
read_of (some []) taken = stream_end
read_of (some (b ∷ bs)) taken =
    if taken
    then record { to_handler = (b ∷ bs) ∷ []; to_client = []; goes_on = true }
    else stream_end

written_of : Option (List ℕ) → Bool → Streamed
written_of none written = stream_end
written_of (some msg) written =
    if written then record { to_handler = []; to_client = msg ∷ []; goes_on = true } else stream_end

write_poll : Option (Option (List ℕ)) → Bool → Streamed
unfolding written_of
write_poll none written = record { to_handler = []; to_client = []; goes_on = true }
write_poll (some answer) written = written_of answer written

read_poll : Option (Option (List ℕ)) → Poll → Streamed
unfolding read_of write_poll
read_poll none p = write_poll p.outgoing p.written
read_poll (some answer) p = read_of answer p.taken

-- One round of the `select`, which is biased: the close signal, then the stream, then the handler.
unfoldable pub poll_stream : Poll → Streamed
unfolding read_poll
poll_stream p = if p.closes then stream_end else read_poll p.read p

unfoldable pub handle_channel_stream : List Poll → Streamed
handle_channel_stream [] = record { to_handler = []; to_client = []; goes_on = true }
handle_channel_stream (p ∷ ps) =
    let s = poll_stream p in
    let rest = handle_channel_stream ps in
    if s.goes_on
    then record rest {
      to_handler = s.to_handler ++ rest.to_handler;
      to_client = s.to_client ++ rest.to_client;
    }
    else s
