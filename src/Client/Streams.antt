-- ===== src/Client/Streams.antt =====
-- client/src/transport/webtransport.rs, client/src/transport/websocket.rs and client/src/room/channel.rs: reading from a
-- connection. What arrives is part of the state of a stream: chunks of bytes on a WebTransport stream, messages on a
-- WebSocket.
pub mod Exact
use Prim.Native.String.{String}
use multiplayer_kit.Base.{
  ℕ, zero, suc, ◌+◌, ◌-◌, Option, none, some, List, [], ◌∷◌, ◌++◌, Bool, true, false, length, take,
  drop, ltb, ◌==◌, if◌then◌else◌, Result, ok, err,
}
use multiplayer_kit.ClientErrors.{ClientError, receive, disconnected_by, stream, server_closed}
use multiplayer_kit.Framing.{header}

-- The chunks that arrive, and the error at their end, or `none` if the stream is finished.
pub record WebTransportStream : Type 0 where
  pub chunks : List (List ℕ)
  pub failure : Option String
  pub connected : Bool

pub data WsFrame : Type 0 where
  data_frame : List ℕ → WsFrame
  close_frame : WsFrame
  control_frame : WsFrame
  error_frame : String → WsFrame

pub record WebSocketStream : Type 0 where
  pub frames : List WsFrame
  pub connected : Bool

-- What a read answers, and the stream afterwards.
abbrev pub Read : Type 0 → Type 0
Read S = Result (List ℕ) ClientError × S

-- The rest of a chunk that did not fit stays in the stream.
unread : List ℕ → List (List ℕ) → List (List ℕ)
unread [] cs = cs
unread (b ∷ bs) cs = (b ∷ bs) ∷ cs

ended : WebTransportStream → Option String → Read WebTransportStream
ended s none = (err (disconnected_by server_closed), record s { connected = false })
ended s (some e) = (err (receive (stream e)), record s { connected = false })

read_chunks : ℕ → WebTransportStream → List (List ℕ) → Read WebTransportStream
unfolding ended unread
read_chunks n s [] = ended s s.failure
read_chunks n s (c ∷ cs) = (ok (take n c), record s { chunks = unread (drop n c) cs })

-- `read` into a buffer of `n` bytes.
unfoldable pub webtransport_read : ℕ → WebTransportStream → Read WebTransportStream
unfolding read_chunks
webtransport_read n s = read_chunks n s s.chunks

read_frames : ℕ → Bool → List WsFrame → Read WebSocketStream
read_frames n connected [] =
    (err (disconnected_by server_closed), record { frames = []; connected = false })
read_frames n connected (data_frame bytes ∷ fs) =
    (ok (take n bytes), record { frames = fs; connected = connected })
read_frames n connected (close_frame ∷ fs) =
    (err (disconnected_by server_closed), record { frames = fs; connected = false })
read_frames n connected (control_frame ∷ fs) = read_frames n connected fs
read_frames n connected (error_frame e ∷ fs) =
    (err (receive (stream e)), record { frames = fs; connected = false })

unfoldable pub websocket_read : ℕ → WebSocketStream → Read WebSocketStream
unfolding read_frames
websocket_read n s = read_frames n s.connected s.frames

prepend : {S : Type 0} → List ℕ → Read S → Read S
prepend bs (err e, s) = (err e, s)
prepend bs (ok more, s) = (ok (bs ++ more), s)

exact_step : {S : Type 0} → (ℕ → S → Read S) → ℕ → Read S → Read S
unfolding prepend
exact_step more n (err e, s) = (err e, s)
exact_step more n (ok [], s) = (err (receive (stream "Unexpected EOF")), s)
exact_step more n (ok (b ∷ bs), s) = prepend (b ∷ bs) (more (n - length (b ∷ bs)) s)

module _ {S : Type 0} (read : ℕ → S → Read S) where
  -- `Channel::read_exact`, with a round for each byte at most.
  unfoldable pub read_exact_in : ℕ → ℕ → S → Read S
  unfolding exact_step
  read_exact_in zero n s = (ok [], s)
  read_exact_in (suc fuel) zero s = (ok [], s)
  read_exact_in (suc fuel) (suc n) s = exact_step (read_exact_in fuel) (suc n) (read (suc n) s)

  unfoldable pub read_exact : ℕ → S → Read S
  read_exact n s = read_exact_in n n s

-- `WebTransportRecvStream::recv_message` on the bytes that arrive before the stream ends: a message and what is left, or
-- `none` for an error of the stream.
unfoldable pub recv_message : List ℕ → Option (List ℕ × List ℕ)
recv_message bytes =
    let body = drop 4 bytes in
    let len = header bytes in
    if ltb (length bytes) 4
    then none
    else if ltb (length body) len
    then none
    else some (take len body, drop len body)

-- `recv_message` of a WebSocket stream: the buffer has 65536 bytes.
unfoldable pub websocket_recv_message : WebSocketStream → Read WebSocketStream
websocket_recv_message s = websocket_read 65536 s
