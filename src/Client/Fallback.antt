-- ===== src/Client/Fallback.antt =====
-- client/src/room/connection.rs: which transport a connection has, and at which address.
use multiplayer_kit.Base.{
  ℕ, ◌≡◌, ◌≢◌, ◌⊎◌, inl, inr, refl, List, ◌++◌, false, Result, ok, err, arith, Result-cases,
  Bool-cases,
}
use multiplayer_kit.Protocol.{RoomId}
use multiplayer_kit.ClientErrors.{ClientError}
use multiplayer_kit.Client.{Transport, auto, web_transport, web_socket}
use multiplayer_kit.Quic.Paths.{room_url}
use multiplayer_kit.Client.Connection.{
  ConnectionConfig, Transports, on_webtransport, on_websocket, RoomConnection, ws_path,
  websocket_url, connect_webtransport, connect_websocket, connect_auto, connect,
}

Transport-cases : (t : Transport) → (t ≡ auto) ⊎ ((t ≡ web_transport) ⊎ (t ≡ web_socket))
Transport-cases auto = inl refl
Transport-cases web_transport = inr (inl refl)
Transport-cases web_socket = inr (inr refl)

module _ (W : Transports) (url ticket : List ℕ) (id : RoomId) (config : ConnectionConfig) where
  abbrev stream : Result W.WebTransportConnection ClientError
  stream = W.connect_webtransport (url ++ room_url id ticket) config.cert_hash config.validate_certs

  abbrev socket : Result W.WebSocketConnection ClientError
  socket = W.connect_websocket (websocket_url url ++ (ws_path ++ room_url id ticket))

  -- A connection by WebTransport: the configuration allows it, and the address of the room answers.
  abbrev pub IsByStream : RoomConnection W → Type 0
  IsByStream c =
      (config.transport ≢ web_socket)
      × ((s : W.WebTransportConnection) × (stream ≡ ok s)
          × (c ≡ record { inner = on_webtransport s; room_id = id; transport = web_transport }))

  -- A connection by WebSocket: the configuration asks for it, or WebTransport is not there or has failed.
  abbrev pub IsBySocket : RoomConnection W → Type 0
  IsBySocket c =
      ((config.transport ≡ web_socket)
        ⊎ ((config.transport ≡ auto)
            × ((W.is_webtransport_supported ≡ false) ⊎ ((e : ClientError) × (stream ≡ err e)))))
      × ((s : W.WebSocketConnection) × (socket ≡ ok s)
          × (c ≡ record { inner = on_websocket s; room_id = id; transport = web_socket }))

  streamed :
      (s : W.WebTransportConnection)
      → stream ≡ ok s
      → connect_webtransport W url ticket id config.cert_hash config.validate_certs
        ≡ ok (record { inner = on_webtransport s; room_id = id; transport = web_transport })
  unfolding connect_webtransport
  streamed s e = rw e refl

  streams_not :
      (x : ClientError)
      → stream ≡ err x
      → connect_webtransport W url ticket id config.cert_hash config.validate_certs ≡ err x
  unfolding connect_webtransport
  streams_not x e = rw e refl

  by_stream :
      (c : RoomConnection W)
      → config.transport ≢ web_socket
      → connect_webtransport W url ticket id config.cert_hash config.validate_certs ≡ ok c
      → IsByStream c
  unfolding connect_webtransport
  by_stream c n h = elim (Result-cases stream) [
    | inl (s, e) ↦ (n, (s, e, ground arith))
    | inr (x, e) ↦ absurd (ground arith)
  ]

  by_socket :
      (c : RoomConnection W)
      → ((config.transport ≡ web_socket)
          ⊎ ((config.transport ≡ auto)
              × ((W.is_webtransport_supported ≡ false) ⊎ ((e : ClientError) × (stream ≡ err e)))))
      → connect_websocket W url ticket id ≡ ok c
      → IsBySocket c
  unfolding connect_websocket
  by_socket c why h = elim (Result-cases socket) [
    | inl (s, e) ↦ (why, (s, e, ground arith))
    | inr (x, e) ↦ absurd (ground arith)
  ]

  by_auto :
      (c : RoomConnection W)
      → config.transport ≡ auto
      → connect_auto W url ticket id config.cert_hash config.validate_certs ≡ ok c
      → IsByStream c ⊎ IsBySocket c
  unfolding connect_auto
  by_auto c a h =
      let other : config.transport ≢ web_socket = λ x. ground (arith, a, x) in
      elim (Bool-cases W.is_webtransport_supported) [
        | inr lacks ↦ inr (by_socket c (inr (a, inl lacks)) (rw lacks at h))
        | inl there ↦ elim (Result-cases stream) [
          | inl (s, e) ↦ inl (by_stream c other (ground (arith, h, there, e, streamed s e)))
          | inr (x, e) ↦
              inr (by_socket c (inr (a, inr (x, e))) (ground (arith, h, there, e, streams_not x e)))
        ]
      ]

  -- A connection to a room is by WebTransport, if the configuration does not ask for a WebSocket and the address of the
  -- room answers; or by WebSocket, at its address, if the configuration asks for it, or asks for neither and
  -- WebTransport is not there or has failed. It is to the room that was asked for, and says which
  -- transport it has.
  pub connect_lem :
      (c : RoomConnection W) → connect W url ticket id config ≡ ok c → IsByStream c ⊎ IsBySocket c
  unfolding connect
  connect_lem c h = elim (Transport-cases config.transport) [
    | inl a ↦ by_auto c a (rw (a, connect) at h)
    | inr (inl s) ↦ inl (by_stream c (λ x. ground (arith, s)) (rw (s, connect) at h))
    | inr (inr s) ↦ inr (by_socket c (inl s) (rw (s, connect) at h))
  ]
