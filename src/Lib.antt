-- ===== src/Lib.antt =====
-- multiplayer-kit: rooms of a game server, the framing of messages, and the server-side actor.
--
-- A server keeps rooms in a manager. A room has a shared state (the open channels, the channels
-- of each user, a count of users) and a handler of the game. The transports open and close
-- channels in rooms for authenticated users; REST requests create, list, find and delete rooms; a
-- lobby is told of rooms that come and go; and a periodic check removes rooms that have expired.
-- With the helpers, the handler is an actor: a task per channel cuts the byte stream into frames,
-- identifies the channel by its first frame, and turns frames into messages and the channels of a
-- user into one connected user. What the actor sends is routed to the channels of users.
--
-- The files and the code:
-- - Base: names of the libraries, lists, results, Boolean tests, sets and maps. A map (DashMap,
--   HashMap) is an association list; its order stands for the order in which an iteration happens
--   to visit the entries.
-- - Protocol: protocol/src/lib.rs. UserContext and RoomConfig are interfaces that the other
--   modules take as parameters.
-- - Framing: helpers/src/utils/framing.rs: frame_message, MessageBuffer::push and try_extract.
--   The iteration of a chunk is `messages`, on as much fuel as there are bytes in the buffer;
--   each round takes four bytes, so the fuel never ends the loop (Framing/Stream.antt).
-- - Room: server/src/room.rs: RoomShared, RoomEntry, the broadcasts, and the parts of
--   open_channel (join, admits, enter, open_entry) and close_channel (close_shared, close_entry)
--   that work on one room. Room/Users is the map from users to channels, Room/Invariant what
--   holds of it, Room/Admission who is let in, Room/Sessions opening against closing, Room/Leak
--   and Room/Race histories of one room, Room/Handle what the handler of a room is given.
-- - Manager: server/src/room.rs: RoomManager, with one function for each of its operations.
--   Manager/Reach has the states that any sequence of operations reaches, Manager/Ids the ids
--   that are handed out, Manager/Isolation, Opening, Quickplay and Lifecycle what the operations
--   answer; Manager/Sweep takes the removals of run_lifecycle_checks apart at their yields;
--   Manager/Occupancy the table of rooms and seats that answers describe, which
--   Manager/Refinement shows the manager to implement.
-- - Lobby: server/src/lobby.rs: the events of the lobby, in their order.
-- - Ticket: server/src/ticket.rs. jsonwebtoken is a parameter (`Jwt`), and what it documents the
--   hypothesis `Verifies`.
-- - Rest: server/src/rest.rs: the handlers as functions of the state and of a request;
--   Rest/Access has the ticket check, Rest/Rooms what is created.
-- - Ws: server/src/ws.rs: the actor of a room connection and room_ws; what a handler asks of
--   actix is an effect, also the tasks that it spawns. Ws/Timeline runs the actor over what
--   reaches it in time, Ws/Heartbeat is about its ticks, Ws/Requests about what a request for a
--   connection answers, Ws/Rooms about how it ends, Ws/LobbyActor has the lobby's actor.
-- - Quic: server/src/quic.rs: the path of a session and its checks; Quic/Paths reads the paths
--   that the client (client/src/room/connection.rs, client/src/lobby/client.rs) builds,
--   Quic/RoomSessions is handle_room_connection over the events of a connection, Quic/Cleanup
--   what it leaves behind, Quic/Streams the loops of a channel stream and of a lobby connection.
-- - Server: server/src/builder.rs and server/src/lib.rs: the configuration and the builder;
--   Server/Tls loads the certificates and binds the HTTP server, Server/Cors computes the allowed
--   origins, Server/Startup is run up to where both servers are served, and Server/Serving what
--   has started then.
-- - ChannelMessage: helpers/src/utils/channel_message.rs, the interface of a game's messages.
-- - ServerActor: helpers/src/server_actor/channel.rs: handle_server_channel as a task that is
--   driven by the answers of `read`, the tables that tasks share, and the system of all tasks of
--   a room (`turn`, `run`), in which tasks interleave at their reads and at the sends of their
--   events. ServerActor/Reports counts what these report of users. ServerActor/Routing: sink.rs
--   and route_outputs of helpers/src/server_actor/actor.rs. ServerActor/Loop: run_server_actor as
--   rounds of its `select`, around the game's actor as an interface.
-- - BasicSink: helpers/src/actor/basic_sink.rs, a sink that keeps what is sent; BasicSink/Inboxes
--   reads it as a queue for each actor.
-- - ClientErrors: client/src/error.rs.
-- - Client: client/src. Client/Streams is reading from the native transports
--   (client/src/transport, client/src/room/channel.rs), with what arrives as part of the state of
--   a stream, Client/Streams/Exact what read_exact gives; Client/Delivery puts the server's
--   streams and the client's together; Client/Api is client/src/api.rs, Client/Access the
--   client's requests at the handlers of Rest; Client/LobbyClient is client/src/lobby/client.rs;
--   Client/Connection is client/src/room/connection.rs, and Client/Fallback is about its choice
--   of a transport. ehttp, wtransport and tungstenite are parameters. read_exact has as much fuel
--   as bytes to read, and each round reads one at least.
-- - ClientActor: helpers/src/client_actor. The module itself has types.rs, sink.rs and the
--   forwarding loops of bridge.rs; ClientActor/Senders has the senders of mod.rs;
--   ClientActor/Channel is channel.rs, as a task that is driven by what `select` takes;
--   ClientActor/Connector opens the channels (bridge.rs) and is the loop of connector.rs;
--   ClientActor/Runtime is runtime.rs, over what arrives before each step and the queue that the
--   step takes from. The second loop of `poll` has no bound in the code and is on fuel here:
--   ClientActor/Ending shows that it ends, with `run`, if what the actor sends to itself dies
--   out, and how much fuel is enough; ClientActor/Polling is about an actor that sends nothing to
--   itself, ClientActor/Early about when the loop does not end, and about a `run` that ends too
--   early. ClientActor/Told and Order follow what the actor is told, with a log that is kept
--   beside its state, Session is about what the connector tells a runtime, Answers puts connector
--   and runtime together, Invariant carries what the actor's handler keeps over to the runtime,
--   Delivery puts a channel of the client behind what the server writes, and Sending puts a
--   channel task of ServerActor behind what the client writes.
-- - Chat: example/chat-protocol/src/lib.rs, as instances of the interfaces of rooms, users and
--   messages; bincode and serde are parameters. Chat/Names is about its names, Chat/Server is
--   example/chat-server/src/actor.rs and the handler of main.rs that makes users, Chat/Honesty
--   puts it into the loop of ServerActor; Chat/Client is example/chat-client/src/actor.rs over
--   the calls made of its adapter, and Chat/Shown puts it into the runtime of ClientActor.
-- - Testing: helpers/src/testing/harness.rs: TestHarness, with a function for each of its
--   operations; a send to a full queue has no answer, since it waits. Testing/Client is
--   TestClientConnection, Testing/Queues and Testing/Routing are about what routing leaves in the
--   queues.
-- - Examples and the Tests modules: a small game, runs, and the theorems at concrete arguments.
--
-- Numbers: user_count has 32 bits and wraps around, as do ids of 64 bits; theorems that need an
-- id to be new assume that the counter does not wrap. Instants are natural numbers, and
-- duration_since stops at 0. A byte is a number below 256, where a theorem needs it.
--
-- tokio is a parameter (`Tokio`): its senders and receivers are opaque values, the pairs that a
-- call creates and the answer of a send are arguments. An operation is one step, also one that
-- awaits, but for Room/Race, which takes open_channel apart, Manager/Sweep, and the tasks of
-- ServerActor, where the sends of a task are steps of their own, and only the update of the
-- tables behind a read is one step. A task that ws.rs spawns for a payload is an effect: what the
-- spawned tasks do, and in which order, is not followed. A try_send to a channel is recorded,
-- whether the queue has place or not.
--
-- Not modelled: the lifecycle task, the routes and the QUIC endpoint of the server, the browser
-- transports of the client, spawning, and the programs of the chat example (its terminal and
-- browser clients, and main): they are calls of actix, wtransport, jsonwebtoken, tokio, the
-- terminal and the browser around the operations above.
pub mod Base
pub mod Framing
pub mod Protocol
pub mod Room
pub mod Lobby
pub mod Manager
pub mod Ticket
pub mod Rest
pub mod Ws
pub mod Quic
pub mod Chat
pub mod Client
pub mod ClientErrors
pub mod ClientActor
pub mod ChannelMessage
pub mod BasicSink
pub mod Server
pub mod ServerActor
pub mod Testing
pub mod Examples
