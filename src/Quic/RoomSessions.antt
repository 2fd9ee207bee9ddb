-- ===== src/Quic/RoomSessions.antt =====
-- server/src/quic.rs: a WebTransport connection to a room, from the first stream to the cleanup. The
-- connection is closed after the events that are listed.
use multiplayer_kit.Base.{
  Option, none, some, List, [], ◌∷◌, ◌++◌, Bool, true, false, not, ◌==◌, ◌&&◌, ◌||◌, if◌then◌else◌,
}
use multiplayer_kit.Protocol.{UserContext, RoomConfig, RoomId, ChannelId}
use multiplayer_kit.Lobby.{notify_updated}
use multiplayer_kit.Room.{Tokio, Instant, Pipes, Opened}
use multiplayer_kit.Ticket.{Jwt}
use multiplayer_kit.Manager.{RoomManager, Admission, open_channel, close_channel, get_room_info}
use multiplayer_kit.Quic.{QuicState}

-- A stream is accepted, with the pipes of its channel and the answer of `channel_tx.send`; a stream cannot
-- be accepted; the task of a channel has come to its end.
pub data SessionEvent (R : Tokio) : Type 0 where
  accepts : Instant → Pipes R → Bool → SessionEvent R
  accept_fails : SessionEvent R
  task_ends : ChannelId → Instant → SessionEvent R

-- The tasks: of each channel, whether its task is running.
pub record RoomSession {T : UserContext} (C : RoomConfig) (R : Tokio) (J : Jwt T) : Type 0 where
  pub state : QuicState C R J
  pub channel_tasks : List (ChannelId × Bool)

abbrev pub is_running : ChannelId → List (ChannelId × Bool) → Bool
is_running c [] = false
is_running c ((d, running) ∷ ts) = ((d == c) && running) || is_running c ts

abbrev pub finish : ChannelId → List (ChannelId × Bool) → List (ChannelId × Bool)
finish c [] = []
finish c ((d, running) ∷ ts) = (d, running && not (d == c)) ∷ finish c ts

module _ {T : UserContext} {C : RoomConfig} {R : Tokio} where
  -- All channels are closed, also those whose tasks have closed them.
  unfoldable pub close_all :
      RoomManager T C R → RoomId → List (ChannelId × Bool) → Instant → RoomManager T C R
  close_all m id [] now = m
  close_all m id ((c, running) ∷ ts) now = close_all (close_channel m id c now) id ts now

module _ {T : UserContext} {C : RoomConfig} {R : Tokio} {J : Jwt T} where
  -- The session afterwards, and whether the loop goes on.
  opened_stream :
      RoomSession C R J → RoomId → Admission T C R → Option (Opened R) → RoomSession C R J × Bool
  opened_stream q id a none =
      (record q { state = record q.state { room_manager = a.manager } }, false)
  opened_stream q id a (some o) = (
    record {
      state = record q.state {
        room_manager = a.manager;
        lobby = notify_updated q.state.lobby (get_room_info a.manager id);
      };
      channel_tasks = q.channel_tasks ++ ((o.channel_id, true) ∷ []);
    },
    true,
  )

  -- A task closes its channel at its end.
  ended_task : RoomSession C R J → RoomId → ChannelId → Instant → RoomSession C R J
  ended_task q id c now =
      if is_running c q.channel_tasks
      then record {
        state = record q.state { room_manager = close_channel q.state.room_manager id c now };
        channel_tasks = finish c q.channel_tasks;
      }
      else q

  unfoldable pub session_step :
      RoomSession C R J → RoomId → T.User → SessionEvent R → RoomSession C R J × Bool
  unfolding opened_stream ended_task
  session_step q id user (accepts now p sent) =
      let a = open_channel q.state.room_manager id user now p sent in opened_stream q id a a.answer
  session_step q id user accept_fails = (q, false)
  session_step q id user (task_ends c now) = (ended_task q id c now, true)

  unfoldable pub session_loop :
      RoomSession C R J → RoomId → T.User → List (SessionEvent R) → RoomSession C R J
  session_loop q id user [] = q
  session_loop q id user (v ∷ vs) =
      let (q', goes_on) : RoomSession C R J × Bool = session_step q id user v in
      let rest = session_loop q' id user vs in if goes_on then rest else q'

  unfoldable pub handle_room_connection :
      QuicState C R J → RoomId → T.User → List (SessionEvent R) → Instant → QuicState C R J
  handle_room_connection s id user vs now =
      let q = session_loop (record { state = s; channel_tasks = [] }) id user vs in
      let m = close_all q.state.room_manager id q.channel_tasks now in
      record q.state { room_manager = m; lobby = notify_updated q.state.lobby (get_room_info m id) }
