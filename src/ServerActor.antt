-- ===== src/ServerActor.antt =====
-- helpers/src/server_actor/channel.rs: the task that `handle_server_channel` runs for each channel
-- of a room, and the tables that the tasks of a room share.
--
-- A task is a state that the answers of `channel.read()` drive. `read` is what it does with an answer up
-- to the next await: what it makes of the tables, and the events that it goes on to send. Each of these
-- sends is a turn of its own, so that the turns of other tasks come in between, also between the update
-- of the tables and the event that reports it; a task reads again when it has sent its events. The update
-- itself, which holds no lock over all of the tables, is taken as one turn.
pub mod Cases
pub mod Reports
pub mod Connection
pub mod Departure
pub mod Identify
pub mod Routing
pub mod Loop
mod Tests
use multiplayer_kit.Base.{
  ℕ, zero, suc, ◌≡◌, Option, none, some, List, [], ◌∷◌, ◌++◌, map, Bool, true, false, length, leb,
  is_some, if◌then◌else◌, ite, ℕ_discrete, Result, ok, err,
}
use multiplayer_kit.Base.Map.{Map, get, insert, remove, contains_key}
use multiplayer_kit.Protocol.{UserContext, ChannelId}
use multiplayer_kit.Framing.{MessageBuffer, Item, try_extract, push, FramingError}
use multiplayer_kit.ChannelMessage.{ChannelMessage, DecodeError}

pub data InternalServerEvent (T : UserContext) (M : ChannelMessage) : Type 0 where
  user_ready : T.User → InternalServerEvent T M
  user_gone : T.User → InternalServerEvent T M
  message : T.User → M.Channel → M.Message → InternalServerEvent T M

-- `user_channels`, `pending_users` and `connected_users` of `run_server_actor`.
pub record Tables (T : UserContext) (M : ChannelMessage) : Type 0 where
  pub user_channels : Map ChannelId (T.User × M.Channel)
  pub pending_users : Map T.UserId (T.User × Map M.Channel ChannelId)
  pub connected_users : Map T.UserId T.User

-- Before the type byte, behind it, and returned.
pub data Phase (M : ChannelMessage) : Type 0 where
  identifying : MessageBuffer → Phase M
  running : M.Channel → MessageBuffer → Phase M
  finished : Phase M

pub record Task (T : UserContext) (M : ChannelMessage) : Type 0 where
  pub channel_id : ChannelId
  pub user : T.User
  pub phase : Phase M

-- The tables and the task afterwards, and the events that were sent.
pub record Outcome (T : UserContext) (M : ChannelMessage) : Type 0 where
  pub tables : Tables T M
  pub task : Task T M
  pub events : List (InternalServerEvent T M)

-- `entry(user_id).or_insert_with(..)`.
abbrev or_insert {ℓ} : {A : Type ℓ} → Option A → A → A
or_insert none a = a
or_insert (some b) a = b

-- The channels that are not the user's.
unfoldable pub without_user :
    {A : Type 0} (T : UserContext)
    → T.UserId
    → Map ChannelId (T.User × A)
    → Map ChannelId (T.User × A)
without_user T u [] = []
without_user T u ((c, (v, a)) ∷ m) =
    let rest = without_user T u m in ite (T.id_discrete (T.id v) u) rest ((c, (v, a)) ∷ rest)

module _ {T : UserContext} {M : ChannelMessage} where
  unfoldable pub start : ChannelId → T.User → Task T M
  start channel_id user = record {
    channel_id = channel_id;
    user = user;
    phase = identifying (record { buffer = [] });
  }

  -- The entry of `pending_users` with the channel in it.
  unfoldable pub pending_entry :
      Tables T M → Task T M → M.Channel → T.User × Map M.Channel ChannelId
  pending_entry t task ct =
      let (user, m) =
        or_insert (get T.id_discrete (T.id task.user) t.pending_users) (task.user, []) in
      (user, insert M.channel_discrete ct task.channel_id m)

  -- The channel has named its type: it is entered, and its user is ready with the last of the
  -- expected channels.
  unfoldable pub identified : ℕ → Tables T M → Task T M → M.Channel → MessageBuffer → Outcome T M
  identified expected t task ct rest =
      let u = T.id task.user in
      let entry = pending_entry t task ct in
      let channels = insert ℕ_discrete task.channel_id (task.user, ct) t.user_channels in
      let task' = record task { phase = running ct rest } in
      if leb expected (length entry.1)
      then record {
        tables = record {
          user_channels = channels;
          pending_users = remove T.id_discrete u t.pending_users;
          connected_users = insert T.id_discrete u entry.0 t.connected_users;
        };
        task = task';
        events = user_ready entry.0 ∷ [];
      }
      else record {
        tables = record t {
          user_channels = channels;
          pending_users = insert T.id_discrete u entry t.pending_users;
        };
        task = task';
        events = [];
      }

  -- `return` before the channel is identified: nothing is cleaned up, since nothing was entered.
  unfoldable pub give_up : Tables T M → Task T M → Outcome T M
  give_up t task = record { tables = t; task = record task { phase = finished }; events = [] }

  -- A message of one byte names the type.
  unfoldable pub identify_by : ℕ → Tables T M → Task T M → List ℕ → MessageBuffer → Outcome T M
  identify_by expected t task [] rest = give_up t task
  identify_by expected t task (b ∷ []) rest = elim (M.channel_from_id b) [
    | none ↦ give_up t task
    | some ct ↦ identified expected t task ct rest
  ]
  identify_by expected t task (b ∷ c ∷ bs) rest = give_up t task

  unfoldable pub first_item :
      ℕ → Tables T M → Task T M → MessageBuffer → Option (Item × MessageBuffer) → Outcome T M
  unfolding identify_by
  first_item expected t task m none = record {
    tables = t;
    task = record task { phase = identifying m };
    events = [];
  }
  first_item expected t task m (some (ok msg, rest)) = identify_by expected t task msg rest
  first_item expected t task m (some (err e, rest)) = give_up t task

  -- One round of the first loop. Only the first message of a chunk is taken out of the buffer.
  unfoldable pub identify : ℕ → Tables T M → Task T M → MessageBuffer → List ℕ → Outcome T M
  unfolding first_item
  identify expected t task m bytes =
      let m' : MessageBuffer = record { buffer = m.buffer ++ bytes } in
      first_item expected t task m' (try_extract m')

  abbrev decoded :
      T.User → M.Channel → Result M.Message DecodeError → List (InternalServerEvent T M)
  decoded user ct (ok m) = message user ct m ∷ []
  decoded user ct (err e) = []

  -- The messages of one chunk: one that does not decode is skipped, and a framing error ends the
  -- chunk. (The buffer is empty then, so nothing of the chunk is left.)
  unfoldable pub deliver : T.User → M.Channel → List Item → List (InternalServerEvent T M)
  deliver user ct [] = []
  deliver user ct (ok msg ∷ items) = decoded user ct (M.decode ct msg) ++ deliver user ct items
  deliver user ct (err e ∷ items) = []

  -- Behind the second loop: the channel has been closed.
  unfoldable pub closed : Tables T M → Task T M → Outcome T M
  closed t task =
      let u = T.id task.user in
      let channels = remove ℕ_discrete task.channel_id t.user_channels in
      let task' = record task { phase = finished } in
      if contains_key T.id_discrete u t.connected_users
      then record {
        tables = record t {
          user_channels = without_user T u channels;
          connected_users = remove T.id_discrete u t.connected_users;
        };
        task = task';
        events = user_gone task.user ∷ [];
      }
      else record {
        tables = record t {
          user_channels = channels;
          pending_users = remove T.id_discrete u t.pending_users;
        };
        task = task';
        events = [];
      }

  -- What the task does with an answer of `channel.read()`.
  unfoldable pub read_in : ℕ → Tables T M → Task T M → Phase M → Option (List ℕ) → Outcome T M
  read_in expected t task (identifying m) none = give_up t task
  read_in expected t task (identifying m) (some bytes) = identify expected t task m bytes
  read_in expected t task (running ct m) none = closed t task
  read_in expected t task (running ct m) (some bytes) =
      let (items, m') = push m bytes in
      record {
        tables = t;
        task = record task { phase = running ct m' };
        events = deliver task.user ct items;
      }
  read_in expected t task finished answer = give_up t task

  unfoldable pub read : ℕ → Tables T M → Task T M → Option (List ℕ) → Outcome T M
  unfolding read_in
  read expected t task answer = read_in expected t task task.phase answer

-- All tasks of a room with their tables, and the events that they have still to send, each with the
-- channel of its task.
pub record System (T : UserContext) (M : ChannelMessage) : Type 0 where
  pub tables : Tables T M
  pub tasks : Map ChannelId (Task T M)
  pub unsent : List (ChannelId × InternalServerEvent T M)

-- `Accept::NewChannel`, which spawns a task; an answer of a channel's `read`; and the end of a task's
-- `event_tx.send`.
pub data Turn (T : UserContext) : Type 0 where
  accepts : ChannelId → T.User → Turn T
  answers : ChannelId → Option (List ℕ) → Turn T
  sends : ChannelId → Turn T

module _ {T : UserContext} {M : ChannelMessage} where
  unfoldable pub empty : System T M
  empty = record {
    tables = record { user_channels = []; pending_users = []; connected_users = [] };
    tasks = [];
    unsent = [];
  }

  -- The events of the task of a channel.
  abbrev pub of_task :
      ChannelId → List (InternalServerEvent T M) → List (ChannelId × InternalServerEvent T M)
  of_task c = map (λ e. (c, e))

  abbrev put_back :
      ChannelId × InternalServerEvent T M
      → Option (InternalServerEvent T M × List (ChannelId × InternalServerEvent T M))
      → Option (InternalServerEvent T M × List (ChannelId × InternalServerEvent T M))
  put_back p none = none
  put_back p (some (e, rest)) = some (e, p ∷ rest)

  -- The event that the task of a channel sends next, and the others.
  unfoldable pub next_unsent :
      ChannelId
      → List (ChannelId × InternalServerEvent T M)
      → Option (InternalServerEvent T M × List (ChannelId × InternalServerEvent T M))
  next_unsent c [] = none
  next_unsent c ((d, e) ∷ rest) =
      let later = next_unsent c rest in
      ite (ℕ_discrete d c) (some (e, rest)) (put_back (d, e) later)

  read_of : ℕ → System T M → Option (List ℕ) → Option (Task T M) → System T M
  read_of expected s answer none = s
  read_of expected s answer (some task) =
      let o = read expected s.tables task answer in
      record {
        tables = o.tables;
        tasks = insert ℕ_discrete task.channel_id o.task s.tasks;
        unsent = s.unsent ++ of_task task.channel_id o.events;
      }

  -- The system afterwards, and what has come into the queue of the room.
  unfoldable pub turn : ℕ → System T M → Turn T → System T M × List (InternalServerEvent T M)
  unfolding read_of
  turn expected s (accepts c user) =
      (record s { tasks = insert ℕ_discrete c (start c user) s.tasks }, [])
  turn expected s (answers c answer) =
      let s' = read_of expected s answer (get ℕ_discrete c s.tasks) in
      (if is_some (next_unsent c s.unsent) then s else s', [])
  turn expected s (sends c) = elim (next_unsent c s.unsent) [
    | none ↦ (s, [])
    | some (e, rest) ↦ (record s { unsent = rest }, e ∷ [])
  ]

  -- The system and the room's event queue after a history.
  unfoldable pub run : ℕ → System T M → List (Turn T) → System T M × List (InternalServerEvent T M)
  run expected s [] = (s, [])
  run expected s (x ∷ xs) =
      let (s', es) = turn expected s x in let (s'', more) = run expected s' xs in (s'', es ++ more)
