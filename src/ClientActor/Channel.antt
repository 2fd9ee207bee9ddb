-- ===== src/ClientActor/Channel.antt =====
-- helpers/src/client_actor/channel.rs: the task of a channel of the client. The task that reads hands on
-- what it reads in order, so the loop is driven by the answers of `channel.read` and by what is to be
-- written, in the order in which `select` takes them.
use multiplayer_kit.Base.{ℕ, List, [], ◌∷◌, ◌++◌, Bool, true, false, if◌then◌else◌, Result, ok, err}
use multiplayer_kit.Framing.{MessageBuffer, Item, frame_message, push}
use multiplayer_kit.Framing
use multiplayer_kit.ChannelMessage.{ChannelMessage, DecodeError}
use multiplayer_kit.ClientActor.{InternalEvent, received, lost}

-- A read answers bytes, of which none stand for the end, or fails. A write is answered at once. `None`
-- of the queue of writes means that nobody can write any more.
pub data Poll : Type 0 where
  reads : List ℕ → Poll
  read_fails : Poll
  writes : List ℕ → Bool → Poll
  no_writer : Poll

-- `live` is false behind `return`. `written` is what the channel took.
pub record ChannelTask (M : ChannelMessage) : Type 0 where
  pub buffer : MessageBuffer
  pub events : List (InternalEvent M)
  pub written : List (List ℕ)
  pub live : Bool

module _ {M : ChannelMessage} where
  abbrev pub decoded : Result M.Message DecodeError → List (InternalEvent M)
  decoded (ok m) = received m ∷ []
  decoded (err e) = []

  -- The messages of a chunk, with whether the task goes on: a message that does not decode is skipped,
  -- and a framing error ends the task.
  unfoldable pub deliver : M.Channel → List Item → List (InternalEvent M) × Bool
  deliver ct [] = ([], true)
  deliver ct (ok msg ∷ items) =
      let (events, live) : List (InternalEvent M) × Bool = deliver ct items in
      (decoded (M.decode ct msg) ++ events, live)
  deliver ct (err e ∷ items) = (lost ∷ [], false)

  -- `let _ = event_tx.send(InternalEvent::Disconnected); return`.
  unfoldable pub gives_up : ChannelTask M → ChannelTask M
  gives_up t = record t { events = t.events ++ lost ∷ []; live = false }

  unfoldable pub read_chunk : M.Channel → ChannelTask M → List ℕ → ChannelTask M
  read_chunk ct t bytes =
      let (items, rest) : List Item × MessageBuffer = push t.buffer bytes in
      let (events, live) : List (InternalEvent M) × Bool = deliver ct items in
      record t { buffer = rest; events = t.events ++ events; live = live }

  unfoldable pub poll_task : M.Channel → ChannelTask M → Poll → ChannelTask M
  poll_task ct t (reads []) = gives_up t
  poll_task ct t (reads (b ∷ bs)) = read_chunk ct t (b ∷ bs)
  poll_task ct t read_fails = gives_up t
  poll_task ct t (writes bytes took) =
      if took then record t { written = t.written ++ bytes ∷ [] } else gives_up t
  poll_task ct t no_writer = record t { live = false }

  unfoldable pub run_loop : M.Channel → ChannelTask M → List Poll → ChannelTask M
  unfolding poll_task
  run_loop ct t [] = t
  run_loop ct t (p ∷ ps) =
      let later = run_loop ct (poll_task ct t p) ps in if t.live then later else t

  -- The first write names the type of the channel.
  unfoldable pub run_channel : M.Channel → ℕ → Bool → List Poll → ChannelTask M
  run_channel ct channel_id_byte took polls =
      let id_msg = frame_message (channel_id_byte ∷ []) in
      let t : ChannelTask M = record {
        buffer = Framing.new;
        events = [];
        written = [];
        live = true;
      } in
      let later = run_loop ct (record t { written = id_msg ∷ [] }) polls in
      if took then later else gives_up t
