-- ===== src/ServerActor/Loop.antt =====
-- helpers/src/server_actor/actor.rs: the loop of `run_server_actor` around the game's actor, which is
-- an interface (helpers/src/actor/actor.rs). A round is one branch of the `select`.
use multiplayer_kit.Base.{
  ℕ, ◌≡◌, refl, Option, none, some, List, [], ◌∷◌, ◌++◌, Bool, true, false, if◌then◌else◌, arith,
}
use multiplayer_kit.Base.Map.{Map}
use multiplayer_kit.Protocol.{UserContext, RoomConfig, RoomId, ChannelId}
use multiplayer_kit.Room.{Tokio, ChannelBroadcast, ServerChannel, Accept, new_channel, closing}
use multiplayer_kit.ChannelMessage.{ChannelMessage}
use multiplayer_kit.ServerActor.{InternalServerEvent, user_ready, user_gone, message}
use multiplayer_kit.ServerActor.Routing.{ServerOutput, route_outputs}

pub data ServerMessage (M : ChannelMessage) : Type 0 where
  user_connected : ServerMessage M
  user_disconnected : ServerMessage M
  game_message : M.Message → ServerMessage M

pub data ServerSource (T : UserContext) : Type 0 where
  user : T.User → ServerSource T
  internal_source : ServerSource T

pub record AddressedMessage (T : UserContext) (M : ChannelMessage) : Type 0 where
  pub from : ServerSource T
  pub content : ServerMessage M

pub record ServerActorConfig (C : RoomConfig) : Type 0 where
  pub room_id : RoomId
  pub room_config : C.Config

-- The trait, with `ServerSink` as its sink: `handle` answers what it leaves in the sink. The extras
-- come from the game's context.
pub record GameActor (T : UserContext) (C : RoomConfig) (M : ChannelMessage) : Type 1 where
  pub State : Type 0
  pub Extras : Type 0
  pub startup : ServerActorConfig C → State
  pub room_extras : RoomId → Extras
  pub handle :
      State
      → Extras
      → AddressedMessage T M
      → List (ServerOutput T M)
      → State × (Extras × List (ServerOutput T M))
  pub shutdown : State → Extras → State × Extras

-- `live` is false behind `break`. `spawned` are the channels whose tasks were spawned, `sends` the
-- frames that were sent and `to_self` the messages that the actor has sent to itself.
pub record Loop {T : UserContext} {C : RoomConfig} {M : ChannelMessage} (R : Tokio)
    (A : GameActor T C M) : Type 0 where
  pub state : A.State
  pub extras : A.Extras
  pub sink : List (ServerOutput T M)
  pub live : Bool
  pub sends : List (R.Sender × List ℕ)
  pub to_self : List M.Message
  pub spawned : List (T.User × ServerChannel R)

-- What one of the three queues answers, with the open channels and the routing table of that time.
pub data Answer (T : UserContext) (M : ChannelMessage) (R : Tokio) : Type 0 where
  accepts : Option (Accept T R) → Answer T M R
  receives : Option (InternalServerEvent T M) → Answer T M R
  receives_self : Option M.Message → Answer T M R

pub record Round (T : UserContext) (M : ChannelMessage) (R : Tokio) : Type 0 where
  pub answer : Answer T M R
  pub channels : Map ChannelId (ChannelBroadcast R)
  pub user_channels : Map ChannelId (T.User × M.Channel)

module _ {T : UserContext} {C : RoomConfig} {M : ChannelMessage} {R : Tokio}
    {A : GameActor T C M} where
  unfoldable pub begin : ServerActorConfig C → Loop R A
  begin config = record {
    state = A.startup config;
    extras = A.room_extras config.room_id;
    sink = [];
    live = true;
    sends = [];
    to_self = [];
    spawned = [];
  }

  -- `A::handle` and `route_outputs`, which drains the sink.
  unfoldable pub handle : Round T M R → Loop R A → ServerSource T → ServerMessage M → Loop R A
  handle r l from content =
      let answer = A.handle l.state l.extras (record { from = from; content = content }) l.sink in
      let routed = route_outputs r.channels r.user_channels answer.1.1 in
      record l {
        state = answer.0;
        extras = answer.1.0;
        sink = [];
        sends = l.sends ++ routed.sends;
        to_self = l.to_self ++ routed.to_self;
      }

  unfoldable pub accept_round : Loop R A → Option (Accept T R) → Loop R A
  accept_round l none = record l { live = false }
  accept_round l (some closing) =
      let (state, extras) = A.shutdown l.state l.extras in
      record l { state = state; extras = extras; live = false }
  accept_round l (some (new_channel u channel)) = record l {
    spawned = l.spawned ++ (u, channel) ∷ [];
  }

  unfoldable pub event_round : Round T M R → Loop R A → Option (InternalServerEvent T M) → Loop R A
  event_round r l none = record l { live = false }
  event_round r l (some (user_ready u)) = handle r l (user u) user_connected
  event_round r l (some (user_gone u)) = handle r l (user u) user_disconnected
  event_round r l (some (message u ct m)) = handle r l (user u) (game_message m)

  unfoldable pub self_round : Round T M R → Loop R A → Option M.Message → Loop R A
  self_round r l none = l
  self_round r l (some m) = handle r l internal_source (game_message m)

  unfoldable pub answer_round : Round T M R → Loop R A → Answer T M R → Loop R A
  unfolding accept_round event_round self_round
  answer_round r l (accepts a) = accept_round l a
  answer_round r l (receives e) = event_round r l e
  answer_round r l (receives_self m) = self_round r l m

  unfoldable pub rounds : Loop R A → List (Round T M R) → Loop R A
  unfolding answer_round
  rounds l [] = l
  rounds l (r ∷ rs) =
      let later = rounds (answer_round r l r.answer) rs in if l.live then later else l

  answer_round-sink :
      (r : Round T M R) (l : Loop R A) (a : Answer T M R)
      → l.sink ≡ []
      → (answer_round r l a).sink ≡ []
  unfolding answer_round accept_round event_round self_round handle
  answer_round-sink r l (accepts none) h = h
  answer_round-sink r l (accepts (some closing)) h = h
  answer_round-sink r l (accepts (some (new_channel u channel))) h = h
  answer_round-sink r l (receives none) h = h
  answer_round-sink r l (receives (some (user_ready u))) h = refl
  answer_round-sink r l (receives (some (user_gone u))) h = refl
  answer_round-sink r l (receives (some (message u ct m))) h = refl
  answer_round-sink r l (receives_self none) h = h
  answer_round-sink r l (receives_self (some m)) h = refl

  -- Whatever the queues answer, each output of the game's actor is routed in the round in which it is
  -- sent: no output waits in the sink between rounds.
  rounds-sink : (l : Loop R A) (rs : List (Round T M R)) → l.sink ≡ [] → (rounds l rs).sink ≡ []
  unfolding rounds
  rounds-sink l [] h = h
  rounds-sink l (r ∷ rs) h =
      ground (arith, rounds-sink (answer_round r l r.answer) rs, answer_round-sink r l r.answer h)

  -- Once the loop has ended, nothing is handled or sent any more.
  rounds-ended : (l : Loop R A) (rs : List (Round T M R)) → l.live ≡ false → rounds l rs ≡ l
  unfolding rounds
  rounds-ended l [] h = refl
  rounds-ended l (r ∷ rs) h = rw (h, rounds) refl
