-- ===== src/ServerActor/Cases.antt =====
-- helpers/src/server_actor/channel.rs: an induction rule for what a task does between two awaits.
use multiplayer_kit.Base.{ℕ, Option, none, some, List, [], ◌∷◌, ok, err, Option-cases, inl, inr}
use multiplayer_kit.Protocol.{UserContext}
use multiplayer_kit.Framing.{MessageBuffer, Item}
use multiplayer_kit.ChannelMessage.{ChannelMessage}
use multiplayer_kit.ServerActor.{
  Tables, Phase, identifying, running, finished, Task, Outcome, identified, give_up, identify_by,
  first_item, identify, deliver, closed, read_in, read,
}

module _ {T : UserContext} {M : ChannelMessage} (P : Outcome T M → Type 0) (expected : ℕ)
    (t : Tables T M) (task : Task T M)
    (still : (phase : Phase M)
      → P (record { tables = t; task = record task { phase = phase }; events = [] }))
    (named : (ct : M.Channel) (rest : MessageBuffer) → P (identified expected t task ct rest)) where
  identify_by_cases :
      (msg : List ℕ) (rest : MessageBuffer) → P (identify_by expected t task msg rest)
  unfolding identify_by give_up
  identify_by_cases [] rest = still finished
  identify_by_cases (b ∷ []) rest = elim (Option-cases (M.channel_from_id b)) [
    | inl e ↦ rw (e, identify_by) (still finished)
    | inr (ct, e) ↦ rw (e, identify_by) (named ct rest)
  ]
  identify_by_cases (b ∷ c ∷ bs) rest = still finished

  first_item_cases :
      (m : MessageBuffer) (o : Option (Item × MessageBuffer)) → P (first_item expected t task m o)
  unfolding first_item give_up
  first_item_cases m none = still (identifying m)
  first_item_cases m (some (ok msg, rest)) = identify_by_cases msg rest
  first_item_cases m (some (err e, rest)) = still finished

  module _
      (delivers : (ct : M.Channel) (m : MessageBuffer) (items : List Item)
        → P (record {
          tables = t;
          task = record task { phase = running ct m };
          events = deliver task.user ct items;
        }))
      (ends : P (closed t task)) where
    read_in_cases :
        (phase : Phase M) (answer : Option (List ℕ)) → P (read_in expected t task phase answer)
    unfolding read_in give_up identify
    read_in_cases (identifying m) none = still finished
    read_in_cases (identifying m) (some bytes) = first_item_cases _ _
    read_in_cases (running ct m) none = ends
    read_in_cases (running ct m) (some bytes) = delivers ct _ _
    read_in_cases finished answer = still finished

    pub read_cases : (answer : Option (List ℕ)) → P (read expected t task answer)
    unfolding read
    read_cases answer = read_in_cases task.phase answer
