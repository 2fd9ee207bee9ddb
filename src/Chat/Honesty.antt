-- ===== src/Chat/Honesty.antt =====
-- example/chat-server/src/actor.rs in the loop of helpers/src/server_actor/actor.rs: who stands behind
-- what a chat room sends.
use Prim.Native.String.{String}
use mathlib.Core.List.{Memᴰ}
use mathlib.Core.List.Memᴰ.{head, tail}
use multiplayer_kit.Base.{
  ℕ, ◌≡◌, refl, ◌∙◌, none, some, List, [], ◌∷◌, map, Bool, All, ◌⊎◌, inl, inr, ok, Result-cases,
  append-nil, All-append, true, false, if◌then◌else◌,
}
use multiplayer_kit.Base.Map.{Map}
use multiplayer_kit.Protocol.{ChannelId}
use multiplayer_kit.Framing.{frame_message}
use multiplayer_kit.Room.{Tokio, ChannelBroadcast, new_channel, closing}
use multiplayer_kit.Chat.{
  Json, chat_rooms, Bincode, chat_events, ChatChannel, chat_channel, ChatMessage, send_text,
  text_sent, system, chat, ChatUser, chat_users, channel, encode,
}
use multiplayer_kit.Chat.Server.{ChatState, joined, left, says, respond, startup, chat_actor}
use multiplayer_kit.ServerActor.{InternalServerEvent, user_ready, user_gone, message}
use multiplayer_kit.ServerActor.Routing.{
  ServerOutput, send, broadcast, is_of_type, keys_where, route_encoded, route_typed, route,
  route_outputs, All-send_to,
}
use multiplayer_kit.ServerActor.Loop.{
  ServerMessage, user_connected, user_disconnected, game_message, ServerSource, user,
  internal_source, ServerActorConfig, Loop, Answer, accepts, receives, receives_self, Round, begin,
  handle, accept_round, event_round, self_round, answer_round, rounds,
}

module _ (B : Bincode) (R : Tokio) where
  abbrev pub Answers : Type 0
  Answers = List (Answer chat_users (chat_events B) R)

  -- The user that a message is about: the one whose text it is and whose name it carries, the one who
  -- has joined, or the one who has left.
  abbrev pub IsVouched : String → Answers → ChatMessage → Type 0
  IsVouched room answers (send_text content) = ⊥
  IsVouched room answers (text_sent username content) =
      (u : ChatUser) × (u.username ≡ username)
      × Memᴰ (receives (some (message u chat_channel (chat (send_text content))))) answers
  IsVouched room answers (system text) =
      (u : ChatUser) × (((text ≡ joined u room) × Memᴰ (receives (some (user_ready u))) answers)
        ⊎ ((text ≡ left u) × Memᴰ (receives (some (user_gone u))) answers))

  -- The frame of such a message.
  abbrev pub IsHonest : String → Answers → R.Sender × List ℕ → Type 0
  IsHonest room answers s =
      (msg : ChatMessage) × (bytes : List ℕ) × IsVouched room answers msg
      × (encode B (chat msg) ≡ ok bytes)
      × (s.1 ≡ frame_message bytes)

  All-always : {A : Type 0} (P : A → Type 0) (xs : List A) → ((a : A) → P a) → All P xs
  All-always P [] h = tt
  All-always P (x ∷ xs) h = (h x, All-always P xs h)

  route-IsHonest :
      (room : String) (answers : Answers) (msg : ChatMessage)
      (channels : Map ChannelId (ChannelBroadcast R))
      (table : Map ChannelId (ChatUser × ChatChannel))
      → IsVouched room answers msg
      → All (IsHonest room answers) (
          route chat_users
            (chat_events B)
            channels
            table
            (is_of_type chat_users (chat_events B))
            (chat msg))
  unfolding route route_typed route_encoded channel
  route-IsHonest room answers msg channels table v = elim (Result-cases (encode B (chat msg))) [
    | inl (bytes, e) ↦ rw e (
        All-send_to (IsHonest room answers) channels
          (keys_where (is_of_type chat_users (chat_events B) chat_channel) table)
          (frame_message bytes)
          (All-always _ (keys_where (is_of_type chat_users (chat_events B) chat_channel) table)
            (λ c b found. (msg, bytes, v, e, refl))))
    | inr (x, e) ↦ rw e tt
  ]

  -- What the actor leaves in its sink for an event that has arrived.
  abbrev IsSpeech : String → Answers → List (ServerOutput chat_users (chat_events B)) → Type 0
  IsSpeech room answers outputs =
      (outputs ≡ [])
      ⊎ ((msg : ChatMessage) × (outputs ≡ broadcast (chat msg) ∷ []) × IsVouched room answers msg)

  route_outputs-IsHonest :
      (room : String) (answers : Answers) (outputs : List (ServerOutput chat_users (chat_events B)))
      (channels : Map ChannelId (ChannelBroadcast R))
      (table : Map ChannelId (ChatUser × ChatChannel))
      → IsSpeech room answers outputs
      → All
          (IsHonest room answers)
          (route_outputs {T = chat_users} {M = chat_events B} channels table outputs).sends
  unfolding route_outputs
  route_outputs-IsHonest room answers outputs channels table (inl e) = rw e tt
  route_outputs-IsHonest room answers outputs channels table (inr (msg, e, v)) =
      rw (e, append-nil) (route-IsHonest room answers msg channels table v)

  abbrev source_of : InternalServerEvent chat_users (chat_events B) → ServerSource chat_users
  source_of (user_ready u) = user u
  source_of (user_gone u) = user u
  source_of (message u ct m) = user u

  abbrev content_of : InternalServerEvent chat_users (chat_events B) → ServerMessage (chat_events B)
  content_of (user_ready u) = user_connected
  content_of (user_gone u) = user_disconnected
  content_of (message u ct m) = game_message m

  respond-IsSpeech :
      (answers : Answers) (state : ChatState) (e : InternalServerEvent chat_users (chat_events B))
      → Memᴰ (receives (some e)) answers
      → IsSpeech state.room_name answers (respond B state (source_of e) (content_of e) []).1
  unfolding respond says send
  respond-IsSpeech answers state (user_ready u) h =
      inr (system (joined u state.room_name), refl, (u, inl (refl, h)))
  respond-IsSpeech answers state (user_gone u) h = inr (system (left u), refl, (u, inr (refl, h)))
  respond-IsSpeech answers state (message u chat_channel (chat (send_text content))) h =
      inr (text_sent u.username content, refl, (u, refl, h))
  respond-IsSpeech answers state (message u chat_channel (chat (text_sent name content))) h =
      inl refl
  respond-IsSpeech answers state (message u chat_channel (chat (system text))) h = inl refl

  respond-room_name :
      (state : ChatState) (from : ServerSource chat_users) (content : ServerMessage (chat_events B))
      (sink : List (ServerOutput chat_users (chat_events B)))
      → (respond B state from content sink).0.room_name ≡ state.room_name
  unfolding respond
  respond-room_name state (user u) user_connected sink = refl
  respond-room_name state (user u) user_disconnected sink = refl
  respond-room_name state (user u) (game_message (chat (send_text content))) sink = refl
  respond-room_name state (user u) (game_message (chat (text_sent name content))) sink = refl
  respond-room_name state (user u) (game_message (chat (system text))) sink = refl
  respond-room_name state internal_source content sink = refl

module _ (B : Bincode) (J : Json) (suffix server_name : String) (R : Tokio) where
  abbrev ChatRoom : Type 0
  ChatRoom = Loop R (chat_actor B J suffix server_name)

  abbrev ChatRound : Type 0
  ChatRound = Round chat_users (chat_events B) R

  abbrev pub answers_of : List ChatRound → Answers B R
  answers_of rs = map (λ r. r.answer) rs

  abbrev IsHonestRoom : String → Answers B R → ChatRoom → Type 0
  IsHonestRoom room answers l =
      (l.sink ≡ []) × (l.state.room_name ≡ room) × All (IsHonest B R room answers) l.sends

  handle-IsHonest :
      (room : String) (answers : Answers B R) (r : ChatRound) (l : ChatRoom)
      (e : InternalServerEvent chat_users (chat_events B))
      → Memᴰ (receives (some e)) answers
      → IsHonestRoom room answers l
      → IsHonestRoom room answers (handle r l (source_of B R e) (content_of B R e))
  unfolding handle
  handle-IsHonest room answers r l e h (empty, named, honest) =
      let from = source_of B R e in
      let content = content_of B R e in
      let outputs = (respond B l.state from content l.sink).1 in
      let speech : IsSpeech B R room answers outputs =
        rw (empty, ← named) (respond-IsSpeech B R answers l.state e h) in
      (
        refl,
        respond-room_name B R l.state from content l.sink ∙ named,
        All-append (IsHonest B R room answers) l.sends _ honest
            (route_outputs-IsHonest B R room answers outputs r.channels r.user_channels speech),
      )

  answer_round-IsHonest :
      (room : String) (answers : Answers B R) (r : ChatRound) (l : ChatRoom)
      (a : Answer chat_users (chat_events B) R)
      → Memᴰ a answers
      → IsHonestRoom room answers l
      → IsHonestRoom room answers (answer_round r l a)
  unfolding answer_round accept_round event_round self_round handle respond
  answer_round-IsHonest room answers r l (accepts none) h k = k
  answer_round-IsHonest room answers r l (accepts (some closing)) h k = k
  answer_round-IsHonest room answers r l (accepts (some (new_channel u c))) h k = k
  answer_round-IsHonest room answers r l (receives none) h k = k
  answer_round-IsHonest room answers r l (receives (some (user_ready u))) h k =
      handle-IsHonest room answers r l (user_ready u) h k
  answer_round-IsHonest room answers r l (receives (some (user_gone u))) h k =
      handle-IsHonest room answers r l (user_gone u) h k
  answer_round-IsHonest room answers r l (receives (some (message u ct m))) h k =
      handle-IsHonest room answers r l (message u ct m) h k
  answer_round-IsHonest room answers r l (receives_self none) h k = k
  answer_round-IsHonest room answers r l (receives_self (some m)) h (empty, named, honest) = (
    refl,
    named,
    All-append (IsHonest B R room answers) l.sends _ honest
        (route_outputs-IsHonest B R room answers l.sink r.channels r.user_channels (inl empty)),
  )

  ended_or :
      (room : String) (answers : Answers B R) (live : Bool) (later l : ChatRoom)
      → IsHonestRoom room answers later
      → IsHonestRoom room answers l
      → IsHonestRoom room answers (if live then later else l)
  ended_or room answers true later l h k = h
  ended_or room answers false later l h k = k

  rounds-IsHonestRoom :
      (room : String) (answers : Answers B R) (rs : List ChatRound) (l : ChatRoom)
      → All (λ r. Memᴰ r.answer answers) rs
      → IsHonestRoom room answers l
      → IsHonestRoom room answers (rounds l rs)
  unfolding rounds
  rounds-IsHonestRoom room answers [] l h k = k
  rounds-IsHonestRoom room answers (r ∷ rs) l h k =
      let later =
        rounds-IsHonestRoom room answers rs (answer_round r l r.answer) h.1
          (answer_round-IsHonest room answers r l r.answer h.0 k) in
      ended_or room answers l.live (rounds (answer_round r l r.answer) rs) l later k

  among_answers :
      (answers : Answers B R) (rs : List ChatRound)
      → ((a : Answer chat_users (chat_events B) R) → Memᴰ a (answers_of rs) → Memᴰ a answers)
      → All (λ r. Memᴰ r.answer answers) rs
  among_answers answers [] f = tt
  among_answers answers (r ∷ rs) f =
      (f r.answer (head refl), among_answers answers rs (λ a h. f a (tail h)))

  -- Whatever the clients send and whenever users come and go, each frame that a chat room sends is that
  -- of a text that a client of a user of that name has sent to the room, or of a notice that a user who
  -- was reported ready has joined it or one who was reported gone has left: a text under another name
  -- and a notice that a client has made up are not passed on.
  pub rounds-IsHonest :
      (config : ServerActorConfig (chat_rooms J suffix)) (rs : List ChatRound)
      → All
          (IsHonest B R config.room_config.name (answers_of rs))
          (rounds {A = chat_actor B J suffix server_name} (begin config) rs).sends
  unfolding begin startup
  rounds-IsHonest config rs =
      (rounds-IsHonestRoom config.room_config.name (answers_of rs) rs (begin config)
        (among_answers (answers_of rs) rs (λ a h. h)) (refl, refl, tt)).2
