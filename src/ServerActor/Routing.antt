-- ===== src/ServerActor/Routing.antt =====
-- helpers/src/server_actor/sink.rs, types.rs and `route_outputs` of actor.rs: what the game's actor
-- sends, and the channels that it goes to.
use multiplayer_kit.Base.{
  ℕ, ◌≡◌, refl, Option, none, some, List, [], ◌∷◌, ◌++◌, Bool, true, false, if◌then◌else◌, ite,
  ℕ_discrete, arith, All, Option-cases, inl, inr, ok, err, Result, Bool-cases, Result-cases,
  append-nil, ap, ◌∙◌,
}
use multiplayer_kit.Base.Map.{Map, get, Distinct}
use multiplayer_kit.Protocol.{UserContext, ChannelId}
use multiplayer_kit.Framing.{frame_message}
use multiplayer_kit.Room.{Tokio, ChannelBroadcast, send_to}
use multiplayer_kit.ChannelMessage.{ChannelMessage, EncodeError}

pub data UserDestination (T : UserContext) : Type 0 where
  user : T.User → UserDestination T
  everyone : UserDestination T

pub data ServerOutput (T : UserContext) (M : ChannelMessage) : Type 0 where
  to_user : T.User → M.Message → ServerOutput T M
  broadcast : M.Message → ServerOutput T M
  internal : M.Message → ServerOutput T M

-- The frames that were sent to channels, and the messages for the actor itself.
pub record Routed (M : ChannelMessage) (R : Tokio) : Type 0 where
  pub sends : List (R.Sender × List ℕ)
  pub to_self : List M.Message

-- The keys of the entries that pass a test.
unfoldable pub keys_where : {A : Type 0} → (A → Bool) → Map ChannelId A → List ChannelId
keys_where p [] = []
keys_where p ((c, a) ∷ m) = let rest = keys_where p m in if p a then c ∷ rest else rest

module _ {T : UserContext} {M : ChannelMessage} where
  -- `ServerSink::send` to users, and to the actor itself.
  unfoldable pub send :
      List (ServerOutput T M) → UserDestination T → M.Message → List (ServerOutput T M)
  send outputs (user u) m = outputs ++ to_user u m ∷ []
  send outputs everyone m = outputs ++ broadcast m ∷ []

  unfoldable pub send_self : List (ServerOutput T M) → M.Message → List (ServerOutput T M)
  send_self outputs m = outputs ++ internal m ∷ []

module _ (T : UserContext) (M : ChannelMessage) where
  unfoldable pub is_of_user : M.Channel → T.User → T.User × M.Channel → Bool
  is_of_user ct u (v, k) =
      ite (M.channel_discrete k ct) (ite (T.id_discrete (T.id v) (T.id u)) true false) false

  unfoldable pub is_of_type : M.Channel → T.User × M.Channel → Bool
  is_of_type ct (v, k) = ite (M.channel_discrete k ct) true false

module _ (T : UserContext) (M : ChannelMessage) {R : Tokio} where
  -- The body of both branches that send to channels; nothing is sent for a message without a channel
  -- or one that does not encode.
  unfoldable pub route_encoded :
      Map ChannelId (ChannelBroadcast R)
      → List ChannelId
      → Result (List ℕ) EncodeError
      → List (R.Sender × List ℕ)
  route_encoded channels ids (ok bytes) = send_to channels ids (frame_message bytes)
  route_encoded channels ids (err e) = []

  unfoldable pub route_typed :
      Map ChannelId (ChannelBroadcast R)
      → Map ChannelId (T.User × M.Channel)
      → (M.Channel → T.User × M.Channel → Bool)
      → M.Message
      → Option M.Channel
      → List (R.Sender × List ℕ)
  unfolding route_encoded
  route_typed channels table p m none = []
  route_typed channels table p m (some ct) =
      route_encoded channels (keys_where (p ct) table) (M.encode m)

  unfoldable pub route :
      Map ChannelId (ChannelBroadcast R)
      → Map ChannelId (T.User × M.Channel)
      → (M.Channel → T.User × M.Channel → Bool)
      → M.Message
      → List (R.Sender × List ℕ)
  unfolding route_typed
  route channels table p m = route_typed channels table p m (M.channel m)

module _ {T : UserContext} {M : ChannelMessage} {R : Tokio} where
  unfoldable pub route_outputs :
      Map ChannelId (ChannelBroadcast R)
      → Map ChannelId (T.User × M.Channel)
      → List (ServerOutput T M)
      → Routed M R
  route_outputs channels table [] = record { sends = []; to_self = [] }
  route_outputs channels table (to_user u m ∷ outputs) =
      let rest = route_outputs channels table outputs in
      record rest { sends = route T M channels table (λ ct. is_of_user T M ct u) m ++ rest.sends }
  route_outputs channels table (broadcast m ∷ outputs) =
      let rest = route_outputs channels table outputs in
      record rest { sends = route T M channels table (is_of_type T M) m ++ rest.sends }
  route_outputs channels table (internal m ∷ outputs) =
      let rest = route_outputs channels table outputs in record rest { to_self = m ∷ rest.to_self }

-- An id that is listed stands for an entry that passes the test.
All-keys_where :
    {A : Type 0} (p : A → Bool) (Q : ChannelId → Type 0) (m : Map ChannelId A)
    → Distinct ℕ_discrete m
    → ((c : ChannelId) (a : A) → get ℕ_discrete c m ≡ some a → p a ≡ true → Q c)
    → All Q (keys_where p m)
unfolding keys_where get Distinct
All-keys_where p Q [] d h = tt
All-keys_where p Q ((c, a) ∷ m) d h =
    let rest = All-keys_where p Q m d.1 (λ j b e k. h j b (ground arith) k) in
    elim (Bool-cases (p a)) [ inl e ↦ rw e (h c a (ground arith) e, rest) | inr e ↦ rw e rest ]

module _ (T : UserContext) (M : ChannelMessage) where
  is_of_user-true :
      (ct k : M.Channel) (u v : T.User)
      → is_of_user T M ct u (v, k) ≡ true
      → (k ≡ ct) × (T.id v ≡ T.id u)
  unfolding is_of_user
  is_of_user-true ct k u v h = (ground arith, ground arith)

pub All-send_to :
    {R : Tokio} (Q : R.Sender × List ℕ → Type 0) (channels : Map ChannelId (ChannelBroadcast R))
    (ids : List ChannelId) (bytes : List ℕ)
    → All
        (λ c. (b : ChannelBroadcast R) → get ℕ_discrete c channels ≡ some b → Q (b.write_tx, bytes))
        ids
    → All Q (send_to channels ids bytes)
unfolding send_to
All-send_to Q channels [] bytes h = tt
All-send_to Q channels (c ∷ ids) bytes h =
    let rest = All-send_to Q channels ids bytes h.1 in
    elim (Option-cases (get ℕ_discrete c channels)) [
      | inl e ↦ rw e rest
      | inr (b, e) ↦ rw e (h.0 b e, rest)
    ]

module _ (T : UserContext) (M : ChannelMessage) {R : Tokio} where
  -- The frame of a message, on the sender of an open channel of its type that is its receiver's.
  abbrev pub IsFor :
      Map ChannelId (ChannelBroadcast R)
      → Map ChannelId (T.User × M.Channel)
      → T.User
      → M.Message
      → R.Sender × List ℕ
      → Type 0
  IsFor channels table u m s =
      (c : ChannelId) × (v : T.User) × (ct : M.Channel) × (b : ChannelBroadcast R) × (bytes : List
        ℕ)
      × (get ℕ_discrete c table ≡ some (v, ct))
      × (T.id v ≡ T.id u)
      × (M.channel m ≡ some ct)
      × (get ℕ_discrete c channels ≡ some b)
      × (M.encode m ≡ ok bytes)
      × (s ≡ (b.write_tx, frame_message bytes))

  -- With distinct channel ids, everything that is sent for an output to a user is the frame of its message, and goes to an open
  -- channel of that user, of the message's type.
  pub route-to_user :
      (channels : Map ChannelId (ChannelBroadcast R)) (table : Map ChannelId (T.User × M.Channel))
      (u : T.User) (m : M.Message)
      → Distinct ℕ_discrete table
      → All
          (IsFor channels table u m)
          (route_outputs {T = T} {M = M} channels table (to_user u m ∷ [])).sends
  unfolding route_outputs route route_typed route_encoded
  route-to_user channels table u m d = elim (Option-cases (M.channel m)) [
    | inl e ↦ rw (e, route) tt
    | inr (ct, e) ↦ elim (Result-cases (M.encode m)) [
      | inl (bytes, k) ↦
          rw (e, route)
            (rw (k, append-nil)
              (All-send_to (IsFor channels table u m) channels
                (keys_where (is_of_user T M ct u) table) (frame_message bytes)
                (All-keys_where (is_of_user T M ct u) _ table d (λ c a found yes b sender.
                  let (same, his) = is_of_user-true T M ct a.1 u a.0 yes in
                  (
                    c,
                    a.0,
                    ct,
                    b,
                    bytes,
                    found ∙ ap (λ k. some (a.0, k)) same,
                    his,
                    e,
                    sender,
                    k,
                    refl,
                  )))))
      | inr (x, k) ↦ rw (e, route) (rw k tt)
    ]
  ]
