-- ===== src/ClientActor/Sending.antt =====
-- helpers/src/client_actor/bridge.rs and channel.rs against helpers/src/server_actor/channel.rs: what a
-- client sends on a channel, from the bridge to the events of the room's actor.
use mathlib.Core.List.{append_cancel_left}
use multiplayer_kit.Base.{
  ℕ, ◌≡◌, refl, sym, ap, ◌∙◌, some, List, [], ◌∷◌, ◌++◌, map, true, ok, err, All, append_assoc,
  append-nil, length, leb, Bool-cases, inl, inr,
}
use multiplayer_kit.Base.Map.{Map, get}
use multiplayer_kit.Protocol.{UserContext}
use multiplayer_kit.Framing.{MessageBuffer, Item, new, frame_message, push, push_all}
use multiplayer_kit.Framing.Stream.{IsOk, concat, All-append_split}
use multiplayer_kit.Framing.RoundTrip.{Fits, push_all-frame_message, map-ok_IsOk, try_extract-new}
use multiplayer_kit.ChannelMessage.{ChannelMessage}
use multiplayer_kit.ServerActor.{
  InternalServerEvent, message, Tables, identifying, running, Task, pending_entry, identified,
  deliver, read_in, read,
}
use multiplayer_kit.ServerActor.Identify.{read-identified}
use multiplayer_kit.ClientActor.{forward_outgoing, typed_to, encoded_to, framed_to}
use multiplayer_kit.ClientActor.Channel.{Poll, ChannelTask, run_channel}
use multiplayer_kit.ClientActor.Delivery.{
  GoesWell, chunks_of, writes_of, Decodes, run_loop-push_all,
}

-- The events of a task of the server that reads some chunks.
unfoldable pub events_of_chunks :
    {T : UserContext} {M : ChannelMessage}
    → ℕ
    → Tables T M
    → Task T M
    → List (List ℕ)
    → List (InternalServerEvent T M)
events_of_chunks expected t task [] = []
events_of_chunks expected t task (c ∷ cs) =
    let o = read expected t task (some c) in
    o.events ++ events_of_chunks expected o.tables o.task cs

module _ (M : ChannelMessage) where
  -- Each message is on the channel and has its payload.
  abbrev pub Encodes : M.Channel → List M.Message → List (List ℕ) → Type 0
  Encodes ct ms ps = (map M.channel ms ≡ map (λ m. some ct) ms) × (map M.encode ms ≡ map ok ps)

  forward_outgoing-frames :
      {Sender : Type 0} (ct : M.Channel) (senders : Map M.Channel Sender) (tx : Sender)
      (ms : List M.Message) (ps : List (List ℕ))
      → get M.channel_discrete ct senders ≡ some tx
      → Encodes ct ms ps
      → map (λ s. s.1) (forward_outgoing M senders ms) ≡ map frame_message ps
  unfolding forward_outgoing typed_to encoded_to framed_to
  forward_outgoing-frames ct senders tx [] [] h (c, e) = refl
  forward_outgoing-frames ct senders tx [] (p ∷ ps) h (c, e) = absurd (cc)
  forward_outgoing-frames ct senders tx (m ∷ ms) [] h (c, e) = absurd (cc)
  forward_outgoing-frames ct senders tx (m ∷ ms) (p ∷ ps) h (c, e) =
      let on : M.channel m ≡ some ct = cc in
      let enc : M.encode m ≡ ok p = cc in
      let later = forward_outgoing-frames ct senders tx ms ps h (cc, cc) in
      rw (on, forward_outgoing) (rw (h, enc) (ap (λ x. frame_message p ∷ x) later))

module _ (T : UserContext) (M : ChannelMessage) where
  deliver-append_ok :
      (user : T.User) (ct : M.Channel) (xs ys : List Item)
      → All IsOk xs
      → deliver {T = T} {M = M} user ct (xs ++ ys) ≡ deliver user ct xs ++ deliver user ct ys
  unfolding deliver
  deliver-append_ok user ct [] ys h = refl
  deliver-append_ok user ct (ok p ∷ xs) ys h =
      rw (deliver-append_ok user ct xs ys h.1) (sym (append_assoc _ (deliver user ct xs) _))
  deliver-append_ok user ct (err e ∷ xs) ys h = absurd h.0

  deliver_messages :
      (user : T.User) (ct : M.Channel) (ps : List (List ℕ)) (ms : List M.Message)
      → Decodes M ct ps ms
      → deliver {T = T} {M = M} user ct (map ok ps) ≡ map (message user ct) ms
  unfolding deliver
  deliver_messages user ct [] [] h = refl
  deliver_messages user ct [] (m ∷ ms) h = absurd (cc)
  deliver_messages user ct (p ∷ ps) [] h = absurd (cc)
  deliver_messages user ct (p ∷ ps) (m ∷ ms) h =
      let e : M.decode ct p ≡ ok m = cc in
      let later : map (M.decode ct) ps ≡ map ok ms = cc in
      rw e (ap (λ x. message user ct m ∷ x) (deliver_messages user ct ps ms later))

  -- A task that has been identified hands on what `push_all` gives.
  events_of_chunks-push_all :
      (expected : ℕ) (t : Tables T M) (task : Task T M) (ct : M.Channel) (cs : List (List ℕ))
      (m : MessageBuffer)
      → All IsOk (push_all m cs).0
      → events_of_chunks expected t (record task { phase = running ct m }) cs
        ≡ deliver task.user ct (push_all m cs).0
  unfolding events_of_chunks push_all read read_in deliver
  events_of_chunks-push_all expected t task ct [] m h = refl
  events_of_chunks-push_all expected t task ct (c ∷ cs) m h =
      let first = push m c in
      let (now, later) = All-append_split IsOk first.0 (push_all first.1 cs).0 h in
      ap (λ x. deliver task.user ct first.0 ++ x)
        (events_of_chunks-push_all expected t task ct cs first.1 later)
      ∙ sym (deliver-append_ok task.user ct first.0 (push_all first.1 cs).0 now)

  identified-task :
      (expected : ℕ) (t : Tables T M) (task : Task T M) (ct : M.Channel) (rest : MessageBuffer)
      → (identified expected t task ct rest).task ≡ record task { phase = running ct rest }
  unfolding identified
  identified-task expected t task ct rest =
      elim (Bool-cases (leb expected (length (pending_entry t task ct).1))) [
        | inl e ↦ rw (e, identified) refl
        | inr e ↦ rw (e, identified) refl
      ]

module _ (T : UserContext) (M : ChannelMessage) where
  abbrev pub id_frame : M.Channel → List ℕ
  id_frame ct = frame_message (M.channel_to_id ct ∷ [])

  run_channel-written :
      (ct : M.Channel) (id : ℕ) (polls : List Poll)
      → All GoesWell polls
      → All IsOk (push_all new (chunks_of polls)).0
      → (run_channel {M = M} ct id true polls).written ≡ frame_message (id ∷ []) ∷ writes_of polls
  unfolding run_channel
  run_channel-written ct id polls well fine =
      ap (λ (t : ChannelTask M). t.written)
        (run_loop-push_all M ct polls new [] (frame_message (id ∷ []) ∷ []) well fine)

  -- What is behind the identification goes on into the next chunk.
  push_all-rest :
      (r c : List ℕ) (cs : List (List ℕ))
      → push_all (record { buffer = r }) (c ∷ cs) ≡ push_all new ((r ++ c) ∷ cs)
  unfolding push_all push
  push_all-rest r c cs = refl

  -- The messages that a client sends on a channel whose id is known to both sides, encoded to at
  -- most 10 MB each and decoded as what they were, reach the room's actor as messages of the
  -- channel's user, in order and once each, behind what the identification of the channel
  -- reports: if the bridge has the channel, and the channel takes every write, answers bytes to
  -- every read and meets no framing error; and if the server's task is at its start and reads
  -- what was written in any chunks of which the first has the whole identification and is not the
  -- last.
  pub run_channel-identified :
      {Sender : Type 0} (expected : ℕ) (t : Tables T M) (task : Task T M) (ct : M.Channel)
      (senders : Map M.Channel Sender) (tx : Sender) (ms : List M.Message) (ps : List (List ℕ))
      (polls : List Poll) (r c : List ℕ) (cs : List (List ℕ))
      → task.phase ≡ identifying new
      → M.channel_from_id (M.channel_to_id ct) ≡ some ct
      → get M.channel_discrete ct senders ≡ some tx
      → Encodes M ct ms ps
      → Decodes M ct ps ms
      → All Fits ps
      → All GoesWell polls
      → All IsOk (push_all new (chunks_of polls)).0
      → writes_of polls ≡ map (λ s. s.1) (forward_outgoing M senders ms)
      → (id_frame ct ++ r) ++ (c ++ concat cs)
        ≡ concat (run_channel {M = M} ct (M.channel_to_id ct) true polls).written
      → events_of_chunks expected t task ((id_frame ct ++ r) ∷ c ∷ cs)
        ≡ (identified expected t task ct (record { buffer = r })).events
          ++ map (message task.user ct) ms
  unfolding events_of_chunks
  run_channel-identified expected t task ct senders tx ms ps polls r c cs fresh known open_to enc
        dec fit well fine queued cut =
      let rest : MessageBuffer = record { buffer = r } in
      let o = identified expected t task ct rest in
      let frames : writes_of polls ≡ map frame_message ps =
        queued ∙ forward_outgoing-frames M ct senders tx ms ps open_to enc in
      let sent : (run_channel {M = M} ct (M.channel_to_id ct) true polls).written
          ≡ id_frame ct ∷ map frame_message ps =
        run_channel-written ct (M.channel_to_id ct) polls well fine
        ∙ ap (λ ws. id_frame ct ∷ ws) frames in
      let behind : r ++ (c ++ concat cs) ≡ concat (map frame_message ps) =
        append_cancel_left (id_frame ct) _ _
          (sym (append_assoc (id_frame ct) r (c ++ concat cs)) ∙ cut ∙ ap concat sent) in
      let whole : push_all new ((r ++ c) ∷ cs) ≡ (map ok ps, new) =
        push_all-frame_message ps [] ((r ++ c) ∷ cs) fit try_extract-new (
          append_assoc r c (concat cs)
          ∙ behind
          ∙ sym (append-nil (concat (map frame_message ps)))) in
      let all : push_all rest (c ∷ cs) ≡ (map ok ps, new) = push_all-rest r c cs ∙ whole in
      let later : events_of_chunks expected o.tables o.task (c ∷ cs)
          ≡ map (message task.user ct) ms =
        ap (λ k. events_of_chunks expected o.tables k (c ∷ cs))
          (identified-task T M expected t task ct rest)
        ∙ events_of_chunks-push_all T M expected o.tables task ct (c ∷ cs) rest
            (rw all (map-ok_IsOk ps))
        ∙ ap (λ x. deliver task.user ct x.0) all
        ∙ deliver_messages T M task.user ct ps ms dec in
      let read_first : read expected t task (some (id_frame ct ++ r)) ≡ o =
        read-identified expected t task new (id_frame ct ++ r) r ct fresh refl known in
      rw read_first (ap (λ x. o.events ++ x) later)
