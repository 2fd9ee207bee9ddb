-- ===== src/ServerActor/Identify.antt =====
-- helpers/src/server_actor/channel.rs: the first message of a channel, which names its type.
use multiplayer_kit.Base.{
  ℕ, ◌≤◌, ◌≡◌, refl, none, some, List, [], ◌∷◌, ◌++◌, length, ap, ◌∙◌, arith, All, All-append,
  Bool-cases, inl, inr, leb, ok, append-nil,
}
use multiplayer_kit.Base.Map.{contains_key}
use multiplayer_kit.Protocol.{UserContext}
use multiplayer_kit.Framing.{
  MessageBuffer, new, frame_message, try_extract, messages, push, max_message_size,
}
use multiplayer_kit.Framing.Stream.{messages_stop, messages_step}
use multiplayer_kit.Framing.RoundTrip.{try_extract-frame_message, try_extract-new}
use multiplayer_kit.ChannelMessage.{ChannelMessage}
use multiplayer_kit.ServerActor.{
  InternalServerEvent, user_ready, user_gone, message, Tables, identifying, running, Task,
  pending_entry, identified, identify_by, identify, deliver, closed, read_in, read,
}

messages_frame :
    (p : List ℕ)
    → length p ≤ max_message_size
    → messages (record { buffer = frame_message p }) ≡ (ok p ∷ [], new)
messages_frame p small =
    messages_step (record { buffer = frame_message p }) new (ok p)
      (rw append-nil at (try_extract-frame_message p [] small))
    ∙ ap (λ r. (ok p ∷ r.0, r.1)) (messages_stop new try_extract-new)

module _ {T : UserContext} {M : ChannelMessage} where
  -- Until the first frame is complete a task only collects bytes.
  pub read_incomplete :
      (expected : ℕ) (t : Tables T M) (task : Task T M) (m : MessageBuffer) (bytes : List ℕ)
      → task.phase ≡ identifying m
      → try_extract (record { buffer = m.buffer ++ bytes }) ≡ none
      → read expected t task (some bytes) ≡ record {
        tables = t;
        task = record task { phase = identifying (record { buffer = m.buffer ++ bytes }) };
        events = [];
      }
  unfolding read read_in identify
  read_incomplete expected t task m bytes h e = rw (h, read) (rw e)

  -- With the chunk that completes the frame of the byte of a known type, the channel is identified as
  -- that type, with what follows the frame left in the buffer.
  pub read-identified :
      (expected : ℕ) (t : Tables T M) (task : Task T M) (m : MessageBuffer) (bytes rest : List ℕ)
      (ct : M.Channel)
      → task.phase ≡ identifying m
      → m.buffer ++ bytes ≡ frame_message (M.channel_to_id ct ∷ []) ++ rest
      → M.channel_from_id (M.channel_to_id ct) ≡ some ct
      → read expected t task (some bytes) ≡ identified expected t task ct (record { buffer = rest })
  unfolding read read_in identify
  read-identified expected t task m bytes rest ct h e k =
      rw (h, read)
        (rw (e, try_extract-frame_message (M.channel_to_id ct ∷ []) rest (omega arith))
          (rw (k, identify_by)))

  abbrev pub IsLifecycle : InternalServerEvent T M → Type 0
  IsLifecycle (user_ready u) = Unit
  IsLifecycle (user_gone u) = Unit
  IsLifecycle (message u ct m) = ⊥

  identified-IsLifecycle :
      (expected : ℕ) (t : Tables T M) (task : Task T M) (ct : M.Channel) (rest : MessageBuffer)
      → All IsLifecycle (identified expected t task ct rest).events
        × ((identified expected t task ct rest).task.phase ≡ running ct rest)
  unfolding identified
  identified-IsLifecycle expected t task ct rest =
      elim (Bool-cases (leb expected (length (pending_entry t task ct).1))) [
        | inl e ↦ rw (e, identified) ((tt, tt), refl)
        | inr e ↦ rw (e, identified) (tt, refl)
      ]

  closed-IsLifecycle : (t : Tables T M) (task : Task T M) → All IsLifecycle (closed t task).events
  unfolding closed
  closed-IsLifecycle t task =
      elim (Bool-cases (contains_key T.id_discrete (T.id task.user) t.connected_users)) [
        | inl e ↦ rw (e, closed) (tt, tt)
        | inr e ↦ rw (e, closed) tt
      ]

  read-closed :
      (expected : ℕ) (t : Tables T M) (task : Task T M) (ct : M.Channel) (m : MessageBuffer)
      → task.phase ≡ running ct m
      → read expected t task none ≡ closed t task
  unfolding read read_in
  read-closed expected t task ct m h = rw (h, read) refl

  -- If a chunk ends with the frames of a known type's byte and of one message, and the channel is
  -- closed next, then the task sends only lifecycle events, and the message is lost. The same frame
  -- in a chunk of its own, behind the identification, is delivered (or fails to decode).
  pub read_coalesced :
      (expected : ℕ) (t : Tables T M) (task : Task T M) (m : MessageBuffer) (bytes p : List ℕ)
      (ct : M.Channel)
      → task.phase ≡ identifying m
      → m.buffer ++ bytes ≡ frame_message (M.channel_to_id ct ∷ []) ++ frame_message p
      → M.channel_from_id (M.channel_to_id ct) ≡ some ct
      → length p ≤ max_message_size
      → let o = read expected t task (some bytes) in
        (All IsLifecycle (o.events ++ (read expected o.tables o.task none).events))
        × ((read expected t
              (record task { phase = running ct new })
              (some (frame_message p))).events
            ≡ deliver task.user ct (ok p ∷ []))
  unfolding read_in push read deliver
  read_coalesced expected t task m bytes p ct h e k small =
      let rest : MessageBuffer = record { buffer = frame_message p } in
      let o = identified expected t task ct rest in
      let (quiet, runs) = identified-IsLifecycle expected t task ct rest in
      (
        rw (read-identified expected t task m bytes (frame_message p) ct h e k) (
            All-append IsLifecycle o.events _ quiet (
              rw (read-closed expected o.tables o.task ct rest runs)
                (closed-IsLifecycle o.tables o.task))),
        rw (messages_frame p small) refl,
      )
