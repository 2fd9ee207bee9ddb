-- ===== src/ClientActor/Delivery.antt =====
-- helpers/src/client_actor/channel.rs and bridge.rs against helpers/src/server_actor/channel.rs: what the
-- one end of a channel writes, the other end hands on.
use multiplayer_kit.Base.{
  ℕ, ◌≡◌, refl, sym, ap, ap₂, ◌∙◌, none, List, [], ◌∷◌, ◌++◌, map, true, false, ok, err, All,
  append_assoc, append-nil,
}
use multiplayer_kit.Framing.{MessageBuffer, Item, new, frame_message, push, push_all, try_extract}
use multiplayer_kit.Framing.Stream.{IsOk, concat, All-append_split}
use multiplayer_kit.Framing.RoundTrip.{Fits, push_all-frame_message, map-ok_IsOk}
use multiplayer_kit.ChannelMessage.{ChannelMessage}
use multiplayer_kit.ClientActor.{InternalEvent, received}
use multiplayer_kit.ClientActor.Channel.{
  Poll, reads, read_fails, writes, no_writer, ChannelTask, decoded, deliver, read_chunk, poll_task,
  run_loop, run_channel,
}

-- A read that answers bytes, or a write that succeeds.
abbrev pub GoesWell : Poll → Type 0
GoesWell (reads []) = ⊥
GoesWell (reads (b ∷ bs)) = Unit
GoesWell read_fails = ⊥
GoesWell (writes bytes took) = took ≡ true
GoesWell no_writer = ⊥

unfoldable pub chunks_of : List Poll → List (List ℕ)
chunks_of [] = []
chunks_of (reads bytes ∷ ps) = bytes ∷ chunks_of ps
chunks_of (read_fails ∷ ps) = chunks_of ps
chunks_of (writes bytes took ∷ ps) = chunks_of ps
chunks_of (no_writer ∷ ps) = chunks_of ps

unfoldable pub writes_of : List Poll → List (List ℕ)
writes_of [] = []
writes_of (reads bytes ∷ ps) = writes_of ps
writes_of (read_fails ∷ ps) = writes_of ps
writes_of (writes bytes took ∷ ps) = bytes ∷ writes_of ps
writes_of (no_writer ∷ ps) = writes_of ps

module _ (M : ChannelMessage) where
  deliver-append :
      (ct : M.Channel) (xs ys : List Item)
      → All IsOk xs
      → (deliver {M = M} ct (xs ++ ys)).0 ≡ (deliver {M = M} ct xs).0 ++ (deliver {M = M} ct ys).0
  unfolding deliver
  deliver-append ct [] ys h = refl
  deliver-append ct (ok p ∷ xs) ys h = rw (deliver-append ct xs ys h.1) (
      sym (
        append_assoc (decoded (M.decode ct p)) (deliver {M = M} ct xs).0 (deliver {M = M} ct ys).0))
  deliver-append ct (err e ∷ xs) ys h = absurd h.0

  deliver-live : (ct : M.Channel) (xs : List Item) → All IsOk xs → (deliver {M = M} ct xs).1 ≡ true
  unfolding deliver
  deliver-live ct [] h = refl
  deliver-live ct (ok p ∷ xs) h = deliver-live ct xs h.1
  deliver-live ct (err e ∷ xs) h = absurd h.0

  -- A task that goes on.
  abbrev pub going : MessageBuffer → List (InternalEvent M) → List (List ℕ) → ChannelTask M
  going m es ws = record { buffer = m; events = es; written = ws; live = true }

  read_chunk-going :
      (ct : M.Channel) (m : MessageBuffer) (es : List (InternalEvent M)) (ws : List (List ℕ))
      (bytes : List ℕ)
      → All IsOk (push m bytes).0
      → read_chunk {M = M} ct (going m es ws) bytes
        ≡ going (push m bytes).1 (es ++ (deliver {M = M} ct (push m bytes).0).0) ws
  unfolding read_chunk
  read_chunk-going ct m es ws bytes h = λ i. record {
    buffer = (push m bytes).1;
    events = es ++ (deliver {M = M} ct (push m bytes).0).0;
    written = ws;
    live = deliver-live ct (push m bytes).0 h i;
  }

  -- As long as reads and writes go well and no frame is refused, the loop is `push_all`.
  pub run_loop-push_all :
      (ct : M.Channel) (ps : List Poll) (m : MessageBuffer) (es : List (InternalEvent M))
      (ws : List (List ℕ))
      → All GoesWell ps
      → All IsOk (push_all m (chunks_of ps)).0
      → run_loop {M = M} ct (going m es ws) ps
        ≡ going
            (push_all m (chunks_of ps)).1
            (es ++ (deliver {M = M} ct (push_all m (chunks_of ps)).0).0)
            (ws ++ writes_of ps)
  unfolding run_loop poll_task chunks_of writes_of push_all deliver
  run_loop-push_all ct [] m es ws h k = ap₂ (going m) (sym (append-nil es)) (sym (append-nil ws))
  run_loop-push_all ct (reads [] ∷ ps) m es ws h k = absurd h.0
  run_loop-push_all ct (reads (b ∷ bs) ∷ ps) m es ws h k =
      let first = push m (b ∷ bs) in
      let (ok_first, ok_later) =
        All-append_split IsOk first.0 (push_all first.1 (chunks_of ps)).0 k in
      let es' = es ++ (deliver {M = M} ct first.0).0 in
      ap (λ t. run_loop {M = M} ct t ps) (read_chunk-going ct m es ws (b ∷ bs) ok_first)
      ∙ run_loop-push_all ct ps first.1 es' ws h.1 ok_later
      ∙ ap (λ x. going (push_all first.1 (chunks_of ps)).1 x (ws ++ writes_of ps))
          (append_assoc es (deliver {M = M} ct first.0).0 _
            ∙ ap (λ x. es ++ x)
                (sym (deliver-append ct first.0 (push_all first.1 (chunks_of ps)).0 ok_first)))
  run_loop-push_all ct (read_fails ∷ ps) m es ws h k = absurd h.0
  run_loop-push_all ct (writes bytes false ∷ ps) m es ws h k = absurd (cc (h.0))
  run_loop-push_all ct (writes bytes true ∷ ps) m es ws h k =
      run_loop-push_all ct ps m es (ws ++ bytes ∷ []) h.1 k
      ∙ ap
          (λ x.
            going (push_all m (chunks_of ps)).1
              (es ++ (deliver {M = M} ct (push_all m (chunks_of ps)).0).0) x)
          (append_assoc ws (bytes ∷ []) (writes_of ps))
  run_loop-push_all ct (no_writer ∷ ps) m es ws h k = absurd h.0

  -- The payloads are the messages.
  abbrev pub Decodes : M.Channel → List (List ℕ) → List M.Message → Type 0
  Decodes ct ps ms = map (M.decode ct) ps ≡ map ok ms

  deliver-Decodes :
      (ct : M.Channel) (ps : List (List ℕ)) (ms : List M.Message)
      → Decodes ct ps ms
      → (deliver {M = M} ct (map ok ps)).0 ≡ map received ms
  unfolding deliver
  deliver-Decodes ct [] [] h = refl
  deliver-Decodes ct [] (m ∷ ms) h = absurd (cc)
  deliver-Decodes ct (p ∷ ps) [] h = absurd (cc)
  deliver-Decodes ct (p ∷ ps) (m ∷ ms) h =
      let e : M.decode ct p ≡ ok m = cc in
      let later : map (M.decode ct) ps ≡ map ok ms = cc in
      rw e (ap (λ x. received m ∷ x) (deliver-Decodes ct ps ms later))

  -- As long as every read answers bytes and every write succeeds, framed payloads of at most 10
  -- MB that decode, and that reach a client on a channel in whatever chunks and with writes in
  -- between, are handed on as messages, whole, in order and once each; an incomplete frame at the
  -- end waits in the buffer; and behind the frame that names the channel's type everything that
  -- is to be written is written in order.
  pub run_channel-delivers :
      (ct : M.Channel) (id : ℕ) (polls : List Poll) (ps : List (List ℕ)) (ms : List M.Message)
      (tail : List ℕ)
      → All GoesWell polls
      → All Fits ps
      → Decodes ct ps ms
      → try_extract (record { buffer = tail }) ≡ none
      → concat (chunks_of polls) ≡ concat (map frame_message ps) ++ tail
      → run_channel {M = M} ct id true polls ≡ record {
        buffer = record { buffer = tail };
        events = map received ms;
        written = frame_message (id ∷ []) ∷ writes_of polls;
        live = true;
      }
  unfolding run_channel
  run_channel-delivers ct id polls ps ms tail well fit dec incomplete cut =
      let all = push_all-frame_message ps tail (chunks_of polls) fit incomplete cut in
      run_loop-push_all ct polls new [] (frame_message (id ∷ []) ∷ []) well
        (rw all (map-ok_IsOk ps))
      ∙ rw all (
          ap (λ es. going (record { buffer = tail }) es (frame_message (id ∷ []) ∷ writes_of polls))
            (deliver-Decodes ct ps ms dec))
