-- ===== src/Client/Streams/Exact.antt =====
-- client/src/room/channel.rs: `read_exact` over the two transports.
use multiplayer_kit.Base.{
  ℕ, zero, suc, ◌+◌, ◌-◌, ◌≤◌, ◌<◌, ◌≡◌, refl, none, List, [], ◌∷◌, ◌++◌, All, true, length, take,
  drop, ok, err, arith, length-append, length-take, length-drop, ap, sym, ◌∙◌, take-append-drop,
  append-nil,
}
use multiplayer_kit.Framing.Stream.{concat}
use multiplayer_kit.ClientErrors.{disconnected_by, server_closed}
use multiplayer_kit.Client.Streams.{
  WebTransportStream, WebSocketStream, data_frame, Read, unread, webtransport_read, websocket_read,
  prepend, read_frames, exact_step, read_exact_in, read_exact, read_chunks,
}

abbrev pub HasBytes : List ℕ → Type 0
HasBytes c = 0 < length c

-- The stream gives `got` and goes on with the bytes `rest`.
abbrev pub Gives : List ℕ → List ℕ → Read WebTransportStream → Type 0
Gives got rest r = (r.0 ≡ ok got) × (concat r.1.chunks ≡ rest) × All HasBytes r.1.chunks

unread-concat : (c : List ℕ) (cs : List (List ℕ)) → concat (unread c cs) ≡ c ++ concat cs
unfolding unread
unread-concat [] cs = refl
unread-concat (b ∷ bs) cs = refl

unread-HasBytes : (c : List ℕ) (cs : List (List ℕ)) → All HasBytes cs → All HasBytes (unread c cs)
unfolding unread
unread-HasBytes [] cs h = h
unread-HasBytes (b ∷ bs) cs h = (omega arith, h)

length-take_le : (n : ℕ) (xs : List ℕ) → length (take n xs) ≤ n
length-take_le zero xs = omega arith
length-take_le (suc n) [] = omega arith
length-take_le (suc n) (x ∷ xs) = omega (arith, length-take_le n xs)

-- What is left to take when a chunk has been taken.
take_split :
    (n m : ℕ) (xs ys : List ℕ)
    → n ≡ length (take n xs) + m
    → (take n (xs ++ ys) ≡ take n xs ++ take m (drop n xs ++ ys))
      × (drop n (xs ++ ys) ≡ drop m (drop n xs ++ ys))
take_split zero m xs ys h = let nothing : m ≡ 0 = omega arith in rw nothing (refl, refl)
take_split (suc n) m [] ys h = let all : m ≡ suc n = omega arith in rw all (refl, refl)
take_split (suc n) m (x ∷ xs) ys h =
    let (t, d) = take_split n m xs ys (omega arith) in (ap (◌∷◌ x) t, d)

prepend-Gives :
    (bs got rest : List ℕ) (r : Read WebTransportStream)
    → Gives got rest r
    → Gives (bs ++ got) rest (prepend bs r)
unfolding prepend
prepend-Gives bs got rest (ok more, s) (h, k, l) = (ground (arith, h), k, l)
prepend-Gives bs got rest (err e, s) (h, k, l) = absurd (ground (arith, h))

-- `read_exact_in` on the given fuel is right.
abbrev IsRight : ℕ → Type 0
IsRight fuel =
    (n : ℕ) (s : WebTransportStream)
    → n ≤ fuel
    → All HasBytes s.chunks
    → n ≤ length (concat s.chunks)
    → Gives (take n (concat s.chunks)) (drop n (concat s.chunks))
        (read_exact_in webtransport_read fuel n s)

chunk-Gives :
    (fuel n : ℕ) (s : WebTransportStream) (cs : List (List ℕ))
    → IsRight fuel
    → n ≤ fuel
    → All HasBytes cs
    → suc n ≤ length (concat cs)
    → Gives
        (take (suc n) (concat cs))
        (drop (suc n) (concat cs))
        (exact_step (read_exact_in webtransport_read fuel) (suc n) (read_chunks (suc n) s cs))
unfolding exact_step read_chunks
chunk-Gives fuel n s [] ih f h e = absurd (omega arith)
chunk-Gives fuel n s ([] ∷ cs) ih f h e = absurd (omega (arith, h.0))
chunk-Gives fuel n s ((b ∷ bs) ∷ cs) ih f h e =
    let got = b ∷ take n bs in
    let m = suc n - length got in
    let s' : WebTransportStream = record s { chunks = unread (drop n bs) cs } in
    let left = unread-concat (drop n bs) cs in
    let short = length-take_le n bs in
    let (t, d) = take_split n m bs (concat cs) (omega (arith, short)) in
    let cut : length (take n bs) + length (drop n bs) ≡ length bs =
      sym (length-append (take n bs) (drop n bs)) ∙ ap length (take-append-drop n bs) in
    let enough : m ≤ length (concat s'.chunks) = omega (
      arith,
      ap length left,
      cut,
      length-append bs (concat cs),
      length-append (drop n bs) (concat cs),
      e,
    ) in
    let more = ih m s' (omega arith) (unread-HasBytes (drop n bs) cs h.1) enough in
    rw (t, d, ← left)
      (prepend-Gives got (take m (concat s'.chunks)) (drop m (concat s'.chunks)) _ more)

read_exact_in-Gives : (fuel : ℕ) → IsRight fuel
unfolding read_exact_in webtransport_read
read_exact_in-Gives zero zero s f h e = (refl, refl, h)
read_exact_in-Gives zero (suc n) s f h e = absurd (omega arith)
read_exact_in-Gives (suc fuel) zero s f h e = (refl, refl, h)
read_exact_in-Gives (suc fuel) (suc n) s f h e =
    chunk-Gives fuel n s s.chunks (read_exact_in-Gives fuel) (omega arith) h e

-- Over WebTransport, `read_exact` gives the next bytes of the stream, in whatever chunks they arrive, and
-- leaves what follows, if that many bytes arrive.
pub read_exact-Gives :
    (n : ℕ) (s : WebTransportStream)
    → All HasBytes s.chunks
    → n ≤ length (concat s.chunks)
    → Gives (take n (concat s.chunks)) (drop n (concat s.chunks)) (read_exact webtransport_read n s)
unfolding read_exact
read_exact-Gives n s h e = read_exact_in-Gives n n s (omega arith) h e

read_exact_in_none :
    {S : Type 0} (read : ℕ → S → Read S) (fuel : ℕ) (s : S)
    → read_exact_in read fuel 0 s ≡ (ok [], s)
unfolding read_exact_in
read_exact_in_none read zero s = refl
read_exact_in_none read (suc fuel) s = refl

take-length : (xs : List ℕ) (n : ℕ) → n ≡ length xs → take n xs ≡ xs
take-length [] zero h = refl
take-length [] (suc n) h = absurd (omega arith)
take-length (x ∷ xs) zero h = absurd (omega arith)
take-length (x ∷ xs) (suc n) h = ap (◌∷◌ x) (take-length xs n (omega arith))

-- A frame that is longer than the buffer: the rest of it is gone.
read_exact_frame :
    (n : ℕ) (message : List ℕ)
    → 0 < n
    → n < length message
    → read_exact websocket_read n (record { frames = data_frame message ∷ []; connected = true })
      ≡ (ok (take n message), record { frames = []; connected = true })
unfolding read_exact read_exact_in websocket_read read_frames exact_step prepend
read_exact_frame zero message h k = absurd (omega arith)
read_exact_frame (suc n) [] h k = absurd (omega arith)
read_exact_frame (suc n) (b ∷ bs) h k =
    let full : length (take n bs) ≡ n = length-take n bs (omega arith) in
    let done : suc n - suc (length (take n bs)) ≡ 0 = omega arith in
    rw done (
      rw (read_exact_in_none websocket_read n)
        (ap (λ x. (ok (b ∷ x), record { frames = []; connected = true })) (append-nil (take n bs))))

read_exact_end :
    (n : ℕ)
    → 0 < n
    → (read_exact websocket_read n (record { frames = []; connected = true })).0
      ≡ err (disconnected_by server_closed)
unfolding read_exact read_exact_in websocket_read read_frames exact_step
read_exact_end zero h = absurd (omega arith)
read_exact_end (suc n) h = refl

-- A message that is read in two parts arrives whole over WebTransport; over WebSocket, what does not fit the first buffer
-- is lost, and the second read finds the end of the connection.
pub read_exact_parts :
    (n : ℕ) (message : List ℕ)
    → 0 < n
    → n < length message
    → let t : WebTransportStream = record {
      chunks = message ∷ [];
      failure = none;
      connected = true;
    } in
      let w : WebSocketStream = record { frames = data_frame message ∷ []; connected = true } in
      let first = read_exact webtransport_read n t in
      let lossy = read_exact websocket_read n w in
      (first.0 ≡ ok (take n message))
      × ((read_exact webtransport_read (length message - n) first.1).0 ≡ ok (drop n message))
      × (lossy.0 ≡ ok (take n message))
      × ((read_exact websocket_read (length message - n) lossy.1).0
          ≡ err (disconnected_by server_closed))
read_exact_parts n message h k =
    let t : WebTransportStream = record {
      chunks = message ∷ [];
      failure = none;
      connected = true;
    } in
    let whole : concat (message ∷ []) ≡ message = append-nil message in
    let (got, rest, bytes) = read_exact-Gives n t (omega arith, tt) (rw whole (omega arith)) in
    let rest' : concat (read_exact webtransport_read n t).1.chunks ≡ drop n message =
      rest ∙ ap (drop n) whole in
    let size : length message - n ≡ length (drop n message) = sym (length-drop n message) in
    let (more, _, _) =
      read_exact-Gives (length message - n) (read_exact webtransport_read n t).1 bytes
        (rw rest' (omega (arith, size))) in
    let frame = read_exact_frame n message h k in
    (
      got ∙ ap (λ x. ok (take n x)) whole,
      more ∙ ap ok (ap (take (length message - n)) rest' ∙ take-length (drop n message) _ size),
      ap (λ r. r.0) frame,
      rw frame (read_exact_end (length message - n) (omega arith)),
    )
