-- ===== src/Framing/RoundTrip.antt =====
-- What `frame_message` writes is what the buffer reads back, however the stream is cut.
use multiplayer_kit.Base.{
  ℕ, ◌+◌, ◌%◌, ◌^◌, ◌≤◌, ◌<◌, ◌≡◌, refl, sym, ap, ◌∙◌, none, some, List, [], ◌∷◌, ◌++◌, map,
  append_assoc, length, length-append, take, drop, take-append_self, drop-append_self,
  take-append-drop, drop_add, IsByte, length-take, ok, err, All, arith,
}
use multiplayer_kit.Framing.{
  invalid_frame, MessageBuffer, new, header, to_be_bytes, from_be_bytes, frame_message, try_extract,
  messages, push_all, max_message_size,
}
use multiplayer_kit.Framing.Stream.{messages_stop, messages_step, IsOk, concat, push_all-concat}

-- The length is written so that it is read back.
pub header-frame_message :
    (p rest : List ℕ) → length p < 2 ^ 32 → header (frame_message p ++ rest) ≡ length p
unfolding header frame_message to_be_bytes
header-frame_message p rest h = omega arith

pub length-frame_message : (p : List ℕ) → length (frame_message p) ≡ length p + 4
unfolding frame_message to_be_bytes
length-frame_message p = omega arith

-- A message of at most 10 MB comes back as it was, and what follows it stays in the buffer.
pub try_extract-frame_message :
    (p rest : List ℕ)
    → length p ≤ max_message_size
    → try_extract (record { buffer = frame_message p ++ rest })
      ≡ some (ok p, record { buffer = rest })
unfolding try_extract frame_message to_be_bytes
try_extract-frame_message p rest h = ground (
  arith,
  header-frame_message p rest,
  length-append p rest,
  take-append_self p rest,
  drop-append_self p rest,
  drop_add 4 (length p) (frame_message p ++ rest),
)

-- `frame_message` does not look at the size: a larger message is refused by the receiver, with all
-- bytes that stand behind it.
pub try_extract-frame_message_large :
    (p rest : List ℕ)
    → max_message_size < length p
    → length p < 2 ^ 32
    → try_extract (record { buffer = frame_message p ++ rest })
      ≡ some (err (invalid_frame (length p)), new)
unfolding try_extract
try_extract-frame_message_large p rest h k = ground (
  arith,
  header-frame_message p rest k,
  length-append (frame_message p) rest,
  length-frame_message p,
)

abbrev pub Fits : List ℕ → Type 0
Fits p = length p ≤ max_message_size

frames_messages :
    (ps : List (List ℕ)) (tail : List ℕ)
    → All Fits ps
    → try_extract (record { buffer = tail }) ≡ none
    → messages (record { buffer = concat (map frame_message ps) ++ tail })
      ≡ (map ok ps, record { buffer = tail })
frames_messages [] tail h e = messages_stop _ e
frames_messages (p ∷ ps) tail h e =
    let rest = concat (map frame_message ps) in
    rw (append_assoc (frame_message p) rest tail) (
      messages_step _ (record { buffer = rest ++ tail }) (ok p)
        (try_extract-frame_message p (rest ++ tail) h.0)
      ∙ ap (λ r. (ok p ∷ r.0, r.1)) (frames_messages ps tail h.1 e))

pub map-ok_IsOk : (ps : List (List ℕ)) → All IsOk (map ok ps)
map-ok_IsOk [] = tt
map-ok_IsOk (p ∷ ps) = (tt, map-ok_IsOk ps)

pub try_extract-new : try_extract new ≡ none
unfolding try_extract
try_extract-new = refl

-- Messages of at most 10 MB each, framed one after another and received in any chunks, come back
-- whole, in order and once each; an incomplete frame at the end stays in the buffer.
pub push_all-frame_message :
    (ps : List (List ℕ)) (tail : List ℕ) (cs : List (List ℕ))
    → All Fits ps
    → try_extract (record { buffer = tail }) ≡ none
    → concat cs ≡ concat (map frame_message ps) ++ tail
    → push_all new cs ≡ (map ok ps, record { buffer = tail })
push_all-frame_message ps tail cs h e cut =
    push_all-concat cs new try_extract-new (rw (cut, frames_messages ps tail h e) (map-ok_IsOk ps))
    ∙ rw cut (frames_messages ps tail h e)

to_be_bytes-from_be_bytes :
    (a b c d : ℕ)
    → All IsByte (a ∷ b ∷ c ∷ d ∷ [])
    → to_be_bytes (from_be_bytes a b c d % 2 ^ 32) ≡ a ∷ b ∷ c ∷ d ∷ []
unfolding to_be_bytes from_be_bytes
to_be_bytes-from_be_bytes a b c d h = ground arith

try_extract_ok_cases :
    (b p : List ℕ) (rest : MessageBuffer)
    → try_extract (record { buffer = b }) ≡ some (ok p, rest)
    → (header b ≤ max_message_size)
      × (4 + header b ≤ length b)
      × (p ≡ take (header b) (drop 4 b))
      × (rest.buffer ≡ drop (4 + header b) b)
unfolding try_extract
try_extract_ok_cases b p rest e = (ground arith, ground arith, ground arith, ground arith)

reframe :
    (b₀ b₁ b₂ b₃ n : ℕ) (r p rest : List ℕ)
    → All IsByte (b₀ ∷ b₁ ∷ b₂ ∷ b₃ ∷ [])
    → from_be_bytes b₀ b₁ b₂ b₃ ≡ n
    → n ≤ length r
    → p ≡ take n r
    → rest ≡ drop n r
    → b₀ ∷ b₁ ∷ b₂ ∷ b₃ ∷ r ≡ frame_message p ++ rest
unfolding frame_message
reframe b₀ b₁ b₂ b₃ n r p rest h hn le hp hr =
    rw (hp, hr, length-take n r le, ← hn, to_be_bytes-from_be_bytes b₀ b₁ b₂ b₃ h)
      (ap (λ t. b₀ ∷ b₁ ∷ b₂ ∷ b₃ ∷ t) (sym (take-append-drop (from_be_bytes b₀ b₁ b₂ b₃) r)))

-- Conversely, in a buffer of bytes, a message that is delivered is the bytes that stood framed at its front.
pub try_extract-eq_ok :
    (b p : List ℕ) (rest : MessageBuffer)
    → All IsByte b
    → try_extract (record { buffer = b }) ≡ some (ok p, rest)
    → b ≡ frame_message p ++ rest.buffer
unfolding try_extract header
try_extract-eq_ok [] p rest h e = ground arith
try_extract-eq_ok (b₀ ∷ []) p rest h e = ground arith
try_extract-eq_ok (b₀ ∷ b₁ ∷ []) p rest h e = ground arith
try_extract-eq_ok (b₀ ∷ b₁ ∷ b₂ ∷ []) p rest h e = ground arith
try_extract-eq_ok (b₀ ∷ b₁ ∷ b₂ ∷ b₃ ∷ r) p rest h e =
    let (small, fits, hp, hr) = try_extract_ok_cases (b₀ ∷ b₁ ∷ b₂ ∷ b₃ ∷ r) p rest e in
    reframe b₀ b₁ b₂ b₃ _ r p rest.buffer (h.0, (h.1.0, (h.1.1.0, (h.1.1.1.0, tt)))) refl
      (omega arith) hp (hr ∙ drop_add 4 _ (b₀ ∷ b₁ ∷ b₂ ∷ b₃ ∷ r))
