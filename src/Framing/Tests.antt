-- ===== src/Framing/Tests.antt =====
-- The module tests of framing.rs, and the theorems at concrete streams.
use multiplayer_kit.Base.{
  ℕ, ◌+◌, ◌<◌, ◌≡◌, refl, none, List, [], ◌∷◌, length, ok, All, arith, true, false,
}
use multiplayer_kit.Framing.{
  new, header, to_be_bytes, frame_message, try_extract, messages, push, push_all, max_message_size,
  clear, len, is_empty,
}
use multiplayer_kit.Framing.RoundTrip.{push_all-frame_message}
use multiplayer_kit.Framing.Bounds.{Within, push_bounds}

frame_test : frame_message (b't' ∷ b'e' ∷ []) ≡ 0 ∷ 0 ∷ 0 ∷ 2 ∷ b't' ∷ b'e' ∷ []
unfolding frame_message to_be_bytes
frame_test = refl

-- Partial header, rest of the header with part of the payload, rest of the payload.
abbrev pieces : List (List ℕ)
pieces = (0 ∷ 0 ∷ []) ∷ (0 ∷ 3 ∷ b'a' ∷ []) ∷ (b'b' ∷ b'c' ∷ 0 ∷ 0 ∷ []) ∷ []

abbrev abc : List ℕ
abc = b'a' ∷ b'b' ∷ b'c' ∷ []

partial_then_complete : push_all new pieces ≡ (ok abc ∷ [], record { buffer = 0 ∷ 0 ∷ [] })
unfolding push_all push try_extract header
partial_then_complete = refl

no_header : try_extract (record { buffer = 0 ∷ 0 ∷ [] }) ≡ none
unfolding try_extract header
no_header = refl

push_all-frame_message_example : push_all new pieces ≡ (ok abc ∷ [], record { buffer = 0 ∷ 0 ∷ [] })
unfolding frame_message to_be_bytes
push_all-frame_message_example =
    push_all-frame_message (abc ∷ []) (0 ∷ 0 ∷ []) pieces (omega arith) no_header refl

push_bounds_example :
    All Within (push new abc).0 × (length (push new abc).1.buffer < 4 + max_message_size)
push_bounds_example = push_bounds new abc

cleared :
    (len (clear (push new abc).1) ≡ 0)
    × (is_empty (clear (push new abc).1) ≡ true)
    × (is_empty (push new abc).1 ≡ false)
unfolding clear len is_empty push messages try_extract header
cleared = (refl, refl, refl)
