-- ===== src/Framing/Bounds.antt =====
-- How much the buffer holds and how large a message can be.
use multiplayer_kit.Base.{
  ℕ, ◌+◌, ◌*◌, ◌≤◌, ◌<◌, ◌≡◌, none, some, List, ◌++◌, length, length-append, length-drop,
  length-take, drop, ok, err, All, arith,
}
use multiplayer_kit.Framing.{
  invalid_frame, message_too_large, MessageBuffer, Item, header, try_extract, messages, push,
  max_message_size,
}
use multiplayer_kit.Framing.Stream.{
  messages_stop, messages_step, messages_induction, try_extract_shorter,
}

-- A message within the limit, or the report of an announced length above it.
abbrev pub Within : Item → Type 0
Within (ok p) = length p ≤ max_message_size
Within (err (invalid_frame n)) = max_message_size < n
Within (err (message_too_large n)) = ⊥

try_extract-Within :
    (m rest : MessageBuffer) (item : Item) → try_extract m ≡ some (item, rest) → Within item
unfolding try_extract
try_extract-Within m rest item e =
    ground (arith, length-take (header m.buffer) (drop 4 m.buffer), length-drop 4 m.buffer)

waiting_bound : (m : MessageBuffer) → try_extract m ≡ none → length m.buffer < 4 + max_message_size
unfolding try_extract
waiting_bound m e = ground arith

-- Each message that the loop yields is at most 10 MB, each error reports a length above that, and
-- fewer than 4 bytes and 10 MB wait in the buffer afterwards, whatever has arrived.
pub push_bounds :
    (m : MessageBuffer) (c : List ℕ)
    → All Within (push m c).0 × (length (push m c).1.buffer < 4 + max_message_size)
unfolding push
push_bounds m c =
    messages_induction
      (λ m. All Within (messages m).0 × (length (messages m).1.buffer < 4 + max_message_size))
      (λ m e. rw (messages_stop m e) (tt, waiting_bound m e))
      (λ m rest item e ih.
        rw (messages_step m rest item e) ((try_extract-Within m rest item e, ih.0), ih.1))
      (record m { buffer = m.buffer ++ c })

-- The loop takes at least four bytes for each item, and makes up none.
pub length-push :
    (m : MessageBuffer) (c : List ℕ)
    → 4 * length (push m c).0 + length (push m c).1.buffer ≤ length m.buffer + length c
unfolding push
length-push m c =
    let whole =
      messages_induction
        (λ m. 4 * length (messages m).0 + length (messages m).1.buffer ≤ length m.buffer)
        (λ m e. rw (messages_stop m e) (omega arith))
        (λ m rest item e ih.
          rw (messages_step m rest item e)
            (omega (arith, try_extract_shorter m.buffer item rest e)))
        (record m { buffer = m.buffer ++ c }) in
    omega (arith, length-append m.buffer c)
