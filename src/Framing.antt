-- ===== src/Framing.antt =====
-- helpers/src/utils/framing.rs: messages behind a 4-byte big-endian length, and the buffer that
-- cuts them out of a byte stream again. A byte is a number below 256.
pub mod RoundTrip
pub mod Stream
pub mod Bounds
mod Tests
use multiplayer_kit.Base.{
  ℕ, zero, suc, ◌+◌, ◌*◌, ◌/◌, ◌%◌, ◌^◌, Option, none, some, List, [], ◌∷◌, ◌++◌, length, get_or,
  take, drop, ltb, if◌then◌else◌, Result, ok, err, Bool, true, false,
}

-- 10 MB.
abbrev pub max_message_size : ℕ
max_message_size = 10 * 1024 * 1024

pub data FramingError : Type 0 where
  message_too_large : ℕ → FramingError
  invalid_frame : ℕ → FramingError

-- `u32::to_be_bytes` and `u32::from_be_bytes` of the standard library.
unfoldable pub to_be_bytes : ℕ → List ℕ
to_be_bytes n = (n / 2 ^ 24 % 256) ∷ (n / 2 ^ 16 % 256) ∷ (n / 2 ^ 8 % 256) ∷ (n % 256) ∷ []

unfoldable pub from_be_bytes : ℕ → ℕ → ℕ → ℕ → ℕ
from_be_bytes a b c d = a * 2 ^ 24 + b * 2 ^ 16 + c * 2 ^ 8 + d

-- `payload.len() as u32` keeps the low 32 bits.
unfoldable pub frame_message : List ℕ → List ℕ
frame_message payload = to_be_bytes (length payload % 2 ^ 32) ++ payload

pub record MessageBuffer : Type 0 where
  pub buffer : List ℕ

abbrev is_nil : List ℕ → Bool
is_nil [] = true
is_nil (b ∷ bs) = false

abbrev pub new : MessageBuffer
new = record { buffer = [] }

unfoldable pub clear : MessageBuffer → MessageBuffer
clear m = record m { buffer = [] }

unfoldable pub len : MessageBuffer → ℕ
len m = length m.buffer

unfoldable pub is_empty : MessageBuffer → Bool
is_empty m = is_nil m.buffer

abbrev pub Item : Type 0
Item = Result (List ℕ) FramingError

-- The length that the first four bytes announce.
unfoldable pub header : List ℕ → ℕ
unfolding from_be_bytes
header b = from_be_bytes (get_or b 0 0) (get_or b 1 0) (get_or b 2 0) (get_or b 3 0)

-- `none` leaves the buffer as it is; else the item and the buffer that remains.
unfoldable pub try_extract : MessageBuffer → Option (Item × MessageBuffer)
try_extract m =
    let b = m.buffer in
    let len = header b in
    if ltb (length b) 4
    then none
    else if ltb max_message_size len
    then some (err (invalid_frame len), record m { buffer = [] })
    else if ltb (length b) (4 + len)
    then none
    else some (ok (take len (drop 4 b)), record m { buffer = drop (4 + len) b })

-- `for result in buffer.push(..)`: `next` until it answers `None`. The fuel bounds the rounds.
unfoldable pub drain : ℕ → MessageBuffer → List Item × MessageBuffer
drain zero m = ([], m)
drain (suc fuel) m = elim (try_extract m) [
  | none ↦ ([], m)
  | some (item, rest) ↦ let (items, last) = drain fuel rest in (item ∷ items, last)
]

-- A round takes four bytes at least, so a round for each byte is enough.
unfoldable pub messages : MessageBuffer → List Item × MessageBuffer
unfolding drain
messages m = drain (length m.buffer) m

unfoldable pub push : MessageBuffer → List ℕ → List Item × MessageBuffer
unfolding messages
push m bytes = messages (record m { buffer = m.buffer ++ bytes })

-- Chunks as they arrive, with the iterator run to its end after each.
unfoldable pub push_all : MessageBuffer → List (List ℕ) → List Item × MessageBuffer
push_all m [] = ([], m)
push_all m (c ∷ cs) =
    let (items, m') = push m c in let (more, last) = push_all m' cs in (items ++ more, last)
