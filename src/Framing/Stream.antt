-- ===== src/Framing/Stream.antt =====
-- The message buffer on a stream that arrives in pieces: the rounds are enough, and the pieces do
-- not matter.
use multiplayer_kit.Base.{
  ℕ, zero, suc, ◌+◌, ◌≤◌, ◌<◌, ◌≡◌, refl, sym, ap, ◌∙◌, inl, inr, none, some, List, [], ◌∷◌, ◌++◌,
  append_assoc, append-nil, length, length-append, length-drop, drop, get_or-append, take-append_le,
  drop-append_le, ok, err, All, arith, Option-cases,
}
use multiplayer_kit.Framing.{
  FramingError, MessageBuffer, new, Item, header, try_extract, drain, messages, push, push_all,
}

-- An extraction takes four bytes at least.
pub try_extract_shorter :
    (b : List ℕ) (item : Item) (rest : MessageBuffer)
    → try_extract (record { buffer = b }) ≡ some (item, rest)
    → length rest.buffer + 4 ≤ length b
unfolding try_extract
try_extract_shorter b item rest e = ground (arith, length-drop (4 + header b) b)

header-append : (b c : List ℕ) → 4 ≤ length b → header (b ++ c) ≡ header b
unfolding header
header-append b c h = ground (
  arith,
  get_or-append b c 0 0,
  get_or-append b c 1 0,
  get_or-append b c 2 0,
  get_or-append b c 3 0,
)

-- What can be extracted does not change when more bytes follow.
pub try_extract-append_ok :
    (b c p : List ℕ) (rest : MessageBuffer)
    → try_extract (record { buffer = b }) ≡ some (ok p, rest)
    → try_extract (record { buffer = b ++ c }) ≡ some (ok p, record { buffer = rest.buffer ++ c })
unfolding try_extract
try_extract-append_ok b c p rest e = ground (
  arith,
  header-append b c,
  length-append b c,
  length-drop 4 b,
  drop-append_le 4 b c,
  take-append_le (header b) (drop 4 b) c,
  drop-append_le (4 + header b) b c,
)

pub try_extract-append_err :
    (b c : List ℕ) (x : FramingError) (rest : MessageBuffer)
    → try_extract (record { buffer = b }) ≡ some (err x, rest)
    → try_extract (record { buffer = b ++ c }) ≡ some (err x, new)
unfolding try_extract
try_extract-append_err b c x rest e = ground (arith, header-append b c, length-append b c)

short_none : (b : List ℕ) → length b < 4 → try_extract (record { buffer = b }) ≡ none
unfolding try_extract
short_none b h = ground arith

-- All amounts of fuel that reach the length of the buffer give one result.
drain_fuel :
    (f g : ℕ) (m : MessageBuffer)
    → length m.buffer ≤ f
    → length m.buffer ≤ g
    → drain f m ≡ drain g m
unfolding drain
drain_fuel zero zero m h k = refl
drain_fuel zero (suc g) m h k = ground (arith, short_none m.buffer)
drain_fuel (suc f) zero m h k = ground (arith, short_none m.buffer)
drain_fuel (suc f) (suc g) m h k = elim (Option-cases (try_extract m)) [
  | inl e ↦ rw (e, drain)
  | inr ((item, rest), e) ↦
      ground (arith, e, try_extract_shorter m.buffer item rest, drain_fuel f g rest)
]

drain_stop : (f : ℕ) (m : MessageBuffer) → try_extract m ≡ none → drain f m ≡ ([], m)
unfolding drain
drain_stop zero m e = refl
drain_stop (suc f) m e = rw (e, drain)

drain_step :
    (f : ℕ) (m rest : MessageBuffer) (item : Item)
    → try_extract m ≡ some (item, rest)
    → drain (suc f) m ≡ (item ∷ (drain f rest).0, (drain f rest).1)
unfolding drain
drain_step f m rest item e = rw (e, drain)

-- `messages` is the loop without fuel: it stops where `next` answers `None`, and else it goes on
-- with the buffer that remains.
pub messages_stop : (m : MessageBuffer) → try_extract m ≡ none → messages m ≡ ([], m)
unfolding messages
messages_stop m e = drain_stop _ m e

pub messages_step :
    (m rest : MessageBuffer) (item : Item)
    → try_extract m ≡ some (item, rest)
    → messages m ≡ (item ∷ (messages rest).0, (messages rest).1)
unfolding messages
messages_step m rest item e =
    drain_fuel (length m.buffer) (suc (length m.buffer)) m (omega arith) (omega arith)
    ∙ drain_step (length m.buffer) m rest item e
    ∙ ap (λ r. (item ∷ r.0, r.1))
        (drain_fuel (length m.buffer) (length rest.buffer) rest
          (omega (arith, try_extract_shorter m.buffer item rest e)) (omega arith))

-- Induction along the loop: a family that holds where it stops, and before each round if it holds
-- behind it, holds everywhere.
module _ (P : MessageBuffer → Type 0) (stop : (m : MessageBuffer) → try_extract m ≡ none → P m)
    (round : (m rest : MessageBuffer) (item : Item)
      → try_extract m ≡ some (item, rest)
      → P rest
      → P m) where
  below : (n : ℕ) (m : MessageBuffer) → length m.buffer < n → P m
  below zero m h = absurd (omega arith)
  below (suc n) m h = elim (Option-cases (try_extract m)) [
    | inl e ↦ stop m e
    | inr ((item, rest), e) ↦
        round m rest item e (below n rest (omega (arith, try_extract_shorter m.buffer item rest e)))
  ]

  pub messages_induction : (m : MessageBuffer) → P m
  messages_induction m = below (suc (length m.buffer)) m (omega arith)

-- The loop ends where no message can be extracted, so no message that has arrived is left behind.
pub messages_exhaust : (m : MessageBuffer) → try_extract (messages m).1 ≡ none
messages_exhaust =
    messages_induction (λ m. try_extract (messages m).1 ≡ none) (λ m e. rw (messages_stop m e) e)
      (λ m rest item e ih. rw (messages_step m rest item e) ih)

abbrev pub IsOk : Item → Type 0
IsOk (ok p) = Unit
IsOk (err e) = ⊥

abbrev Cut : List ℕ → MessageBuffer → Type 0
Cut c m =
    All IsOk (messages (record m { buffer = m.buffer ++ c })).0
    → messages (record m { buffer = m.buffer ++ c })
      ≡ ((messages m).0 ++ (push (messages m).1 c).0, (push (messages m).1 c).1)

Cut-round :
    (c : List ℕ) (m rest : MessageBuffer) (item : Item)
    → try_extract m ≡ some (item, rest)
    → Cut c rest
    → Cut c m
Cut-round c m rest (ok p) e ih h =
    let s =
      messages_step (record m { buffer = m.buffer ++ c })
        (record rest { buffer = rest.buffer ++ c }) (ok p)
        (try_extract-append_ok m.buffer c p rest e) in
    rw (s, messages_step m rest (ok p) e) (rw (ih (rw s at h).1))
Cut-round c m rest (err x) e ih h =
    absurd
      (rw
        (messages_step (record m { buffer = m.buffer ++ c }) new (err x)
          (try_extract-append_err m.buffer c x rest e))
        at h).0

-- Without a framing error, a stream may be cut anywhere.
pub messages-append : (c : List ℕ) (m : MessageBuffer) → Cut c m
unfolding push
messages-append c = messages_induction (Cut c) (λ m e h. rw (messages_stop m e)) (Cut-round c)

abbrev pub concat : List (List ℕ) → List ℕ
concat [] = []
concat (c ∷ cs) = c ++ concat cs

pub All-append_split {ℓ} :
    {A : Type ℓ} (P : A → Type 0) (xs ys : List A) → All P (xs ++ ys) → All P xs × All P ys
All-append_split P [] ys h = (tt, h)
All-append_split P (x ∷ xs) ys h = let (l, r) = All-append_split P xs ys h.1 in ((h.0, l), r)

-- If a whole stream decodes without a framing error, then it decodes to the same messages and the
-- same remaining buffer in whatever chunks it arrives.
pub push_all-concat :
    (cs : List (List ℕ)) (m : MessageBuffer)
    → try_extract m ≡ none
    → All IsOk (messages (record m { buffer = m.buffer ++ concat cs })).0
    → push_all m cs ≡ messages (record m { buffer = m.buffer ++ concat cs })
unfolding push_all push
push_all-concat [] m e h = rw append-nil (sym (messages_stop m e))
push_all-concat (c ∷ cs) m e h =
    let first : MessageBuffer = record m { buffer = m.buffer ++ c } in
    let good : All IsOk (messages (record m { buffer = (m.buffer ++ c) ++ concat cs })).0 =
      rw (append_assoc m.buffer c (concat cs)) h in
    let cut = messages-append (concat cs) first good in
    let later =
      push_all-concat cs (messages first).1 (messages_exhaust first)
        (All-append_split IsOk (messages first).0 _ (rw cut at good)).1 in
    rw (← append_assoc m.buffer c (concat cs)) (rw (cut, later) refl)
