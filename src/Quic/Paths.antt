-- ===== src/Quic/Paths.antt =====
-- server/src/quic.rs and client/src/room/connection.rs: the path that a client asks for is the one that
-- the server reads.
use multiplayer_kit.Base.{
  ℕ, zero, suc, ◌+◌, ◌/◌, ◌%◌, ◌^◌, ◌≤◌, ◌<◌, ◌≡◌, ◌≢◌, refl, some, List, [], ◌∷◌, ◌++◌, All, true,
  false, ltb, if◌then◌else◌, arith, ok, err, All-append, Bool-cases, inl, inr, ltb→lt, ◌∙◌,
}
use multiplayer_kit.Protocol.{UserContext, RoomConfig, RoomId}
use multiplayer_kit.Room.{Tokio}
use multiplayer_kit.Ticket.{Jwt, validate}
use multiplayer_kit.Rest.{strip_prefix}
use multiplayer_kit.Rest.Access.{strip_prefix-append}
use multiplayer_kit.Manager.{room_exists}
use multiplayer_kit.Quic.{
  QuicState, Session, to_lobby, to_room, room_not_found, invalid_ticket, lobby_path, room_path,
  ticket_param, starts_with, split_once, split_at, split, parse_digits, parse_sign, is_digit,
  ticket_of, parse_u64, room_of, handle_session,
}

-- A `u64` in decimal notation, by `format!`; 20 digits are enough.
decimal_in : ℕ → ℕ → List ℕ → List ℕ
decimal_in zero n acc = acc
decimal_in (suc fuel) n acc =
    let rest = decimal_in fuel (n / 10) ((b'0' + n % 10) ∷ acc) in
    if ltb n 10 then (b'0' + n) ∷ acc else rest

unfoldable pub decimal : ℕ → List ℕ
unfolding decimal_in
decimal n = decimal_in 20 n []

-- `connect_webtransport` of the room connection and of the lobby client, behind the server's address.
unfoldable pub room_url : RoomId → List ℕ → List ℕ
room_url id ticket = room_path ++ (decimal id ++ (b'?' ∷ (ticket_param ++ ticket)))

unfoldable pub lobby_url : List ℕ → List ℕ
lobby_url ticket = lobby_path ++ (b'?' ∷ (ticket_param ++ ticket))

abbrev IsDigit : ℕ → Type 0
IsDigit b = (b'0' ≤ b) × (b ≤ b'9')

decimal_in-digits :
    (fuel n : ℕ) (acc : List ℕ) → All IsDigit acc → All IsDigit (decimal_in fuel n acc)
unfolding decimal_in
decimal_in-digits zero n acc h = h
decimal_in-digits (suc fuel) n acc h =
    let rest =
      decimal_in-digits fuel (n / 10) ((b'0' + n % 10) ∷ acc) ((omega arith, omega arith), h) in
    elim (Bool-cases (ltb n 10)) [
      | inl small ↦
          rw small ((omega (arith, ltb→lt n 10 small), omega (arith, ltb→lt n 10 small)), h)
      | inr large ↦ rw large rest
    ]

parse_digits-small :
    (n : ℕ) (acc : List ℕ) → n < 10 → parse_digits 0 ((b'0' + n) ∷ acc) ≡ parse_digits n acc
unfolding parse_digits is_digit
parse_digits-small n acc h = ground arith

parse_digits-next :
    (n : ℕ) (acc : List ℕ)
    → n < 2 ^ 64
    → parse_digits (n / 10) ((b'0' + n % 10) ∷ acc) ≡ parse_digits n acc
unfolding parse_digits is_digit
parse_digits-next n acc h = ground arith

decimal_in-parses :
    (fuel n : ℕ) (acc : List ℕ)
    → n < 10 ^ fuel
    → n < 2 ^ 64
    → parse_digits 0 (decimal_in fuel n acc) ≡ parse_digits n acc
unfolding decimal_in
decimal_in-parses zero n acc h k = let nil : n ≡ 0 = omega arith in rw nil refl
decimal_in-parses (suc fuel) n acc h k = elim (Bool-cases (ltb n 10)) [
  | inl small ↦ rw small (parse_digits-small n acc (ltb→lt n 10 small))
  | inr large ↦ rw large (
      decimal_in-parses fuel (n / 10) ((b'0' + n % 10) ∷ acc) (omega arith) (omega arith)
      ∙ parse_digits-next n acc k)
]

split_once-append :
    (c : ℕ) (xs ys : List ℕ) → All (λ x. x ≢ c) xs → split_once c (xs ++ (c ∷ ys)) ≡ (xs, ys)
unfolding split_once
split_once-append c [] ys h = ground arith
split_once-append c (x ∷ xs) ys h = ground (arith, split_once-append c xs ys h.1)

split_at-whole : (c : ℕ) (xs : List ℕ) → All (λ x. x ≢ c) xs → split_at c xs ≡ (xs, [])
unfolding split_at
split_at-whole c [] h = refl
split_at-whole c (x ∷ xs) h = ground (arith, split_at-whole c xs h.1)

split-whole : (c : ℕ) (xs : List ℕ) → All (λ x. x ≢ c) xs → split c xs ≡ xs ∷ []
unfolding split
split-whole c xs h = rw (split_at-whole c xs h) refl

digits_free : (c : ℕ) (xs : List ℕ) → b'9' < c → All IsDigit xs → All (λ x. x ≢ c) xs
digits_free c [] h d = tt
digits_free c (x ∷ xs) h d = (λ e. omega (arith, e), digits_free c xs h d.1)

parse_u64-digits :
    (xs : List ℕ) (n : ℕ)
    → All IsDigit xs
    → parse_digits 0 xs ≡ some n
    → xs ≢ []
    → parse_u64 xs ≡ some n
unfolding parse_u64 parse_sign
parse_u64-digits [] n d h e = absurd (e refl)
parse_u64-digits (x ∷ []) n d h e = h
parse_u64-digits (x ∷ y ∷ ys) n d h e = ground (arith, d.0, h)

decimal_in_some : (fuel n : ℕ) (acc : List ℕ) (b : ℕ) → decimal_in fuel n (b ∷ acc) ≢ []
unfolding decimal_in
decimal_in_some zero n acc b = λ e. absurd (cc)
decimal_in_some (suc fuel) n acc b = elim (Bool-cases (ltb n 10)) [
  | inl small ↦ rw small (λ e. absurd (cc))
  | inr large ↦ rw large (decimal_in_some fuel (n / 10) (b ∷ acc) (b'0' + n % 10))
]

decimal_in_not_nil : (fuel n : ℕ) → decimal_in (suc fuel) n [] ≢ []
unfolding decimal_in
decimal_in_not_nil fuel n = elim (Bool-cases (ltb n 10)) [
  | inl small ↦ rw small (λ e. absurd (cc))
  | inr large ↦ rw large (decimal_in_some fuel (n / 10) [] (b'0' + n % 10))
]

parse_u64-decimal_in :
    (fuel n : ℕ) → n < 10 ^ suc fuel → n < 2 ^ 64 → parse_u64 (decimal_in (suc fuel) n []) ≡ some n
unfolding parse_digits
parse_u64-decimal_in fuel n h k =
    parse_u64-digits (decimal_in (suc fuel) n []) n (decimal_in-digits (suc fuel) n [] tt)
      (decimal_in-parses (suc fuel) n [] h k) (decimal_in_not_nil fuel n)

parse_u64-decimal : (n : ℕ) → n < 2 ^ 64 → parse_u64 (decimal n) ≡ some n
unfolding decimal
parse_u64-decimal n h = parse_u64-decimal_in 19 n (omega arith) h

decimal-digits : (n : ℕ) → All IsDigit (decimal n)
unfolding decimal
decimal-digits n = decimal_in-digits 20 n [] tt

room_of-room_url :
    (id : RoomId) (ticket : List ℕ)
    → id < 2 ^ 64
    → room_of (room_url id ticket) ≡ (id, ticket_param ++ ticket)
unfolding room_of room_url
room_of-room_url id ticket h =
    let free : All (λ x. x ≢ b'?') (room_path ++ decimal id) =
      All-append (λ x. x ≢ b'?') room_path (decimal id) (ground arith)
        (digits_free b'?' (decimal id) (omega arith) (decimal-digits id)) in
    let cut = split_once-append b'?' (room_path ++ decimal id) (ticket_param ++ ticket) free in
    let prefix = strip_prefix-append room_path (decimal id) in
    let parsed = parse_u64-decimal id h in rw cut (rw prefix (rw parsed refl))

ticket_of-param :
    (ticket : List ℕ)
    → All (λ x. x ≢ b'&') ticket
    → ticket_of (ticket_param ++ ticket) ≡ some ticket
unfolding ticket_of
ticket_of-param ticket h =
    let free : All (λ x. x ≢ b'&') (ticket_param ++ ticket) =
      All-append (λ x. x ≢ b'&') ticket_param ticket (ground arith) h in
    let whole = split-whole b'&' (ticket_param ++ ticket) free in
    let prefix = strip_prefix-append ticket_param ticket in rw whole (rw prefix refl)

starts_with-append : (p s : List ℕ) → starts_with (p ++ s) p ≡ true
unfolding starts_with
starts_with-append p s = rw (strip_prefix-append p s) refl

not_lobby : (s : List ℕ) → starts_with (room_path ++ s) lobby_path ≡ false
unfolding starts_with strip_prefix
not_lobby s = refl

module _ {T : UserContext} {C : RoomConfig} {R : Tokio} {J : Jwt T} where
  -- What the server decides where the ticket of a request is known.
  abbrev pub Decides :
      QuicState C R J → List ℕ → ℕ → (T.User → Session T J.Error) → Session T J.Error
  Decides s ticket unix next = elim (validate s.ticket_manager ticket unix) [
    | ok user ↦ next user
    | err e ↦ invalid_ticket e
  ]

  at_room :
      (s : QuicState C R J) (path ticket query : List ℕ) (id : RoomId) (unix : ℕ)
      → starts_with path lobby_path ≡ false
      → starts_with path room_path ≡ true
      → room_of path ≡ (id, query)
      → ticket_of query ≡ some ticket
      → handle_session s path unix
        ≡ Decides s ticket unix
            (λ user. if room_exists s.room_manager id then to_room id user else room_not_found)
  unfolding handle_session
  at_room s path ticket query id unix lobby room parts param =
      rw (lobby, room) (rw parts (rw param refl))

  at_lobby :
      (s : QuicState C R J) (path ticket part query : List ℕ) (unix : ℕ)
      → starts_with path lobby_path ≡ true
      → split_once b'?' path ≡ (part, query)
      → ticket_of query ≡ some ticket
      → handle_session s path unix ≡ Decides s ticket unix to_lobby
  unfolding handle_session
  at_lobby s path ticket part query unix lobby parts param = rw lobby (rw parts (rw param refl))

  -- The server reads the path that a client asks for as the client means it: the lobby, or the room with
  -- the 64-bit id, with the whole ticket, if the ticket has no `&`.
  pub handle_session-room_url :
      (s : QuicState C R J) (id : RoomId) (ticket : List ℕ) (unix : ℕ)
      → id < 2 ^ 64
      → All (λ x. x ≢ b'&') ticket
      → (handle_session s (room_url id ticket) unix
          ≡ Decides s ticket unix
              (λ user. if room_exists s.room_manager id then to_room id user else room_not_found))
        × (handle_session s (lobby_url ticket) unix ≡ Decides s ticket unix to_lobby)
  unfolding lobby_url room_url
  handle_session-room_url s id ticket unix h free =
      let param = ticket_of-param ticket free in
      (
        at_room s (room_url id ticket) ticket (ticket_param ++ ticket) id unix
            (not_lobby (decimal id ++ (b'?' ∷ (ticket_param ++ ticket))))
            (starts_with-append room_path (decimal id ++ (b'?' ∷ (ticket_param ++ ticket))))
            (room_of-room_url id ticket h) param,
        at_lobby s (lobby_url ticket) ticket lobby_path (ticket_param ++ ticket) unix
            (starts_with-append lobby_path (b'?' ∷ (ticket_param ++ ticket)))
            (split_once-append b'?' lobby_path (ticket_param ++ ticket) (ground arith)) param,
      )
