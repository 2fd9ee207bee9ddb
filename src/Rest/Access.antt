-- ===== src/Rest/Access.antt =====
-- server/src/rest.rs: who may use the handlers.
use Prim.Native.String.{String}
use multiplayer_kit.Base.{
  ℕ, ◌≡◌, some, List, [], ◌∷◌, ◌++◌, ok, Option-cases, Result-cases, ◌⊎◌, inl, inr, arith, refl,
}
use multiplayer_kit.Protocol.{UserContext, RoomConfig, RoomId}
use multiplayer_kit.Room.{Tokio}
use multiplayer_kit.Ticket.{Jwt, TicketManager, validate}
use multiplayer_kit.Rest.{
  Http, HttpRequest, AppState, Surroundings, unauthorized, refused, strip_prefix, bearer,
  extract_ticket, authenticate, create_room, delete_room, list_rooms, quickplay,
}

strip_prefix-some : (p s rest : List ℕ) → strip_prefix p s ≡ some rest → s ≡ p ++ rest
unfolding strip_prefix
strip_prefix-some [] s rest h = ground arith
strip_prefix-some (c ∷ cs) [] rest h = ground arith
strip_prefix-some (c ∷ cs) (b ∷ bs) rest h = ground (arith, strip_prefix-some cs bs rest)

pub strip_prefix-append : (p s : List ℕ) → strip_prefix p (p ++ s) ≡ some s
unfolding strip_prefix
strip_prefix-append [] s = refl
strip_prefix-append (c ∷ cs) s = ground (arith, strip_prefix-append cs s)

module _ {T : UserContext} {J : Jwt T} {H : Http} where
  -- A request is authenticated as a user only if its header is a text that begins with `Bearer `, and
  -- what follows is a ticket that names the user and is valid at the time.
  pub authenticate-ok :
      (m : TicketManager J) (req : HttpRequest H) (unix : ℕ) (user : T.User)
      → authenticate m req unix ≡ ok user
      → (v : H.HeaderValue) × (token : List ℕ) × (req.authorization ≡ some v)
        × (H.to_str v ≡ some (bearer ++ token))
        × (validate m token unix ≡ ok user)
  unfolding authenticate extract_ticket
  authenticate-ok m req unix user h = elim (Option-cases req.authorization) [
    | inl e ↦ ground arith
    | inr (v, e) ↦ elim (Option-cases (H.to_str v)) [
      | inl k ↦ ground arith
      | inr (text, k) ↦ elim (Option-cases (strip_prefix bearer text)) [
        | inl l ↦ ground arith
        | inr (token, l) ↦
            (v, token, e, ground (arith, strip_prefix-some bearer text token l), ground arith)
      ]
    ]
  ]

  -- A header with a ticket that is valid at the time, for some user.
  abbrev pub HasTicket : TicketManager J → HttpRequest H → ℕ → Type 0
  HasTicket m req unix =
      (user : T.User) × (v : H.HeaderValue) × (token : List ℕ) × (req.authorization ≡ some v)
      × (H.to_str v ≡ some (bearer ++ token))
      × (validate m token unix ≡ ok user)

  -- Conversely, such a header authenticates the user.
  pub authenticate-bearer :
      (m : TicketManager J) (req : HttpRequest H) (unix : ℕ) (user : T.User) (v : H.HeaderValue)
      (token : List ℕ)
      → req.authorization ≡ some v
      → H.to_str v ≡ some (bearer ++ token)
      → validate m token unix ≡ ok user
      → authenticate m req unix ≡ ok user
  unfolding authenticate extract_ticket
  authenticate-bearer m req unix user v token h t good =
      rw h (rw t (rw (strip_prefix-append bearer token) (rw good refl)))

module _ {T : UserContext} {C : RoomConfig} {R : Tokio} {J : Jwt T} {H : Http} where
  -- A request is answered by the handlers that create, delete and list rooms and find one for quickplay
  -- only if its header `Authorization` is a text that begins with `Bearer `, and what follows is a ticket
  -- that is valid at the time. Without such a header, each of these four answers 401, and the state of the
  -- server stays as it was. (Two other handlers ask for no ticket: the one that issues tickets, and that for the
  -- hash of the certificate.)
  pub handlers_refuse :
      (s : AppState C R J) (req : HttpRequest H) (w : Surroundings R) (id : RoomId)
      → HasTicket s.ticket_manager req w.unix
        ⊎ ((¬ HasTicket s.ticket_manager req w.unix)
            × ((e : String) × (create_room s req w ≡ refused s (unauthorized e))
                × (delete_room s req id w.unix ≡ refused s (unauthorized e))
                × (list_rooms s req w.unix ≡ refused s (unauthorized e))
                × (quickplay s req w ≡ refused s (unauthorized e))))
  unfolding create_room delete_room list_rooms quickplay
  handlers_refuse s req w id = elim (Result-cases (authenticate s.ticket_manager req w.unix)) [
    | inl (user, h) ↦
        let (v, token, named, text, good) = authenticate-ok s.ticket_manager req w.unix user h in
        inl (user, v, token, named, text, good)
    | inr (e, h) ↦ inr (
      λ (user, v, token, named, text, good).
          ground (
            arith,
            h,
            authenticate-bearer s.ticket_manager req w.unix user v token named text good,
          ),
      (e, rw h refl, rw h refl, rw h refl, rw h refl),
    )
  ]
