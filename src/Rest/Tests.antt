-- ===== src/Rest/Tests.antt =====
-- Requests of user 7 to a server of the examples.
use Prim.Native.String.{String}
use Prim.Native.String
use multiplayer_kit.Base.{ℕ, ◌≡◌, ◌⊎◌, none, some, List, [], ◌∷◌, ◌++◌, ok, refl, true}
use multiplayer_kit.Ticket
use multiplayer_kit.Ticket.{TicketManager, validate}
use multiplayer_kit.Manager
use multiplayer_kit.Manager.{
  RoomManager, find_quickplay_room, find_in, is_match, new_entry, room_info, get_room_info,
}
use multiplayer_kit.Examples.{people, game, handles, room_pipes, defaults, tokens}
use multiplayer_kit.Rest.{
  Http, HttpRequest, AppState, Surroundings, bearer, unauthorized, quickplayed, refused,
  strip_prefix, extract_ticket, authenticate, create_room, delete_room, list_rooms,
  quickplay_filter, quickplay, create_with,
}
use multiplayer_kit.Rest.Access.{HasTicket, authenticate-ok, handlers_refuse}

abbrev text : Http
text = record { HeaderValue = List ℕ; to_str = some }

abbrev manager : RoomManager people game handles
manager = Manager.new defaults none

abbrev state : AppState game handles tokens
state = record {
  room_manager = manager;
  ticket_manager = Ticket.new tokens (9 ∷ []) 60;
  lobby = [];
}

abbrev request : HttpRequest text
request = record { headers = []; authorization = some (bearer ++ (9 ∷ 1000 ∷ 7 ∷ [])); body = [] }

abbrev stranger : HttpRequest text
stranger = record { headers = []; authorization = none; body = [] }

abbrev around : Surroundings handles
around = record { now = 0; unix = 990; pipes = room_pipes 1 }

authenticated : authenticate state.ticket_manager request 990 ≡ ok 7
unfolding authenticate extract_ticket strip_prefix validate Ticket.new
authenticated = refl

created_authenticated :
    authenticate state.ticket_manager (record request { body = 2 ∷ [] }) 990 ≡ ok 7
unfolding authenticate extract_ticket strip_prefix validate Ticket.new
created_authenticated = refl

authenticate-ok_example :
    (v : List ℕ) × (token : List ℕ) × (request.authorization ≡ some v)
    × (text.to_str v ≡ some (bearer ++ token))
    × (validate state.ticket_manager token 990 ≡ ok 7)
authenticate-ok_example = authenticate-ok state.ticket_manager request 990 7 authenticated

handlers_refuse_example :
    HasTicket state.ticket_manager stranger 990
    ⊎ ((¬ HasTicket state.ticket_manager stranger 990)
        × ((e : String) × (create_room state stranger around ≡ refused state (unauthorized e))
            × (delete_room state stranger 1 990 ≡ refused state (unauthorized e))
            × (list_rooms state stranger 990 ≡ refused state (unauthorized e))
            × (quickplay state stranger around ≡ refused state (unauthorized e))))
handlers_refuse_example = handlers_refuse state stranger around 1

abbrev creating : HttpRequest text
creating = record request { body = 2 ∷ [] }

quickplays :
    (quickplay state request around).response ≡ quickplayed (record { room_id = 1; created = true })
unfolding quickplay authenticate extract_ticket strip_prefix validate Ticket.new quickplay_filter
    find_quickplay_room find_in Manager.new create_with Manager.create_room
quickplays = refl
