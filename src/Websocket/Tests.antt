-- ===== src/Websocket/Tests.antt =====
-- A chat of two clients, and the theorems at concrete inputs.
use clean_node_server.Common.{
  ℕ, ◌≡◌, refl, String, List, [], ◌∷◌, ◌++◌, nat_eq, string_eq, ◌==◌, if◌then◌else◌, elem,
}
use clean_node_server.Common.{map}
use clean_node_server.Websocket.{
  Websockets, WsRoute, WsEvent, BridgeCall, members, leave_all, with_rooms, left, evict_member,
  evict, connect, bridge, bridge_all, ws_send, send_each, broadcast_to_room, ws_close, ws_room_join,
  ws_room_leave, call_wasm_handler, upgrade, ws_step, ws_run, no_websockets, stop_websocket_server,
  http_ws_route, routes, joins, upgrades, receives, disconnects, calls, broadcasts,
}
use clean_node_server.Websocket.Membership.{ws_run-IsConsistent}
use clean_node_server.Websocket.Membership.Records.{IsConsistent, joined}
use clean_node_server.Websocket.Broadcast.{broadcast-sends}

ws_calls : Unit {0}
unfolding members leave_all with_rooms left evict_member evict connect bridge bridge_all ws_send
    send_each broadcast_to_room ws_close ws_room_join ws_room_leave call_wasm_handler upgrade
    ws_step ws_run stop_websocket_server http_ws_route
ws_calls = tt

abbrev chat : WsRoute
chat = record { path = "/chat"; on_connect = "hello"; on_message = "say"; on_close = "bye" }

-- A new client joins the room; a message goes to everyone in it.
abbrev chat_handler : String → ℕ → String → Websockets → List BridgeCall
chat_handler name id message w =
    if name == "hello"
    then joins id "lobby" ∷ []
    else if name == "say"
    then broadcasts "lobby" message ∷ []
    else []

abbrev chat_events : List WsEvent
chat_events =
    calls (routes chat)
    ∷ upgrades "/chat"
    ∷ upgrades "/chat"
    ∷ receives chat 1 "hi"
    ∷ disconnects chat 2
    ∷ []

chat_runs :
    ((ws_run chat_handler chat_events no_websockets).sends ≡ (1, "hi") ∷ (2, "hi") ∷ [])
    × ((ws_run chat_handler chat_events no_websockets).rooms ≡ ("lobby", 1 ∷ []) ∷ [])
unfolding ws_calls
chat_runs = (refl, refl)

ws_run-IsConsistent_example : IsConsistent (ws_run chat_handler chat_events no_websockets)
ws_run-IsConsistent_example = ws_run-IsConsistent chat_handler chat_events

broadcast-sends_example :
    let w = ws_run chat_handler chat_events no_websockets in
    ((broadcast_to_room "lobby" "x" w).sends
      ≡ w.sends ++ map (λ id. (id, "x")) (members "lobby" w.rooms))
    × ((id : ℕ) → elem id (members "lobby" w.rooms) ≡ joined id "lobby" w.connections)
broadcast-sends_example = broadcast-sends chat_handler chat_events "lobby" "x"

abbrev last_client : Websockets
last_client = ws_run chat_handler chat_events no_websockets
