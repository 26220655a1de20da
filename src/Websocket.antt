-- ===== src/Websocket.antt =====
-- bridge/websocket.ts: the routes, connections and rooms of the WebSocket endpoint. A message is a
-- text; the handlers are code of the WebAssembly module and a parameter here.
pub mod Membership
pub mod Broadcast
pub mod Tests
use clean_node_server.Common.{
  Eq, ℕ, zero, suc, ◌+◌, ◌-◌, ◌*◌, ◌<◌, ◌≤◌, ◌≡◌, ◌≢◌, refl, sym, ap, subst, ap₂, ◌∙◌, String, Bool,
  true, false, not, ◌&&◌, ◌||◌, ◌⊎◌, inl, inr, List, [], ◌∷◌, ◌++◌, Option, none, some, arith,
  length, get_elem?, set, nat_eq, string_eq, ◌==◌, if◌then◌else◌, if_cases, ltb, leb, elem, without,
  All, Bool-cases, Option-cases,
}
use clean_node_server.Common.Assoc

pub record WsRoute : Type 0 where
  pub path : String
  pub on_connect : String
  pub on_message : String
  pub on_close : String

-- `connections` holds the rooms of each client. `sends` and `closes` are the calls so far of a
-- socket's `send` and `close`; what these throw is caught.
pub record Websockets : Type 0 where
  pub ws_routes : List (String × WsRoute)
  pub connections : List (ℕ × List String)
  pub rooms : List (String × List ℕ)
  pub client_id_counter : ℕ
  pub sends : List (ℕ × String)
  pub closes : List ℕ

-- `Set.add`
abbrev pub add {ℓ} : {A : Type ℓ} ⦃e : Eq A⦄ → A → List A → List A
add a xs = if elem a xs then xs else xs ++ a ∷ []

pub http_ws_route : WsRoute → Websockets → Websockets
http_ws_route r w = record w { ws_routes = Assoc.set r.path r w.ws_routes }

pub ws_send : ℕ → String → Websockets → Websockets
ws_send id msg w =
    if Assoc.has id w.connections then record w { sends = w.sends ++ (id, msg) ∷ [] } else w

pub send_each : List ℕ → String → Websockets → Websockets
unfolding ws_send
send_each [] msg w = w
send_each (id ∷ ids) msg w = send_each ids msg (ws_send id msg w)

-- `rooms.get(room) ?? new Set()`
pub members : String → List (String × List ℕ) → List ℕ
members room rooms = elim (Assoc.get room rooms) [ none ↦ [] | some ids ↦ ids ]

pub broadcast_to_room : String → String → Websockets → Websockets
unfolding send_each members
broadcast_to_room room msg w = send_each (members room w.rooms) msg w

-- The client leaves every room, and a room without members goes.
pub leave_all : ℕ → List (String × List ℕ) → List (String × List ℕ)
leave_all id [] = []
leave_all id ((room, ids) ∷ rooms) =
    let rest = leave_all id rooms in
    elim (without id ids) [ [] ↦ rest | i ∷ is ↦ (room, i ∷ is) ∷ rest ]

pub ws_close : ℕ → Websockets → Websockets
unfolding leave_all
ws_close id w =
    if Assoc.has id w.connections
    then record w {
      closes = w.closes ++ id ∷ [];
      connections = Assoc.delete id w.connections;
      rooms = leave_all id w.rooms;
    }
    else w

-- `connections.get(clientId)?.rooms` is changed in place.
pub with_rooms : ℕ → (List String → List String) → List (ℕ × List String) → List (ℕ × List String)
with_rooms id change connections = elim (Assoc.get id connections) [
  | none ↦ connections
  | some names ↦ Assoc.set id (change names) connections
]

pub ws_room_join : ℕ → String → Websockets → Websockets
unfolding members with_rooms
ws_room_join id room w = if not (Assoc.has id w.connections) || room == "" then w else record w {
  rooms = Assoc.set room (add id (members room w.rooms)) w.rooms;
  connections = with_rooms id (add room) w.connections;
}

-- The rooms once a member is out of `room`: a room without members goes.
pub left : String → List ℕ → List (String × List ℕ) → List (String × List ℕ)
left room [] rooms = Assoc.delete room rooms
left room (i ∷ is) rooms = Assoc.set room (i ∷ is) rooms

pub ws_room_leave : ℕ → String → Websockets → Websockets
unfolding left with_rooms
ws_room_leave id room w = elim (Assoc.get room w.rooms) [
  | none ↦ w
  | some ids ↦ record w {
    rooms = left room (without id ids) w.rooms;
    connections = with_rooms id (without room) w.connections;
  }
]

-- What a handler asks of the bridge.
pub data BridgeCall : Type 0 where
  routes : WsRoute → BridgeCall
  sends_to : ℕ → String → BridgeCall
  broadcasts : String → String → BridgeCall
  closes_client : ℕ → BridgeCall
  joins leaves : ℕ → String → BridgeCall

pub bridge : BridgeCall → Websockets → Websockets
unfolding http_ws_route ws_send broadcast_to_room ws_close ws_room_join ws_room_leave
bridge (routes r) w = http_ws_route r w
bridge (sends_to id msg) w = ws_send id msg w
bridge (broadcasts room msg) w = broadcast_to_room room msg w
bridge (closes_client id) w = ws_close id w
bridge (joins id room) w = ws_room_join id room w
bridge (leaves id room) w = ws_room_leave id room w

pub bridge_all : List BridgeCall → Websockets → Websockets
unfolding bridge
bridge_all [] w = w
bridge_all (c ∷ cs) w = bridge_all cs (bridge c w)

-- In the handler of the event `close`: empty rooms stay.
pub evict_member : ℕ → List (String × List ℕ) → List (String × List ℕ)
evict_member id [] = []
evict_member id ((room, ids) ∷ rooms) = (room, without id ids) ∷ evict_member id rooms

pub evict : ℕ → Websockets → Websockets
unfolding evict_member
evict id w = record w {
  connections = Assoc.delete id w.connections;
  rooms = evict_member id w.rooms;
}

pub connect : Websockets → Websockets
connect w = record w {
  client_id_counter = suc w.client_id_counter;
  connections = Assoc.set (suc w.client_id_counter) [] w.connections;
}

abbrev keys {ℓ κ} : {K : Type ℓ} {V : Type κ} → List (K × V) → List K
keys [] = []
keys ((k, v) ∷ m) = k ∷ keys m

pub stop_websocket_server : Websockets → Websockets
stop_websocket_server w = record w {
  closes = w.closes ++ keys w.connections;
  ws_routes = [];
  connections = [];
  rooms = [];
  client_id_counter = 0;
}

-- An HTTP handler or a job calls the bridge; a client asks for an upgrade; its socket, opened on a
-- route, receives a message or closes; the server stops.
pub data WsEvent : Type 0 where
  calls : BridgeCall → WsEvent
  upgrades : String → WsEvent
  receives : WsRoute → ℕ → String → WsEvent
  disconnects : WsRoute → ℕ → WsEvent
  stops : WsEvent

-- The bridge calls that the module makes when an export is called for a client with a message.
module _ (handler : String → ℕ → String → Websockets → List BridgeCall) where
  pub call_wasm_handler : String → ℕ → String → Websockets → Websockets
  unfolding bridge_all
  call_wasm_handler name id message w =
      if name == "" then w else bridge_all (handler name id message w) w

  pub upgrade : String → Websockets → Websockets
  unfolding call_wasm_handler connect
  upgrade url w = elim (Assoc.get url w.ws_routes) [
    | none ↦ w
    | some r ↦ call_wasm_handler r.on_connect (suc w.client_id_counter) "" (connect w)
  ]

  pub ws_step : WsEvent → Websockets → Websockets
  unfolding bridge upgrade call_wasm_handler evict stop_websocket_server
  ws_step (calls c) w = bridge c w
  ws_step (upgrades url) w = upgrade url w
  ws_step (receives r id message) w = call_wasm_handler r.on_message id message w
  ws_step (disconnects r id) w = evict id (call_wasm_handler r.on_close id "" w)
  ws_step stops w = stop_websocket_server w

  pub ws_run : List WsEvent → Websockets → Websockets
  unfolding ws_step
  ws_run [] w = w
  ws_run (e ∷ es) w = ws_run es (ws_step e w)

abbrev pub no_websockets : Websockets
no_websockets = record {
  ws_routes = [];
  connections = [];
  rooms = [];
  client_id_counter = 0;
  sends = [];
  closes = [];
}
