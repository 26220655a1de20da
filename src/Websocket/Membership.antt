-- ===== src/Websocket/Membership.antt =====
-- The two records of who is in a room, that of the room and that of the connection, agree.
pub mod Records
use clean_node_server.Common.{
  Eq, elem-without, elem-append, ℕ, suc, ◌≤◌, ◌≡◌, refl, sym, ap, ◌∙◌, String, Bool, true, false,
  not, ◌&&◌, ◌||◌, inl, inr, List, [], ◌∷◌, none, some, arith, nat_eq, string_eq, ◌==◌,
  if◌then◌else◌, if_cases, elem, without, Option-cases,
}
use clean_node_server.Common.Assoc
use clean_node_server.Websocket.{
  leaves, joins, disconnects, closes_client, receives, broadcasts, upgrades, sends_to, routes,
  calls, Websockets, WsEvent, BridgeCall, add, members, leave_all, with_rooms, left, evict_member,
  evict, connect, stops, bridge, bridge_all, ws_send, send_each, broadcast_to_room, ws_close,
  ws_room_join, ws_room_leave, call_wasm_handler, upgrade, ws_step, ws_run, no_websockets,
  stop_websocket_server, http_ws_route,
}
use clean_node_server.Websocket.Membership.Records.{
  in_room, joined, elem-add, members-set, in_room-left, has-leave_all, leave_all-IsMap,
  in_room-leave_all, joined-delete, joined-set, with_rooms-some, with_rooms-none, joined-some,
  joined-none, members-some, has-with_rooms, in_room-evict_member, has-evict_member,
  evict_member-IsMap, IsConsistent, joined-missing, left-IsMap,
}

ws_close-IsConsistent : (id : ℕ) (w : Websockets) → IsConsistent w → IsConsistent (ws_close id w)
unfolding ws_close
ws_close-IsConsistent id w v =
    if_cases IsConsistent (Assoc.has id w.connections) _ _
      (λ _. record {
        rooms_map = leave_all-IsMap id w.rooms v.rooms_map;
        agree = λ j room.
            in_room-leave_all id j room w.rooms v.rooms_map
            ∙ ap (λ b. not (id == j) && b) (v.agree j room)
            ∙ sym (joined-delete id j room w.connections);
        fresh = λ j h. v.fresh j (ground (arith, Assoc.has-delete id j w.connections));
      })
      (λ _. v)

evict-IsConsistent : (id : ℕ) (w : Websockets) → IsConsistent w → IsConsistent (evict id w)
unfolding evict
evict-IsConsistent id w v = record {
  rooms_map = evict_member-IsMap id w.rooms v.rooms_map;
  agree = λ j room.
      in_room-evict_member id j room w.rooms
      ∙ ap (λ b. not (id == j) && b) (v.agree j room)
      ∙ sym (joined-delete id j room w.connections);
  fresh = λ j h. v.fresh j (ground (arith, Assoc.has-delete id j w.connections));
}

connect-IsConsistent : (w : Websockets) → IsConsistent w → IsConsistent (connect w)
unfolding connect
connect-IsConsistent w v = record {
  rooms_map = v.rooms_map;
  agree = λ j room. ground (
    arith,
    joined-set (suc w.client_id_counter) j room [] w.connections,
    v.agree j room,
    v.fresh j,
    joined-missing j room w.connections,
  );
  fresh =
      λ j h. ground (arith, Assoc.has-set (suc w.client_id_counter) j [] w.connections, v.fresh j);
}

-- Joining and leaving change the two records alike.
join-agree :
    (id j : ℕ) (room name : String) (names : List String) (rooms : List (String × List ℕ))
    (c : List (ℕ × List String))
    → in_room j name rooms ≡ joined j name c
    → Assoc.get id c ≡ some names
    → in_room j name (Assoc.set room (add id (members room rooms)) rooms)
      ≡ joined j name (with_rooms id (add room) c)
join-agree id j room name names rooms c v h =
    ap (elem j) (members-set room name (add id (members room rooms)) rooms)
    ∙ ground (
      arith,
      elem-add id j (members room rooms),
      elem-add room name names,
      v,
      joined-some id name names c h,
      string_eq.beq_iff room name,
      nat_eq.beq_iff id j,
    )
    ∙ sym (
        ap (joined j name) (with_rooms-some id (add room) names c h)
        ∙ joined-set id j name (add room names) c)

leave-agree :
    (id j : ℕ) (room name : String) (ids : List ℕ) (rooms : List (String × List ℕ))
    (c : List (ℕ × List String))
    → ((k : ℕ) → in_room k name rooms ≡ joined k name c)
    → Assoc.get room rooms ≡ some ids
    → in_room j name (left room (without id ids) rooms)
      ≡ joined j name (with_rooms id (without room) c)
leave-agree id j room name ids rooms c v h = elim (Option-cases (Assoc.get id c)) [
  | inl e ↦
      in_room-left room name j (without id ids) rooms
      ∙ ground (
        arith,
        elem-without j id ids,
        v j,
        v id,
        members-some room ids rooms h,
        joined-none id name c e,
        string_eq.beq_iff room name,
        nat_eq.beq_iff id j,
      )
      ∙ sym (ap (joined j name) (with_rooms-none id (without room) c e))
  | inr (names, e) ↦
      in_room-left room name j (without id ids) rooms
      ∙ ground (
        arith,
        elem-without j id ids,
        elem-without name room names,
        v j,
        members-some room ids rooms h,
        joined-some id name names c e,
        string_eq.beq_iff room name,
        nat_eq.beq_iff id j,
      )
      ∙ sym (
          ap (joined j name) (with_rooms-some id (without room) names c e)
          ∙ joined-set id j name (without room names) c)
]

has-some :
    (id : ℕ) (c : List (ℕ × List String))
    → Assoc.has id c ≡ true
    → (names : List String) × (Assoc.get id c ≡ some names)
has-some id c h = elim (Option-cases (Assoc.get id c)) [
  | inl e ↦ absurd (ground (arith, e, Assoc.has-eq-get id c))
  | inr found ↦ found
]

ws_room_join-IsConsistent :
    (id : ℕ) (room : String) (w : Websockets)
    → IsConsistent w
    → IsConsistent (ws_room_join id room w)
unfolding ws_room_join
ws_room_join-IsConsistent id room w v =
    if_cases IsConsistent (not (Assoc.has id w.connections) || room == "") _ _ (λ _. v)
      (λ h. record {
        rooms_map = Assoc.set-IsMap room _ w.rooms v.rooms_map;
        agree = λ j name.
            let (names, e) = has-some id w.connections (ground arith) in
            join-agree id j room name names w.rooms w.connections (v.agree j name) e;
        fresh = λ j g. v.fresh j (sym (has-with_rooms id j (add room) w.connections) ∙ g);
      })

ws_room_leave-IsConsistent :
    (id : ℕ) (room : String) (w : Websockets)
    → IsConsistent w
    → IsConsistent (ws_room_leave id room w)
unfolding ws_room_leave
ws_room_leave-IsConsistent id room w v = elim (Option-cases (Assoc.get room w.rooms)) [
  | inl e ↦ rw (e, ws_room_leave) v
  | inr (ids, e) ↦
      rw (e, ws_room_leave)
        (record {
          rooms_map = left-IsMap room (without id ids) w.rooms v.rooms_map;
          agree = λ j name.
              leave-agree id j room name ids w.rooms w.connections (λ k. v.agree k name) e;
          fresh = λ j g. v.fresh j (sym (has-with_rooms id j (without room) w.connections) ∙ g);
        })
]

ws_send-registries :
    (id : ℕ) (msg : String) (w : Websockets) → IsConsistent w → IsConsistent (ws_send id msg w)
unfolding ws_send
ws_send-registries id msg w v =
    if_cases IsConsistent (Assoc.has id w.connections) _ _
      (λ _. record { rooms_map = v.rooms_map; agree = v.agree; fresh = v.fresh }) (λ _. v)

send_each-IsConsistent :
    (ids : List ℕ) (msg : String) (w : Websockets)
    → IsConsistent w
    → IsConsistent (send_each ids msg w)
unfolding send_each
send_each-IsConsistent [] msg w v = v
send_each-IsConsistent (id ∷ ids) msg w v =
    send_each-IsConsistent ids msg (ws_send id msg w) (ws_send-registries id msg w v)

bridge-IsConsistent :
    (call : BridgeCall) (w : Websockets) → IsConsistent w → IsConsistent (bridge call w)
unfolding bridge http_ws_route broadcast_to_room
bridge-IsConsistent (routes r) w v = record {
  rooms_map = v.rooms_map;
  agree = v.agree;
  fresh = v.fresh;
}
bridge-IsConsistent (sends_to id msg) w v = ws_send-registries id msg w v
bridge-IsConsistent (broadcasts room msg) w v =
    send_each-IsConsistent (members room w.rooms) msg w v
bridge-IsConsistent (closes_client id) w v = ws_close-IsConsistent id w v
bridge-IsConsistent (joins id room) w v = ws_room_join-IsConsistent id room w v
bridge-IsConsistent (leaves id room) w v = ws_room_leave-IsConsistent id room w v

bridge_all-IsConsistent :
    (cs : List BridgeCall) (w : Websockets) → IsConsistent w → IsConsistent (bridge_all cs w)
unfolding bridge_all
bridge_all-IsConsistent [] w v = v
bridge_all-IsConsistent (c ∷ cs) w v =
    bridge_all-IsConsistent cs (bridge c w) (bridge-IsConsistent c w v)

module _ (handler : String → ℕ → String → Websockets → List BridgeCall) where
  call-IsConsistent :
      (name : String) (id : ℕ) (message : String) (w : Websockets)
      → IsConsistent w
      → IsConsistent (call_wasm_handler handler name id message w)
  unfolding call_wasm_handler
  call-IsConsistent name id message w v =
      if_cases IsConsistent (name == "") _ _ (λ _. v)
        (λ _. bridge_all-IsConsistent (handler name id message w) w v)

  upgrade-IsConsistent :
      (url : String) (w : Websockets) → IsConsistent w → IsConsistent (upgrade handler url w)
  unfolding upgrade
  upgrade-IsConsistent url w v = elim (Option-cases (Assoc.get url w.ws_routes)) [
    | inl e ↦ rw (e, upgrade) v
    | inr (r, e) ↦
        rw (e, upgrade)
          (call-IsConsistent r.on_connect (suc w.client_id_counter) "" (connect w)
            (connect-IsConsistent w v))
  ]

  ws_step-IsConsistent :
      (e : WsEvent) (w : Websockets) → IsConsistent w → IsConsistent (ws_step handler e w)
  unfolding ws_step stop_websocket_server members
  ws_step-IsConsistent (calls c) w v = bridge-IsConsistent c w v
  ws_step-IsConsistent (upgrades url) w v = upgrade-IsConsistent url w v
  ws_step-IsConsistent (receives r id message) w v = call-IsConsistent r.on_message id message w v
  ws_step-IsConsistent (disconnects r id) w v =
      evict-IsConsistent id _ (call-IsConsistent r.on_close id "" w v)
  ws_step-IsConsistent stops w v = record {
    rooms_map = tt;
    agree = λ id room. sym (joined-missing id room [] refl);
    fresh = λ id h. ground arith;
  }

  run-IsConsistent :
      (es : List WsEvent) (w : Websockets) → IsConsistent w → IsConsistent (ws_run handler es w)
  unfolding ws_run
  run-IsConsistent [] w v = v
  run-IsConsistent (e ∷ es) w v =
      run-IsConsistent es (ws_step handler e w) (ws_step-IsConsistent e w v)

  -- After any events, and whatever bridge calls the module's handlers make, the members that a room
  -- records are exactly the clients whose connection records the room, and no client has an id
  -- that the counter has still to give out.
  pub ws_run-IsConsistent : (es : List WsEvent) → IsConsistent (ws_run handler es no_websockets)
  unfolding members
  ws_run-IsConsistent es = run-IsConsistent es no_websockets (record {
    rooms_map = tt;
    agree = λ id room. sym (joined-missing id room [] refl);
    fresh = λ id h. ground arith;
  })
