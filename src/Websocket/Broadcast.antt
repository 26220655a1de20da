-- ===== src/Websocket/Broadcast.antt =====
-- Who gets a broadcast, and which rooms stay behind a client that leaves.
use clean_node_server.Common.{
  ℕ, ◌≡◌, refl, sym, ap, subst, ◌∙◌, String, true, false, inl, inr, List, [], ◌∷◌, ◌++◌, some,
  arith, nat_eq, string_eq, elem, without, All, Bool-cases,
}
use clean_node_server.Common.Assoc
use clean_node_server.Common.{map}
use clean_node_server.Websocket.{
  Websockets, WsEvent, BridgeCall, members, leave_all, evict_member, evict, ws_send, send_each,
  broadcast_to_room, ws_close, ws_run, no_websockets,
}
use clean_node_server.Websocket.Membership.{ws_run-IsConsistent}
use clean_node_server.Websocket.Membership.Records.{
  in_room, joined, joined-missing, has-leave_all, has-evict_member, IsConsistent,
}

ws_send-sends :
    (id : ℕ) (msg : String) (w : Websockets)
    → Assoc.has id w.connections ≡ true
    → ((ws_send id msg w).sends ≡ w.sends ++ (id, msg) ∷ [])
      × ((ws_send id msg w).connections ≡ w.connections)
unfolding ws_send
ws_send-sends id msg w h = rw h (refl, refl)

append-nil {ℓ} : {A : Type ℓ} (xs : List A) → xs ++ [] ≡ xs
append-nil [] = refl
append-nil (x ∷ xs) = ap (◌∷◌ x) (append-nil xs)

abbrev addressed : String → List ℕ → List (ℕ × String)
addressed msg ids = map (λ id. (id, msg)) ids

append-cons {ℓ} : {A : Type ℓ} (xs ys : List A) (a : A) → (xs ++ a ∷ []) ++ ys ≡ xs ++ a ∷ ys
append-cons [] ys a = refl
append-cons (x ∷ xs) ys a = ap (◌∷◌ x) (append-cons xs ys a)

send_each-sends :
    (ids : List ℕ) (msg : String) (w : Websockets)
    → All (λ id. Assoc.has id w.connections ≡ true) ids
    → (send_each ids msg w).sends ≡ w.sends ++ addressed msg ids
unfolding send_each
send_each-sends [] msg w h = sym (append-nil w.sends)
send_each-sends (id ∷ ids) msg w h =
    let (sent, same) = ws_send-sends id msg w h.0 in
    send_each-sends ids msg (ws_send id msg w)
      (subst (λ c. All (λ i. Assoc.has i c ≡ true) ids) (sym same) h.1)
    ∙ ap (λ l. l ++ addressed msg ids) sent
    ∙ append-cons w.sends (addressed msg ids) (id, msg)

All-elem {κ} : (P : ℕ → Type κ) (xs : List ℕ) → ((x : ℕ) → elem x xs ≡ true → P x) → All P xs
All-elem P [] f = tt
All-elem P (x ∷ xs) f = (f x (ground arith), All-elem P xs (λ y h. f y (ground arith)))

connected :
    (w : Websockets)
    → IsConsistent w
    → (id : ℕ) (room : String) → in_room id room w.rooms ≡ true
    → Assoc.has id w.connections ≡ true
connected w v id room h = elim (Bool-cases (Assoc.has id w.connections)) [
  | inl e ↦ e
  | inr e ↦ absurd (ground (arith, h, v.agree id room, joined-missing id room w.connections e))
]

-- After any events, a broadcast sends the message once for each entry of the room's list of
-- members, in its order and skipping none, and the members are the clients whose connection records the room.
pub broadcast-sends :
    (handler : String → ℕ → String → Websockets → List BridgeCall) (es : List WsEvent)
    (room msg : String)
    → let w = ws_run handler es no_websockets in
      ((broadcast_to_room room msg w).sends
        ≡ w.sends ++ map (λ id. (id, msg)) (members room w.rooms))
      × ((id : ℕ) → elem id (members room w.rooms) ≡ joined id room w.connections)
unfolding broadcast_to_room
broadcast-sends handler es room msg =
    let w = ws_run handler es no_websockets in
    let v = ws_run-IsConsistent handler es in
    (
      send_each-sends (members room w.rooms) msg w (
          All-elem (λ id. Assoc.has id w.connections ≡ true) (members room w.rooms)
            (λ id h. connected w v id room h)),
      λ id. v.agree id room,
    )

has-leave_all_only :
    (id : ℕ) (room : String) (rooms : List (String × List ℕ))
    → Assoc.IsMap rooms
    → Assoc.get room rooms ≡ some (id ∷ [])
    → Assoc.has room (leave_all id rooms) ≡ false
unfolding leave_all
has-leave_all_only id room [] d e = refl
has-leave_all_only id room ((r, ids) ∷ rooms) d e = ground (
  arith,
  has-leave_all_only id room rooms d.1,
  has-leave_all id room rooms,
  string_eq.beq_iff r room,
  nat_eq.beq_iff id id,
)

members-evict_member :
    (id : ℕ) (room : String) (rooms : List (String × List ℕ))
    → members room (evict_member id rooms) ≡ without id (members room rooms)
unfolding evict_member members
members-evict_member id room [] = refl
members-evict_member id room ((r, ids) ∷ rooms) = ground (arith, members-evict_member id room rooms)

-- When a connected client is the last member of a room, closing it from the module removes the room,
-- while the socket's own close event leaves the room behind with no members.
pub room_kept :
    (id : ℕ) (room : String) (w : Websockets)
    → IsConsistent w
    → Assoc.get room w.rooms ≡ some (id ∷ [])
    → (Assoc.has room (ws_close id w).rooms ≡ false)
      × (Assoc.has room (evict id w).rooms ≡ true)
      × (members room (evict id w).rooms ≡ [])
unfolding ws_close evict members
room_kept id room w v e =
    let h = connected w v id room (ground (arith, e, nat_eq.beq_iff id id)) in
    (
      rw h (has-leave_all_only id room w.rooms v.rooms_map e),
      has-evict_member id room w.rooms ∙ ground (arith, e, Assoc.has-eq-get room w.rooms),
      members-evict_member id room w.rooms ∙ ground (arith, e, nat_eq.beq_iff id id),
    )
