-- ===== src/Websocket/Membership/Records.antt =====
-- The two records of who is in a room, step by step.
use clean_node_server.Common.{
  Eq, elem-without, elem-append, ℕ, ◌≤◌, ◌≡◌, refl, ap, ◌∙◌, String, Bool, true, false, not, ◌&&◌,
  ◌||◌, inl, inr, List, [], ◌∷◌, none, some, arith, nat_eq, string_eq, ◌==◌, if◌then◌else◌, elem,
  Option-cases,
}
use clean_node_server.Common.Assoc
use clean_node_server.Websocket.{
  Websockets, add, members, leave_all, with_rooms, left, evict_member,
}

-- The room's record, and the connection's.
abbrev pub in_room : ℕ → String → List (String × List ℕ) → Bool
in_room id room rooms = elem id (members room rooms)

pub joined : ℕ → String → List (ℕ × List String) → Bool
joined id room connections = elim (Assoc.get id connections) [
  | none ↦ false
  | some names ↦ elem room names
]

pub elem-add {ℓ} :
    {A : Type ℓ} ⦃e : Eq A⦄ (a b : A) (xs : List A) → elem b (add a xs) ≡ (a == b || elem b xs)
elem-add ⦃e⦄ a b xs = ground (arith, e.beq_iff a b, elem-append b xs (a ∷ []))

pub members-set :
    (room name : String) (ids : List ℕ) (rooms : List (String × List ℕ))
    → members name (Assoc.set room ids rooms) ≡ (if room == name then ids else members name rooms)
unfolding members
members-set room name ids rooms = ground (arith, Assoc.get-set room name ids rooms)

pub in_room-left :
    (room name : String) (id : ℕ) (ids : List ℕ) (rooms : List (String × List ℕ))
    → in_room id name (left room ids rooms)
      ≡ (if room == name then elem id ids else in_room id name rooms)
unfolding left members
in_room-left room name id [] rooms = ground (arith, Assoc.get-delete room name rooms)
in_room-left room name id (i ∷ is) rooms = ground (arith, Assoc.get-set room name (i ∷ is) rooms)

pub has-leave_all :
    (id : ℕ) (room : String) (rooms : List (String × List ℕ))
    → Assoc.has room rooms ≡ false
    → Assoc.has room (leave_all id rooms) ≡ false
unfolding leave_all
has-leave_all id room [] h = refl
has-leave_all id room ((r, ids) ∷ rooms) h = ground (arith, has-leave_all id room rooms)

pub leave_all-IsMap :
    (id : ℕ) (rooms : List (String × List ℕ)) → Assoc.IsMap rooms → Assoc.IsMap (leave_all id rooms)
unfolding leave_all
leave_all-IsMap id [] h = tt
leave_all-IsMap id ((r, ids) ∷ rooms) h =
    ground (arith, has-leave_all id r rooms h.0, leave_all-IsMap id rooms h.1)

members-none :
    (room : String) (rooms : List (String × List ℕ))
    → Assoc.has room rooms ≡ false
    → members room rooms ≡ []
unfolding members
members-none room rooms h = ground (arith, Assoc.get-eq-none room rooms h)

pub in_room-leave_all :
    (id j : ℕ) (room : String) (rooms : List (String × List ℕ))
    → Assoc.IsMap rooms
    → in_room j room (leave_all id rooms) ≡ (not (id == j) && in_room j room rooms)
unfolding leave_all members
in_room-leave_all id j room [] h = ground arith
in_room-leave_all id j room ((r, ids) ∷ rooms) h = ground (
  arith,
  string_eq.beq_iff r room,
  elem-without j id ids,
  in_room-leave_all id j room rooms h.1,
  members-none room (leave_all id rooms),
  has-leave_all id r rooms h.0,
)

pub joined-delete :
    (id j : ℕ) (room : String) (c : List (ℕ × List String))
    → joined j room (Assoc.delete id c) ≡ (not (id == j) && joined j room c)
unfolding joined
joined-delete id j room c = ground (arith, Assoc.get-delete id j c)

pub joined-set :
    (id j : ℕ) (room : String) (names : List String) (c : List (ℕ × List String))
    → joined j room (Assoc.set id names c) ≡ (if id == j then elem room names else joined j room c)
unfolding joined
joined-set id j room names c = ground (arith, Assoc.get-set id j names c)

pub with_rooms-some :
    (id : ℕ) (f : List String → List String) (names : List String) (c : List (ℕ × List String))
    → Assoc.get id c ≡ some names
    → with_rooms id f c ≡ Assoc.set id (f names) c
unfolding with_rooms
with_rooms-some id f names c e = ground (arith, e)

pub with_rooms-none :
    (id : ℕ) (f : List String → List String) (c : List (ℕ × List String))
    → Assoc.get id c ≡ none
    → with_rooms id f c ≡ c
unfolding with_rooms
with_rooms-none id f c e = ground (arith, e)

pub joined-some :
    (id : ℕ) (room : String) (names : List String) (c : List (ℕ × List String))
    → Assoc.get id c ≡ some names
    → joined id room c ≡ elem room names
unfolding joined
joined-some id room names c e = ground (arith, e)

pub joined-none :
    (id : ℕ) (room : String) (c : List (ℕ × List String))
    → Assoc.get id c ≡ none
    → joined id room c ≡ false
unfolding joined
joined-none id room c e = ground (arith, e)

pub members-some :
    (room : String) (ids : List ℕ) (rooms : List (String × List ℕ))
    → Assoc.get room rooms ≡ some ids
    → members room rooms ≡ ids
unfolding members
members-some room ids rooms e = ground (arith, e)

pub has-with_rooms :
    (id j : ℕ) (f : List String → List String) (c : List (ℕ × List String))
    → Assoc.has j (with_rooms id f c) ≡ Assoc.has j c
has-with_rooms id j f c = elim (Option-cases (Assoc.get id c)) [
  | inl e ↦ ap (Assoc.has j) (with_rooms-none id f c e)
  | inr (names, e) ↦
      ap (Assoc.has j) (with_rooms-some id f names c e)
      ∙ ground
          (arith, e, Assoc.has-set id j (f names) c, Assoc.has-eq-get id c, nat_eq.beq_iff id j)
]

pub in_room-evict_member :
    (id j : ℕ) (room : String) (rooms : List (String × List ℕ))
    → in_room j room (evict_member id rooms) ≡ (not (id == j) && in_room j room rooms)
unfolding evict_member members
in_room-evict_member id j room [] = ground arith
in_room-evict_member id j room ((r, ids) ∷ rooms) =
    ground (arith, elem-without j id ids, in_room-evict_member id j room rooms)

pub has-evict_member :
    (id : ℕ) (room : String) (rooms : List (String × List ℕ))
    → Assoc.has room (evict_member id rooms) ≡ Assoc.has room rooms
unfolding evict_member
has-evict_member id room [] = refl
has-evict_member id room ((r, ids) ∷ rooms) = ground (arith, has-evict_member id room rooms)

pub evict_member-IsMap :
    (id : ℕ) (rooms : List (String × List ℕ))
    → Assoc.IsMap rooms
    → Assoc.IsMap (evict_member id rooms)
unfolding evict_member
evict_member-IsMap id [] h = tt
evict_member-IsMap id ((r, ids) ∷ rooms) h =
    (has-evict_member id r rooms ∙ h.0, evict_member-IsMap id rooms h.1)

-- The keys of `rooms` are distinct, the two records agree, and no client is ahead of the counter.
pub record IsConsistent (w : Websockets) : Type 0 where
  pub rooms_map : Assoc.IsMap w.rooms
  pub agree : (id : ℕ) (room : String) → in_room id room w.rooms ≡ joined id room w.connections
  pub fresh : (id : ℕ) → Assoc.has id w.connections ≡ true → id ≤ w.client_id_counter

pub joined-missing :
    (id : ℕ) (room : String) (c : List (ℕ × List String))
    → Assoc.has id c ≡ false
    → joined id room c ≡ false
unfolding joined
joined-missing id room c h = ground (arith, Assoc.get-eq-none id c h)

pub left-IsMap :
    (room : String) (ids : List ℕ) (rooms : List (String × List ℕ))
    → Assoc.IsMap rooms
    → Assoc.IsMap (left room ids rooms)
unfolding left
left-IsMap room [] rooms h = Assoc.delete-IsMap room rooms h
left-IsMap room (i ∷ is) rooms h = Assoc.set-IsMap room (i ∷ is) rooms h
