-- ===== src/Router/Registry.antt =====
-- router/index.ts: the routes and their lookup, and the parts of a URL. decodeURIComponent is a
-- parameter that can throw.
pub mod Precedence
pub mod Tests
use clean_node_server.Common.{
  arith, ◌↔◌, ℕ, zero, suc, ◌+◌, ◌-◌, ◌≤◌, ◌≡◌, Bool, true, false, not, ◌&&◌, ◌||◌, List, [], ◌∷◌,
  ◌++◌, Option, none, some, Eq, elem, nat_eq, ◌==◌, if◌then◌else◌, leb,
}
use clean_node_server.Common.Assoc
use clean_node_server.Router.{Text, Token, compile_pattern, match_tokens, or_else, slash, question}

-- A redirect has a name of its own, made of a number, and is never dispatched by it.
pub data HandlerName : Type 0 where
  exported : Text → HandlerName
  redirect_name : ℕ → HandlerName

pub record RouteHandler : Type 0 where
  pub method : Text
  pub pattern : Text
  pub regex : List Token
  pub param_names : List Text
  pub handler_name : HandlerName
  pub is_protected : Bool
  pub required_role : Option Text
  pub sse_handler_name : Option Text
  pub redirect : Option (Text × ℕ)

pub record RouteRegistry : Type 0 where
  pub routes : List RouteHandler
  pub registration_counter : ℕ

pub empty_registry : RouteRegistry
empty_registry = record { routes = []; registration_counter = 0 }

-- toUpperCase on ASCII: a method is an ASCII token.
pub to_upper_case : Text → Text
to_upper_case [] = []
to_upper_case (c ∷ cs) = (if leb 97 c && leb c 122 then c - 32 else c) ∷ to_upper_case cs

-- `none` where compiling the pattern throws.
pub push_route :
    Text
    → Text
    → HandlerName
    → Bool
    → Option Text
    → Option Text
    → Option (Text × ℕ)
    → RouteRegistry
    → Option RouteRegistry
unfolding to_upper_case
push_route method pattern name is_protected role sse redirect s =
    let (compiled, names) = compile_pattern pattern in
    elim compiled [
      | none ↦ none
      | some regex ↦
          let route : RouteHandler = record {
            method = to_upper_case method;
            pattern = pattern;
            regex = regex;
            param_names = names;
            handler_name = name;
            is_protected = is_protected;
            required_role = role;
            sse_handler_name = sse;
            redirect = redirect;
          } in
          some (record s { routes = s.routes ++ route ∷ [] })
    ]

pub register : Text → Text → Text → Bool → Option Text → RouteRegistry → Option RouteRegistry
unfolding push_route
register method pattern handler is_protected role s =
    push_route method pattern (exported handler) is_protected role none none s

pub register_redirect : Text → Text → Text → ℕ → RouteRegistry → Option RouteRegistry
unfolding push_route
register_redirect method pattern to status s =
    push_route method pattern (redirect_name s.registration_counter) false none none
      (some (to, status)) (record s { registration_counter = suc s.registration_counter })

pub register_sse : Text → Text → Text → RouteRegistry → Option RouteRegistry
unfolding push_route
register_sse method pattern handler s =
    push_route method pattern (exported handler) false none (some handler) none
      (record s { registration_counter = suc s.registration_counter })

pub get_routes : RouteRegistry → List RouteHandler
get_routes s = s.routes

pub clear : RouteRegistry → RouteRegistry
clear s = record s { routes = [] }

-- The keys of an object with string values.
abbrev pub Params : Type 0
Params = List (Text × Text)

-- "__proto__": a string assigned to it is dropped.
abbrev pub proto : Text
proto = 95 ∷ 95 ∷ 112 ∷ 114 ∷ 111 ∷ 116 ∷ 111 ∷ 95 ∷ 95 ∷ []

abbrev pub text_beq : Text → Text → Bool
text_beq [] [] = true
text_beq [] (d ∷ ds) = false
text_beq (c ∷ cs) [] = false
text_beq (c ∷ cs) (d ∷ ds) = c == d && text_beq cs ds

pub text_beq_iff : (s t : Text) → (text_beq s t ≡ true) ↔ (s ≡ t)
text_beq_iff [] [] = ground arith
text_beq_iff [] (d ∷ ds) = ground arith
text_beq_iff (c ∷ cs) [] = ground arith
text_beq_iff (c ∷ cs) (d ∷ ds) = ground (arith, text_beq_iff cs ds)

instance abbrev pub text_eq : Eq Text
text_eq = record { beq = text_beq; beq_iff = text_beq_iff }

abbrev pub set_param : Text → Text → Params → Params
set_param name value params = if name == proto then params else Assoc.set name value params

-- "*", "HEAD" and "GET"
abbrev pub any_method : Text
any_method = 42 ∷ []

abbrev pub head_method : Text
head_method = 72 ∷ 69 ∷ 65 ∷ 68 ∷ []

abbrev pub get_method : Text
get_method = 71 ∷ 69 ∷ 84 ∷ []

pub data Lookup : Type 0 where
  no_route : Lookup
  malformed : Lookup
  found : RouteHandler → Params → Lookup

abbrev pub has_method : Text → RouteHandler → Bool
has_method upper r = r.method == upper || r.method == any_method

-- The texts of `text.split(c)`.
pub split_at : ℕ → Text → List Text
split_at c [] = [] ∷ []
split_at c (d ∷ ds) =
    let rest = split_at c ds in
    if d == c then [] ∷ rest else (elim rest [ [] ↦ (d ∷ []) ∷ [] | w ∷ ws ↦ (d ∷ w) ∷ ws ])

-- The first two elements, empty where they are missing.
abbrev pub first_two : List Text → Text × Text
first_two [] = ([], [])
first_two (a ∷ []) = (a, [])
first_two (a ∷ b ∷ _) = (a, b)

abbrev pub filled : RouteHandler → Option Params → Lookup
filled r none = malformed
filled r (some params) = found r params

module _ (decode : Text → Option Text) where
  -- The group of a name is the one at its place: `none` where decoding throws.
  pub fill_params : List Text → List Text → Params → Option Params
  fill_params [] groups params = some params
  fill_params (name ∷ names) [] params = elim (decode []) [
    | none ↦ none
    | some value ↦ fill_params names [] (set_param name value params)
  ]
  fill_params (name ∷ names) (g ∷ groups) params = elim (decode g) [
    | none ↦ none
    | some value ↦ fill_params names groups (set_param name value params)
  ]

  pub match_method : Text → Text → List RouteHandler → Lookup
  unfolding fill_params
  match_method upper path [] = no_route
  match_method upper path (r ∷ rs) =
      let rest = match_method upper path rs in
      if has_method upper r
      then (elim (match_tokens r.regex [] path) [
        | none ↦ rest
        | some groups ↦ filled r (fill_params r.param_names groups [])
      ])
      else rest

  -- A HEAD request without a route of its own takes that of GET.
  pub match_route : Text → Text → RouteRegistry → Lookup
  unfolding match_method to_upper_case
  match_route method path s =
      let upper = to_upper_case method in
      elim (match_method upper path s.routes) [
        | no_route ↦
            if upper == head_method then match_method get_method path s.routes else no_route
        | malformed ↦ malformed
        | found r params ↦ found r params
      ]

  -- A pair whose key is empty is left out.
  pub add_pairs : List Text → Params → Option Params
  unfolding split_at
  add_pairs [] params = some params
  add_pairs (pair ∷ pairs) params =
      let (key, value) = first_two (split_at 61 pair) in
      elim key [
        | [] ↦ add_pairs pairs params
        | c ∷ cs ↦ elim (decode (c ∷ cs)) [
          | none ↦ none
          | some k ↦ elim (decode value) [
            | none ↦ none
            | some v ↦ add_pairs pairs (set_param k v params)
          ]
        ]
      ]

  pub parse_query_string : Text → Option Params
  unfolding add_pairs
  parse_query_string [] = some []
  parse_query_string (c ∷ cs) = add_pairs (split_at 38 (if c == question then cs else c ∷ cs)) []

  -- `url.split('?')`: what follows a second `?` is dropped.
  pub parse_url : Text → Text × Option Params
  unfolding parse_query_string
  parse_url url =
      let (path, query) = first_two (split_at question url) in
      ((elim path [ [] ↦ slash ∷ [] | c ∷ cs ↦ c ∷ cs ]), parse_query_string query)
