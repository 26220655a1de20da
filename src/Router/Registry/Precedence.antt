-- ===== src/Router/Registry/Precedence.antt =====
-- Which route a request finds.
use mathlib.Core.List.{append_assoc}
use clean_node_server.Common.{
  inr, inl, append-nil, Option-cases, ℕ, sym, suc, ◌≡◌, ◌≢◌, refl, ap, ◌∙◌, Bool, true, false, ◌&&◌,
  List, [], ◌∷◌, ◌++◌, Option, none, some, arith, All, ◌==◌, if◌then◌else◌,
}
use clean_node_server.Router.{compile_pattern, Text, match_tokens}
use clean_node_server.Router.Registry.{
  HandlerName, exported, redirect_name, push_route, register, register_redirect, register_sse,
  RouteRegistry, match_route, to_upper_case, head_method, get_method, RouteHandler, Params, Lookup,
  no_route, malformed, found, has_method, fill_params, filled, match_method, text_eq,
}

-- A route takes a request if its method fits and its expression matches the path.
abbrev pub takes : Text → Text → RouteHandler → Bool
takes upper path r =
    has_method upper r && (elim (match_tokens r.regex [] path) [ none ↦ false | some _ ↦ true ])

-- A call of `register`, `registerRedirect` or `registerSse`.
pub data Registration : Type 0 where
  registers : Text → Text → Text → Bool → Option Text → Registration
  redirects : Text → Text → Text → ℕ → Registration
  streams : Text → Text → Text → Registration

unfoldable pub register_one : Registration → RouteRegistry → Option RouteRegistry
register_one (registers method pattern handler is_protected role) s =
    register method pattern handler is_protected role s
register_one (redirects method pattern to status) s = register_redirect method pattern to status s
register_one (streams method pattern handler) s = register_sse method pattern handler s

-- The registry after all of them, or `none` if a pattern does not compile.
unfoldable pub register_all : List Registration → RouteRegistry → Option RouteRegistry
register_all [] s = some s
register_all (c ∷ cs) s = elim (register_one c s) [ none ↦ none | some t ↦ register_all cs t ]

-- Routes that are registered come after the ones that are there.
abbrev IsGrown : RouteRegistry → RouteRegistry → Type 0
IsGrown s t = (more : List RouteHandler) × (t.routes ≡ s.routes ++ more)

push_route-IsGrown :
    (method pattern : Text) (name : HandlerName) (is_protected : Bool) (role sse : Option Text)
    (redirect : Option (Text × ℕ)) (s t : RouteRegistry)
    → push_route method pattern name is_protected role sse redirect s ≡ some t
    → IsGrown s t
unfolding push_route
push_route-IsGrown method pattern name is_protected role sse redirect s t e =
    elim (Option-cases (compile_pattern pattern).0) [
      | inl f ↦ absurd (ground (arith, f, e))
      | inr (regex, f) ↦ (
        record {
          method = to_upper_case method;
          pattern = pattern;
          regex = regex;
          param_names = (compile_pattern pattern).1;
          handler_name = name;
          is_protected = is_protected;
          required_role = role;
          sse_handler_name = sse;
          redirect = redirect;
        }
            ∷ [],
        ground (arith, f, e),
      )
    ]

register_one-IsGrown :
    (c : Registration) (s t : RouteRegistry) → register_one c s ≡ some t → IsGrown s t
unfolding register_one register register_redirect register_sse
register_one-IsGrown (registers method pattern handler is_protected role) s t e =
    push_route-IsGrown method pattern (exported handler) is_protected role none none s t e
register_one-IsGrown (redirects method pattern to status) s t e =
    push_route-IsGrown method pattern (redirect_name s.registration_counter) false none none
      (some (to, status)) (record s { registration_counter = suc s.registration_counter }) t e
register_one-IsGrown (streams method pattern handler) s t e =
    push_route-IsGrown method pattern (exported handler) false none (some handler) none
      (record s { registration_counter = suc s.registration_counter }) t e

register_all-routes :
    (cs : List Registration) (s t : RouteRegistry) → register_all cs s ≡ some t → IsGrown s t
unfolding register_all
register_all-routes [] s t e =
    ([], let q : s ≡ t = cc in ap (λ u. u.routes) (sym q) ∙ sym (append-nil s.routes))
register_all-routes (c ∷ cs) s t e = elim (Option-cases (register_one c s)) [
  | inl f ↦ absurd (ground (arith, f, e))
  | inr (u, f) ↦
      let (added, g) = register_one-IsGrown c s u f in
      let (more, h) = register_all-routes cs u t (ground (arith, f, e)) in
      (added ++ more, h ∙ ap (λ l. l ++ more) g ∙ append_assoc s.routes added more)
]

module _ (decode : Text → Option Text) where
  match_method-first :
      (upper path : Text) (before after : List RouteHandler) (r : RouteHandler) (groups : List Text)
      → All (λ q. takes upper path q ≡ false) before
      → has_method upper r ≡ true
      → match_tokens r.regex [] path ≡ some groups
      → match_method decode upper path (before ++ r ∷ after)
        ≡ filled r (fill_params decode r.param_names groups [])
  unfolding match_method
  match_method-first upper path [] after r groups h m e = rw (m, e)
  match_method-first upper path (q ∷ before) after r groups h m e =
      ground (arith, h.0, match_method-first upper path before after r groups h.1 m e)

  match_method-none :
      (upper path : Text) (routes : List RouteHandler)
      → All (λ q. takes upper path q ≡ false) routes
      → match_method decode upper path routes ≡ no_route
  unfolding match_method
  match_method-none upper path [] h = refl
  match_method-none upper path (q ∷ routes) h =
      ground (arith, h.0, match_method-none upper path routes h.1)

  unchanged :
      (l other : Lookup)
      → l ≢ no_route
      → (elim l [ no_route ↦ other | malformed ↦ malformed | found r params ↦ found r params ]) ≡ l
  unchanged no_route other h = absurd (h refl)
  unchanged malformed other h = refl
  unchanged (found r params) other h = refl

  again :
      (l : Lookup)
      → l
        ≡ (elim l [ no_route ↦ no_route | malformed ↦ malformed | found r params ↦ found r params ])
  again no_route = refl
  again malformed = refl
  again (found r params) = refl

  filled-ne : (r : RouteHandler) (o : Option Params) → filled r o ≢ no_route
  filled-ne r none e = cc
  filled-ne r (some params) e = cc

  match_route-split :
      (method path : Text) (before after : List RouteHandler) (r : RouteHandler)
      (groups : List Text) (s : RouteRegistry)
      → s.routes ≡ before ++ r ∷ after
      → All (λ q. takes (to_upper_case method) path q ≡ false) before
      → has_method (to_upper_case method) r ≡ true
      → match_tokens r.regex [] path ≡ some groups
      → match_route decode method path s ≡ filled r (fill_params decode r.param_names groups [])
  unfolding match_route
  match_route-split method path before after r groups s split h m e =
      rw
        (
          ap (match_method decode (to_upper_case method) path) split
              ∙ match_method-first (to_upper_case method) path before after r groups h m e,
          match_route,
        )
        (unchanged (filled r (fill_params decode r.param_names groups []))
          (if to_upper_case method == head_method
            then match_method decode get_method path s.routes
            else no_route)
          (filled-ne r (fill_params decode r.param_names groups [])))

  -- A request gets the first route of the registry whose method is its own or '*' and whose expression
  -- matches the path, with the parameters that its groups give; and the order is that of registration:
  -- whatever is registered later, the request gets that route still.
  pub match_route-first :
      (method path : Text) (before after : List RouteHandler) (r : RouteHandler)
      (groups : List Text) (s : RouteRegistry) (cs : List Registration) (t : RouteRegistry)
      → s.routes ≡ before ++ r ∷ after
      → All (λ q. takes (to_upper_case method) path q ≡ false) before
      → has_method (to_upper_case method) r ≡ true
      → match_tokens r.regex [] path ≡ some groups
      → register_all cs s ≡ some t
      → (match_route decode method path s ≡ filled r (fill_params decode r.param_names groups []))
        × (match_route decode method path t ≡ filled r (fill_params decode r.param_names groups []))
  match_route-first method path before after r groups s cs t split h m e g =
      let (more, grown) = register_all-routes cs s t g in
      (
        match_route-split method path before after r groups s split h m e,
        match_route-split method path before (after ++ more) r groups t
            (grown ∙ ap (λ l. l ++ more) split ∙ append_assoc before (r ∷ after) more) h m e,
      )

  -- A HEAD request that no route takes by its own method gets what a GET request gets.
  pub match_route-head :
      (path : Text) (s : RouteRegistry)
      → All (λ q. takes head_method path q ≡ false) s.routes
      → match_route decode head_method path s ≡ match_route decode get_method path s
  unfolding match_route to_upper_case
  match_route-head path s h =
      rw (match_method-none head_method path s.routes h, match_route)
        (again (match_method decode get_method path s.routes))
