-- ===== src/Router/Registry/Tests.antt =====
-- A registry of two routes, and the theorems at concrete inputs.
use clean_node_server.Common.{List, ◌≡◌, refl, false, [], ◌∷◌, Option, none, some, nat_eq}
use clean_node_server.Router.{compile_pattern, once, exactly, matches, Text, match_tokens}
use clean_node_server.Router.Registry.{
  push_route, register, exported, to_upper_case, RouteRegistry, RouteHandler, found, fill_params,
  match_route, get_method,
}
use clean_node_server.Router.Registry.Precedence.{
  registers, register_one, Registration, register_all, match_route-first,
}
use clean_node_server.Router.Tests.{units}

abbrev keep_text : Text → Option Text
keep_text t = some t

abbrev ping : RouteHandler
ping = record {
  method = get_method;
  pattern = units "/ping";
  regex = matches (exactly 47) once ∷ matches (exactly 112) once ∷ [];
  param_names = [];
  handler_name = exported (units "ping");
  is_protected = false;
  required_role = none;
  sse_handler_name = none;
  redirect = none;
}

abbrev posted : RouteHandler
posted = record ping { method = units "POST" }

abbrev two_routes : RouteRegistry
two_routes = record { routes = posted ∷ ping ∷ []; registration_counter = 0 }

-- A route that takes the same request is registered behind the one that does.
abbrev later : List Registration
later = registers (units "*") (units "/p") (units "other") false none ∷ []

abbrev registered : RouteRegistry
registered = record two_routes {
  routes =
      posted
      ∷ ping
      ∷ record ping {
        method = units "*";
        pattern = units "/p";
        handler_name = exported (units "other");
      }
      ∷ [];
}

register_later : register_all later two_routes ≡ some registered
unfolding register_all register_one register push_route to_upper_case compile_pattern
register_later = refl

match_route-first_example :
    match_route keep_text (units "get") (units "/p") registered ≡ found ping []
unfolding match_tokens to_upper_case fill_params
match_route-first_example =
    (match_route-first keep_text (units "get") (units "/p") (posted ∷ []) [] ping [] two_routes
      later registered refl (refl, tt) refl refl register_later).1
