-- ===== src/Router/Tests.antt =====
-- Routes of concrete patterns, and the theorems at concrete inputs.
use Prim.Native.Char.{code}
use Prim.Native.String.{[] as no_chars, ◌∷◌ as then_char}
use clean_node_server.Common.{◌≡◌, refl, String, List, [], ◌∷◌, ◌++◌, none, some, nat_eq}
use clean_node_server.Router.{
  word, Text, compile_pattern, regex_pattern, match_tokens, accepts, slash, colon, question,
}
use clean_node_server.Router.Segments.{Segment, static, param, segment_values}
use clean_node_server.Router.Patterns.{found_by, pattern_of, names_of, compile_pattern-segments}
use clean_node_server.Router.Optional.{compile_pattern-optional_value}

abbrev pub units : String → Text
units no_chars = []
units (then_char c cs) = code c ∷ units cs

router_runs : Unit {0}
unfolding compile_pattern regex_pattern match_tokens
router_runs = tt

-- The names of optional parameters come first, and a wildcard takes the group of a name.
patterns :
    ((compile_pattern (units "/a/:x/:y?")).1 ≡ units "y" ∷ units "x" ∷ [])
    × ((regex_pattern (units "/:id?")).0 ≡ units "/([^/](.*))")
    × ((regex_pattern (units "/v1.0/:id")).0 ≡ units "/v1\\.0/([^/]+)")
    × (found_by (compile_pattern (units "/f/*/:id")).0 (units "/f/a/b/7")
        ≡ some (units "a/b" ∷ units "7" ∷ []))
unfolding router_runs
patterns = (refl, refl, refl, refl)

abbrev user_segments : List Segment
user_segments = static (units "users") ∷ param (units "id") ∷ []

word-id : word (units "id") ≡ units "id"
unfolding word
word-id = refl

compile_pattern-segments_example :
    ((compile_pattern (pattern_of user_segments)).1 ≡ names_of user_segments)
    × (found_by (compile_pattern (pattern_of user_segments)).0 (slash ∷ units "users/7")
        ≡ segment_values user_segments (some (units "users/7")))
compile_pattern-segments_example =
    compile_pattern-segments (static (units "users")) (param (units "id") ∷ []) (units "users/7")
      ((refl, refl, refl, refl), ((refl, word-id), tt))

compile_pattern-optional_value_example :
    let (regex, names) = compile_pattern (slash ∷ colon ∷ units "id" ++ question ∷ []) in
    (found_by regex (slash ∷ []) ≡ none)
    × (found_by regex (slash ∷ units "7/8") ≡ some (units "7/8" ∷ units "/8" ∷ []))
unfolding accepts
compile_pattern-optional_value_example =
    compile_pattern-optional_value (units "id") 55 (units "/8") refl word-id refl (refl, (refl, tt))
