-- ===== src/Router/Optional.antt =====
-- Patterns with an optional parameter.
use clean_node_server.Common.{
  append-cons, drop-append, append-nil, ap₂, ℕ, suc, ◌≡◌, refl, sym, ap, ◌∙◌, true, false, List, [],
  ◌∷◌, ◌++◌, Option, none, some, arith, length, All, nat_eq, ◌==◌,
}
use clean_node_server.Router.{
  match_one, match_quantified, is_special, Text, Token, slash, colon, question, is_word, word,
  is_empty_text, matches, opens, closes, dot, not_slash, exactly, once, many, match_tokens,
  match_many, accepts, compile_pattern, regex_pattern, parse_regex, replace_all, find_special,
  find_optional, find_required, find_wildcard, Replaced, optional_group, quantifier, read_token,
}
use clean_node_server.Router.Compiled.{not-special-word}
use clean_node_server.Router.Patterns.{found_by, word-append, word-cons}

-- The regular expression of an optional parameter: the `*` of `([^/]*)` has become `(.*)`.
abbrev optional_tokens : List Token
optional_tokens =
    matches (exactly slash) once
    ∷ opens
    ∷ matches not_slash once
    ∷ opens
    ∷ matches dot many
    ∷ closes
    ∷ closes
    ∷ []

replace_all-skip :
    (find : ℕ → Text → Option Replaced) (name rest : Text)
    → replace_all find (length name) (name ++ rest) ≡ replace_all find 0 rest
unfolding replace_all
replace_all-skip find [] rest = refl
replace_all-skip find (c ∷ cs) rest = replace_all-skip find cs rest

replace_all-end :
    (find : ℕ → Text → Option Replaced) (name : Text) (c : ℕ)
    → replace_all find (suc (length name)) (name ++ c ∷ []) ≡ ([], [])
unfolding replace_all
replace_all-end find [] c = refl
replace_all-end find (d ∷ ds) c = replace_all-end find ds c

replace_all-word :
    (name : Text)
    → word name ≡ name
    → replace_all find_special 0 (name ++ question ∷ []) ≡ (name ++ question ∷ [], [])
unfolding replace_all find_special is_special
replace_all-word [] k = refl
replace_all-word (c ∷ cs) k =
    let (w, e) = word-cons c cs k in ground (arith, not-special-word c w, replace_all-word cs e)

find_optional-slash : (cs : Text) → find_optional slash cs ≡ none
unfolding find_optional
find_optional-slash cs = refl

find_optional-name :
    (name : Text)
    → is_empty_text name ≡ false
    → word name ≡ name
    → find_optional colon (name ++ question ∷ [])
      ≡ some (record { replacement = optional_group; kept = name ∷ []; more = suc (length name) })
unfolding find_optional is_word
find_optional-name name h k =
    rw (word-append name (question ∷ []) k refl, h, drop-append name (question ∷ []))

special_pass :
    (name : Text)
    → word name ≡ name
    → replace_all find_special 0 (slash ∷ colon ∷ name ++ question ∷ [])
      ≡ (slash ∷ colon ∷ name ++ question ∷ [], [])
unfolding replace_all find_special is_special
special_pass name k = ap (λ p. (slash ∷ colon ∷ p.0, p.1)) (replace_all-word name k)

optional_pass :
    (name : Text)
    → is_empty_text name ≡ false
    → word name ≡ name
    → replace_all find_optional 0 (slash ∷ colon ∷ name ++ question ∷ [])
      ≡ (slash ∷ optional_group, name ∷ [])
unfolding replace_all
optional_pass name h k = ground (
  arith,
  find_optional-name name h k,
  find_optional-slash (colon ∷ name ++ question ∷ []),
  replace_all-end find_optional name question,
)

later_passes :
    ((replace_all find_required 0 (slash ∷ optional_group)) ≡ (slash ∷ optional_group, []))
    × (parse_regex 0 (replace_all find_wildcard 0 (slash ∷ optional_group)).0
        ≡ some optional_tokens)
unfolding replace_all find_required find_wildcard word is_word parse_regex read_token quantifier
later_passes = (refl, refl)

compile_pattern-passes :
    (p a b : Text) (names : List Text) (regex : Option (List Token))
    → replace_all find_special 0 p ≡ (a, [])
    → replace_all find_optional 0 a ≡ (b, names)
    → replace_all find_required 0 b ≡ (b, [])
    → parse_regex 0 (replace_all find_wildcard 0 b).0 ≡ regex
    → compile_pattern p ≡ (regex, names ++ [])
unfolding compile_pattern regex_pattern
compile_pattern-passes p a b names regex e f g h = rw (e, f, g, h)

compile_pattern-optional :
    (name : Text)
    → is_empty_text name ≡ false
    → word name ≡ name
    → compile_pattern (slash ∷ colon ∷ name ++ question ∷ []) ≡ (some optional_tokens, name ∷ [])
compile_pattern-optional name h k =
    compile_pattern-passes (slash ∷ colon ∷ name ++ question ∷ [])
      (slash ∷ colon ∷ name ++ question ∷ []) (slash ∷ optional_group) (name ∷ [])
      (some optional_tokens) (special_pass name k) (optional_pass name h k) later_passes.0
      later_passes.1

match_many-dot :
    (u w cs : Text)
    → All (λ c. accepts dot c ≡ true) cs
    → match_many dot (match_tokens (closes ∷ closes ∷ [])) ((true, w) ∷ (true, u) ∷ []) cs
      ≡ some ((u ++ cs) ∷ (w ++ cs) ∷ [])
unfolding match_many match_tokens
match_many-dot u w [] h = ap₂ (λ a b. some (a ∷ b ∷ [])) (sym (append-nil u)) (sym (append-nil w))
match_many-dot u w (c ∷ cs) h =
    rw (
      h.0,
      match_many-dot (u ++ c ∷ []) (w ++ c ∷ []) cs h.1,
      append-cons u c cs,
      append-cons w c cs,
    )

optional_none : match_tokens optional_tokens [] (slash ∷ []) ≡ none
unfolding match_tokens match_quantified match_one accepts
optional_none = refl

optional_some :
    (c : ℕ) (cs : Text)
    → (c == slash) ≡ false
    → All (λ d. accepts dot d ≡ true) cs
    → match_tokens optional_tokens [] (slash ∷ c ∷ cs) ≡ some ((c ∷ cs) ∷ cs ∷ [])
unfolding match_tokens match_quantified match_one accepts
optional_some c cs e d = rw (e) (match_many-dot (c ∷ []) [] cs d)

-- The pattern `/:name?`, for a word as the name, does not match the path `/`, where the parameter is
-- missing, and it matches every path of one segment or more, the slashes included: the parameter is
-- the whole rest of the path.
pub compile_pattern-optional_value :
    (name : Text) (c : ℕ) (cs : Text)
    → is_empty_text name ≡ false
    → word name ≡ name
    → (c == slash) ≡ false
    → All (λ d. accepts dot d ≡ true) cs
    → let (regex, names) = compile_pattern (slash ∷ colon ∷ name ++ question ∷ []) in
      (found_by regex (slash ∷ []) ≡ none)
      × (found_by regex (slash ∷ c ∷ cs) ≡ some ((c ∷ cs) ∷ cs ∷ []))
compile_pattern-optional_value name c cs h k e d = (
  ap (λ p. found_by p.0 (slash ∷ [])) (compile_pattern-optional name h k) ∙ optional_none,
  ap (λ p. found_by p.0 (slash ∷ c ∷ cs)) (compile_pattern-optional name h k)
      ∙ optional_some c cs e d,
)
