-- ===== src/Router.antt =====
-- router/index.ts: route patterns, the regular expressions made of them, and the lookup of a route. A
-- text is the list of its UTF-16 code units.
pub mod Registry
pub mod Compiled
pub mod Segments
pub mod Patterns
pub mod Optional
pub mod Tests
use clean_node_server.Common.{
  ℕ, zero, suc, ◌+◌, ◌-◌, ◌≤◌, ◌≡◌, String, Bool, true, false, not, ◌&&◌, ◌||◌, List, [], ◌∷◌, ◌++◌,
  Option, none, some, length, take, drop, elem, nat_eq, ◌==◌, if◌then◌else◌, ltb, leb,
}
use clean_node_server.Common.Assoc

abbrev pub Text : Type 0
Text = List ℕ

abbrev pub colon : ℕ
colon = 58

abbrev pub star_sign : ℕ
star_sign = 42

abbrev pub plus_sign : ℕ
plus_sign = 43

abbrev pub question : ℕ
question = 63

abbrev pub slash : ℕ
slash = 47

abbrev pub backslash : ℕ
backslash = 92

-- The class of characters that are escaped: . + ^ $ { } ( ) | [ ] and the backslash.
pub is_special : ℕ → Bool
is_special c = elem c (46 ∷ 43 ∷ 94 ∷ 36 ∷ 123 ∷ 125 ∷ 40 ∷ 41 ∷ 124 ∷ 91 ∷ 93 ∷ 92 ∷ [])

-- `\w`
pub is_word : ℕ → Bool
is_word c = (leb 48 c && leb c 57) || (leb 65 c && leb c 90) || c == 95 || (leb 97 c && leb c 122)

-- `(.*)`, `([^/]*)` and `([^/]+)`
abbrev pub wildcard_group : Text
wildcard_group = 40 ∷ 46 ∷ 42 ∷ 41 ∷ []

abbrev pub optional_group : Text
optional_group = 40 ∷ 91 ∷ 94 ∷ 47 ∷ 93 ∷ 42 ∷ 41 ∷ []

abbrev pub required_group : Text
required_group = 40 ∷ 91 ∷ 94 ∷ 47 ∷ 93 ∷ 43 ∷ 41 ∷ []

-- What a match of `replace` leaves: its replacement, what the callback keeps, and how many characters
-- beyond the first it takes.
pub record Replaced : Type 0 where
  pub replacement : Text
  pub kept : List Text
  pub more : ℕ

-- `text.replace(/.../g, ...)`: from left to right, the first number is of characters still to skip.
pub replace_all : (ℕ → Text → Option Replaced) → ℕ → Text → Text × List Text
replace_all find skip [] = ([], [])
replace_all find (suc skip) (c ∷ cs) = replace_all find skip cs
replace_all find zero (c ∷ cs) = elim (find c cs) [
  | none ↦ let (text, names) = replace_all find zero cs in (c ∷ text, names)
  | some r ↦
      let (text, names) = replace_all find r.more cs in (r.replacement ++ text, r.kept ++ names)
]

pub find_special : ℕ → Text → Option Replaced
unfolding is_special
find_special c cs =
    if is_special c
    then some (record { replacement = backslash ∷ c ∷ []; kept = []; more = 0 })
    else none

pub word : Text → Text
unfolding is_word
word [] = []
word (c ∷ cs) = if is_word c then c ∷ word cs else []

abbrev pub starts_with : ℕ → Text → Bool
starts_with c [] = false
starts_with c (d ∷ ds) = d == c

abbrev pub is_empty_text : Text → Bool
is_empty_text [] = true
is_empty_text (c ∷ cs) = false

-- `:(\w+)\?`
pub find_optional : ℕ → Text → Option Replaced
unfolding word
find_optional c cs =
    let name = word cs in
    if c == colon && not (is_empty_text name) && starts_with question (drop (length name) cs)
    then some (record { replacement = optional_group; kept = name ∷ []; more = suc (length name) })
    else none

-- `:(\w+)`
pub find_required : ℕ → Text → Option Replaced
unfolding word
find_required c cs =
    let name = word cs in
    if c == colon && not (is_empty_text name)
    then some (record { replacement = required_group; kept = name ∷ []; more = length name })
    else none

pub find_wildcard : ℕ → Text → Option Replaced
find_wildcard c cs =
    if c == star_sign
    then some (record { replacement = wildcard_group; kept = []; more = 0 })
    else none

-- The text between the anchors, and the names: those of optional parameters come first.
pub regex_pattern : Text → Text × List Text
unfolding replace_all find_special find_optional find_required find_wildcard
regex_pattern pattern =
    let (optional, names) = replace_all find_optional 0 (replace_all find_special 0 pattern).0 in
    let (required, more) = replace_all find_required 0 optional in
    ((replace_all find_wildcard 0 required).0, names ++ more)

pub data Atom : Type 0 where
  exactly : ℕ → Atom
  dot not_slash : Atom

pub data Quantifier : Type 0 where
  once many at_least_once optional : Quantifier

pub data Token : Type 0 where
  opens closes : Token
  matches : Atom → Quantifier → Token

-- The quantifier at the head of a text, and its length.
pub quantifier : Text → Quantifier × ℕ
quantifier [] = (once, 0)
quantifier (c ∷ cs) =
    if c == star_sign
    then (many, 1)
    else if c == plus_sign
    then (at_least_once, 1)
    else if c == question
    then (optional, 1)
    else (once, 0)

abbrev quantified : Atom → ℕ → Text → Option (Token × ℕ)
unfolding quantifier
quantified atom taken rest = let (q, n) = quantifier rest in some (matches atom q, taken + n)

abbrev is_plain : Quantifier × ℕ → Bool
is_plain (once, n) = true
is_plain _ = false

-- The token at the head of a regular expression, and how many characters it takes beyond the first.
-- `none` for one that RegExp refuses, and for quantified groups and lazy quantifiers, which only a
-- pattern with `?` behind a parameter, a `*` or another `?` gives.
pub read_token : ℕ → Text → Option (Token × ℕ)
unfolding quantifier
read_token c cs =
    if c == 40
    then some (opens, 0)
    else if c == 41
    then (if is_plain (quantifier cs) then some (closes, 0) else none)
    else if c == backslash
    then (elim cs [ [] ↦ none | e ∷ rest ↦ quantified (exactly e) 1 rest ])
    else if c == 46
    then quantified dot 0 cs
    else if c == 91
    then (if starts_with 94 cs && starts_with slash (drop 1 cs) && starts_with 93 (drop 2 cs)
        then quantified not_slash 3 (drop 3 cs)
        else none)
    else if elem c (star_sign ∷ plus_sign ∷ question ∷ [])
    then none
    else quantified (exactly c) 0 cs

abbrev with_token : Token → Option (List Token) → Option (List Token)
with_token t none = none
with_token t (some ts) = some (t ∷ ts)

pub parse_regex : ℕ → Text → Option (List Token)
unfolding read_token
parse_regex skip [] = some []
parse_regex (suc skip) (c ∷ cs) = parse_regex skip cs
parse_regex zero (c ∷ cs) = elim (read_token c cs) [
  | none ↦ none
  | some (t, n) ↦ with_token t (parse_regex n cs)
]

-- `new RegExp` throws, or the expression is outside what is modelled, where the tokens are missing.
pub compile_pattern : Text → Option (List Token) × List Text
unfolding regex_pattern parse_regex
compile_pattern pattern = let (text, names) = regex_pattern pattern in (parse_regex 0 text, names)

pub accepts : Atom → ℕ → Bool
accepts (exactly e) c = c == e
accepts dot c = not (elem c (10 ∷ 13 ∷ 8232 ∷ 8233 ∷ []))
accepts not_slash c = not (c == slash)

-- The groups that have been opened, the latest first: whether one is open still, and its text.
abbrev pub Groups : Type 0
Groups = List (Bool × Text)

abbrev pub take_char : ℕ → Groups → Groups
take_char c [] = []
take_char c ((still, text) ∷ gs) = (still, if still then text ++ c ∷ [] else text) ∷ take_char c gs

abbrev pub close_group : Groups → Groups
close_group [] = []
close_group ((still, text) ∷ gs) =
    if still then (false, text) ∷ gs else (still, text) ∷ close_group gs

abbrev pub group_texts : Groups → List Text → List Text
group_texts [] texts = texts
group_texts ((still, text) ∷ gs) texts = group_texts gs (text ∷ texts)

abbrev pub or_else {ℓ} : {A : Type ℓ} → Option A → Option A → Option A
or_else none b = b
or_else (some a) b = some a

-- As many characters as there are, and fewer if the rest then fails.
pub match_many : Atom → (Groups → Text → Option (List Text)) → Groups → Text → Option (List Text)
unfolding accepts
match_many atom rest gs [] = rest gs []
match_many atom rest gs (c ∷ cs) =
    let longer = match_many atom rest (take_char c gs) cs in
    if accepts atom c then or_else longer (rest gs (c ∷ cs)) else rest gs (c ∷ cs)

pub match_one : Atom → (Groups → Text → Option (List Text)) → Groups → Text → Option (List Text)
unfolding accepts
match_one atom rest gs [] = none
match_one atom rest gs (c ∷ cs) = if accepts atom c then rest (take_char c gs) cs else none

pub match_quantified :
    Atom → Quantifier → (Groups → Text → Option (List Text)) → Groups → Text → Option (List Text)
unfolding match_many match_one
match_quantified atom once rest gs path = match_one atom rest gs path
match_quantified atom many rest gs path = match_many atom rest gs path
match_quantified atom at_least_once rest gs path = match_one atom (match_many atom rest) gs path
match_quantified atom optional rest gs path = or_else (match_one atom rest gs path) (rest gs path)

-- The texts of the groups, if the whole path matches.
pub match_tokens : List Token → Groups → Text → Option (List Text)
unfolding match_quantified
match_tokens [] gs [] = some (group_texts gs [])
match_tokens [] gs (c ∷ cs) = none
match_tokens (opens ∷ ts) gs path = match_tokens ts ((true, []) ∷ gs) path
match_tokens (closes ∷ ts) gs path = match_tokens ts (close_group gs) path
match_tokens (matches atom q ∷ ts) gs path = match_quantified atom q (match_tokens ts) gs path
