-- ===== src/Router/Compiled.antt =====
-- The regular expression of a pattern without wildcards and optional parameters.
use clean_node_server.Common.{
  ℕ, zero, suc, ◌≡◌, refl, ap, Bool, true, false, not, ◌&&◌, List, [], ◌∷◌, ◌++◌, none, some, arith,
  length, drop, elem, nat_eq, ◌==◌, if◌then◌else◌, leb, Bool-cases, inl, inr,
}
use clean_node_server.Router.{
  with_token, Text, colon, star_sign, question, backslash, is_special, is_word, required_group,
  replace_all, find_special, word, starts_with, is_empty_text, find_optional, find_required,
  find_wildcard, regex_pattern, Token, opens, closes, matches, exactly, not_slash, once,
  at_least_once, quantifier, read_token, parse_regex, compile_pattern,
}

-- Whether a parameter begins with this character.
abbrev pub is_param : ℕ → Text → Bool
is_param c cs = c == colon && not (is_empty_text (word cs))

-- One scan of the pattern; the number is of characters still to skip.
unfoldable pub scan : ℕ → Text → List Token × List Text
scan skip [] = ([], [])
scan (suc skip) (c ∷ cs) = scan skip cs
scan zero (c ∷ cs) =
    let (ts, names) = scan (if is_param c cs then length (word cs) else 0) cs in
    if is_param c cs
    then (opens ∷ matches not_slash at_least_once ∷ closes ∷ ts, word cs ∷ names)
    else (matches (exactly c) once ∷ ts, names)

escape : Text → Text
escape [] = []
escape (c ∷ cs) = if is_special c then backslash ∷ c ∷ escape cs else c ∷ escape cs

regex_of : ℕ → Text → Text
regex_of skip [] = []
regex_of (suc skip) (c ∷ cs) = regex_of skip cs
regex_of zero (c ∷ cs) =
    let rest = regex_of (if is_param c cs then length (word cs) else 0) cs in
    if is_param c cs
    then required_group ++ rest
    else if is_special c
    then backslash ∷ c ∷ rest
    else c ∷ rest

replace_all-find_special : (cs : Text) → replace_all find_special 0 cs ≡ (escape cs, [])
unfolding replace_all find_special escape
replace_all-find_special [] = refl
replace_all-find_special (c ∷ cs) = ground (arith, replace_all-find_special cs)

elem-escape :
    (a : ℕ) (cs : Text) → a == backslash ≡ false → elem a cs ≡ false → elem a (escape cs) ≡ false
unfolding escape
elem-escape a [] k h = refl
elem-escape a (c ∷ cs) k h = ground (arith, elem-escape a cs k, h, k)

starts_with-drop : (a n : ℕ) (cs : Text) → elem a cs ≡ false → starts_with a (drop n cs) ≡ false
starts_with-drop a zero [] h = refl
starts_with-drop a zero (c ∷ cs) h = ground (arith, h)
starts_with-drop a (suc n) [] h = refl
starts_with-drop a (suc n) (c ∷ cs) h = starts_with-drop a n cs (ground (arith, h))

replace_all-find_optional :
    (cs : Text) → elem question cs ≡ false → replace_all find_optional 0 cs ≡ (cs, [])
unfolding replace_all find_optional
replace_all-find_optional [] h = refl
replace_all-find_optional (c ∷ cs) h =
    ground (arith, h, replace_all-find_optional cs, starts_with-drop question (length (word cs)) cs)

replace_all-find_wildcard :
    (cs : Text) → elem star_sign cs ≡ false → replace_all find_wildcard 0 cs ≡ (cs, [])
unfolding replace_all find_wildcard
replace_all-find_wildcard [] h = refl
replace_all-find_wildcard (c ∷ cs) h = ground (arith, h, replace_all-find_wildcard cs)

pub not-special-word : (c : ℕ) → is_word c ≡ true → is_special c ≡ false
unfolding is_word is_special
not-special-word c h = ground (arith, h)

special-not-word : (c : ℕ) → is_special c ≡ true → is_word c ≡ false
unfolding is_word is_special
special-not-word c h = ground (arith, h)

word-escape : (cs : Text) → word (escape cs) ≡ word cs
unfolding word escape is_word
word-escape [] = refl
word-escape (c ∷ cs) = elim (Bool-cases (is_special c)) [
  | inl h ↦ ground (arith, h, special-not-word c h)
  | inr h ↦ ground (arith, h, word-escape cs)
]

abbrev within_word : ℕ → Text → Bool
within_word k cs = leb k (length (word cs))

-- A character that is skipped is one of the name.
within_word-suc :
    (k c : ℕ) (cs : Text)
    → within_word (suc k) (c ∷ cs) ≡ true
    → (is_word c ≡ true) × (within_word k cs ≡ true)
unfolding word
within_word-suc k c cs h = ground (arith, h)

find_required-escape :
    (c : ℕ) (cs : Text)
    → find_required c (escape cs) ≡ (
        if is_param c cs
        then some
            (record { replacement = required_group; kept = word cs ∷ []; more = length (word cs) })
        else none)
unfolding find_required
find_required-escape c cs =
    ap
      (λ name.
        if c == colon && not (is_empty_text name)
        then some (record { replacement = required_group; kept = name ∷ []; more = length name })
        else none)
      (word-escape cs)

special-not-colon : (c : ℕ) → is_special c ≡ true → c == colon ≡ false
unfolding is_special
special-not-colon c h = ground (arith, h)

find_required-other : (c : ℕ) (cs : Text) → c == colon ≡ false → find_required c cs ≡ none
unfolding find_required
find_required-other c cs h = rw (h)

replace_all-find_required :
    (k : ℕ) (cs : Text)
    → within_word k cs ≡ true
    → replace_all find_required k (escape cs) ≡ (regex_of k cs, (scan k cs).1)
unfolding replace_all escape regex_of scan
replace_all-find_required zero [] h = refl
replace_all-find_required (suc k) [] h = refl
replace_all-find_required (suc k) (c ∷ cs) h =
    let (w, v) = within_word-suc k c cs h in
    ground (arith, not-special-word c w, replace_all-find_required k cs v)
replace_all-find_required zero (c ∷ cs) h = elim (Bool-cases (is_special c)) [
  | inl s ↦ ground (
    arith,
    s,
    find_required-other backslash (c ∷ escape cs) refl,
    find_required-other c (escape cs) (special-not-colon c s),
    special-not-colon c s,
    replace_all-find_required zero cs (ground arith),
  )
  | inr s ↦ elim (Bool-cases (is_param c cs)) [
    | inl p ↦ ground (
      arith,
      s,
      p,
      find_required-escape c cs,
      replace_all-find_required (length (word cs)) cs (ground arith),
    )
    | inr p ↦
        ground
          (arith, s, p, find_required-escape c cs, replace_all-find_required zero cs (ground arith))
  ]
]

elem-regex_of :
    (k : ℕ) (cs : Text) → elem star_sign cs ≡ false → elem star_sign (regex_of k cs) ≡ false
unfolding regex_of
elem-regex_of zero [] h = refl
elem-regex_of (suc k) [] h = refl
elem-regex_of (suc k) (c ∷ cs) h = elem-regex_of k cs (ground (arith, h))
elem-regex_of zero (c ∷ cs) h =
    ground (arith, h, elem-regex_of (if is_param c cs then length (word cs) else 0) cs)

-- No quantifier follows.
quantifier-regex_of :
    (k : ℕ) (cs : Text)
    → elem star_sign cs ≡ false
    → elem question cs ≡ false
    → quantifier (regex_of k cs) ≡ (once, 0)
unfolding regex_of quantifier is_special
quantifier-regex_of zero [] h q = refl
quantifier-regex_of (suc k) [] h q = refl
quantifier-regex_of (suc k) (c ∷ cs) h q =
    quantifier-regex_of k cs (ground (arith, h)) (ground (arith, q))
quantifier-regex_of zero (c ∷ cs) h q = ground (arith, h, q)

read_token-literal :
    (c : ℕ) (cs : Text)
    → is_special c ≡ false
    → c == star_sign ≡ false
    → c == question ≡ false
    → quantifier cs ≡ (once, 0)
    → read_token c cs ≡ some (matches (exactly c) once, 0)
unfolding read_token is_special
read_token-literal c cs s h q e = ground (arith, s, h, q, e)

parse_regex-token :
    (c n : ℕ) (cs : Text) (t : Token) (ts : List Token)
    → read_token c cs ≡ some (t, n)
    → parse_regex n cs ≡ some ts
    → parse_regex 0 (c ∷ cs) ≡ some (t ∷ ts)
unfolding parse_regex
parse_regex-token c n cs t ts e f = ground (arith, e, f)

read_token-closes :
    (rest : Text) → quantifier rest ≡ (once, 0) → read_token 41 rest ≡ some (closes, 0)
unfolding read_token
read_token-closes rest e = ground (arith, e)

parse_regex-regex_of :
    (k : ℕ) (cs : Text)
    → elem star_sign cs ≡ false
    → elem question cs ≡ false
    → parse_regex 0 (regex_of k cs) ≡ some (scan k cs).0
unfolding regex_of scan parse_regex
parse_regex-regex_of zero [] h q = refl
parse_regex-regex_of (suc k) [] h q = refl
parse_regex-regex_of (suc k) (c ∷ cs) h q =
    parse_regex-regex_of k cs (ground (arith, h)) (ground (arith, q))
parse_regex-regex_of zero (c ∷ cs) h q = elim (Bool-cases (is_param c cs)) [
  | inl p ↦ rw (p) (
      ap (with_token opens) (
        ap (with_token (matches not_slash at_least_once)) (
          parse_regex-token 41 0 (regex_of (length (word cs)) cs) closes
            (scan (length (word cs)) cs).0
            (read_token-closes (regex_of (length (word cs)) cs)
              (quantifier-regex_of (length (word cs)) cs hs qs))
            (parse_regex-regex_of (length (word cs)) cs hs qs))))
  | inr p ↦ elim (Bool-cases (is_special c)) [
    | inl s ↦ rw (p, s, quantifier-regex_of 0 cs hs qs, parse_regex-regex_of 0 cs hs qs)
    | inr s ↦
        rw (p, s)
          (parse_regex-token c 0 (regex_of 0 cs) (matches (exactly c) once) (scan 0 cs).0
            (read_token-literal c (regex_of 0 cs) s (ground (arith, h)) (ground (arith, q))
              (quantifier-regex_of 0 cs hs qs))
            (parse_regex-regex_of 0 cs hs qs))
  ]
]
  where
    hs : elem star_sign cs ≡ false
    hs = ground (arith, h)

    qs : elem question cs ≡ false
    qs = ground (arith, q)

-- C
pub compile_pattern-scan :
    (pattern : Text)
    → elem star_sign pattern ≡ false
    → elem question pattern ≡ false
    → compile_pattern pattern ≡ (some (scan 0 pattern).0, (scan 0 pattern).1)
unfolding compile_pattern regex_pattern
compile_pattern-scan pattern h q = rw (
  replace_all-find_special pattern,
  replace_all-find_optional (escape pattern) (elem-escape question pattern refl q),
  replace_all-find_required 0 pattern (ground arith),
  replace_all-find_wildcard (regex_of 0 pattern) (elem-regex_of 0 pattern h),
  parse_regex-regex_of 0 pattern h q,
)
