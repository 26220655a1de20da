-- ===== src/Router/Patterns.antt =====
-- Patterns made of segments: what their regular expressions match.
use clean_node_server.Common.{
  All-mono, ℕ, ◌≡◌, refl, ap, ◌∙◌, Bool, true, false, List, [], ◌∷◌, ◌++◌, Option, none, some,
  arith, length, elem, elem-append, All, nat_eq,
}
use clean_node_server.Router.{
  Text, Token, slash, colon, star_sign, question, is_word, word, is_empty_text, match_tokens,
  compile_pattern,
}
use clean_node_server.Router.Compiled.{scan, compile_pattern-scan}
use clean_node_server.Router.Segments.{
  Segment, static, param, literal_tokens, tokens_of, segment_values, IsSegment,
  match_tokens-segments,
}

pub pattern_of : List Segment → Text
pattern_of [] = []
pattern_of (static t ∷ ss) = slash ∷ t ++ pattern_of ss
pattern_of (param name ∷ ss) = slash ∷ colon ∷ name ++ pattern_of ss

pub names_of : List Segment → List Text
names_of [] = []
names_of (static t ∷ ss) = names_of ss
names_of (param name ∷ ss) = name ∷ names_of ss

-- A static segment without signs of its own, or a parameter whose name is a word.
abbrev pub IsPlain : Segment → Type 0
IsPlain (static t) =
    (elem slash t ≡ false)
    × (elem colon t ≡ false)
    × (elem star_sign t ≡ false)
    × (elem question t ≡ false)
IsPlain (param name) = (is_empty_text name ≡ false) × (word name ≡ name)

abbrev pub head_word : Text → Bool
head_word [] = false
head_word (c ∷ cs) = is_word c

word-other : (cs : Text) → head_word cs ≡ false → word cs ≡ []
unfolding word
word-other [] h = refl
word-other (c ∷ cs) h = rw (h)

head_word-pattern_of : (ss : List Segment) → head_word (pattern_of ss) ≡ false
unfolding pattern_of is_word
head_word-pattern_of [] = refl
head_word-pattern_of (static t ∷ ss) = refl
head_word-pattern_of (param name ∷ ss) = refl

pub word-cons : (c : ℕ) (cs : Text) → word (c ∷ cs) ≡ c ∷ cs → (is_word c ≡ true) × (word cs ≡ cs)
unfolding word
word-cons c cs h = ground (arith, h)

pub word-append :
    (name rest : Text) → word name ≡ name → head_word rest ≡ false → word (name ++ rest) ≡ name
unfolding word
word-append [] rest h k = word-other rest k
word-append (c ∷ cs) rest h k =
    let (w, e) = word-cons c cs h in ground (arith, w, word-append cs rest e k)

elem-word : (a : ℕ) (name : Text) → is_word a ≡ false → word name ≡ name → elem a name ≡ false
elem-word a [] h k = refl
elem-word a (c ∷ cs) h k = let (w, e) = word-cons c cs k in ground (arith, w, h, elem-word a cs h e)

scan-skip : (name rest : Text) → scan (length name) (name ++ rest) ≡ scan 0 rest
unfolding scan
scan-skip [] rest = refl
scan-skip (c ∷ cs) rest = scan-skip cs rest

scan-literal :
    (t rest : Text)
    → elem colon t ≡ false
    → scan 0 (t ++ rest) ≡ (literal_tokens t (scan 0 rest).0, (scan 0 rest).1)
unfolding scan
scan-literal [] rest h = refl
scan-literal (c ∷ cs) rest h = ground (arith, h, scan-literal cs rest)

scan-pattern_of :
    (ss : List Segment) → All IsPlain ss → scan 0 (pattern_of ss) ≡ (tokens_of ss, names_of ss)
unfolding pattern_of tokens_of names_of scan
scan-pattern_of [] h = refl
scan-pattern_of (static t ∷ ss) h =
    ground (arith, scan-literal t (pattern_of ss) h.0.1, scan-pattern_of ss h.1)
scan-pattern_of (param name ∷ ss) h = rw (
  word-append name (pattern_of ss) h.0.1 (head_word-pattern_of ss),
  h.0.0,
  scan-skip name (pattern_of ss),
  scan-pattern_of ss h.1,
)

elem-star-pattern_of : (ss : List Segment) → All IsPlain ss → elem star_sign (pattern_of ss) ≡ false
unfolding pattern_of is_word
elem-star-pattern_of [] h = refl
elem-star-pattern_of (static t ∷ ss) h =
    ground (arith, elem-append star_sign t (pattern_of ss), h.0.2, elem-star-pattern_of ss h.1)
elem-star-pattern_of (param name ∷ ss) h = ground (
  arith,
  elem-append star_sign name (pattern_of ss),
  elem-word star_sign name refl h.0.1,
  elem-star-pattern_of ss h.1,
)

elem-question-pattern_of :
    (ss : List Segment) → All IsPlain ss → elem question (pattern_of ss) ≡ false
unfolding pattern_of is_word
elem-question-pattern_of [] h = refl
elem-question-pattern_of (static t ∷ ss) h =
    ground (arith, elem-append question t (pattern_of ss), h.0.3, elem-question-pattern_of ss h.1)
elem-question-pattern_of (param name ∷ ss) h = ground (
  arith,
  elem-append question name (pattern_of ss),
  elem-word question name refl h.0.1,
  elem-question-pattern_of ss h.1,
)

IsPlain-IsSegment : (s : Segment) → IsPlain s → IsSegment s
IsPlain-IsSegment (static t) h = h.0
IsPlain-IsSegment (param name) h = tt

-- What a compiled pattern finds in a path.
abbrev pub found_by : Option (List Token) → Text → Option (List Text)
found_by none path = none
found_by (some ts) path = match_tokens ts [] path

-- For a pattern made of static segments without `/`, `:`, `*` and `?` and of parameters named by words,
-- whatever other signs it has, the names come in their order, and its regular expression matches a path
-- exactly if the segments between the slashes are the static ones and, for each parameter, one that is
-- not empty: the groups are then the segments of the parameters.
pub compile_pattern-segments :
    (s : Segment) (ss : List Segment) (cs : Text)
    → All IsPlain (s ∷ ss)
    → ((compile_pattern (pattern_of (s ∷ ss))).1 ≡ names_of (s ∷ ss))
      × (found_by (compile_pattern (pattern_of (s ∷ ss))).0 (slash ∷ cs)
          ≡ segment_values (s ∷ ss) (some cs))
compile_pattern-segments s ss cs h = (
  ap (λ p. p.1) compiled,
  ap (λ p. found_by p.0 (slash ∷ cs)) compiled
      ∙ match_tokens-segments s ss cs (All-mono IsPlain IsSegment (s ∷ ss) IsPlain-IsSegment h),
)
  where
    compiled :
        compile_pattern (pattern_of (s ∷ ss)) ≡ (some (tokens_of (s ∷ ss)), names_of (s ∷ ss))
    compiled =
        compile_pattern-scan (pattern_of (s ∷ ss)) (elem-star-pattern_of (s ∷ ss) h)
          (elem-question-pattern_of (s ∷ ss) h)
        ∙ ap (λ p. (some p.0, p.1)) (scan-pattern_of (s ∷ ss) h)
