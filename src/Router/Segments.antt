-- ===== src/Router/Segments.antt =====
-- What the regular expression of a pattern matches: a path, segment by segment.
use clean_node_server.Common.{
  append-cons, append-nil, ℕ, ◌≡◌, refl, sym, ap, ap₂, ◌∙◌, Bool, true, false, ◌&&◌, List, [], ◌∷◌,
  ◌++◌, Option, none, some, arith, elem, All, nat_eq, ◌==◌, if◌then◌else◌, Bool-cases, inl, inr,
}
use clean_node_server.Router.{
  Text, Groups, slash, Token, opens, closes, matches, exactly, not_slash, once, at_least_once,
  match_tokens, match_quantified, match_one, match_many, accepts, take_char, group_texts, or_else,
}

pub data Segment : Type 0 where
  static param : Text → Segment

-- A path is split at its slashes: the first segment, and what follows its slash.
pub first : Text → Text
first [] = []
first (c ∷ cs) = if c == slash then [] else c ∷ first cs

pub after : Text → Option Text
after [] = none
after (c ∷ cs) = if c == slash then some cs else after cs

abbrev pub same_text : Text → Text → Bool
same_text [] [] = true
same_text [] (d ∷ ds) = false
same_text (c ∷ cs) [] = false
same_text (c ∷ cs) (d ∷ ds) = c == d && same_text cs ds

abbrev pub with_value : Text → Option (List Text) → Option (List Text)
with_value v none = none
with_value v (some vs) = some (v ∷ vs)

abbrev pub segment_value : Segment → Text → Option (List Text) → Option (List Text)
segment_value (static t) seg rest = if same_text seg t then rest else none
segment_value (param name) [] rest = none
segment_value (param name) (c ∷ cs) rest = with_value (c ∷ cs) rest

-- The values of the parameters, if the segments of a path are those of the pattern, one by one.
pub segment_values : List Segment → Option Text → Option (List Text)
unfolding first after
segment_values [] none = some []
segment_values [] (some cs) = none
segment_values (s ∷ ss) none = none
segment_values (s ∷ ss) (some cs) = segment_value s (first cs) (segment_values ss (after cs))

abbrev pub literal_tokens : Text → List Token → List Token
literal_tokens [] ts = ts
literal_tokens (c ∷ cs) ts = matches (exactly c) once ∷ literal_tokens cs ts

abbrev segment_tokens : Segment → List Token → List Token
segment_tokens (static t) ts = literal_tokens t ts
segment_tokens (param name) ts = opens ∷ matches not_slash at_least_once ∷ closes ∷ ts

unfoldable pub tokens_of : List Segment → List Token
tokens_of [] = []
tokens_of (s ∷ ss) = matches (exactly slash) once ∷ segment_tokens s (tokens_of ss)

abbrev pub IsSegment : Segment → Type 0
IsSegment (static t) = elem slash t ≡ false
IsSegment (param name) = Unit

abbrev IsClosed : Groups → Type 0
IsClosed gs = (c : ℕ) → take_char c gs ≡ gs

abbrev finish : Groups → Option (List Text) → Option (List Text)
finish gs none = none
finish gs (some vs) = some (group_texts gs vs)

-- What is left of the path at the end of a segment.
rest_values : List Segment → Text → Option (List Text)
rest_values ss [] = segment_values ss none
rest_values ss (c ∷ cs) = if c == slash then segment_values ss (some cs) else none

left_over : Text → Text
left_over [] = []
left_over (c ∷ cs) = if c == slash then c ∷ cs else left_over cs

rest_values-left_over :
    (ss : List Segment) (cs : Text) → rest_values ss (left_over cs) ≡ segment_values ss (after cs)
unfolding rest_values left_over after
rest_values-left_over ss [] = refl
rest_values-left_over ss (c ∷ cs) = ground (arith, rest_values-left_over ss cs)

-- The tokens of the later segments match what `rest_values` says.
abbrev IsRight : List Segment → Type 0
IsRight ss =
    (gs : Groups) (path : Text)
    → IsClosed gs
    → match_tokens (tokens_of ss) gs path ≡ finish gs (rest_values ss path)

literal-IsRight :
    (ss : List Segment) (t : Text) (gs : Groups) (cs : Text)
    → IsRight ss
    → elem slash t ≡ false
    → IsClosed gs
    → match_tokens (literal_tokens t (tokens_of ss)) gs cs
      ≡ finish gs (if same_text (first cs) t then segment_values ss (after cs) else none)
unfolding match_tokens match_quantified match_one accepts first after rest_values
literal-IsRight ss [] gs [] right h closed = right gs [] closed
literal-IsRight ss [] gs (c ∷ cs) right h closed = right gs (c ∷ cs) closed ∙ ground arith
literal-IsRight ss (a ∷ t) gs [] right h closed = refl
literal-IsRight ss (a ∷ t) gs (c ∷ cs) right h closed =
    ground (arith, h, closed c, literal-IsRight ss t gs cs right (ground (arith, h)) closed)

or_else-none : {A : Type 0} (o : Option A) → or_else o none ≡ o
or_else-none none = refl
or_else-none (some a) = refl

IsClosed-shut : (w : Text) (gs : Groups) → IsClosed gs → IsClosed ((false, w) ∷ gs)
IsClosed-shut w gs closed c = ap (◌∷◌ (false, w)) (closed c)

rest_values-other :
    (ss : List Segment) (c : ℕ) (cs : Text) → (c == slash) ≡ false → rest_values ss (c ∷ cs) ≡ none
unfolding rest_values
rest_values-other ss c cs e = rw (e)

finish-value :
    (v : Text) (gs : Groups) (o : Option (List Text))
    → finish ((false, v) ∷ gs) o ≡ finish gs (with_value v o)
finish-value v gs none = refl
finish-value v gs (some vs) = refl

-- A parameter takes all up to the next slash.
match_many-param :
    (ss : List Segment) (w : Text) (gs : Groups) (cs : Text)
    → IsRight ss
    → IsClosed gs
    → match_many not_slash (match_tokens (closes ∷ tokens_of ss)) ((true, w) ∷ gs) cs
      ≡ finish ((false, w ++ first cs) ∷ gs) (rest_values ss (left_over cs))
unfolding match_many match_tokens accepts first left_over
match_many-param ss w gs [] right closed =
    right ((false, w) ∷ gs) [] (λ c. ap (◌∷◌ (false, w)) (closed c))
    ∙ ap (λ v. finish ((false, v) ∷ gs) (rest_values ss [])) (sym (append-nil w))
match_many-param ss w gs (c ∷ cs) right closed = elim (Bool-cases (c == slash)) [
  | inl e ↦ rw (e) (
      right ((false, w) ∷ gs) (c ∷ cs) (IsClosed-shut w gs closed)
      ∙ ap (λ v. finish ((false, v) ∷ gs) (rest_values ss (c ∷ cs))) (sym (append-nil w)))
  | inr e ↦ rw (e) (
      ap₂ or_else
        (ap
            (λ g.
              match_many not_slash (match_tokens (closes ∷ tokens_of ss)) ((true, w ++ c ∷ []) ∷ g)
                cs)
            (closed c)
          ∙ match_many-param ss (w ++ c ∷ []) gs cs right closed
          ∙ ap (λ v. finish ((false, v) ∷ gs) (rest_values ss (left_over cs)))
              (append-cons w c (first cs)))
        (right ((false, w) ∷ gs) (c ∷ cs) (IsClosed-shut w gs closed)
          ∙ ap (finish ((false, w) ∷ gs)) (rest_values-other ss c cs e))
      ∙ or_else-none (finish ((false, w ++ c ∷ first cs) ∷ gs) (rest_values ss (left_over cs))))
]

param-IsRight :
    (ss : List Segment) (name : Text) (gs : Groups) (cs : Text)
    → IsRight ss
    → IsClosed gs
    → match_tokens (segment_tokens (param name) (tokens_of ss)) gs cs
      ≡ finish gs (segment_value (param name) (first cs) (segment_values ss (after cs)))
unfolding match_tokens match_quantified match_one accepts first after
param-IsRight ss name gs [] right closed = refl
param-IsRight ss name gs (c ∷ cs) right closed = elim (Bool-cases (c == slash)) [
  | inl e ↦ rw (e)
  | inr e ↦ rw (e) (
      ap (λ g. match_many not_slash (match_tokens (closes ∷ tokens_of ss)) ((true, c ∷ []) ∷ g) cs)
        (closed c)
      ∙ match_many-param ss (c ∷ []) gs cs right closed
      ∙ ap (finish ((false, c ∷ first cs) ∷ gs)) (rest_values-left_over ss cs)
      ∙ finish-value (c ∷ first cs) gs (segment_values ss (after cs)))
]

segment-IsRight :
    (s : Segment) (ss : List Segment) (gs : Groups) (cs : Text)
    → IsRight ss
    → IsSegment s
    → IsClosed gs
    → match_tokens (segment_tokens s (tokens_of ss)) gs cs
      ≡ finish gs (segment_values (s ∷ ss) (some cs))
unfolding segment_values
segment-IsRight (static t) ss gs cs right h closed = literal-IsRight ss t gs cs right h closed
segment-IsRight (param name) ss gs cs right h closed = param-IsRight ss name gs cs right closed

tokens_of-IsRight : (ss : List Segment) → All IsSegment ss → IsRight ss
unfolding tokens_of match_tokens match_quantified match_one accepts rest_values segment_values
tokens_of-IsRight [] h gs [] closed = refl
tokens_of-IsRight [] h gs (c ∷ cs) closed = ground arith
tokens_of-IsRight (s ∷ ss) h gs [] closed = refl
tokens_of-IsRight (s ∷ ss) h gs (c ∷ cs) closed = elim (Bool-cases (c == slash)) [
  | inl e ↦ rw (e) (
      ap (λ g. match_tokens (segment_tokens s (tokens_of ss)) g cs) (closed c)
      ∙ segment-IsRight s ss gs cs (tokens_of-IsRight ss h.1) h.0 closed)
  | inr e ↦ rw (e)
]

finish-empty : (o : Option (List Text)) → finish [] o ≡ o
finish-empty none = refl
finish-empty (some vs) = refl

pub match_tokens-segments :
    (s : Segment) (ss : List Segment) (cs : Text)
    → All IsSegment (s ∷ ss)
    → match_tokens (tokens_of (s ∷ ss)) [] (slash ∷ cs) ≡ segment_values (s ∷ ss) (some cs)
unfolding rest_values
match_tokens-segments s ss cs h =
    tokens_of-IsRight (s ∷ ss) h [] (slash ∷ cs) (λ c. refl)
    ∙ finish-empty (segment_values (s ∷ ss) (some cs))
