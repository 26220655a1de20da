-- ===== src/Schedule/Ticks.antt =====
-- What a cron field means, and that the next tick is the first minute that matches.
use clean_node_server.Common.{
  ◌%◌, ◌/◌, elem-append, ℕ, zero, suc, ◌+◌, ◌-◌, ◌*◌, ◌<◌, ◌≤◌, ◌≡◌, refl, sym, ap, subst, ◌∙◌,
  Bool, true, false, ◌&&◌, ◌||◌, inl, inr, List, [], ◌∷◌, ◌++◌, Option, none, some, arith, nat_eq,
  string_eq, ◌==◌, ltb, leb, elem, Bool-cases, Option-cases,
}
use clean_node_server.Schedule.{
  CronField, CronFields, FieldPart, FieldText, parts, blank, range, single, values_from, prepend,
  part_values, parse_field, parse_cron_fields, field_matches, LocalTime, fields_match,
  minutes_of_a_year, scan, tick_within, next_cron_tick_ms,
}

-- The values that the parts of a field name.
abbrev pub names : ℕ → List FieldPart → Bool
names v [] = false
names v (blank ∷ ps) = names v ps
names v (range (some a) (some b) ∷ ps) = (leb a v && leb v b) || names v ps
names v (range none b ∷ ps) = names v ps
names v (range (some a) none ∷ ps) = names v ps
names v (single (some n) ∷ ps) = n == v || names v ps
names v (single none ∷ ps) = names v ps

elem-values_from : (a n v : ℕ) → elem v (values_from a n) ≡ (leb a v && ltb v (a + n))
unfolding values_from
elem-values_from a zero v = ground arith
elem-values_from a (suc n) v = ground (arith, elem-values_from (suc a) n v)

prepend-some :
    (vs ws : List ℕ) (o : Option (List ℕ))
    → prepend vs o ≡ some ws
    → (rest : List ℕ) × (o ≡ some rest) × (ws ≡ vs ++ rest)
prepend-some vs ws none e = absurd (cc)
prepend-some vs ws (some rest) e = (rest, refl, let q : vs ++ rest ≡ ws = cc in sym q)

elem-part_values :
    (v : ℕ) (ps : List FieldPart) (vs : List ℕ) → part_values ps ≡ some vs → elem v vs ≡ names v ps
unfolding part_values
elem-part_values v [] vs e = let q : [] ≡ vs = cc in ground (arith, sym q)
elem-part_values v (blank ∷ ps) vs e = absurd (cc)
elem-part_values v (range none b ∷ ps) vs e = absurd (cc)
elem-part_values v (range (some a) none ∷ ps) vs e = absurd (cc)
elem-part_values v (single none ∷ ps) vs e = absurd (cc)
elem-part_values v (single (some n) ∷ ps) vs e =
    let (rest, f, g) = prepend-some (n ∷ []) vs (part_values ps) e in
    ap (elem v) g ∙ ap (λ b. n == v || b) (elem-part_values v ps rest f)
elem-part_values v (range (some a) (some b) ∷ ps) vs e = elim (Bool-cases (ltb b a)) [
  | inl less ↦ absurd (ground (arith, less, e))
  | inr more ↦
      let (rest, f, g) =
        prepend-some (values_from a (suc (b - a))) vs (part_values ps) (ground (arith, more, e)) in
      ap (elem v) g
      ∙ elem-append v (values_from a (suc (b - a))) rest
      ∙ ground (arith, more, elem-values_from a (suc (b - a)) v, elem-part_values v ps rest f)
]

-- A list field that parses matches exactly the numbers that it names, alone or within a range.
pub field_matches-parse_field :
    (ps : List FieldPart) (f : CronField) (v : ℕ)
    → parse_field (parts ps) ≡ some f
    → field_matches f v ≡ names v ps
unfolding parse_field field_matches
field_matches-parse_field ps f v e = elim (Option-cases (part_values ps)) [
  | inl g ↦ absurd (ground (arith, g, e))
  | inr ([], g) ↦ absurd (ground (arith, g, e))
  | inr (w ∷ ws, g) ↦ ground (arith, g, e, elem-part_values v ps (w ∷ ws) g)
]

module _ (clock : LocalTime) where
  scan-some :
      (f : CronFields) (n c t : ℕ)
      → scan clock f n c ≡ some t
      → (fields_match f (clock.read t) ≡ true) × (c ≤ t) × ((t - c) % 60000 ≡ 0)
  unfolding scan
  scan-some f zero c t e = absurd (cc)
  scan-some f (suc n) c t e = elim (Bool-cases (fields_match f (clock.read c))) [
    | inl fits ↦
        let q : c ≡ t = ground (arith, fits, e) in
        subst (λ u. (fields_match f (clock.read u) ≡ true) × (c ≤ u) × ((u - c) % 60000 ≡ 0)) q
          (fits, omega arith, omega arith)
    | inr fails ↦
        let (m, l, d) = scan-some f n (c + 60000) t (ground (arith, fails, e)) in
        (m, omega arith, omega arith)
  ]

  -- A loop that starts a minute later finds the minute, unless it was the first.
  scan-later :
      (f : CronFields) (n c i : ℕ)
      → ((k : ℕ)
          → k < n
          → fields_match f (clock.read (c + 60000 + k * 60000)) ≡ true
          → (t : ℕ) × (scan clock f n (c + 60000) ≡ some t) × (t ≤ c + 60000 + k * 60000))
      → i < suc n
      → fields_match f (clock.read (c + i * 60000)) ≡ true
      → fields_match f (clock.read c) ≡ false
      → (t : ℕ) × (scan clock f (suc n) c ≡ some t) × (t ≤ c + i * 60000)
  unfolding scan
  scan-later f n c zero found h m fails =
      let q : c + 0 * 60000 ≡ c = omega arith in
      let both : true ≡ false =
        sym (subst (λ u. fields_match f (clock.read u) ≡ true) q m) ∙ fails in
      absurd (cc)
  scan-later f n c (suc i) found h m fails =
      let q : c + suc i * 60000 ≡ c + 60000 + i * 60000 = omega arith in
      let (t, g, l) =
        found i (omega arith) (subst (λ u. fields_match f (clock.read u) ≡ true) q m) in
      (t, rw fails g, omega arith)

  scan-finds :
      (f : CronFields) (n c j : ℕ)
      → j < n
      → fields_match f (clock.read (c + j * 60000)) ≡ true
      → (t : ℕ) × (scan clock f n c ≡ some t) × (t ≤ c + j * 60000)
  unfolding scan
  scan-finds f zero c j h m = absurd (omega arith)
  scan-finds f (suc n) c j h m = elim (Bool-cases (fields_match f (clock.read c))) [
    | inl fits ↦ (c, rw fits refl, omega arith)
    | inr fails ↦ scan-later f n c j (λ k. scan-finds f n (c + 60000) k) h m fails
  ]

  -- What the loop finds is what is returned, counted from now.
  next-some :
      (limit : ℕ) (expr : List FieldText) (f : CronFields) (now t : ℕ)
      → parse_cron_fields expr ≡ some f
      → scan clock f limit (clock.set_seconds now + 60000) ≡ some t
      → tick_within clock limit expr now ≡ some (t - now)
  unfolding tick_within
  next-some limit expr f now t p g = rw (p, tick_within) (rw g refl)

  next-none :
      (limit : ℕ) (expr : List FieldText) (f : CronFields) (now : ℕ)
      → parse_cron_fields expr ≡ some f
      → scan clock f limit (clock.set_seconds now + 60000) ≡ none
      → tick_within clock limit expr now ≡ none
  unfolding tick_within
  next-none limit expr f now p g = rw (p, tick_within) (rw g refl)

  -- Where the clock sets the seconds back within the current minute, as it does but in an hour that it
  -- repeats, the next tick lies ahead, on a whole minute at which the expression matches the wall clock.
  pub next_cron_tick_ms-matches :
      (expr : List FieldText) (f : CronFields) (now delay : ℕ)
      → clock.set_seconds now ≡ now / 60000 * 60000
      → parse_cron_fields expr ≡ some f
      → next_cron_tick_ms clock expr now ≡ some delay
      → (0 < delay)
        × ((now + delay) % 60000 ≡ 0)
        × (fields_match f (clock.read (now + delay)) ≡ true)
  unfolding next_cron_tick_ms
  next_cron_tick_ms-matches expr f now delay b p e =
      elim (Option-cases (scan clock f minutes_of_a_year (clock.set_seconds now + 60000))) [
        | inl none_found ↦
            absurd (let z = next-none minutes_of_a_year expr f now p none_found in cc)
        | inr (t, g) ↦
            let (m, l, d) = scan-some f minutes_of_a_year (clock.set_seconds now + 60000) t g in
            let z = next-some minutes_of_a_year expr f now t p g in
            let q : t - now ≡ delay = cc in
            let r : t ≡ now + delay = omega arith in
            (omega arith, omega arith, subst (λ u. fields_match f (clock.read u) ≡ true) r m)
      ]

  pub next_cron_tick_ms-first :
      (expr : List FieldText) (f : CronFields) (now j : ℕ)
      → parse_cron_fields expr ≡ some f
      → j < minutes_of_a_year
      → fields_match f (clock.read (clock.set_seconds now + 60000 + j * 60000)) ≡ true
      → (delay : ℕ) × (next_cron_tick_ms clock expr now ≡ some delay)
        × (delay ≤ (clock.set_seconds now + 60000 + j * 60000) - now)
  unfolding next_cron_tick_ms
  next_cron_tick_ms-first expr f now j p h m =
      let (t, g, l) = scan-finds f minutes_of_a_year (clock.set_seconds now + 60000) j h m in
      (t - now, next-some minutes_of_a_year expr f now t p g, omega arith)
