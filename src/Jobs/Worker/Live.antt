-- ===== src/Jobs/Worker/Live.antt =====
-- The live part of a cache that keeps every record.
use clean_node_server.Common.{
  All, ℕ, zero, suc, ◌≡◌, refl, ◌∙◌, String, true, false, inl, inr, List, [], ◌∷◌, Option, none,
  some, arith, nat_eq, string_eq, if◌then◌else◌, Bool-cases,
}
use clean_node_server.Common.Assoc
use clean_node_server.Jobs.{JobRecord, JobConfig, is_live, reconfigure, configured}
use clean_node_server.Jobs.Worker.{poll_up_to, is_due}

abbrev pub Records : Type 0
Records = List (String × JobRecord)

abbrev pub IsLiveEntry : String × JobRecord → Type 0
IsLiveEntry entry = is_live entry.1.status ≡ true

pub filter_live : Records → Records
filter_live [] = []
filter_live ((id, r) ∷ m) = if is_live r.status then (id, r) ∷ filter_live m else filter_live m

abbrev pub keep_live : Option JobRecord → Option JobRecord
keep_live none = none
keep_live (some r) = if is_live r.status then some r else none

pub filter_live-All : (m : Records) → All IsLiveEntry (filter_live m)
unfolding filter_live
filter_live-All [] = tt
filter_live-All ((id, r) ∷ m) = elim (Bool-cases (is_live r.status)) [
  | inl e ↦ rw (e) (e, filter_live-All m)
  | inr e ↦ rw (e) (filter_live-All m)
]

pub filter_live-empty : filter_live [] ≡ []
unfolding filter_live
filter_live-empty = refl

has-filter_live :
    (id : String) (m : Records) → Assoc.has id m ≡ false → Assoc.has id (filter_live m) ≡ false
unfolding filter_live
has-filter_live id [] h = refl
has-filter_live id ((j, r) ∷ m) h = ground (arith, has-filter_live id m)

pub get-filter_live :
    (id : String) (m : Records)
    → Assoc.IsMap m
    → Assoc.get id (filter_live m) ≡ keep_live (Assoc.get id m)
unfolding filter_live
get-filter_live id [] d = refl
get-filter_live id ((j, r) ∷ m) d = ground (
  arith,
  get-filter_live id m d.1,
  has-filter_live j m d.0,
  Assoc.get-eq-none j (filter_live m),
  string_eq.beq_iff j id,
)

pub filter_live-set_live :
    (id : String) (r old : JobRecord) (m : Records)
    → Assoc.get id m ≡ some old
    → is_live old.status ≡ true
    → is_live r.status ≡ true
    → filter_live (Assoc.set id r m) ≡ Assoc.set id r (filter_live m)
unfolding filter_live
filter_live-set_live id r old [] e h k = absurd (cc)
filter_live-set_live id r old ((j, w) ∷ m) e h k = ground (arith, filter_live-set_live id r old m)

delete-missing : (id : String) (m : Records) → Assoc.has id m ≡ false → Assoc.delete id m ≡ m
delete-missing id [] h = refl
delete-missing id ((j, r) ∷ m) h = ground (arith, delete-missing id m)

pub filter_live-set_over :
    (id : String) (r old : JobRecord) (m : Records)
    → Assoc.IsMap m
    → Assoc.get id m ≡ some old
    → is_live old.status ≡ true
    → is_live r.status ≡ false
    → filter_live (Assoc.set id r m) ≡ Assoc.delete id (Assoc.set id r (filter_live m))
unfolding filter_live
filter_live-set_over id r old [] d e h k = absurd (cc)
filter_live-set_over id r old ((j, w) ∷ m) d e h k = ground (
  arith,
  filter_live-set_over id r old m d.1,
  string_eq.beq_iff j id,
  has-filter_live j m d.0,
  delete-missing j (filter_live m),
  delete-missing id (filter_live m),
)

pub filter_live-insert :
    (id : String) (r : JobRecord) (m : Records)
    → Assoc.has id m ≡ false
    → is_live r.status ≡ true
    → filter_live (Assoc.set id r m) ≡ Assoc.set id r (filter_live m)
unfolding filter_live
filter_live-insert id r [] h k = ground arith
filter_live-insert id r ((j, w) ∷ m) h k = ground (arith, filter_live-insert id r m)

pub filter_live-reconfigure :
    (name : String) (cfg : JobConfig) (m : Records)
    → filter_live (reconfigure name cfg m) ≡ reconfigure name cfg (filter_live m)
unfolding filter_live reconfigure configured
filter_live-reconfigure name cfg [] = refl
filter_live-reconfigure name cfg ((j, r) ∷ m) = ground (arith, filter_live-reconfigure name cfg m)

pub has-reconfigure :
    (id name : String) (cfg : JobConfig) (m : Records)
    → Assoc.has id (reconfigure name cfg m) ≡ Assoc.has id m
unfolding reconfigure
has-reconfigure id name cfg [] = refl
has-reconfigure id name cfg ((j, r) ∷ m) = ground (arith, has-reconfigure id name cfg m)

pub reconfigure-IsMap :
    (name : String) (cfg : JobConfig) (m : Records)
    → Assoc.IsMap m
    → Assoc.IsMap (reconfigure name cfg m)
unfolding reconfigure
reconfigure-IsMap name cfg [] d = tt
reconfigure-IsMap name cfg ((j, r) ∷ m) d =
    (has-reconfigure j name cfg m ∙ d.0, reconfigure-IsMap name cfg m d.1)

-- Only live records are due, so the poll does not see the others.
pub poll_up_to-filter_live :
    (n now : ℕ) (m : Records) → poll_up_to n now (filter_live m) ≡ poll_up_to n now m
unfolding filter_live poll_up_to is_due
poll_up_to-filter_live zero now m = refl
poll_up_to-filter_live (suc n) now [] = refl
poll_up_to-filter_live (suc n) now ((j, r) ∷ m) =
    ground (arith, poll_up_to-filter_live (suc n) now m, poll_up_to-filter_live n now m)
