-- ===== src/Common/Assoc.antt =====
-- A JavaScript Map as an association list in insertion order: `set` on a present key keeps its place.
use mathlib.Core.Path.{◌≡◌, refl, ap, ◌∙◌}
use mathlib.Core.Logic.{◌≢◌}
use mathlib.Core.Bool.{Bool, true, false, not, ◌&&◌, ◌||◌}
use mathlib.Core.List.{List, [], ◌∷◌}
use mathlib.Core.Option.{Option, none, some}
use native.Mathlib.Omega.{arith}
use clean_node_server.Common.Tests.{Eq, ◌==◌, beq_refl, beq-ne, if◌then◌else◌}

module _ {ℓ κ} {K : Type ℓ} {V : Type κ} ⦃e : Eq K⦄ where
  abbrev pub get : K → List (K × V) → Option V
  get k [] = none
  get k ((j, v) ∷ m) = if j == k then some v else get k m

  abbrev pub has : K → List (K × V) → Bool
  has k [] = false
  has k ((j, v) ∷ m) = j == k || has k m

  abbrev pub set : K → V → List (K × V) → List (K × V)
  set k v [] = (k, v) ∷ []
  set k v ((j, w) ∷ m) = if j == k then (j, v) ∷ m else (j, w) ∷ set k v m

  -- The keys of a Map are distinct; every occurrence is dropped.
  abbrev pub delete : K → List (K × V) → List (K × V)
  delete k [] = []
  delete k ((j, w) ∷ m) = if j == k then delete k m else (j, w) ∷ delete k m

  pub get-set :
      (k j : K) (v : V) (m : List (K × V))
      → get j (set k v m) ≡ (if k == j then some v else get j m)
  get-set k j v [] = refl
  get-set k j v ((i, w) ∷ m) =
      ground (arith, e.beq_iff k j, e.beq_iff i k, e.beq_iff i j, get-set k j v m)

  pub get-delete :
      (k j : K) (m : List (K × V)) → get j (delete k m) ≡ (if k == j then none else get j m)
  get-delete k j [] = ground arith
  get-delete k j ((i, w) ∷ m) =
      ground (arith, e.beq_iff k j, e.beq_iff i k, e.beq_iff i j, get-delete k j m)

  pub has-eq-get :
      (k : K) (m : List (K × V)) → has k m ≡ (elim (get k m) [ none ↦ false | some _ ↦ true ])
  has-eq-get k [] = refl
  has-eq-get k ((j, v) ∷ m) = ground (arith, has-eq-get k m)

  pub get-set_self : (k : K) (v : V) (m : List (K × V)) → get k (set k v m) ≡ some v
  get-set_self k v m = ground (arith, get-set k k v m, beq_refl k)

  pub has-set : (k j : K) (v : V) (m : List (K × V)) → has j (set k v m) ≡ (k == j || has j m)
  has-set k j v [] = ground arith
  has-set k j v ((i, w) ∷ m) =
      ground (arith, e.beq_iff k j, e.beq_iff i k, e.beq_iff i j, has-set k j v m)

  pub has-delete : (k j : K) (m : List (K × V)) → has j (delete k m) ≡ (not (k == j) && has j m)
  has-delete k j [] = ground arith
  has-delete k j ((i, w) ∷ m) =
      ground (arith, e.beq_iff k j, e.beq_iff i k, e.beq_iff i j, has-delete k j m)

  -- The keys of a Map are distinct.
  abbrev pub IsMap : List (K × V) → Type 0
  IsMap [] = Unit {0}
  IsMap ((k, v) ∷ m) = (has k m ≡ false) × IsMap m

  pub set-IsMap : (k : K) (v : V) (m : List (K × V)) → IsMap m → IsMap (set k v m)
  set-IsMap k v [] h = (refl, tt)
  set-IsMap k v ((i, w) ∷ m) h =
      ground (arith, e.beq_iff i k, e.beq_iff k i, has-set k i v m, set-IsMap k v m h.1)

  pub delete-IsMap : (k : K) (m : List (K × V)) → IsMap m → IsMap (delete k m)
  delete-IsMap k [] h = tt
  delete-IsMap k ((i, w) ∷ m) h = ground (arith, has-delete k i m, delete-IsMap k m h.1)

  pub get-eq-none : (k : K) (m : List (K × V)) → has k m ≡ false → get k m ≡ none
  get-eq-none k m h = ground (arith, has-eq-get k m)

  pub get-set_ne : (k j : K) (v : V) (m : List (K × V)) → k ≢ j → get j (set k v m) ≡ get j m
  get-set_ne k j v m h = get-set k j v m ∙ ap (λ b. if b then some v else get j m) (beq-ne k j h)
