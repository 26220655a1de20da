-- ===== src/InstancePool/Rotation/Acquire.antt =====
-- What the pool keeps true of its instances, and how acquire keeps it.
use clean_node_server.Common.{
  elem-without, elem-append, ℕ, ◌<◌, ◌≡◌, sym, subst, ◌∙◌, true, false, ◌⊎◌, inl, inr, List, [],
  ◌∷◌, some, arith, nat_eq, string_eq, elem, without, Bool-cases, Option-cases,
}
use clean_node_server.Common.Assoc
use clean_node_server.InstancePool.{
  PoolEntry, InstancePool, spawn, hand_out, acquire_from, PoolEvent, releases, pool_step,
}

abbrev pub IsDistinct : List ℕ → Type 0
IsDistinct [] = Unit {0}
IsDistinct (i ∷ is) = (elem i is ≡ false) × IsDistinct is

-- No instance is available twice, or available and in use, or ahead of the counter; and one that is
-- available has served fewer requests than the limit.
pub record IsSound (p : InstancePool) : Type 0 where
  pub single : IsDistinct p.available
  pub apart : (i : ℕ) → elem i p.available ≡ true → elem i p.in_use ≡ false
  pub known : (i : ℕ) → elem i p.available ≡ true → i < p.next_instance
  pub known_use : (i : ℕ) → elem i p.in_use ≡ true → i < p.next_instance
  pub young :
      (i : ℕ) (e : PoolEntry)
      → elem i p.available ≡ true
      → Assoc.get i p.entries ≡ some e
      → e.request_count < 1000

-- Callers release what they hold, or what the pool has forgotten.
abbrev pub IsWellUsed : List PoolEvent → InstancePool → Type 0
IsWellUsed [] p = Unit {0}
IsWellUsed (releases i h b ∷ es) p =
    ((elem i p.in_use ≡ true) ⊎ (elem i p.entry_map ≡ false))
    × IsWellUsed es (pool_step (releases i h b) p)
IsWellUsed (e ∷ es) p = IsWellUsed es (pool_step e p)

spawn-IsSound : (h b : ℕ) (p : InstancePool) → IsSound p → IsSound (spawn h b p)
unfolding spawn
spawn-IsSound h b p v = record {
  single = v.single;
  apart = v.apart;
  known = λ i m. let k = v.known i m in omega arith;
  known_use = λ i m. let k = v.known_use i m in omega arith;
  young = λ i e m g.
      let k = v.known i m in
      v.young i e m (sym (Assoc.get-set_ne p.next_instance i _ p.entries (λ q. omega arith)) ∙ g);
}

hand_out-IsSound :
    (i : ℕ) (p : InstancePool)
    → IsSound p
    → elem i p.available ≡ false
    → i < p.next_instance
    → IsSound (hand_out i p)
unfolding hand_out
hand_out-IsSound i p v out h = elim (Option-cases (Assoc.get i p.entries)) [
  | inl e ↦ rw (e, hand_out) v
  | inr (e, f) ↦
      rw (f, hand_out)
        (record {
          single = v.single;
          apart = λ j m.
              ground
                (arith, v.apart j m, out, m, elem-append j p.in_use (i ∷ []), nat_eq.beq_iff i j);
          known = v.known;
          known_use = λ j m.
              ground
                (arith, v.known_use j, m, h, elem-append j p.in_use (i ∷ []), nat_eq.beq_iff i j);
          young = λ j e' m g.
              v.young j e' m
                (sym (Assoc.get-set_ne i j _ p.entries (λ q. ground (arith, q, out, m))) ∙ g);
        })
]

pub acquire_from-IsSound :
    (h b : ℕ) (free : List ℕ) (p : InstancePool)
    → IsSound p
    → p.available ≡ free
    → IsSound (acquire_from h b free p).1 × (elem (acquire_from h b free p).0 p.in_use ≡ false)
unfolding acquire_from spawn
acquire_from-IsSound h b [] p v e = (
  hand_out-IsSound p.next_instance (spawn h b p) (spawn-IsSound h b p v) (ground (arith, e))
      (omega arith),
  elim (Bool-cases (elem p.next_instance p.in_use)) [
    | inl m ↦ absurd (let k = v.known_use p.next_instance m in omega arith)
    | inr m ↦ m
  ],
)
acquire_from-IsSound h b (i ∷ is) p v e =
    let top : elem i p.available ≡ true = ground (arith, e, nat_eq.beq_iff i i) in
    let d : IsDistinct (i ∷ is) = subst IsDistinct e v.single in
    let more : (j : ℕ) → elem j is ≡ true → elem j p.available ≡ true =
      λ j m. ground (arith, e, m) in
    (
      hand_out-IsSound i (record p { available = is })
          (record {
            single = d.1;
            apart = λ j m. v.apart j (more j m);
            known = λ j m. v.known j (more j m);
            known_use = v.known_use;
            young = λ j x m g. v.young j x (more j m) g;
          })
          d.0 (v.known i top),
      v.apart i top,
    )

pub out-IsSound :
    (i : ℕ) (p : InstancePool) → IsSound p → IsSound (record p { in_use = without i p.in_use })
out-IsSound i p v = record {
  single = v.single;
  apart = λ j m. ground (arith, elem-without j i p.in_use, v.apart j m);
  known = v.known;
  known_use = λ j m. v.known_use j (ground (arith, elem-without j i p.in_use, m));
  young = v.young;
}
