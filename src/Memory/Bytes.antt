-- ===== src/Memory/Bytes.antt =====
-- Reading back what was written, and what a write leaves alone.
use clean_node_server.Common.{
  beq_refl, ◌^◌, ℕ, zero, suc, ◌+◌, ◌<◌, ◌≤◌, ◌≡◌, refl, ap₂, ◌∙◌, List, [], ◌∷◌, arith, length,
  nat_eq, string_eq,
}
use clean_node_server.Memory.{read_bytes, write_bytes, poke, u32_bytes, u32_at}

pub write_bytes-below : (f : ℕ → ℕ) (p q : ℕ) (bs : List ℕ) → q < p → write_bytes f p bs q ≡ f q
unfolding write_bytes poke
write_bytes-below f p q [] h = refl
write_bytes-below f p q (b ∷ bs) h =
    write_bytes-below (poke f p b) (suc p) q bs (omega arith) ∙ ground arith

pub write_bytes-above :
    (f : ℕ → ℕ) (p q : ℕ) (bs : List ℕ) → p + length bs ≤ q → write_bytes f p bs q ≡ f q
unfolding write_bytes poke
write_bytes-above f p q [] h = refl
write_bytes-above f p q (b ∷ bs) h =
    write_bytes-above (poke f p b) (suc p) q bs (omega arith) ∙ ground arith

pub read_bytes-write_bytes :
    (f : ℕ → ℕ) (p : ℕ) (bs : List ℕ) → read_bytes (write_bytes f p bs) p (length bs) ≡ bs
unfolding read_bytes write_bytes poke
read_bytes-write_bytes f p [] = refl
read_bytes-write_bytes f p (b ∷ bs) =
    ap₂ ◌∷◌ (write_bytes-below (poke f p b) (suc p) p bs (omega arith) ∙ ground (arith, beq_refl p))
      (read_bytes-write_bytes (poke f p b) (suc p) bs)

pub read_bytes-same :
    (f g : ℕ → ℕ) (p n : ℕ)
    → ((q : ℕ) → p ≤ q → q < p + n → f q ≡ g q)
    → read_bytes f p n ≡ read_bytes g p n
unfolding read_bytes
read_bytes-same f g p zero h = refl
read_bytes-same f g p (suc n) h =
    ap₂ ◌∷◌ (h p (omega arith) (omega arith))
      (read_bytes-same f g (suc p) n (λ q a b. h q (omega arith) (omega arith)))

pub u32_at-same :
    (f g : ℕ → ℕ) (p : ℕ) → ((q : ℕ) → p ≤ q → q < p + 4 → f q ≡ g q) → u32_at f p ≡ u32_at g p
unfolding u32_at
u32_at-same f g p h = omega (
  arith,
  h p (omega arith) (omega arith),
  h (suc p) (omega arith) (omega arith),
  h (suc (suc p)) (omega arith) (omega arith),
  h (suc (suc (suc p))) (omega arith) (omega arith),
)

-- The four bytes of a number below 2 ^ 32 read back as the number.
pub u32_at-write_bytes :
    (f : ℕ → ℕ) (p n : ℕ) → n < 2 ^ 32 → u32_at (write_bytes f p (u32_bytes n)) p ≡ n
unfolding u32_at u32_bytes write_bytes poke
u32_at-write_bytes f p n h = ground arith
