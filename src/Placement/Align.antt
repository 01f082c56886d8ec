-- ===== src/Placement/Align.antt =====
-- The alignment arithmetic of internal/netbox/placement.go: blockSize, alignUp and the start that
-- `fit` chooses.
use native.Mathlib.Nat.{
  div-add-mod, mod-lt, mod-add-mod, mod_self, mul-le-mul_left, lt_of_mul-lt-mul_left, one-le-pow,
  two-pow-succ,
}
use netbox_operator.Common.{
  ℕ, zero, suc, ◌+◌, ◌-◌, ◌*◌, ◌/◌, ◌%◌, ◌^◌, ◌≤◌, ◌<◌, ◌≡◌, ◌≢◌, ap, sym, ◌∙◌, arith, inl, inr,
  Bool-cases, leb, ◌==◌,
}
use netbox_operator.Placement.{
  Alignment, align_any, align_power_of_two, len64, block_size, align_up, fit_start,
}

pub le-align_up : (v b : ℕ) → v ≤ align_up v b
unfolding align_up
le-align_up v b = ground arith

mod_round_up : (v b : ℕ) → 0 < b → (v + (b - v % b)) % b ≡ 0
mod_round_up v b h =
    sym (mod-add-mod v b (b - v % b))
    ∙ ap (λ (t : ℕ). t % b) (omega (arith, mod-lt v h))
    ∙ mod_self b

pub mod-align_up : (v b : ℕ) → 0 < b → align_up v b % b ≡ 0
unfolding align_up
mod-align_up v b h = ground (arith, mod_round_up v b h)

round_up-le : (v b t : ℕ) → 0 < b → t % b ≡ 0 → v % b ≢ 0 → v ≤ t → v + (b - v % b) ≤ t
round_up-le v b t h e r l =
    let v_parts = div-add-mod v b in
    let t_parts = div-add-mod t b in
    let quotients : v / b < t / b = lt_of_mul-lt-mul_left b (omega arith) in
    let scaled = mul-le-mul_left b quotients in omega (arith, mod-lt v h)

-- The least multiple of the block that is not below the value.
pub align_up-le : (v b t : ℕ) → 0 < b → t % b ≡ 0 → v ≤ t → align_up v b ≤ t
unfolding align_up
align_up-le v b t h e l = ground (arith, round_up-le v b t h e)

pow-pos : (k : ℕ) → 0 < 2 ^ k
pow-pos k = one-le-pow k 2 (omega arith)

len64-zero : (f : ℕ) → len64 f 0 ≡ 0
unfolding len64
len64-zero zero = ground arith
len64-zero (suc f) = ground arith

double_bounds :
    (n p : ℕ)
    → n / 2 < p
    → (0 < n / 2 → p ≤ 2 * (n / 2))
    → (n / 2 ≡ 0 → p ≡ 1)
    → (n < p + p) × (0 < n → p + p ≤ 2 * n)
double_bounds n p above below least = elim (Bool-cases (n / 2 == 0)) [
  | inl z ↦ ground (arith, least)
  | inr nz ↦ ground (arith, below)
]

len64_bounds : (f n : ℕ) → n < 2 ^ f → (n < 2 ^ len64 f n) × (0 < n → 2 ^ len64 f n ≤ 2 * n)
unfolding len64
len64_bounds zero n h = ground arith
len64_bounds (suc f) n h = elim (Bool-cases (n == 0)) [
  | inl z ↦ ground arith
  | inr nz ↦
      let (above, below) = len64_bounds f (n / 2) (omega (arith, two-pow-succ f)) in
      rw (nz, two-pow-succ)
        (double_bounds n (2 ^ len64 f (n / 2)) above below
          (λ e. ap (λ (t : ℕ). 2 ^ len64 f t) e ∙ ap (λ (t : ℕ). 2 ^ t) (len64-zero f)))
]

pub block_size-pos : (size : ℕ) → 0 < block_size size
unfolding block_size
block_size-pos size = ground (arith, pow-pos (len64 64 (size - 1)))

-- For a size that fits in 64 bits and is not 0, the block is the power of two in [size, 2 * size).
block_size_bounds :
    (size : ℕ)
    → 0 < size
    → size < 2 ^ 64
    → (size ≤ block_size size)
      × (block_size size < 2 * size)
      × ((k : ℕ) × (block_size size ≡ 2 ^ k))
unfolding block_size
block_size_bounds size pos fits =
    let (above, below) = len64_bounds 64 (size - 1) (omega arith) in
    elim (Bool-cases (leb size 1)) [
      | inl one ↦ rw one (ground arith, ground arith, (0, ground arith))
      | inr more ↦ rw more (ground arith, ground arith, (len64 64 (size - 1), ground arith))
    ]

-- The multiples that an alignment allows a start to be.
abbrev pub Aligned : Alignment → ℕ → ℕ → Type 0
Aligned align_any size start = Unit
Aligned align_power_of_two size start = start % block_size size ≡ 0

pub le-fit_start : (a : Alignment) (size v : ℕ) → v ≤ fit_start a size v
unfolding fit_start
le-fit_start align_any size v = omega arith
le-fit_start align_power_of_two size v = le-align_up v (block_size size)

pub fit_start-Aligned : (a : Alignment) (size v : ℕ) → Aligned a size (fit_start a size v)
unfolding fit_start
fit_start-Aligned align_any size v = tt
fit_start-Aligned align_power_of_two size v = mod-align_up v (block_size size) (block_size-pos size)

pub fit_start-le :
    (a : Alignment) (size v t : ℕ) → Aligned a size t → v ≤ t → fit_start a size v ≤ t
unfolding fit_start
fit_start-le align_any size v t h l = l
fit_start-le align_power_of_two size v t h l =
    align_up-le v (block_size size) t (block_size-pos size) h l
