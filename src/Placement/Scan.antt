-- ===== src/Placement/Scan.antt =====
-- What `fit` and the walk of FirstGap in internal/netbox/placement.go find: the least start that is
-- free.
use netbox_operator.Common.{
  ℕ, ◌+◌, ◌-◌, ◌*◌, ◌^◌, ◌≤◌, ◌<◌, ◌≡◌, ◌⊎◌, inl, inr, arith, Bool-cases, ltb, ltb→lt, some, refl,
  ◌==◌, not, ◌||◌,
}
use netbox_operator.Placement.Netip.{Addr, addr_lt, is_valid, addr_int, int_addr, unmap}
use netbox_operator.Placement.Align.{Aligned, le-fit_start, fit_start-Aligned, fit_start-le}
use netbox_operator.Placement.{
  Alignment, Placed, placed, interval_of, no_room, panics, fit_start, fit,
}

-- The first and last address of a network: one family, and no IPv4-mapped IPv6 address in between.
pub record IsNetwork (lo hi : Addr) : Type 0 where
  pub bits : lo.bits ≡ hi.bits
  pub family : (hi.bits ≡ 32) ⊎ (hi.bits ≡ 128)
  pub ordered : lo.value ≤ hi.value
  pub fits : hi.value < 2 ^ hi.bits
  pub plain : (hi.bits ≡ 32) ⊎ (hi.value < 0xffff * 2 ^ 32) ⊎ (0x10000 * 2 ^ 32 ≤ lo.value)

pub record Within (lo hi a : Addr) : Type 0 where
  pub bits : a.bits ≡ hi.bits
  pub above : lo.value ≤ a.value
  pub below : a.value ≤ hi.value

pub addr_int-Within : {lo hi a : Addr} → IsNetwork lo hi → Within lo hi a → addr_int a ≡ a.value
unfolding addr_int unmap
addr_int-Within n w = ground arith

module _ {lo hi : Addr} (network : IsNetwork lo hi) where
  pub int_addr-Within :
      (a : Addr) (v : ℕ)
      → Within lo hi a
      → v ≤ hi.value
      → int_addr v (a.bits == 32) ≡ some (record { bits = hi.bits; value = v })
  unfolding int_addr
  int_addr-Within a v w l = ground arith

-- The answer is the least start that is `Free`, with room for `size` addresses behind it in the
-- family of `bits`, and there is an answer if some start is free.
abbrev pub Lowest : ℕ → ℕ → (ℕ → Type 0) → Placed → Type 0
Lowest bits size Free (placed found) =
    (found.lo.bits ≡ bits)
    × (found.hi.bits ≡ bits)
    × (found.hi.value ≡ found.lo.value + (size - 1))
    × Free found.lo.value
    × ((t : ℕ) → Free t → found.lo.value ≤ t)
Lowest bits size Free no_room = (t : ℕ) → Free t → ⊥
Lowest bits size Free panics = ⊥

pub Lowest-iff :
    (bits size : ℕ) (F G : ℕ → Type 0) (r : Placed)
    → ((t : ℕ) → F t → G t)
    → ((t : ℕ) → G t → F t)
    → Lowest bits size F r
    → Lowest bits size G r
Lowest-iff bits size F G (placed found) to from h =
    (h.0, h.1, h.2, to _ h.3, λ t g. h.4 t (from t g))
Lowest-iff bits size F G no_room to from h = λ t g. h t (from t g)
Lowest-iff bits size F G panics to from h = h

-- A run of `size` addresses at `start` lies between two values.
abbrev pub Fits : Alignment → ℕ → ℕ → ℕ → ℕ → Type 0
Fits align size lo hi start = Aligned align size start × (lo ≤ start) × (start + (size - 1) ≤ hi)

module _ {lo hi : Addr} (network : IsNetwork lo hi) (size : ℕ) (align : Alignment) where
  fit_guard :
      (a b : Addr)
      → Within lo hi a
      → Within lo hi b
      → (not (is_valid a) || not (is_valid b) || addr_lt b a) ≡ ltb b.value a.value
  fit_guard a b wa wb = ground arith

  interval-Lowest :
      (a b : Addr)
      → Within lo hi a
      → Within lo hi b
      → fit_start align size a.value + (size - 1) ≤ b.value
      → Lowest hi.bits size (Fits align size a.value b.value) (
          interval_of
            (int_addr (fit_start align size a.value) (a.bits == 32))
            (int_addr (fit_start align size a.value + (size - 1)) (a.bits == 32)))
  interval-Lowest a b wa wb room =
      let start = fit_start align size a.value in
      rw
        (
          int_addr-Within network a start wa (omega arith),
          int_addr-Within network a (start + (size - 1)) wa (omega arith),
        )
        (
          refl,
          refl,
          refl,
          (fit_start-Aligned align size a.value, le-fit_start align size a.value, room),
          λ t f. fit_start-le align size a.value t f.0 f.1,
        )

  pub fit-Lowest :
      (a b : Addr)
      → Within lo hi a
      → Within lo hi b
      → Lowest hi.bits size (Fits align size a.value b.value) (fit a b size align)
  unfolding fit
  fit-Lowest a b wa wb = elim (Bool-cases (ltb b.value a.value)) [
    | inl crossed ↦ rw (fit_guard a b wa wb, crossed) (λ t f. omega (arith, ltb→lt _ _ crossed))
    | inr open_gap ↦
        rw (fit_guard a b wa wb, open_gap, addr_int-Within network wa, addr_int-Within network wb)
          (elim (Bool-cases (ltb b.value (fit_start align size a.value + (size - 1)))) [
            | inl short ↦
                rw short (λ t f.
                  omega (arith, ltb→lt _ _ short, fit_start-le align size a.value t f.0 f.1))
            | inr long ↦ rw long (interval-Lowest a b wa wb (ground arith))
          ])
  ]
