-- ===== src/Placement/Sort.antt =====
-- Sorting by the low end, as FirstGap in internal/netbox/placement.go does before it walks.
use netbox_operator.Common.{◌≤◌, inl, inr, List, [], ◌∷◌, All, All-map, arith, Bool-cases}
use netbox_operator.Placement.Netip.{Addr, addr_lt}
use netbox_operator.Placement.Walk.{Inside, IsSorted}
use netbox_operator.Placement.{Interval, insert_by_lo, sort_by_lo}

module _ (P : Interval → Type 0) where
  All-insert_by_lo :
      (x : Interval) (ys : List Interval) → P x → All P ys → All P (insert_by_lo x ys)
  unfolding insert_by_lo
  All-insert_by_lo x [] px h = (px, tt)
  All-insert_by_lo x (y ∷ ys) px h = elim (Bool-cases (addr_lt y.lo x.lo)) [
    | inl lower ↦ rw lower (h.0, All-insert_by_lo x ys px h.1)
    | inr upper ↦ rw upper (px, h)
  ]

  All-of_insert_by_lo :
      (x : Interval) (ys : List Interval) → All P (insert_by_lo x ys) → P x × All P ys
  unfolding insert_by_lo
  All-of_insert_by_lo x [] h = h
  All-of_insert_by_lo x (y ∷ ys) h = elim (Bool-cases (addr_lt y.lo x.lo)) [
    | inl lower ↦
        let h' : P y × All P (insert_by_lo x ys) = rw lower at h in
        let (px, rest) = All-of_insert_by_lo x ys h'.1 in (px, (h'.0, rest))
    | inr upper ↦ rw upper at h
  ]

  pub All-sort_by_lo : (xs : List Interval) → All P xs → All P (sort_by_lo xs)
  unfolding sort_by_lo
  All-sort_by_lo [] h = tt
  All-sort_by_lo (x ∷ xs) h = All-insert_by_lo x (sort_by_lo xs) h.0 (All-sort_by_lo xs h.1)

  pub All-of_sort_by_lo : (xs : List Interval) → All P (sort_by_lo xs) → All P xs
  unfolding sort_by_lo
  All-of_sort_by_lo [] h = tt
  All-of_sort_by_lo (x ∷ xs) h =
      let (px, rest) = All-of_insert_by_lo x (sort_by_lo xs) h in (px, All-of_sort_by_lo xs rest)

module _ (lo hi : Addr) where
  insert_by_lo-IsSorted :
      (x : Interval) (ys : List Interval)
      → Inside lo hi x
      → All (Inside lo hi) ys
      → IsSorted ys
      → IsSorted (insert_by_lo x ys)
  unfolding insert_by_lo
  insert_by_lo-IsSorted x [] ix h s = (tt, tt)
  insert_by_lo-IsSorted x (y ∷ ys) ix h s = elim (Bool-cases (addr_lt y.lo x.lo)) [
    | inl lower ↦ rw lower (
      All-insert_by_lo (λ z. y.lo.value ≤ z.lo.value) x ys (ground (arith, ix.low, h.0.low)) s.0,
      insert_by_lo-IsSorted x ys ix h.1 s.1,
    )
    | inr upper ↦
        let first : x.lo.value ≤ y.lo.value = ground (arith, ix.low.bits, h.0.low.bits) in
        rw upper ((first, All-map _ _ (λ z l. omega arith) ys s.0), s)
  ]

  pub sort_by_lo-IsSorted : (xs : List Interval) → All (Inside lo hi) xs → IsSorted (sort_by_lo xs)
  unfolding sort_by_lo
  sort_by_lo-IsSorted [] h = tt
  sort_by_lo-IsSorted (x ∷ xs) h =
      insert_by_lo-IsSorted x (sort_by_lo xs) h.0 (All-sort_by_lo (Inside lo hi) xs h.1)
        (sort_by_lo-IsSorted xs h.1)
