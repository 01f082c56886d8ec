-- ===== src/Placement/Walk.antt =====
-- The second loop of FirstGap in internal/netbox/placement.go, over busy intervals that are sorted
-- and clipped to the network.
use netbox_operator.Common.{
  ℕ, ◌+◌, ◌-◌, ◌^◌, ◌≤◌, ◌<◌, ◌≡◌, ◌⊎◌, inl, inr, refl, true, false, List, [], ◌∷◌, All, arith,
  Bool-cases, ltb, leb, not, ◌||◌,
}
use netbox_operator.Placement.Netip.{Addr, addr_lt, is_valid, next, prev}
use netbox_operator.Placement.Align.{Aligned}
use netbox_operator.Placement.Scan.{IsNetwork, Within, Lowest, Lowest-iff, Fits, fit-Lowest}
use netbox_operator.Placement.{
  Alignment, Interval, Placed, placed, no_room, panics, fit, before_taken, past_taken, round, walk,
}

-- A run of `size` addresses from `start` shares no address with the interval.
abbrev pub Misses : ℕ → ℕ → Interval → Type 0
Misses size start taken = (start + (size - 1) < taken.lo.value) ⊎ (taken.hi.value < start)

pub record Inside (lo hi : Addr) (taken : Interval) : Type 0 where
  pub low : Within lo hi taken.lo
  pub high : Within lo hi taken.hi
  pub ordered : taken.lo.value ≤ taken.hi.value

-- Sorted by the low ends.
abbrev pub IsSorted : List Interval → Type 0
IsSorted [] = Unit
IsSorted (x ∷ xs) = All (λ y. x.lo.value ≤ y.lo.value) xs × IsSorted xs

-- The starts that the walk may choose.
abbrev pub Free : Alignment → ℕ → ℕ → ℕ → List Interval → ℕ → Type 0
Free align size lo hi busy start =
    Aligned align size start
    × (lo ≤ start)
    × (start + (size - 1) ≤ hi)
    × All (Misses size start) busy

Misses-All :
    (size start bound : ℕ) (busy : List Interval)
    → start + (size - 1) < bound
    → All (λ y. bound ≤ y.lo.value) busy
    → All (Misses size start) busy
Misses-All size start bound [] l h = tt
Misses-All size start bound (y ∷ ys) l h = (inl (omega arith), Misses-All size start bound ys l h.1)

module _ {lo hi : Addr} (network : IsNetwork lo hi) (size : ℕ) (align : Alignment) where
  abbrev Before : ℕ → Interval → ℕ → Type 0
  Before cursor taken start =
      Aligned align size start × (cursor ≤ start) × (start + (size - 1) < taken.lo.value)

  prev-Within :
      (cursor : Addr) (taken : Interval)
      → Within lo hi cursor
      → Inside lo hi taken
      → cursor.value < taken.lo.value
      → Within lo hi (prev taken.lo) × ((prev taken.lo).value + 1 ≡ taken.lo.value)
  prev-Within cursor taken w i l =
      (record { bits = ground arith; above = ground arith; below = ground arith }, ground arith)

  before_taken-Lowest :
      (cursor : Addr) (taken : Interval)
      → Within lo hi cursor
      → Inside lo hi taken
      → Lowest hi.bits size (Before cursor.value taken) (before_taken cursor taken size align)
  unfolding before_taken
  before_taken-Lowest cursor taken w i = elim (Bool-cases (addr_lt cursor taken.lo)) [
    | inl before ↦
        let (inside, gap_end) = prev-Within cursor taken w i (ground arith) in
        rw before (
          Lowest-iff hi.bits size (Fits align size cursor.value (prev taken.lo).value)
            (Before cursor.value taken) (fit cursor (prev taken.lo) size align)
            (λ t f. (f.0, f.1, omega arith)) (λ t f. (f.0, f.1, omega arith))
            (fit-Lowest network size align cursor (prev taken.lo) w inside))
    | inr after ↦ rw after (λ t f. ground (arith, w.bits, i.low.bits))
  ]

  -- The cursor leaves the network, and then so does every start behind `taken`; or it is the least
  -- value that is not below the old cursor and behind `taken`.
  abbrev Past : Addr → Interval → Addr → Type 0
  Past cursor taken c =
      ((not (is_valid c) || addr_lt hi c) ≡ true) × (hi.value ≤ taken.hi.value)
      ⊎ ((not (is_valid c) || addr_lt hi c) ≡ false)
        × Within lo hi c
        × (cursor.value ≤ c.value)
        × (taken.hi.value < c.value)
        × ((t : ℕ) → cursor.value ≤ t → taken.hi.value < t → c.value ≤ t)

  next-Past :
      (cursor : Addr) (taken : Interval)
      → Within lo hi cursor
      → Inside lo hi taken
      → cursor.value ≤ taken.hi.value
      → Past cursor taken (next taken.hi)
  next-Past cursor taken w i l = elim (Bool-cases (ltb taken.hi.value hi.value)) [
    | inl room ↦
        let in_family : leb (2 ^ taken.hi.bits) (taken.hi.value + 1) ≡ false =
          rw i.high.bits (ground arith) in
        rw in_family (
          inr (
            ground arith,
            record { bits = i.high.bits; above = omega arith; below = ground arith },
            omega arith,
            omega arith,
            λ t c b. omega arith,
          ))
    | inr full ↦ inl (ground arith, ground arith)
  ]

  past_taken-Past :
      (cursor : Addr) (taken : Interval)
      → Within lo hi cursor
      → Inside lo hi taken
      → Past cursor taken (past_taken cursor taken)
  unfolding past_taken
  past_taken-Past cursor taken w i = elim (Bool-cases (addr_lt taken.hi cursor)) [
    | inl behind ↦ rw behind (inr (ground arith, w, omega arith, ground arith, λ t c b. c))
    | inr ahead ↦ rw ahead (next-Past cursor taken w i (ground arith))
  ]

  found-Lowest :
      (cursor : Addr) (taken : Interval) (busy : List Interval) (found : Interval)
      → Inside lo hi taken
      → IsSorted (taken ∷ busy)
      → Lowest hi.bits size (Before cursor.value taken) (placed found)
      → Lowest hi.bits size (Free align size cursor.value hi.value (taken ∷ busy)) (placed found)
  found-Lowest cursor taken busy found i s (b, c, e, (al, after, before), least) =
      let ends : taken.lo.value ≤ hi.value = i.low.below in
      (
        b,
        c,
        e,
        (
          al,
          after,
          omega arith,
          (inl before, Misses-All size found.lo.value taken.lo.value busy before s.0),
        ),
        λ t (al', after', in_network, misses). elim misses.0 [
          | inl t_before ↦ least t (al', after', t_before)
          | inr t_behind ↦ omega (arith, i.ordered)
        ],
      )

  -- A free start is not in the gap before `taken`, so it is behind `taken`.
  behind_taken :
      (cursor : Addr) (taken : Interval) (busy : List Interval)
      → Lowest hi.bits size (Before cursor.value taken) no_room
      → (t : ℕ) → Free align size cursor.value hi.value (taken ∷ busy) t
      → taken.hi.value < t
  behind_taken cursor taken busy none_before t (al, after, in_network, misses) = elim misses.0 [
    | inl before ↦ absurd (none_before t (al, after, before))
    | inr behind ↦ behind
  ]

  round-Lowest :
      (cursor : Addr) (taken : Interval) (busy : List Interval) (r : Placed)
      → Within lo hi cursor
      → All (Inside lo hi) (taken ∷ busy)
      → IsSorted (taken ∷ busy)
      → Lowest hi.bits size (Before cursor.value taken) r
      → Past cursor taken (past_taken cursor taken)
      → (Within lo hi (past_taken cursor taken)
          → Lowest hi.bits size
              (Free align size (past_taken cursor taken).value hi.value busy)
              (walk (past_taken cursor taken) hi size align busy))
      → Lowest hi.bits size (Free align size cursor.value hi.value (taken ∷ busy)) (
          round r
            (not (is_valid (past_taken cursor taken)) || addr_lt hi (past_taken cursor taken))
            (walk (past_taken cursor taken) hi size align busy))
  unfolding round
  round-Lowest cursor taken busy (placed found) w i s h p ih =
      found-Lowest cursor taken busy found i.0 s h
  round-Lowest cursor taken busy panics w i s h p ih = h
  round-Lowest cursor taken busy no_room w i s h (inl (left, full)) ih =
      rw left
        (λ t f. let behind = behind_taken cursor taken busy h t f in let ends = f.2 in omega arith)
  round-Lowest cursor taken busy no_room w i s h (inr (stays, inside, later, behind, least)) ih =
      let c = past_taken cursor taken in
      rw stays (
        Lowest-iff hi.bits size (Free align size c.value hi.value busy)
          (Free align size cursor.value hi.value (taken ∷ busy)) (walk c hi size align busy)
          (λ t f. (f.0, omega arith, f.2, (inr (omega arith), f.3)))
          (λ t f. (f.0, least t f.1 (behind_taken cursor taken busy h t f), f.2, f.3.1))
          (ih inside))

  pub walk-Lowest :
      (cursor : Addr) (busy : List Interval)
      → Within lo hi cursor
      → All (Inside lo hi) busy
      → IsSorted busy
      → Lowest hi.bits size
          (Free align size cursor.value hi.value busy)
          (walk cursor hi size align busy)
  unfolding walk
  walk-Lowest cursor [] w i s =
      Lowest-iff hi.bits size (Fits align size cursor.value hi.value)
        (Free align size cursor.value hi.value []) (fit cursor hi size align)
        (λ t f. (f.0, f.1, f.2, tt)) (λ t f. (f.0, f.1, f.2))
        (fit-Lowest network size align cursor hi w
          (record { bits = refl; above = network.ordered; below = omega arith }))
  walk-Lowest cursor (taken ∷ busy) w i s =
      round-Lowest cursor taken busy (before_taken cursor taken size align) w i s
        (before_taken-Lowest cursor taken w i.0) (past_taken-Past cursor taken w i.0)
        (λ inside. walk-Lowest (past_taken cursor taken) busy inside i.1 s.1)
