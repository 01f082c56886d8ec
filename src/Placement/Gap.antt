-- ===== src/Placement/Gap.antt =====
-- FirstGap of internal/netbox/placement.go.
use native.Mathlib.Nat.{
  mul-div_cancel, one-le-pow, div-lt_iff_lt-mul, mul-le-mul_right, two-pow-succ, add-mul,
}
use Prim.Native.Nat.{max}
use netbox_operator.Common.{
  ℕ, zero, suc, ◌+◌, ◌-◌, ◌*◌, ◌/◌, ◌^◌, ◌≤◌, ◌<◌, ◌≡◌, ◌⊎◌, inl, inr, refl, sym, ap, ◌∙◌, true,
  false, Option, none, some, List, [], ◌∷◌, All, arith, Bool-cases, ltb, leb, ◌==◌, not, ◌||◌,
}
use netbox_operator.Placement.Netip.{Addr, Prefix, unmap, masked, last_addr, prefix_valid}
use netbox_operator.Placement.Align.{Aligned}
use netbox_operator.Placement.Scan.{
  IsNetwork, Within, Lowest, Lowest-iff, addr_int-Within, int_addr-Within,
}
use netbox_operator.Placement.Walk.{Inside, Misses, Free, walk-Lowest}
use netbox_operator.Placement.Sort.{All-sort_by_lo, All-of_sort_by_lo, sort_by_lo-IsSorted}
use netbox_operator.Placement.Clip.{Holds, Clipped, clip-Clipped}
use netbox_operator.Placement.{
  Alignment, Interval, clip, keep, clip_all, sort_by_lo, walk, walk_from, first_gap, panics,
}

-- The interval holds none of the `size` addresses from `start`.
abbrev pub Clear : ℕ → ℕ → ℕ → Interval → Type 0
Clear bits size start taken =
    (x : Addr) → x.bits ≡ bits → start ≤ x.value → x.value ≤ start + (size - 1) → Holds taken x → ⊥

module _ {lo hi : Addr} (network : IsNetwork lo hi) where
  keep-Inside :
      (taken : Interval) (o : Option Interval) (busy : List Interval)
      → Clipped network taken o
      → All (Inside lo hi) busy
      → All (Inside lo hi) (keep o busy)
  unfolding keep
  keep-Inside taken none busy c h = h
  keep-Inside taken (some part) busy c h = (c.0, h)

  clip_all-Inside : (occupied : List Interval) → All (Inside lo hi) (clip_all occupied lo hi)
  unfolding clip_all
  clip_all-Inside [] = tt
  clip_all-Inside (taken ∷ occupied) =
      keep-Inside taken (clip taken lo hi) (clip_all occupied lo hi) (clip-Clipped network taken)
        (clip_all-Inside occupied)

  module _ (size start : ℕ) (pos : 0 < size) (after : lo.value ≤ start)
      (ends : start + (size - 1) ≤ hi.value) where
    Clear-of_Misses :
        (taken part : Interval)
        → Clipped network taken (some part)
        → Misses size start part
        → Clear hi.bits size start taken
    Clear-of_Misses taken part c m x b l u h =
        let held = c.1 x (record { bits = b; above = omega arith; below = omega arith }) h in
        omega arith

    -- An interval that is not missed holds the later of the two starts.
    Misses-of_Clear :
        (taken part : Interval)
        → Clipped network taken (some part)
        → Clear hi.bits size start taken
        → Misses size start part
    Misses-of_Clear taken part c clear =
        elim (Bool-cases (ltb (start + (size - 1)) part.lo.value)) [
          | inl before ↦ inl (ground arith)
          | inr reaches ↦ elim (Bool-cases (ltb part.hi.value start)) [
            | inl behind ↦ inr (ground arith)
            | inr meets ↦
                let low : part.lo.value ≤ start + (size - 1) = ground arith in
                let high : start ≤ part.hi.value = ground arith in
                let x : Addr = record { bits = hi.bits; value = max start part.lo.value } in
                let within : Within lo hi x = record {
                  bits = refl;
                  above = omega arith;
                  below = omega (arith, c.0.low.below);
                } in
                absurd (
                  clear x refl (omega arith) (omega arith)
                    (c.2 x within (omega arith) (omega (arith, c.0.ordered))))
          ]
        ]

    Misses-keep :
        (taken : Interval) (o : Option Interval) (busy : List Interval)
        → Clipped network taken o
        → All (Misses size start) (keep o busy)
        → Clear hi.bits size start taken × All (Misses size start) busy
    unfolding keep
    Misses-keep taken none busy c h =
        (λ x b l u. c x (record { bits = b; above = omega arith; below = omega arith }), h)
    Misses-keep taken (some part) busy c h = (Clear-of_Misses taken part c h.0, h.1)

    keep-Misses :
        (taken : Interval) (o : Option Interval) (busy : List Interval)
        → Clipped network taken o
        → Clear hi.bits size start taken
        → All (Misses size start) busy
        → All (Misses size start) (keep o busy)
    unfolding keep
    keep-Misses taken none busy c clear h = h
    keep-Misses taken (some part) busy c clear h = (Misses-of_Clear taken part c clear, h)

    Clear-of_clip_all :
        (occupied : List Interval)
        → All (Misses size start) (clip_all occupied lo hi)
        → All (Clear hi.bits size start) occupied
    unfolding clip_all
    Clear-of_clip_all [] h = tt
    Clear-of_clip_all (taken ∷ occupied) h =
        let (clear, rest) =
          Misses-keep taken (clip taken lo hi) (clip_all occupied lo hi)
            (clip-Clipped network taken) h in
        (clear, Clear-of_clip_all occupied rest)

    clip_all-Misses :
        (occupied : List Interval)
        → All (Clear hi.bits size start) occupied
        → All (Misses size start) (clip_all occupied lo hi)
    unfolding clip_all
    clip_all-Misses [] h = tt
    clip_all-Misses (taken ∷ occupied) h =
        keep-Misses taken (clip taken lo hi) (clip_all occupied lo hi) (clip-Clipped network taken)
          h.0 (clip_all-Misses occupied h.1)

-- The starts that FirstGap may answer with, in terms of what it is given: aligned, with the whole
-- run between the ends of the network, and no occupied interval that holds an address of the run.
abbrev pub FreeStart : Addr → Addr → List Interval → ℕ → Alignment → ℕ → Type 0
FreeStart lo hi occupied size align start =
    Aligned align size start
    × (lo.value ≤ start)
    × (start + (size - 1) ≤ hi.value)
    × All (Clear hi.bits size start) occupied

pub walk_from-Lowest :
    (lo hi : Addr) (occupied : List Interval) (size : ℕ) (align : Alignment)
    → IsNetwork lo hi
    → 0 < size
    → Lowest hi.bits size
        (FreeStart lo hi occupied size align)
        (walk_from lo (some hi) occupied size align)
unfolding walk_from
walk_from-Lowest lo hi occupied size align n pos =
    let busy = clip_all occupied lo hi in
    let inside = clip_all-Inside n occupied in
    Lowest-iff hi.bits size (Free align size lo.value hi.value (sort_by_lo busy))
      (FreeStart lo hi occupied size align) (walk lo hi size align (sort_by_lo busy))
      (λ t (al, l, u, m). (
        al,
        l,
        u,
        Clear-of_clip_all n size t pos l u occupied (All-of_sort_by_lo (Misses size t) busy m),
      ))
      (λ t (al, l, u, m). (
        al,
        l,
        u,
        All-sort_by_lo (Misses size t) busy (clip_all-Misses n size t pos l u occupied m),
      ))
      (walk-Lowest n size align lo (sort_by_lo busy)
        (record { bits = n.bits; above = omega arith; below = n.ordered })
        (All-sort_by_lo (Inside lo hi) busy inside) (sort_by_lo-IsSorted lo hi busy inside))

-- The network of a prefix: its first value and its last.
abbrev pub first_value : Prefix → ℕ
first_value p = let block = 2 ^ (p.addr.bits - p.length) in p.addr.value / block * block

abbrev pub last_value : Prefix → ℕ
last_value p = first_value p + (2 ^ (p.addr.bits - p.length) - 1)

abbrev pub lo_of : Prefix → Addr
lo_of p = record { bits = p.addr.bits; value = first_value p }

abbrev pub hi_of : Prefix → Addr
hi_of p = record { bits = p.addr.bits; value = last_value p }

-- A prefix as net/netip has it, of a family and with a value of that family, and with no
-- IPv4-mapped IPv6 address in its network.
pub record IsParent (p : Prefix) : Type 0 where
  pub family : (p.addr.bits ≡ 32) ⊎ (p.addr.bits ≡ 128)
  pub length : p.length ≤ p.addr.bits
  pub fits : p.addr.value < 2 ^ p.addr.bits
  pub plain :
      (p.addr.bits ≡ 32) ⊎ (last_value p < 0xffff * 2 ^ 32) ⊎ (0x10000 * 2 ^ 32 ≤ first_value p)

pow_split : (k n : ℕ) → 2 ^ (k + n) ≡ 2 ^ k * 2 ^ n
pow_split zero n = grind arith
pow_split (suc k) n =
    ap (λ (t : ℕ). 2 ^ t) (omega arith)
    ∙ two-pow-succ (k + n)
    ∙ ap (λ (t : ℕ). t + t) (pow_split k n)
    ∙ sym (add-mul (2 ^ k) (2 ^ k) (2 ^ n))
    ∙ ap (λ (t : ℕ). t * 2 ^ n) (sym (two-pow-succ k))

pow-pos : (k : ℕ) → 0 < 2 ^ k
pow-pos k = one-le-pow k 2 (omega arith)

-- The network of a value of `bits = len + host` bits ends inside the family.
block_fits :
    (v len host bits : ℕ)
    → len + host ≡ bits
    → v < 2 ^ bits
    → v / 2 ^ host * 2 ^ host + (2 ^ host - 1) < 2 ^ bits
block_fits v len host bits e h =
    let split : 2 ^ bits ≡ 2 ^ len * 2 ^ host =
      ap (λ (t : ℕ). 2 ^ t) (sym e) ∙ pow_split len host in
    let quotient : v / 2 ^ host < 2 ^ len = (div-lt_iff_lt-mul (pow-pos host)).1 (rw split at h) in
    let scaled = mul-le-mul_right (2 ^ host) quotient in rw split (omega (arith, pow-pos host))

module _ (p : Prefix) (h : IsParent p) where
  pub parent-IsNetwork : IsNetwork (lo_of p) (hi_of p)
  parent-IsNetwork = record {
    bits = refl;
    family = h.family;
    ordered = omega arith;
    fits =
        block_fits p.addr.value p.length (p.addr.bits - p.length) p.addr.bits
          (omega (arith, h.length)) h.fits;
    plain = h.plain;
  }

  unmap-first : unmap (lo_of p) ≡ lo_of p
  unfolding unmap
  unmap-first = ground (arith, parent-IsNetwork.plain, parent-IsNetwork.ordered)

  last_addr-masked : last_addr (masked p) ≡ some (hi_of p)
  unfolding last_addr masked
  last_addr-masked =
      let block = 2 ^ (p.addr.bits - p.length) in
      let again : first_value p / block * block ≡ first_value p =
        ap (λ (t : ℕ). t * block)
          (mul-div_cancel (p.addr.value / block) (pow-pos (p.addr.bits - p.length))) in
      let low : Within (lo_of p) (hi_of p) (lo_of p) = record {
        bits = refl;
        above = omega arith;
        below = omega arith;
      } in
      let room = int_addr-Within parent-IsNetwork (lo_of p) (last_value p) low (omega arith) in
      let enough : leb p.length p.addr.bits ≡ true = ground (arith, h.length) in
      rw (unmap-first, addr_int-Within parent-IsNetwork low, again, enough) room

  masked-addr : (masked p).addr ≡ lo_of p
  unfolding masked
  masked-addr = refl

-- FirstGap answers with the least run of `size` addresses of the prefix that is aligned and that no
-- occupied interval meets, it answers `false` only if there is no such run, and it never panics:
-- for a size that is not 0, and a prefix whose network has no IPv4-mapped IPv6 address. The
-- occupied intervals are in any order, of any family, and may overlap or lie outside.
pub first_gap-Lowest :
    (p : Prefix) (occupied : List Interval) (size : ℕ) (align : Alignment)
    → IsParent p
    → 0 < size
    → Lowest p.addr.bits size
        (FreeStart (lo_of p) (hi_of p) occupied size align)
        (first_gap p occupied size align)
unfolding first_gap
first_gap-Lowest p occupied size align h pos =
    let proper : (not (prefix_valid p) || size == 0) ≡ false = ground (arith, h.family, h.length) in
    rw (proper, last_addr-masked p h, masked-addr p h, unmap-first p h)
      (walk_from-Lowest (lo_of p) (hi_of p) occupied size align (parent-IsNetwork p h) pos)

-- FirstGap panics on every valid prefix whose masked address is an IPv4-mapped IPv6 address and which
-- has more bits than an IPv4 address.
pub first_gap-panics :
    (p : Prefix) (occupied : List Interval) (size : ℕ) (align : Alignment)
    → p.addr.bits ≡ 128
    → (masked p).addr.value / 2 ^ 32 ≡ 0xffff
    → 32 < p.length
    → p.length ≤ 128
    → 0 < size
    → first_gap p occupied size align ≡ panics
unfolding first_gap walk_from last_addr unmap masked
first_gap-panics p occupied size align six mapped long len pos = ground arith
