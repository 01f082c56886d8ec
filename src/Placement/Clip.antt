-- ===== src/Placement/Clip.antt =====
-- `clip` of internal/netbox/placement.go: what is kept of an interval is its part in the network.
use netbox_operator.Common.{
  ◌≤◌, ◌≡◌, inl, inr, refl, true, false, Option, none, some, arith, Bool-cases, not, ◌||◌,
  if◌then◌else◌,
}
use netbox_operator.Placement.Netip.{Addr, addr_lt, is_valid, unmap}
use netbox_operator.Placement.Scan.{IsNetwork, Within}
use netbox_operator.Placement.Walk.{Inside}
use netbox_operator.Placement.{Interval, clip}

-- The interval holds the address: in the order of Addr.Compare, once both ends are unmapped.
pub record Holds (taken : Interval) (x : Addr) : Type 0 where
  pub valid : is_valid (unmap taken.lo) ≡ true
  pub above : addr_lt x (unmap taken.lo) ≡ false
  pub below : addr_lt (unmap taken.hi) x ≡ false

module _ {lo hi : Addr} (network : IsNetwork lo hi) where
  -- A kept part lies in the network and holds what the interval holds there; what is dropped holds
  -- nothing there.
  abbrev pub Clipped : Interval → Option Interval → Type 0
  Clipped taken none = (x : Addr) → Within lo hi x → Holds taken x → ⊥
  Clipped taken (some part) =
      Inside lo hi part
      × ((x : Addr)
          → Within lo hi x
          → Holds taken x
          → (part.lo.value ≤ x.value) × (x.value ≤ part.hi.value))
      × ((x : Addr)
          → Within lo hi x
          → part.lo.value ≤ x.value
          → x.value ≤ part.hi.value
          → Holds taken x)

  kept-Clipped :
      (taken : Interval) (from to : Addr)
      → from ≡ unmap taken.lo
      → to ≡ unmap taken.hi
      → (not (is_valid from) || not (is_valid to) || addr_lt to from) ≡ false
      → (addr_lt to lo || addr_lt hi from) ≡ false
      → Clipped taken (
          some (record {
            lo = if addr_lt from lo then lo else from;
            hi = if addr_lt hi to then hi else to;
          }))
  kept-Clipped taken from to ef et proper meets = (
    record {
      low = record { bits = ground arith; above = ground arith; below = ground arith };
      high = record { bits = ground arith; above = ground arith; below = ground arith };
      ordered = ground arith;
    },
    λ x w h. (ground (arith, h.above), ground (arith, h.below)),
    λ x w l u. record { valid = ground arith; above = ground arith; below = ground arith },
  )

  pub clip-Clipped : (taken : Interval) → Clipped taken (clip taken lo hi)
  unfolding clip
  clip-Clipped taken =
      let from = unmap taken.lo in
      let to = unmap taken.hi in
      elim (Bool-cases (not (is_valid from) || not (is_valid to) || addr_lt to from)) [
        | inl improper ↦ rw improper (λ x w h. ground (arith, h.valid, h.above, h.below, w.bits))
        | inr proper ↦ rw proper (elim (Bool-cases (addr_lt to lo || addr_lt hi from)) [
          | inl outside ↦
              rw outside (λ x w h. ground (arith, h.above, h.below, w.bits, w.above, w.below))
          | inr meets ↦ rw meets (kept-Clipped taken from to refl refl proper meets)
        ])
      ]
