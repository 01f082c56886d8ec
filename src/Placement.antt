-- ===== src/Placement.antt =====
-- internal/netbox/placement.go: the lowest free run of addresses in a prefix. `Netip` has the
-- addresses, `Align` the powers of two, `Scan` a single gap, `Walk` the loop over the
-- occupied intervals and `Gap` what
-- FirstGap returns.
pub mod Netip
pub mod Align
pub mod Sort
pub mod Clip
pub mod Scan
pub mod Walk
pub mod Gap
pub mod Tests
use netbox_operator.Common.{
  ℕ, zero, suc, ◌+◌, ◌-◌, ◌/◌, ◌%◌, ◌^◌, Bool, not, ◌&&◌, ◌||◌, Option, none, some, List, [], ◌∷◌,
  ltb, leb, ◌==◌, if◌then◌else◌,
}
use Netip.{
  Addr, no_addr, is_valid, is4, addr_lt, next, prev, unmap, addr_int, int_addr, Prefix,
  prefix_valid, masked, last_addr,
}

-- Any other string of the source's type is placed as `Any` is.
pub data Alignment : Type 0 where
  align_any align_power_of_two : Alignment

pub record Interval : Type 0 where
  pub lo : Addr
  pub hi : Addr

-- The answer of FirstGap and `fit`: an interval, `false`, or a panic of math/big.
pub data Placed : Type 0 where
  placed : Interval → Placed
  no_room panics : Placed

-- bits.Len64, by at most 64 halvings.
unfoldable pub len64 : ℕ → ℕ → ℕ
len64 zero n = 0
len64 (suc f) n = let rest = len64 f (n / 2) in if n == 0 then 0 else suc rest

unfoldable pub block_size : ℕ → ℕ
unfolding len64
block_size size = if leb size 1 then 1 else 2 ^ len64 64 (size - 1)

unfoldable pub align_up : ℕ → ℕ → ℕ
align_up value block =
    let remainder = value % block in if remainder == 0 then value else value + (block - remainder)

pub fit_start : Alignment → ℕ → ℕ → ℕ
fit_start align_any size start = start
fit_start align_power_of_two size start = align_up start (block_size size)

abbrev pub interval_of : Option Addr → Option Addr → Placed
interval_of (some lo) (some hi) = placed (record { lo = lo; hi = hi })
interval_of _ _ = panics

pub fit : Addr → Addr → ℕ → Alignment → Placed
fit lo hi size align =
    if not (is_valid lo) || not (is_valid hi) || addr_lt hi lo
    then no_room
    else let start = fit_start align size (addr_int lo) in
      let end = start + (size - 1) in
      if ltb (addr_int hi) end
      then no_room
      else interval_of (int_addr start (is4 lo)) (int_addr end (is4 lo))

pub clip : Interval → Addr → Addr → Option Interval
clip taken lo hi =
    let from = unmap taken.lo in
    let to = unmap taken.hi in
    if not (is_valid from) || not (is_valid to) || addr_lt to from
    then none
    else if addr_lt to lo || addr_lt hi from
    then none
    else some (record {
      lo = if addr_lt from lo then lo else from;
      hi = if addr_lt hi to then hi else to;
    })

-- The first loop of FirstGap.
pub keep : Option Interval → List Interval → List Interval
keep none busy = busy
keep (some clipped) busy = clipped ∷ busy

pub clip_all : List Interval → Addr → Addr → List Interval
unfolding keep
clip_all [] lo hi = []
clip_all (taken ∷ occupied) lo hi = keep (clip taken lo hi) (clip_all occupied lo hi)

-- slices.SortFunc by the low end.
pub insert_by_lo : Interval → List Interval → List Interval
insert_by_lo x [] = x ∷ []
insert_by_lo x (y ∷ ys) = if addr_lt y.lo x.lo then y ∷ insert_by_lo x ys else x ∷ y ∷ ys

pub sort_by_lo : List Interval → List Interval
sort_by_lo [] = []
sort_by_lo (x ∷ xs) = insert_by_lo x (sort_by_lo xs)

-- What the body of the loop finds before `taken`.
pub before_taken : Addr → Interval → ℕ → Alignment → Placed
before_taken cursor taken size align =
    if addr_lt cursor taken.lo then fit cursor (prev taken.lo) size align else no_room

pub past_taken : Addr → Interval → Addr
past_taken cursor taken = if addr_lt taken.hi cursor then cursor else next taken.hi

-- A round of the second loop: what the gap before `taken` gave, whether the cursor has then left the
-- parent, and what the rest of the loop gives.
pub round : Placed → Bool → Placed → Placed
round (placed found) left rest = placed found
round panics left rest = panics
round no_room left rest = if left then no_room else rest

-- The second loop of FirstGap, and the `fit` behind it.
pub walk : Addr → Addr → ℕ → Alignment → List Interval → Placed
unfolding round
walk cursor hi size align [] = fit cursor hi size align
walk cursor hi size align (taken ∷ busy) =
    let cursor' = past_taken cursor taken in
    round (before_taken cursor taken size align) (not (is_valid cursor') || addr_lt hi cursor')
      (walk cursor' hi size align busy)

pub walk_from : Addr → Option Addr → List Interval → ℕ → Alignment → Placed
walk_from lo none occupied size align = panics
walk_from lo (some hi) occupied size align =
    walk lo hi size align (sort_by_lo (clip_all occupied lo hi))

pub first_gap : Prefix → List Interval → ℕ → Alignment → Placed
first_gap parent occupied size align =
    let network = masked parent in
    if not (prefix_valid parent) || size == 0
    then no_room
    else walk_from (unmap network.addr) (last_addr network) occupied size align
