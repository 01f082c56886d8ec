-- ===== src/Placement/Tests.antt =====
-- Runs of internal/netbox/placement.go, and its theorems at concrete inputs.
use netbox_operator.Common.{ℕ, ◌≡◌, refl, inl, List, [], ◌∷◌, arith}
use netbox_operator.Placement.Netip.{Addr, Prefix, masked, last_addr, unmap, addr_int, int_addr}
use netbox_operator.Placement.Scan.{Lowest}
use netbox_operator.Placement.Gap.{FreeStart, lo_of, hi_of, first_gap-Lowest, first_gap-panics}
use netbox_operator.Placement.{
  Alignment, Interval, Placed, placed, no_room, panics, align_any, align_power_of_two, block_size,
  first_gap, walk_from, walk, round, clip_all, clip, keep, sort_by_lo, insert_by_lo, before_taken,
  past_taken, fit, fit_start, align_up,
}

abbrev v4 : ℕ → Addr
v4 n = record { bits = 32; value = n }

abbrev run : ℕ → ℕ → Interval
run a b = record { lo = v4 a; hi = v4 b }

-- 10.0.30.0/24
abbrev pool : Prefix
pool = record { addr = v4 0x0a001e00; length = 24 }

-- Out of order, one from the IPv6 family, one that begins before the pool.
abbrev taken : List Interval
taken =
    run 0x0a001e14 0x0a001e1f
    ∷ record { lo = record { bits = 128; value = 1 }; hi = record { bits = 128; value = 9 } }
    ∷ run 0x0a001d00 0x0a001e09
    ∷ []

-- The line says what a run of FirstGap computes through.
gap_opened : Prefix → List Interval → ℕ → Alignment → Placed
unfolding first_gap walk_from walk round clip_all clip keep sort_by_lo insert_by_lo before_taken
    past_taken fit fit_start masked last_addr unmap addr_int int_addr align_up block_size
gap_opened = first_gap

first_gap_any : first_gap pool taken 8 align_any ≡ placed (run 0x0a001e0a 0x0a001e11)
unfolding gap_opened
first_gap_any = refl

first_gap_aligned : first_gap pool taken 8 align_power_of_two ≡ placed (run 0x0a001e20 0x0a001e27)
unfolding gap_opened
first_gap_aligned = refl

first_gap_full : first_gap pool taken 256 align_any ≡ no_room
unfolding gap_opened
first_gap_full = refl

first_gap-Lowest_example :
    Lowest 32 8
      (FreeStart (lo_of pool) (hi_of pool) taken 8 align_power_of_two)
      (first_gap pool taken 8 align_power_of_two)
first_gap-Lowest_example =
    first_gap-Lowest pool taken 8 align_power_of_two
      (record { family = inl refl; length = omega arith; fits = omega arith; plain = inl refl })
      (omega arith)

-- ::ffff:10.0.30.0/120
abbrev mapped_pool : Prefix
mapped_pool = record { addr = record { bits = 128; value = 0xffff0a001e00 }; length = 120 }

first_gap-panics_example : first_gap mapped_pool [] 8 align_any ≡ panics
unfolding masked
first_gap-panics_example =
    first_gap-panics mapped_pool [] 8 align_any refl refl (omega arith) (omega arith) (omega arith)
