-- ===== src/Allocation/Tests.antt =====
-- The theorems on placeRange at concrete inputs.
use netbox_operator.Common.{true, false, some, [], length}
use netbox_operator.Placement.{align_any}
use netbox_operator.Placement.Netip.{Prefix}
use netbox_operator.Allocation.{Service, overlapping, place_range}
use netbox_operator.Allocation.Attempts.{Fits, place_range-Fits}

-- 10.0.30.0/24
abbrev pool : Prefix
pool = record { addr = record { bits = 32; value = 0x0a001e00 }; length = 24 }

-- Somebody else is always first.
abbrev crowded : Service
crowded = record {
  list = λ attempt. some [];
  post = λ attempt i. overlapping;
  sleep = λ attempt. true;
}

place_range-Fits_example :
    Fits
      (place_range crowded pool false 8 align_any).answer
      (length (place_range crowded pool false 8 align_any).posts)
place_range-Fits_example = place_range-Fits crowded pool false 8 align_any
