-- ===== src/Placement/Netip.antt =====
-- The addresses of net/netip as internal/netbox/placement.go uses them, and its conversions to and
-- from big integers. An address is its bit length (0 for the zero `Addr`, which is not valid, 32 or
-- 128) and its value; zones, which no address of NetBox carries, are left out.
use netbox_operator.Common.{
  ℕ, ◌+◌, ◌-◌, ◌*◌, ◌/◌, ◌%◌, ◌^◌, Bool, not, ◌&&◌, ◌||◌, Option, none, some, ltb, leb, ◌==◌,
  if◌then◌else◌,
}

pub record Addr : Type 0 where
  pub bits : ℕ
  pub value : ℕ

-- The zero `Addr`.
abbrev pub no_addr : Addr
no_addr = record { bits = 0; value = 0 }

-- Addr.IsValid
abbrev pub is_valid : Addr → Bool
is_valid a = not (a.bits == 0)

-- Addr.Is4
abbrev pub is4 : Addr → Bool
is4 a = a.bits == 32

-- Addr.Compare(b) < 0: by bit length first, then by value.
abbrev pub addr_lt : Addr → Addr → Bool
addr_lt a b = ltb a.bits b.bits || (a.bits == b.bits && ltb a.value b.value)

-- Addr.Next, the zero `Addr` past the last address of the family.
abbrev pub next : Addr → Addr
next a = if leb (2 ^ a.bits) (a.value + 1) then no_addr else record a { value = a.value + 1 }

-- Addr.Prev, the zero `Addr` before the first address of the family.
abbrev pub prev : Addr → Addr
prev a = if a.value == 0 then no_addr else record a { value = a.value - 1 }

-- Addr.Unmap: an IPv4-mapped IPv6 address, `::ffff:0:0/96`, is the IPv4 address in it.
unfoldable pub unmap : Addr → Addr
unmap a =
    if a.bits == 128 && (a.value / 2 ^ 32 == 0xffff)
    then record { bits = 32; value = a.value % 2 ^ 32 }
    else a

unfoldable pub addr_int : Addr → ℕ
addr_int a = (unmap a).value

-- `FillBytes` panics, here `none`, where the value does not fit the width.
unfoldable pub int_addr : ℕ → Bool → Option Addr
int_addr value four =
    let width = if four then 32 else 128 in
    if ltb value (2 ^ width) then some (record { bits = width; value = value }) else none

-- netip.Prefix
pub record Prefix : Type 0 where
  pub addr : Addr
  pub length : ℕ

-- Prefix.IsValid: a prefix is built only with at most as many bits as its address has.
abbrev pub prefix_valid : Prefix → Bool
prefix_valid p = is_valid p.addr && leb p.length p.addr.bits

-- Prefix.Masked: the host bits are cleared.
unfoldable pub masked : Prefix → Prefix
masked p =
    let block = 2 ^ (p.addr.bits - p.length) in
    record p { addr = record { bits = p.addr.bits; value = p.addr.value / block * block } }

-- `mask | value` for `mask` of `h` ones sets the low `h` bits. Where the prefix has more bits than
-- the unmapped address, the difference is negative and wraps round to a shift that `Lsh` panics on.
unfoldable pub last_addr : Prefix → Option Addr
last_addr p =
    let addr = unmap p.addr in
    let block = 2 ^ (addr.bits - p.length) in
    if leb p.length addr.bits
    then int_addr (addr_int addr / block * block + (block - 1)) (is4 addr)
    else none

-- Prefix.Contains: an address of the same family with the same leading bits.
unfoldable pub prefix_contains : Prefix → Addr → Bool
prefix_contains p a =
    let block = 2 ^ (p.addr.bits - p.length) in
    prefix_valid p && p.addr.bits == a.bits && (p.addr.value / block == a.value / block)
