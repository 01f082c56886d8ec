-- ===== src/Deletion/Backoff.antt =====
-- The schedule of refused deletes: protectedBackoff and deletionHold of
-- internal/reconciler/finalizer.go.
use netbox_operator.Common.{
  ℕ, zero, suc, refl, ◌+◌, ◌-◌, ◌*◌, ◌%◌, ◌^◌, ◌<◌, ◌≤◌, ◌≡◌, ◌↔◌, Bool, Option, none, some, arith,
  ltb, leb, ◌==◌, ◌||◌, if◌then◌else◌,
}
use netbox_operator.Errors.{second}
use native.Mathlib.Nat.{pow-suc}

abbrev pub protected_retry_base : ℕ
protected_retry_base = 2 * second

abbrev pub protected_retry_cap : ℕ
protected_retry_cap = 300 * second

abbrev pub protected_backoff_shift_cap : ℕ
protected_backoff_shift_cap = 16

-- ++ and - 1 on an int32, and its signs.
unfoldable pub int32_inc : ℕ → ℕ
int32_inc a = (a + 1) % 2 ^ 32

unfoldable pub int32_dec : ℕ → ℕ
int32_dec a = (a + (2 ^ 32 - 1)) % 2 ^ 32

unfoldable pub int32_negative : ℕ → Bool
int32_negative a = leb (2 ^ 31) a

unfoldable pub protected_backoff : ℕ → ℕ
protected_backoff attempts =
    let shift = if int32_negative (int32_dec attempts) then 0 else int32_dec attempts in
    if leb protected_backoff_shift_cap shift
    then protected_retry_cap
    else let wait = protected_retry_base * 2 ^ shift in
      if ltb wait protected_retry_cap then wait else protected_retry_cap

-- What is left of the backoff, if the pass must send nothing.
unfoldable pub deletion_hold : ℕ → Option ℕ → ℕ → Option ℕ
deletion_hold attempts none now = none
deletion_hold attempts (some last) now =
    if int32_negative attempts || attempts == 0
    then none
    else if ltb now last
    then none
    else if ltb (now - last) (protected_backoff attempts)
    then some (protected_backoff attempts - (now - last))
    else none

-- The wait after the refusal that `n` others came before: it doubles, up to the cap.
pub doubled : ℕ → ℕ
doubled zero = protected_retry_base
doubled (suc n) =
    let wait = doubled n in
    if ltb (2 * wait) protected_retry_cap then 2 * wait else protected_retry_cap

abbrev wait_at : ℕ → ℕ
wait_at shift =
    if leb protected_backoff_shift_cap shift
    then protected_retry_cap
    else let wait = protected_retry_base * 2 ^ shift in
      if ltb wait protected_retry_cap then wait else protected_retry_cap

pub wait_at-doubled : (n : ℕ) → wait_at n ≡ doubled n
unfolding doubled
wait_at-doubled zero = refl
wait_at-doubled (suc n) =
    let double : 2 ^ suc n ≡ 2 * 2 ^ n = omega (arith, pow-suc 2 n) in
    let last : n ≡ 15 → 2 ^ n ≡ 32768 = λ h. rw h refl in
    ground (arith, wait_at-doubled n, double, last)

pub doubled-bounds :
    (n : ℕ) → (protected_retry_base ≤ doubled n) × (doubled n ≤ protected_retry_cap)
unfolding doubled
doubled-bounds zero = (omega arith, omega arith)
doubled-bounds (suc n) = ground (arith, doubled-bounds n)

-- The backoff after `n + 1` refused deletes, as far as an int32 counts them.
protected_backoff-doubled : (n : ℕ) → n + 1 < 2 ^ 31 → protected_backoff (n + 1) ≡ doubled n
unfolding protected_backoff int32_dec int32_negative
protected_backoff-doubled n h =
    let dec : (n + 1 + (2 ^ 32 - 1)) % 2 ^ 32 ≡ n = omega arith in
    ground (arith, wait_at-doubled n, dec)

protected_backoff-bounds :
    (attempts : ℕ)
    → (protected_retry_base ≤ protected_backoff attempts)
      × (protected_backoff attempts ≤ protected_retry_cap)
unfolding protected_backoff
protected_backoff-bounds attempts =
    let shift = if int32_negative (int32_dec attempts) then 0 else int32_dec attempts in
    ground (arith, wait_at-doubled shift, doubled-bounds shift)

pub protected_backoff-positive : (attempts : ℕ) → 0 < protected_backoff attempts
protected_backoff-positive attempts = omega (arith, protected_backoff-bounds attempts)

-- deletionHold holds a pass exactly if a delete was refused, not in the future, less than the
-- backoff ago; it holds for the rest.
deletion_hold_iff :
    (attempts last now wait : ℕ)
    → attempts < 2 ^ 32
    → (deletion_hold attempts (some last) now ≡ some wait) ↔ (
        (0 < attempts)
        × (attempts < 2 ^ 31)
        × (last ≤ now)
        × (0 < wait)
        × (now + wait ≡ last + protected_backoff attempts))
unfolding deletion_hold int32_negative
deletion_hold_iff attempts last now wait h = ground arith
