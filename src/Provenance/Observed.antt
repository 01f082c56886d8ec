-- ===== src/Provenance/Observed.antt =====
-- How often a conflict is seen, and when that is said.
use netbox_operator.Common.{
  ℕ, suc, ◌+◌, ◌%◌, ◌^◌, ◌<◌, ◌≤◌, ◌≡◌, true, Option, none, some, List, [], ◌∷◌, ◌++◌, refl, arith,
  length, leb, ltb, ◌&&◌, if◌then◌else◌, eq_iff,
}
use netbox_operator.Provenance.{
  Conflict, ConflictStatus, Reason, foreign_cluster, foreign_owner, reason_eq, first_sight,
  observed_again, Warning, event_conflict, event_conflict_sustained, Reported, warnings,
  report_conflict,
}

-- Consecutive passes, at the given times, over an object that the same writer claims: the status at
-- the end, and the Events of all of them.
abbrev pub follow_up : (Option ConflictStatus → Reported) → Reported → Reported
follow_up rest one =
    let later = rest one.conflict in
    record { conflict = later.conflict; events = one.events ++ later.events }

pub repeated : Conflict → List ℕ → Option ConflictStatus → Reported
repeated found [] status = record { conflict = status; events = [] }
repeated found (now ∷ times) status =
    follow_up (repeated found times) (report_conflict status (some found) now)

-- The status of a conflict that was seen `n` times, first at `first`.
abbrev pub seen : Conflict → ℕ → ℕ → ConflictStatus
seen found n first = record {
  reason = found.reason;
  cluster_id = found.claim.cluster_id;
  owner = found.claim.owner;
  observations = n;
  first_observed = some first;
}

reason_eq_refl : (r : Reason) → reason_eq r r ≡ true
reason_eq_refl foreign_cluster = refl
reason_eq_refl foreign_owner = refl

pub observed_again-seen :
    (found : Conflict) (n first now : ℕ)
    → n + 1 < 2 ^ 31
    → observed_again (seen found n first) found now ≡ seen found (n + 1) first
unfolding observed_again first_sight
observed_again-seen found n first now h =
    let step : (n + 1) % 2 ^ 32 ≡ n + 1 = omega arith in
    rw
      (
        reason_eq_refl found.reason,
        (eq_iff found.claim.cluster_id found.claim.cluster_id).1 refl,
        (eq_iff found.claim.owner found.claim.owner).1 refl,
        step,
      )
      refl

-- The Events that are due after the count went from `n` to `m`.
abbrev pub due : ℕ → ℕ → List Warning
due n m = if ltb n 5 && leb 5 m then event_conflict_sustained ∷ [] else []

warnings-due : (n m : ℕ) → 0 < n → n + 1 ≤ m → warnings (n + 1) ++ due (n + 1) m ≡ due n m
unfolding warnings
warnings-due n m pos h = ground arith

pub repeated-seen :
    (found : Conflict) (times : List ℕ) (n first : ℕ)
    → 0 < n
    → n + length times < 2 ^ 31
    → repeated found times (some (seen found n first)) ≡ record {
      conflict = some (seen found (n + length times) first);
      events = due n (n + length times);
    }
unfolding repeated report_conflict
repeated-seen found [] n first pos h =
    let same : n + 0 ≡ n = omega arith in
    let nothing : due n n ≡ [] = ground arith in rw (same, nothing) refl
repeated-seen found (now ∷ times) n first pos h =
    let m = n + suc (length times) in
    let count : n + 1 + length times ≡ m = omega arith in
    let later : repeated found times (some (seen found (n + 1) first))
        ≡ record { conflict = some (seen found m first); events = due (n + 1) m } =
      rw⁻¹ count (repeated-seen found times (n + 1) first (omega arith) (omega (arith, h))) in
    rw
      (
        observed_again-seen found n first now (omega (arith, h)),
        later,
        warnings-due n m pos (omega arith),
      )
      refl

-- Over consecutive passes that find the same claim where the status had none, the count is the number
-- of passes and the first time stays; Conflict is said at the first pass only, ConflictSustained at
-- the fifth only; for less than 2 ^ 31 passes.
pub repeated_lem :
    (found : Conflict) (now : ℕ) (times : List ℕ)
    → 1 + length times < 2 ^ 31
    → repeated found (now ∷ times) none ≡ record {
      conflict = some (seen found (1 + length times) now);
      events = event_conflict ∷ due 1 (1 + length times);
    }
unfolding repeated report_conflict warnings first_sight
repeated_lem found now times h = rw (repeated-seen found times 1 now (omega arith) h) refl
