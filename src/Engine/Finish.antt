-- ===== src/Engine/Finish.antt =====
-- internal/reconciler/status.go: the end of a pass (finish), recordID and Jitter. What materialise
-- waits for, and whether the status changed, are arguments; the counters of a pass are left out.
use mathlib.Core.Path.{subst}
use netbox_operator.Common.{
  ℕ, zero, suc, ◌+◌, ◌-◌, ◌*◌, ◌/◌, ◌^◌, ◌≤◌, ◌<◌, ◌≡◌, ◌≢◌, ◌⊎◌, inl, inr, refl, Bool, true, false,
  not, ◌&&◌, ◌||◌, Option, none, some, ltb, ◌==◌, if-cases, if◌then◌else◌, Bool-cases, Option-cases,
  arith,
}
use netbox_operator.Common.Result.{Result, ok, err, Result-cases}

-- What UpdateStatus answers: written, a conflict, or another error.
pub data StatusWrite : Type 0 where
  status_written stale write_failed : StatusWrite

-- Why a finish fails: no writer is wired, the id was not taken, or the status was not.
pub data FinishFailure : Type 0 where
  no_id_writer id_refused status_refused : FinishFailure

-- What a finish reads: how the status is written, how an id is recorded past it, `none` where no
-- writer is wired, and rand.Int64N.
pub record Writers : Type 0 where
  pub update_status : StatusWrite
  pub record_id : Option (ℕ → Bool)
  pub random : ℕ → ℕ

abbrev pub stale_retry : ℕ
stale_retry = 10 ^ 9

-- The id of the status that was written, the id that was recorded past it, and the wait or an error.
pub record Finished : Type 0 where
  pub written : Option ℕ
  pub recorded : Option ℕ
  pub answer : Result FinishFailure ℕ

-- A duration that is not negative.
unfoldable pub jitter : (ℕ → ℕ) → ℕ → ℕ
jitter random d = if d / 5 == 0 then d else d - d / 5 / 2 + random (d / 5)

-- recordID: nothing to record, or the id, or an error.
abbrev pub taken : ℕ → Bool → Result FinishFailure (Option ℕ)
taken id true = ok (some id)
taken id false = err id_refused

unfoldable pub record_new : Writers → ℕ → Result FinishFailure (Option ℕ)
record_new w zero = ok none
record_new w (suc id) = elim w.record_id [
  | none ↦ err no_id_writer
  | some writer ↦ taken (suc id) (writer (suc id))
]

abbrev pub after_stale : Writers → Result FinishFailure (Option ℕ) → Finished
after_stale w (err e) = record { written = none; recorded = none; answer = err e }
after_stale w (ok id) = record {
  written = none;
  recorded = id;
  answer = ok (jitter w.random stale_retry);
}

abbrev pub after_failure : Result FinishFailure (Option ℕ) → Finished
after_failure (err e) = record { written = none; recorded = none; answer = err e }
after_failure (ok id) = record { written = none; recorded = id; answer = err status_refused }

abbrev pub after_update : Writers → ℕ → ℕ → ℕ → StatusWrite → Finished
after_update w id new_id wait status_written = record {
  written = some id;
  recorded = none;
  answer = ok (jitter w.random wait);
}
after_update w id new_id wait stale = after_stale w (record_new w new_id)
after_update w id new_id wait write_failed = after_failure (record_new w new_id)

-- The wait of what materialise still has to do, where that is sooner.
abbrev pub sooner : ℕ → ℕ → ℕ
sooner wait requeue =
    if not (wait == 0) && (requeue == 0 || ltb wait requeue) then wait else requeue

-- `before` and `id` are the ids of the status at the start and at the end of the pass; `same`: the
-- rest of the status is the one that the pass began with and no column was observed.
unfoldable pub finish : Writers → ℕ → ℕ → Bool → ℕ → ℕ → ℕ → Finished
finish w before id same new_id wait requeue =
    if same && (before == id)
    then record {
      written = none;
      recorded = none;
      answer = ok (jitter w.random (sooner wait requeue));
    }
    else after_update w id new_id (sooner wait requeue) w.update_status

-- newID, for a response with an id.
unfoldable pub new_id_of : ℕ → ℕ → ℕ
new_id_of before id = if id == before then 0 else id

-- Within a tenth of a duration.
abbrev pub Near : ℕ → ℕ → Type 0
Near d wait = (9 * d ≤ 10 * wait) × (10 * wait ≤ 11 * d)

jitter-Near :
    (random : ℕ → ℕ) (d : ℕ)
    → ((bound : ℕ) → bound ≢ 0 → random bound < bound)
    → Near d (jitter random d)
unfolding jitter
jitter-Near random d below = elim (Bool-cases (d / 5 == 0)) [
  | inl t ↦ rw t (omega arith, omega arith)
  | inr t ↦
      let nonzero : d / 5 ≢ 0 = λ e. ground (arith, e, t) in
      let drawn = below (d / 5) nonzero in rw t (omega (arith, drawn), omega (arith, drawn))
]

-- The custom resource has the id: it had it before, with the status that is written, or on its own.
abbrev pub Kept : ℕ → ℕ → Finished → Type 0
Kept before id f = (before ≡ id) ⊎ (f.written ≡ some id) ⊎ (f.recorded ≡ some id)

-- What an answer `wait` says of a finish that was given the wait `d`.
abbrev pub Concluded : ℕ → ℕ → ℕ → ℕ → Finished → Type 0
Concluded before id d wait f = Kept before id f × (Near d wait ⊎ Near stale_retry wait)

record_new-ok :
    (w : Writers) (id : ℕ) (r : Option ℕ) → record_new w id ≡ ok r → (id ≡ 0) ⊎ (r ≡ some id)
unfolding record_new
record_new-ok w zero r e = inl refl
record_new-ok w (suc id) r e = elim (Option-cases w.record_id) [
  | inl absent ↦ inr (cc (e, absent))
  | inr (writer, present) ↦ elim (Bool-cases (writer (suc id))) [
    | inl t ↦ inr (cc (e, present, t))
    | inr f ↦ inr (cc (e, present, f))
  ]
]

module _ (w : Writers) (below : (bound : ℕ) → bound ≢ 0 → w.random bound < bound) where
  jittered-Near :
      (d wait : ℕ) (answer : Result FinishFailure ℕ)
      → answer ≡ ok (jitter w.random d)
      → answer ≡ ok wait
      → Near d wait
  jittered-Near d wait answer jittered e =
      subst (λ (t : ℕ). Near d t) ((let same : jitter w.random d ≡ wait = cc (jittered, e) in same))
        (jitter-Near w.random d below)

  module _ (before id : ℕ) (minted : id ≢ 0) where
    new_id-Kept :
        (r : Option ℕ) → record_new w (new_id_of before id) ≡ ok r → (before ≡ id) ⊎ (r ≡ some id)
    unfolding new_id_of
    new_id-Kept r e = elim (Bool-cases (id == before)) [
      | inl t ↦ inl (ground (arith, t))
      | inr f ↦ elim (record_new-ok w id r (rw f at e)) [
        | inl zero_id ↦ absurd (minted zero_id)
        | inr recorded ↦ inr recorded
      ]
    ]

    after_stale-Concluded :
        (d wait : ℕ) (r : Result FinishFailure (Option ℕ))
        → record_new w (new_id_of before id) ≡ r
        → (after_stale w r).answer ≡ ok wait
        → Concluded before id d wait (after_stale w r)
    after_stale-Concluded d wait (ok recorded) e answered = (
      elim (new_id-Kept recorded e) [ inl had ↦ inl had | inr now ↦ inr (inr now) ],
      inr (jittered-Near stale_retry wait (ok (jitter w.random stale_retry)) refl answered),
    )
    after_stale-Concluded d wait (err e') e answered = absurd ground (arith, answered)

    after_update-Concluded :
        (d wait : ℕ) (s : StatusWrite)
        → (after_update w id (new_id_of before id) d s).answer ≡ ok wait
        → Concluded before id d wait (after_update w id (new_id_of before id) d s)
    after_update-Concluded d wait status_written e =
        (inr (inl refl), inl (jittered-Near d wait (ok (jitter w.random d)) refl e))
    after_update-Concluded d wait stale e =
        after_stale-Concluded d wait (record_new w (new_id_of before id)) refl e
    after_update-Concluded d wait write_failed e =
        elim (Result-cases (record_new w (new_id_of before id))) [
          | inl (r, t) ↦ absurd ground (arith, e, t)
          | inr (r, t) ↦ absurd ground (arith, e, t)
        ]

    pub finish-Concluded :
        (same : Bool) (wait requeue v : ℕ)
        → (finish w before id same (new_id_of before id) wait requeue).answer ≡ ok v
        → Concluded before id
            (sooner wait requeue)
            v
            (finish w before id same (new_id_of before id) wait requeue)
    unfolding finish
    finish-Concluded same wait requeue v =
        if-cases (λ (f : Finished). f.answer ≡ ok v → Concluded before id (sooner wait requeue) v f)
          (same && (before == id)) _ _
          (λ t e. (
            inl (ground (arith, t)),
            inl (
                jittered-Near (sooner wait requeue) v (ok (jitter w.random (sooner wait requeue)))
                  refl e),
          ))
          (λ f e. after_update-Concluded (sooner wait requeue) v w.update_status e)
