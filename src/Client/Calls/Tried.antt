-- ===== src/Client/Calls/Tried.antt =====
-- internal/netbox/do.go: how often a call is tried, and how it ends.
use mathlib.Core.Path.{subst}
use netbox_operator.Common.{
  ℕ, zero, suc, ◌+◌, ◌≡◌, ◌≤◌, ◌<◌, ◌⊎◌, inl, inr, refl, Bool, true, false, All, length, Bool-cases,
  arith, if◌then◌else◌, ◌==◌, ==_iff, sym,
}
use netbox_operator.Common.Result.{ok, err}
use netbox_operator.Errors.Client.{
  NetboxError, validation, auth, protected, transient, not_found, ambiguous, truncated, contended,
  exhausted, rate_limit, retryable,
}
use package.netbox_operator.Client.Calls.{
  Setup, World, Request, Exchange, unsent, cut_off, broken, answered, netbox, gave_up, stopped,
  Answer, Call, attempt, jitter, retry_delay, unless_final, ended, tried, waited, retry, do_call,
  default_rate_limit_delay,
}

module _ (setup : Setup) (world : World) (start : ℕ) (request : Request) where
  abbrev pub attempted : ℕ → Answer
  attempted n = attempt setup world (world.exchange (start + n) request)

  -- The attempt failed for now.
  abbrev pub FailedFor : ℕ → NetboxError → Type 0
  FailedFor n e = (attempted n ≡ err (netbox e)) × (retryable e ≡ true)

  -- The attempt failed for now, and the wait after it ran to its end.
  abbrev pub Retried : ℕ → Type 0
  Retried n = ((e : NetboxError) × FailedFor n e) × (world.sleeps (start + suc n) ≡ true)

  -- The result of a call after its last attempt: that of the attempt, unless it failed for now; the
  -- same error after the last retry; or the end of the context during a wait.
  abbrev pub Final : ℕ → Answer → Type 0
  Final n answer =
      ((answer ≡ attempted n) × ((e : NetboxError) → FailedFor n e → ⊥))
      ⊎ ((e : NetboxError) × FailedFor n e
          × (((answer ≡ err (gave_up e)) × (n ≡ setup.max_retries))
              ⊎ ((answer ≡ err stopped) × (world.sleeps (start + suc n) ≡ false))))

  -- All that was sent is the request, at most once in each attempt.
  abbrev pub Sends : Call → Type 0
  Sends call = All (λ (sent : Request). sent ≡ request) call.sent × (length call.sent ≤ call.tries)

  tried-Sends :
      (exchange : Exchange) (rest : Call) → Sends rest → Sends (tried request exchange rest)
  tried-Sends unsent rest h = (h.0, omega (arith, h.1))
  tried-Sends cut_off rest h = ((refl, h.0), omega (arith, h.1))
  tried-Sends broken rest h = ((refl, h.0), omega (arith, h.1))
  tried-Sends (answered r body) rest h = ((refl, h.0), omega (arith, h.1))

  -- A call whose attempts begin with the number `n`.
  From : ℕ → Call → Type 0
  From n call =
      (k : ℕ) × (n ≤ k)
      × (k ≤ setup.max_retries)
      × ((j : ℕ) → n ≤ j → j < k → Retried j)
      × (call.tries + n ≡ suc k)
      × Final k call.answer
      × Sends call
      × All (λ (delay : ℕ). 0 < delay) call.waits

  attempts : ℕ → ℕ → Call
  attempts left n =
      let exchange = world.exchange (start + n) request in
      tried request exchange (
        unless_final (attempt setup world exchange) (λ e. retry setup world start request left n e))

  retry_delay-cases :
      (draw n : ℕ) (e : NetboxError)
      → ((after : ℕ) × (retry_delay setup world draw n e
            ≡ (if after == 0 then default_rate_limit_delay else after)))
        ⊎ (retry_delay setup world draw n e ≡ jitter setup world draw n)
  unfolding retry_delay
  retry_delay-cases draw n (rate_limit after) = inl (after, refl)
  retry_delay-cases draw n (validation s) = inr refl
  retry_delay-cases draw n (auth s) = inr refl
  retry_delay-cases draw n (protected s) = inr refl
  retry_delay-cases draw n (transient s) = inr refl
  retry_delay-cases draw n not_found = inr refl
  retry_delay-cases draw n ambiguous = inr refl
  retry_delay-cases draw n truncated = inr refl
  retry_delay-cases draw n contended = inr refl
  retry_delay-cases draw n exhausted = inr refl

  retry_delay-positive : (draw n : ℕ) (e : NetboxError) → 0 < retry_delay setup world draw n e
  unfolding retry_delay jitter
  retry_delay-positive draw n e = elim (retry_delay-cases draw n e) [
    | inl (f, p) ↦ rw p ground arith
    | inr p ↦ rw p (omega arith)
  ]

  -- An answer calls for a retry or ends the call.
  unless_final-cases :
      (answer : Answer)
      → ((e : NetboxError) × (answer ≡ err (netbox e)) × (retryable e ≡ true))
        ⊎ (((again : NetboxError → Call) → unless_final answer again ≡ ended answer)
            × ((e : NetboxError) → answer ≡ err (netbox e) → retryable e ≡ true → ⊥))
  unless_final-cases (ok body) = inr (λ again. refl, λ e p r. cc)
  unless_final-cases (err stopped) = inr (λ again. refl, λ e p r. cc)
  unless_final-cases (err (gave_up f)) = inr (λ again. refl, λ e p r. cc)
  unless_final-cases (err (netbox e)) = elim (Bool-cases (retryable e)) [
    | inl t ↦ inl (e, refl, t)
    | inr t ↦ inr (λ again. rw t refl, λ f p r. cc)
  ]

  unless_final-again :
      (answer : Answer) (e : NetboxError)
      → answer ≡ err (netbox e)
      → retryable e ≡ true
      → (again : NetboxError → Call) → unless_final answer again ≡ again e
  unless_final-again answer e p r again = rw p (rw r refl)

  From-ended :
      (n : ℕ) (answer : Answer) (exchange : Exchange)
      → n ≤ setup.max_retries
      → Final n answer
      → From n (tried request exchange (ended answer))
  unfolding From
  From-ended n answer exchange l f = (
    n,
    omega arith,
    l,
    λ j a b. absurd (omega (arith, a, b)),
    omega arith,
    f,
    tried-Sends exchange (ended answer) (tt, omega arith),
    tt,
  )

  From-again :
      (n : ℕ) (exchange : Exchange) (delay : ℕ) (rest : Call)
      → Retried n
      → 0 < delay
      → From (suc n) rest
      → From n (tried request exchange (waited true delay rest))
  unfolding From
  From-again n exchange delay rest r d (k, a, b, before, count, f, sends, waits) = (
    k,
    omega (arith, a),
    b,
    λ j l m. elim (Bool-cases (j == n)) [
      | inl t ↦ subst Retried (sym ((==_iff j n).0 t)) r
      | inr t ↦ before j ground arith m
    ],
    omega (arith, count),
    f,
    tried-Sends exchange (waited true delay rest) sends,
    (d, waits),
  )

  -- The steps after an attempt that failed for now, if what follows a retry is known.
  retry-From :
      (left n : ℕ) (e : NetboxError)
      → left + n ≡ setup.max_retries
      → FailedFor n e
      → ((less : ℕ) → left ≡ suc less → From (suc n) (attempts less (suc n)))
      → From n (
          tried request
            (world.exchange (start + n) request)
            (retry setup world start request left n e))
  unfolding retry attempts
  retry-From zero n e total failed next =
      From-ended n (err (gave_up e)) (world.exchange (start + n) request) (omega (arith, total))
        (inr (e, failed, inl (refl, omega (arith, total))))
  retry-From (suc left) n e total failed next =
      let exchange = world.exchange (start + n) request in
      let delay = retry_delay setup world (start + suc n) n e in
      let c = waited (world.sleeps (start + suc n)) delay (attempts left (suc n)) in
      elim (Bool-cases (world.sleeps (start + suc n))) [
        | inl t ↦
            subst
              (λ (b : Bool).
                From n (tried request exchange (waited b delay (attempts left (suc n)))))
              (sym t)
              (From-again n exchange delay (attempts left (suc n)) ((e, failed), t)
                (retry_delay-positive (start + suc n) n e) (next left refl))
        | inr t ↦
            subst
              (λ (b : Bool).
                From n (tried request exchange (waited b delay (attempts left (suc n)))))
              (sym t)
              (From-ended n (err stopped) exchange (omega (arith, total))
                (inr (e, failed, inr (refl, t))))
      ]

  attempt-From :
      (left n : ℕ)
      → left + n ≡ setup.max_retries
      → ((less : ℕ) → left ≡ suc less → From (suc n) (attempts less (suc n)))
      → From n (attempts left n)
  unfolding attempts
  attempt-From left n total next =
      let exchange = world.exchange (start + n) request in
      elim (unless_final-cases (attempted n)) [
        | inr (final, never) ↦
            subst (λ (c : Call). From n (tried request exchange c))
              (sym (final (λ e. retry setup world start request left n e)))
              (From-ended n (attempted n) exchange (omega (arith, total))
                (inl (refl, λ e f. never e f.0 f.1)))
        | inl (e, failed, cured) ↦
            subst (λ (c : Call). From n (tried request exchange c))
              (sym (
                unless_final-again (attempted n) e failed cured
                  (λ e. retry setup world start request left n e)))
              (retry-From left n e total (failed, cured) next)
      ]

  attempts-From : (left n : ℕ) → left + n ≡ setup.max_retries → From n (attempts left n)
  attempts-From zero n total = attempt-From zero n total (λ less e. absurd (omega (arith, e)))
  attempts-From (suc left) n total = attempt-From (suc left) n total (λ less e.
      let same : left ≡ less = omega (arith, e) in
      subst (λ (m : ℕ). From (suc n) (attempts m (suc n))) same
        (attempts-From left (suc n) (omega (arith, total))))

  -- A call makes at most one attempt more than the retries of the client, and waits for more than no
  -- time before each retry. Every attempt before the last failed with a retryable error, and the last
  -- one decides: its result is that of the call, unless it failed with a retryable error too and was
  -- the last that is allowed, or the context ended in the wait after it. No attempt sends anything
  -- but the request, or sends it more than once.
  pub do_call-Tried :
      (last : ℕ) × (last ≤ setup.max_retries)
      × ((n : ℕ) → n < last → Retried n)
      × ((do_call setup world start request).tries ≡ suc last)
      × Final last (do_call setup world start request).answer
      × Sends (do_call setup world start request)
      × All (λ (delay : ℕ). 0 < delay) (do_call setup world start request).waits
  unfolding do_call attempts From
  do_call-Tried =
      let (k, a, b, before, count, f, sends, waits) =
        attempts-From setup.max_retries 0 omega arith in
      (k, b, λ n l. before n omega arith l, omega (arith, count), f, sends, waits)
