-- ===== src/Errors/Client.antt =====
-- internal/netbox/errors.go: the typed errors of the client and how a response becomes one.
use netbox_operator.Common.{
  ℕ, ◌≡◌, ◌≤◌, ◌⊎◌, ◌↔◌, String, Bool, true, false, ◌||◌, arith, leb, ◌==◌, if◌then◌else◌,
}

-- The retry delay is 0 where the header has no positive one.
pub data NetboxError : Type 0 where
  validation auth protected transient : ℕ → NetboxError
  not_found ambiguous truncated contended exhausted : NetboxError
  rate_limit : ℕ → NetboxError

unfoldable pub retryable : NetboxError → Bool
retryable (transient status) = true
retryable (rate_limit after) = true
retryable _ = false

-- A response of the server: its status, the delay that its header asks for, and its body
-- without the blanks around it.
pub record Response : Type 0 where
  pub status : ℕ
  pub retry_after : ℕ
  pub body : String

-- strings.ToLower and strings.Contains
module _ (to_lower : String → String) (text_contains : String → String → Bool) where
  unfoldable pub is_protected : String → Bool
  is_protected body =
      let lower = to_lower body in
      text_contains lower "protected foreign key"
      || text_contains lower "protected objects"
      || text_contains lower "cannot delete some instances"

  unfoldable pub classify_response : Response → NetboxError
  classify_response r =
      if r.status == 401 || r.status == 403
      then auth r.status
      else if r.status == 404
      then not_found
      else if r.status == 429
      then rate_limit r.retry_after
      else if r.status == 409 || is_protected r.body
      then protected r.status
      else if r.status == 400
      then validation r.status
      else if leb 500 r.status
      then transient r.status
      else validation r.status

  -- The error of a response is retryable exactly after a 429, or after a 5xx whose body names no
  -- protected relation.
  retryable_iff :
      (r : Response)
      → (retryable (classify_response r) ≡ true)
        ↔ ((r.status ≡ 429) ⊎ ((500 ≤ r.status) × (is_protected r.body ≡ false)))
  unfolding classify_response retryable
  retryable_iff r = ground arith
