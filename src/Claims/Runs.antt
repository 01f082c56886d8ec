-- ===== src/Claims/Runs.antt =====
-- Passes over a claim one after the other, and the objects in NetBox that carry its identity.
use netbox_operator.Common.{
  ℕ, suc, ◌+◌, ◌≤◌, ◌≡◌, ◌⊎◌, inl, inr, refl, String, some, List, [], ◌∷◌, All, arith,
}
use netbox_operator.Json.{Object}
use netbox_operator.Engine.Inputs.{nothing}
use package.netbox_operator.Claims.{reconcile}
use package.netbox_operator.Claims.Inputs.{
  Claim, ClaimDescriptor, ClaimEndpoint, Allocator, World, ClaimEffect, posted, deleted,
  finalizers_written, normal, warning,
}
use package.netbox_operator.Claims.Pool.{identity_params}
use package.netbox_operator.Claims.Payload.{IsApart}
use package.netbox_operator.Claims.Harmless.{IsHarmless}
use package.netbox_operator.Claims.Allowed.{OneWrite, IsIdentity}
use package.netbox_operator.Claims.Once.{MayWrite, reconcile-OneWrite}

unfoldable pub posts : List ClaimEffect → ℕ
posts [] = 0
posts (posted endpoint id sub payload ∷ xs) = suc (posts xs)
posts (deleted id ∷ xs) = posts xs
posts (finalizers_written b ∷ xs) = posts xs
posts (normal event ∷ xs) = posts xs
posts (warning event ∷ xs) = posts xs

-- What a pass knows of the claim and of NetBox: the claim has the identity, the fields that its kind
-- requests are not the custom fields, and a search for the identity that finds nothing says that
-- none of the `n` objects which carry it is there.
pub record Informed (identity : String) (n : ℕ) (w : World) (c : Claim) : Type 0 where
  pub same_identity :
      (d : ClaimDescriptor) (e : ClaimEndpoint) (a : Allocator) (found : String)
      → w.desc ≡ some d
      → w.endpoints c.namespace c.endpoint_ref ≡ some e
      → e.allocator ≡ some a
      → IsIdentity w d e a c found
      → found ≡ identity
  pub apart : (d : ClaimDescriptor) → w.desc ≡ some d → IsApart d.request_fields
  pub honest :
      (d : ClaimDescriptor) (e : ClaimEndpoint)
      → w.endpoints c.namespace c.endpoint_ref ≡ some e
      → e.client.get_one (identity_params w d e identity) ≡ nothing
      → n ≡ 0

-- The number of objects that carry the identity, over a pass whose POST may be lost or its answer,
-- and over what others take away.
pub data Step (identity : String) : ℕ → ℕ → Type 0 where
  pass :
      {n m : ℕ} (w : World) (c : Claim)
      → Informed identity n w c
      → m ≤ n + posts (reconcile w c).effects
      → Step identity n m
  removed : {n m : ℕ} → m ≤ n → Step identity n m

pub data Run (identity : String) (n : ℕ) : ℕ → Type 0 where
  here : Run identity n n
  next : {m k : ℕ} → Run identity n m → Step identity m k → Run identity n k

harmless-posts : (xs : List ClaimEffect) → All IsHarmless xs → posts xs ≡ 0
unfolding posts
harmless-posts [] h = refl
harmless-posts (posted endpoint id sub payload ∷ xs) h = absurd h.0
harmless-posts (deleted id ∷ xs) h = absurd h.0
harmless-posts (finalizers_written b ∷ xs) h = harmless-posts xs h.1
harmless-posts (normal event ∷ xs) h = harmless-posts xs h.1
harmless-posts (warning event ∷ xs) h = harmless-posts xs h.1

module _ (identity : String) (n : ℕ) (w : World) (c : Claim)
    (informed : Informed identity n w c) where
  MayWrite-none :
      (endpoint : String) (id : ℕ) (sub : String) (payload : Object)
      → MayWrite w c (posted endpoint id sub payload)
      → n ≡ 0
  MayWrite-none endpoint id sub payload (_, _, _, (d, e, known, found, allocatable)) =
      let (a, identity', wired, _, _, mine, free, _, _) = allocatable in
      let same : identity' ≡ identity =
        informed.same_identity d e a identity' known found wired mine in
      informed.honest d e found (rw same at free)

  posts-OneWrite :
      (xs : List ClaimEffect)
      → OneWrite (MayWrite w c) xs
      → (posts xs ≡ 0) ⊎ ((posts xs ≡ 1) × (n ≡ 0))
  unfolding posts
  posts-OneWrite [] h = inl refl
  posts-OneWrite (posted endpoint id sub payload ∷ xs) (inl (plain, h)) = absurd plain
  posts-OneWrite (posted endpoint id sub payload ∷ xs) (inr (may, plain)) =
      let quiet = harmless-posts xs plain in
      inr (omega (arith, quiet), MayWrite-none endpoint id sub payload may)
  posts-OneWrite (deleted id ∷ xs) (inl (plain, h)) = absurd plain
  posts-OneWrite (deleted id ∷ xs) (inr (may, plain)) = inl (harmless-posts xs plain)
  posts-OneWrite (finalizers_written b ∷ xs) (inl (plain, h)) = posts-OneWrite xs h
  posts-OneWrite (finalizers_written b ∷ xs) (inr (may, plain)) = absurd may
  posts-OneWrite (normal event ∷ xs) (inl (plain, h)) = posts-OneWrite xs h
  posts-OneWrite (normal event ∷ xs) (inr (may, plain)) = absurd may
  posts-OneWrite (warning event ∷ xs) (inl (plain, h)) = posts-OneWrite xs h
  posts-OneWrite (warning event ∷ xs) (inr (may, plain)) = absurd may

  -- One pass leaves at most one object, if there was at most one.
  pass-le : (m : ℕ) → n ≤ 1 → m ≤ n + posts (reconcile w c).effects → m ≤ 1
  pass-le m few more =
      elim (posts-OneWrite (reconcile w c).effects (reconcile-OneWrite w c informed.apart)) [
        | inl none ↦ omega arith
        | inr (one, empty) ↦ omega arith
      ]

Step-le : {identity : String} {n m : ℕ} → Step identity n m → n ≤ 1 → m ≤ 1
Step-le {identity} {n} {m} (pass w c informed more) few = pass-le identity n w c informed m few more
Step-le (removed fewer) few = omega arith

-- Over any sequence of passes over a claim, whatever of their POSTs, answers and status writes is
-- lost, at most one object carries its identity, if at most one did before and the searches and the
-- identity are those of a step.
pub run_keeps_one : {identity : String} {n m : ℕ} → n ≤ 1 → Run identity n m → m ≤ 1
run_keeps_one few here = few
run_keeps_one few (next run step) = Step-le step (run_keeps_one few run)
