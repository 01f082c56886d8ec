-- ===== src/Claims/Tests/Deleted.antt =====
-- Passes over a deleted claim whose endpoint is not ready, and the theorems at them.
use netbox_operator.Common.{ℕ, zero, suc, ◌*◌, ◌^◌, ◌≡◌, inl, refl, true, false, none, arith}
use netbox_operator.Claims.{reconcile}
use netbox_operator.Claims.Inputs.{Claim, World}
use netbox_operator.Claims.GivesUp.{IsTaking, Passes, none_yet, one_more, deletion_gives_up}
use netbox_operator.Claims.Tries.{Refusals, none_refused, refused_again, refused-tries}
use netbox_operator.Claims.Tests.{world, address_kind, no_status, claim, opened}

abbrev deleted_claim : Claim
deleted_claim = record claim {
  deleting = true;
  finalizer = true;
  allocated = "10.0.0.7/24";
  status = record no_status { netbox_id = 9 };
}

-- No endpoint is ready, and each pass is long after the one before.
abbrev late : ℕ → World
late n = record world { now = n * 10 ^ 12; endpoints = λ namespace name. none }

taking : IsTaking world
taking = (λ c. true, refl, λ c. refl)

chain : ℕ → Claim
unfolding opened
chain zero = deleted_claim
chain (suc n) = (reconcile (late (suc n)) (chain n)).claim

eleven : Passes 11 deleted_claim (chain 11)
unfolding opened chain
eleven =
    (one_more
      (one_more
        (one_more
          (one_more
            (one_more
              (one_more
                (one_more
                  (one_more
                    (one_more
                      (one_more
                        (one_more (none_yet deleted_claim) (late 1) address_kind refl taking refl)
                        (late 2) address_kind refl taking refl)
                      (late 3) address_kind refl taking refl)
                    (late 4) address_kind refl taking refl)
                  (late 5) address_kind refl taking refl)
                (late 6) address_kind refl taking refl)
              (late 7) address_kind refl taking refl)
            (late 8) address_kind refl taking refl)
          (late 9) address_kind refl taking refl)
        (late 10) address_kind refl taking refl)
      (late 11) address_kind refl taking refl)

deletion_gives_up_example : (chain 11).finalizer ≡ false
deletion_gives_up_example = deletion_gives_up eleven refl refl (omega arith)

ten : Refusals 10 deleted_claim (chain 10)
unfolding opened chain
ten =
    refused_again
      (refused_again
        (refused_again
          (refused_again
            (refused_again
              (refused_again
                (refused_again
                  (refused_again
                    (refused_again
                      (refused_again (none_refused deleted_claim) (late 1) address_kind refl refl
                        refl (inl refl))
                      (late 2) address_kind refl refl refl (inl refl))
                    (late 3) address_kind refl refl refl (inl refl))
                  (late 4) address_kind refl refl refl (inl refl))
                (late 5) address_kind refl refl refl (inl refl))
              (late 6) address_kind refl refl refl (inl refl))
            (late 7) address_kind refl refl refl (inl refl))
          (late 8) address_kind refl refl refl (inl refl))
        (late 9) address_kind refl refl refl (inl refl))
      (late 10) address_kind refl refl refl (inl refl)

refused-tries_example : ((chain 10).finalizer ≡ true) × ((chain 10).status.deletion_attempts ≡ 10)
refused-tries_example = refused-tries ten refl refl refl (omega arith)
