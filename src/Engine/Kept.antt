-- ===== src/Engine/Kept.antt =====
-- internal/reconciler/generic.go, status.go: what becomes of the id that NetBox answers to a write.
use netbox_operator.Common.{ℕ, ◌<◌, ◌≡◌, ◌≢◌, refl, Bool, false, Option, some}
use netbox_operator.Common.Result.{ok}
use netbox_operator.Json.{Object, object_id}
use netbox_operator.Client.{suppressed as is_suppressed}
use netbox_operator.Engine.{or_nil, apply_write}
use netbox_operator.Engine.Inputs.{Status, Setting}
use netbox_operator.Engine.Finish.{
  Writers, Finished, Concluded, finish, sooner, new_id_of, finish-Concluded,
}

module _ (p : Setting) (live : Option Object) (desired : Object) (status : Status) where
  -- The finish of a pass that began with the id `before` and ends with this response to its write.
  abbrev pub write_and_finish : Option Object → Writers → ℕ → ℕ → Bool → ℕ → ℕ → Finished
  write_and_finish written w before id same wait requeue =
      finish w before (apply_write p live desired status written).status.id same
        (new_id_of before id) wait requeue

  apply_write-id :
      (written : Option Object) (id : ℕ)
      → is_suppressed (or_nil written) ≡ false
      → object_id p.go (or_nil written) ≡ some id
      → (apply_write p live desired status written).status.id ≡ id
  unfolding apply_write
  apply_write-id written id sent has = rw sent (rw has refl)

  -- A pass whose write NetBox answers with an id, not in a dry run, ends with an error, or the custom
  -- resource has that id: it had it at the start of the pass, or has it with the status that is
  -- written, or on its own; and the pass waits within a tenth of its delay or of stale_retry.
  pub write_and_finish-Concluded :
      (w : Writers)
      → ((bound : ℕ) → bound ≢ 0 → w.random bound < bound)
      → (written : Option Object) (id : ℕ) → is_suppressed (or_nil written) ≡ false
      → object_id p.go (or_nil written) ≡ some id
      → id ≢ 0
      → (before : ℕ) (same : Bool) (wait requeue v : ℕ)
      → (write_and_finish written w before id same wait requeue).answer ≡ ok v
      → Concluded before id
          (sooner wait requeue)
          v
          (write_and_finish written w before id same wait requeue)
  write_and_finish-Concluded w below written id sent has minted before same wait requeue v =
      rw (apply_write-id written id sent has)
        (finish-Concluded w below before id minted same wait requeue v)
