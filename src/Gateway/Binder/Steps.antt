-- ===== src/Gateway/Binder/Steps.antt =====
-- The interleavings of any number of calls of Get, and of Forget.
use portico_gateway.Base.{ℕ, ◌==◌, Bool, Option, none, Memᴰ, ◌≡◌, if◌then◌else◌, GoString}
use portico_gateway.Gateway.Binder.{
  SnapshotBinder, new_snapshot_binder, Progress, begun, missed, creating, made, leaving, waiting,
  answered, look, claim, bind, release, reread, forget,
}
use portico_gateway.Snapshots.{Snapshot}

-- The binder and the progress of every call.
pub record World : Type 0 where
  pub binder : SnapshotBinder
  pub progress : ℕ → Progress

unfoldable pub put : ℕ → Progress → (ℕ → Progress) → ℕ → Progress
put i p calls j = if i == j then p else calls j

module _ (session : ℕ → GoString) where
  -- Call i does its next critical section, or Forget is called.
  pub data Step : World → World → Type 0 where
    looks :
        {b : SnapshotBinder} {calls : ℕ → Progress} (i : ℕ)
        → calls i ≡ begun
        → Step
            (record { binder = b; progress = calls })
            (record { binder = b; progress = put i (look (session i) b) calls })
    claims :
        {b : SnapshotBinder} {calls : ℕ → Progress} (i : ℕ)
        → calls i ≡ missed
        → Step
            (record { binder = b; progress = calls })
            (record {
              binder = (claim i (session i) b).0;
              progress = put i (claim i (session i) b).1 calls;
            })
    creates :
        {b : SnapshotBinder} {calls : ℕ → Progress} (i : ℕ) (r : Option Snapshot)
        → calls i ≡ creating
        → Step
            (record { binder = b; progress = calls })
            (record { binder = b; progress = put i (made r) calls })
    binds :
        {b : SnapshotBinder} {calls : ℕ → Progress} (i : ℕ) (r : Option Snapshot)
        → calls i ≡ made r
        → Step
            (record { binder = b; progress = calls })
            (record { binder = bind (session i) r b; progress = put i (leaving r) calls })
    releases :
        {b : SnapshotBinder} {calls : ℕ → Progress} (i : ℕ) (r : Option Snapshot)
        → calls i ≡ leaving r
        → Step
            (record { binder = b; progress = calls })
            (record { binder = release i (session i) b; progress = put i (answered r) calls })
    wakes :
        {b : SnapshotBinder} {calls : ℕ → Progress} (i channel : ℕ)
        → calls i ≡ waiting channel
        → Memᴰ channel b.closed_channels
        → Step
            (record { binder = b; progress = calls })
            (record { binder = b; progress = put i (answered (reread (session i) b)) calls })
    gives_up :
        {b : SnapshotBinder} {calls : ℕ → Progress} (i channel : ℕ)
        → calls i ≡ waiting channel
        → Step
            (record { binder = b; progress = calls })
            (record { binder = b; progress = put i (answered none) calls })
    forgets :
        {b : SnapshotBinder} {calls : ℕ → Progress} (id : GoString)
        → Step
            (record { binder = b; progress = calls })
            (record { binder = forget id b; progress = calls })

  pub data Reach (service : Bool) : World → Type 0 where
    start : Reach service (record { binder = new_snapshot_binder service; progress = λ i. begun })
    next : {w v : World} → Reach service w → Step w v → Reach service v
