-- ===== src/Gateway/Binder/Tests.antt =====
-- Two calls of one session that both look before either has claimed.
use portico_gateway.Base.{ℕ, ◌≡◌, refl, true, Option, some, [], GoString, codes, str_eq}
use portico_gateway.Base.Assoc.{lookup, set}
use portico_gateway.Snapshots.{Snapshot}
use portico_gateway.Gateway.Binder.{
  SnapshotBinder, new_snapshot_binder, Progress, begun, made, leaving, waiting, answered, look,
  claim, claim_at, bind, release,
}
use portico_gateway.Gateway.Binder.Steps.{
  put, Reach, start, next, looks, claims, creates, binds, releases,
}
use portico_gateway.Gateway.Binder.Exclusive.{is_owner, Reach-Exclusive}

abbrev alice : GoString
alice = codes "s_1"

abbrev of_alice : ℕ → GoString
of_alice i = alice

abbrev taken_at : GoString → Snapshot
taken_at id = record { id = id; servers = []; tools = [] }

abbrev unused : SnapshotBinder
unused = new_snapshot_binder true

abbrev both_missed : ℕ → Progress
both_missed = put 1 (look alice unused) (put 0 (look alice unused) (λ i. begun))

abbrev claimed : SnapshotBinder
claimed = (claim 0 alice unused).0

abbrev one_creates : ℕ → Progress
one_creates = put 0 (claim 0 alice unused).1 both_missed

abbrev reach_creates : Reach of_alice true (record { binder = claimed; progress = one_creates })
unfolding new_snapshot_binder put look lookup
reach_creates = next (next (next start (looks 0 refl)) (looks 1 refl)) (claims 0 refl)

-- The other call waits, if it claims now.
other_waits : (claim 1 alice claimed).1 ≡ waiting 0
unfolding new_snapshot_binder claim claim_at lookup set str_eq
other_waits = refl

call_0_owns : is_owner (one_creates 0) ≡ true
unfolding new_snapshot_binder put claim claim_at lookup
call_0_owns = refl

abbrev creator : ℕ
creator = 0

Reach-Exclusive_example : creator ≡ creator
Reach-Exclusive_example =
    Reach-Exclusive of_alice true (record { binder = claimed; progress = one_creates }) creator
      creator reach_creates refl call_0_owns call_0_owns

abbrev first : Option Snapshot
first = some (taken_at (codes "snap_1"))

abbrev left : SnapshotBinder
left = release 0 alice (bind alice first claimed)

abbrev one_left : ℕ → Progress
one_left = put 0 (answered first) (put 0 (leaving first) (put 0 (made first) one_creates))

abbrev reach_left : Reach of_alice true (record { binder = left; progress = one_left })
unfolding new_snapshot_binder put claim claim_at lookup
reach_left =
    next (next (next reach_creates (creates 0 first refl)) (binds 0 first refl))
      (releases 0 first refl)
