-- ===== src/Gateway/Binder.antt =====
-- internal/server/mcpgw/snapshot_binder.go: the snapshot of a session, created on the first call
-- that needs it. Each critical section is one function, and a call of Get is known by a number,
-- which also names the channel that it makes; what Create answers is an argument, `none` an error.
pub mod Steps
pub mod Exclusive
pub mod Twice
mod Tests
use portico_gateway.Base.{
  ℕ, ◌==◌, Bool, true, false, Option, none, some, List, [], ◌∷◌, if◌then◌else◌, GoString,
}
use portico_gateway.Base.Assoc.{Assoc, lookup, set, delete}
use portico_gateway.Snapshots.{Snapshot}

-- `pending` has the channel of the call that creates, `closed_channels` those that were closed.
pub record SnapshotBinder : Type 0 where
  pub service : Bool
  pub bindings : Assoc Snapshot
  pub pending : Assoc ℕ
  pub closed_channels : List ℕ

unfoldable pub new_snapshot_binder : Bool → SnapshotBinder
new_snapshot_binder service = record {
  service = service;
  bindings = [];
  pending = [];
  closed_channels = [];
}

-- How far a call of Get is: not begun; past the look-up that found nothing; past its claim, in
-- Create; with Create's answer; about to leave; waiting for a channel; answered.
pub data Progress : Type 0 where
  begun : Progress
  missed : Progress
  creating : Progress
  made : Option Snapshot → Progress
  leaving : Option Snapshot → Progress
  waiting : ℕ → Progress
  answered : Option Snapshot → Progress

abbrev pub after_look : Option Snapshot → Progress
after_look none = missed
after_look (some s) = answered (some s)

-- The first critical section.
unfoldable pub look : GoString → SnapshotBinder → Progress
look id b = if b.service then after_look (lookup id b.bindings) else answered none

unfoldable pub claim_at : ℕ → GoString → SnapshotBinder → Option ℕ → SnapshotBinder × Progress
claim_at i id b none = (record b { pending = set id i b.pending }, creating)
claim_at i id b (some channel) = (b, waiting channel)

-- The second: another call creates, or this one will.
unfoldable pub claim : ℕ → GoString → SnapshotBinder → SnapshotBinder × Progress
claim i id b = claim_at i id b (lookup id b.pending)

-- The third binds what Create made.
unfoldable pub bind : GoString → Option Snapshot → SnapshotBinder → SnapshotBinder
bind id none b = b
bind id (some s) b = record b { bindings = set id s b.bindings }

-- The deferred one.
unfoldable pub release : ℕ → GoString → SnapshotBinder → SnapshotBinder
release i id b = record b { pending = delete id b.pending; closed_channels = i ∷ b.closed_channels }

-- What a call that waited reads.
unfoldable pub reread : GoString → SnapshotBinder → Option Snapshot
reread id b = lookup id b.bindings

unfoldable pub forget : GoString → SnapshotBinder → SnapshotBinder
forget id b = record b { bindings = delete id b.bindings }
