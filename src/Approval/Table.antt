-- ===== src/Approval/Table.antt =====
-- The approvals table (internal/storage/sqlite/approval_store.go): the id alone is the primary key,
-- and every other statement is confined to a tenant. Rows are keyed by the id.
use portico_gateway.Base.{
  ℕ, ◌+◌, Bool, true, false, ◌&&◌, ◌||◌, Option, none, some, [], ◌∷◌, if◌then◌else◌, ltb, GoString,
  codes, str_eq, is_empty,
}
use portico_gateway.Base.Assoc.{Assoc, lookup, set}

abbrev pub pending : GoString
pending = codes "pending"

abbrev pub approved : GoString
approved = codes "approved"

abbrev pub denied : GoString
denied = codes "denied"

abbrev pub expired : GoString
expired = codes "expired"

-- `skill_id` and `args_hash` are the two strings of the metadata that the flow reads, `none` where
-- a key is absent or is no string.
pub record Approval : Type 0 where
  pub id : GoString
  pub tenant_id : GoString
  pub session_id : GoString
  pub user_id : GoString
  pub tool : GoString
  pub args_summary : GoString
  pub risk_class : GoString
  pub status : GoString
  pub created_at : ℕ
  pub decided_at : Option ℕ
  pub expires_at : ℕ
  pub skill_id : Option GoString
  pub args_hash : Option GoString

abbrev pub Approvals : Type 0
Approvals = Assoc Approval

-- INSERT OR REPLACE; `none` is the error for an empty tenant or id.
unfoldable pub insert : Approval → Approvals → Option Approvals
insert a t = if is_empty a.tenant_id || is_empty a.id then none else some (set a.id a t)

-- WHERE tenant_id = ? AND id = ?
abbrev of_tenant : GoString → Option Approval → Option Approval
of_tenant tenant none = none
of_tenant tenant (some a) = if str_eq a.tenant_id tenant then some a else none

unfoldable pub get : GoString → GoString → Approvals → Option Approval
get tenant id t = of_tenant tenant (lookup id t)

-- The flag is false for ErrNotFound.
unfoldable pub update_status : GoString → GoString → GoString → ℕ → Approvals → Approvals × Bool
update_status tenant id status at t = elim (of_tenant tenant (lookup id t)) [
  | none ↦ (t, false)
  | some a ↦ (set id (record a { status = status; decided_at = some at }) t, true)
]

abbrev pub is_overdue : ℕ → Approval → Bool
is_overdue cutoff a = str_eq a.status pending && ltb a.expires_at cutoff

abbrev pub expire : ℕ → Approval → Approval
expire cutoff a =
    if is_overdue cutoff a then record a { status = expired; decided_at = some cutoff } else a

-- The table, and the number of rows that were expired.
unfoldable pub expire_older_than : ℕ → Approvals → Approvals × ℕ
expire_older_than cutoff [] = ([], 0)
expire_older_than cutoff ((id, a) ∷ t) =
    let (t', n) = expire_older_than cutoff t in
    ((id, expire cutoff a) ∷ t', if is_overdue cutoff a then n + 1 else n)
