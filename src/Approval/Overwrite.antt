-- ===== src/Approval/Overwrite.antt =====
-- Which rows the operations replace, and what they do not check.
use mathlib.Core.Option
use portico_gateway.Base.{
  ℕ, Bool, true, false, ◌&&◌, Option, none, some, [], ◌∷◌, ◌≡◌, refl, ◌≢◌, ◌⊎◌, inl, inr, sym,
  subst, arith, GoString, codes, str_eq, str_eq_iff, str_eq_refl, is_empty, Bool-cases,
  Option-cases, if◌then◌else◌, leb, length, filter, ap, ◌∙◌,
}
use portico_gateway.Base.Assoc.{lookup, set, lookup-set}
use portico_gateway.Approval.Table.{
  Approval, Approvals, insert, update_status, get, approved, denied, expire, is_overdue,
  expire_older_than,
}
use portico_gateway.Approval.Decision.{finish_recorded, update_status-get}
use portico_gateway.Approval.{
  Ruling, CallContext, Flow, Outcome, Channel, Faults, answered, Started, emit, or_generate_id,
  replay_decision, opened, fresh, open_pending, start, extract_approve_payload, verdict, finish,
  resolve_manually, sweep,
}

lookup-opened :
    (channel : Channel) (session id : GoString) (timeout : ℕ) (a : Approval) (f : Flow)
    (rows : Approvals)
    → lookup id rows ≡ some a
    → lookup id (opened channel session timeout a f (some rows)).0.rows ≡ some a
unfolding opened emit
lookup-opened channel session id timeout a f rows h =
    elim (Bool-cases (channel.elicits session && channel.sender)) [
      | inl e ↦ rw e h
      | inr e ↦ rw e h
    ]

or_generate_id-given :
    (id : GoString) (nanos : ℕ) (f : Flow)
    → is_empty id ≡ false
    → or_generate_id id nanos f ≡ (id, f)
unfolding or_generate_id
or_generate_id-given id nanos f h = rw h

insert-some :
    (a : Approval) (t : Approvals)
    → is_empty a.tenant_id ≡ false
    → is_empty a.id ≡ false
    → insert a t ≡ some (set a.id a t)
unfolding insert
insert-some a t ht hi = rw (ht, hi)

lookup-set_self : (id : GoString) (a : Approval) (t : Approvals) → lookup id (set id a t) ≡ some a
lookup-set_self id a t = ground (arith, lookup-set id id a t, str_eq_refl id)

get-lookup_ne :
    (other id : GoString) (a : Approval) (t : Approvals)
    → lookup id t ≡ some a
    → a.tenant_id ≢ other
    → get other id t ≡ none
unfolding get
get-lookup_ne other id a t h ne = ground (arith, str_eq_iff a.tenant_id other)

get-lookup :
    (tenant id : GoString) (a : Approval) (t : Approvals)
    → get tenant id t ≡ some a
    → (lookup id t ≡ some a) × (a.tenant_id ≡ tenant)
unfolding get
get-lookup tenant id a t h = elim (Option-cases (lookup id t)) [
  | inl e ↦ absurd (ground arith)
  | inr (b, e) ↦ (ground (arith), ground (arith, str_eq_iff b.tenant_id tenant))
]

module _ (sha256_hex : GoString → GoString) where
  -- A given id is the key of the new row, and the new row is the caller's.
  open_pending-row :
      (channel : Channel) (faults : Faults) (tenant session user : GoString) (now nanos : ℕ)
      (dec : Ruling) (call : CallContext) (f : Flow)
      → faults.insert ≡ false
      → is_empty tenant ≡ false
      → is_empty call.approval_id ≡ false
      → (a : Approval) × (lookup call.approval_id
            (open_pending sha256_hex channel faults tenant session user now nanos dec call f).0.rows
          ≡ some a)
        × (a.tenant_id ≡ tenant)
  unfolding open_pending fresh
  open_pending-row channel faults tenant session user now nanos dec call f ok ht hid =
      let timeout = if leb dec.approval_timeout 0 then 300000 else dec.approval_timeout in
      let a = fresh sha256_hex tenant session user now timeout dec call call.approval_id in
      rw (or_generate_id-given call.approval_id nanos f hid, ok, insert-some a f.rows ht hid)
        (
          a,
          lookup-opened channel session call.approval_id timeout a f (set call.approval_id a f.rows)
              (lookup-set_self call.approval_id a f.rows),
          refl,
        )

  replay-other :
      (faults : Faults) (tenant other : GoString) (dec : Ruling) (call : CallContext) (f : Flow)
      (row : Approval)
      → tenant ≢ other
      → get other call.approval_id f.rows ≡ some row
      → replay_decision sha256_hex faults tenant dec call f ≡ (f, none)
  unfolding replay_decision
  replay-other faults tenant other dec call f row ne h =
      let (l, t) = get-lookup other call.approval_id row f.rows h in
      let gone = get-lookup_ne tenant call.approval_id row f.rows l (λ e. ne (sym e ∙ t)) in
      ground arith

  start-open_pending :
      (channel : Channel) (faults : Faults) (tenant session user : GoString) (now nanos : ℕ)
      (dec : Ruling) (call : CallContext) (f : Flow)
      → is_empty call.approval_id ≡ false
      → replay_decision sha256_hex faults tenant dec call f ≡ (f, none)
      → start sha256_hex channel faults tenant session user now nanos dec call f
        ≡ open_pending sha256_hex channel faults tenant session user now nanos dec call f
  unfolding start
  start-open_pending channel faults tenant session user now nanos dec call f hid p = rw hid (
      ap
        (λ (r : Flow × Option Outcome).
          let y : Flow × Started = elim r.1 [
            | some o ↦ (r.0, Started.finished o)
            | none ↦
                open_pending sha256_hex channel faults tenant session user now nanos dec call r.0
          ] in
          y)
        p)

  -- With no fault of the insertion, opening an approval under an id that another tenant's row has
  -- takes that row away from the other tenant, if neither the id nor the tenant's name is empty: the replay does not see it, and the insertion replaces it by its id alone.
  pub start_takes_row :
      (channel : Channel) (faults : Faults) (tenant session user : GoString) (now nanos : ℕ)
      (dec : Ruling) (call : CallContext) (f : Flow) (other : GoString) (row : Approval)
      → faults.insert ≡ false
      → is_empty tenant ≡ false
      → is_empty call.approval_id ≡ false
      → tenant ≢ other
      → get other call.approval_id f.rows ≡ some row
      → get other call.approval_id
          (start sha256_hex channel faults tenant session user now nanos dec call f).0.rows
        ≡ none
  start_takes_row channel faults tenant session user now nanos dec call f other row ok ht hid ne h =
      let (a, l, t) =
        open_pending-row channel faults tenant session user now nanos dec call f ok ht hid in
      rw
        (start-open_pending channel faults tenant session user now nanos dec call f hid
          (replay-other faults tenant other dec call f row ne h))
        (get-lookup_ne other call.approval_id a _ l (λ e. ne (sym t ∙ e)))

-- The answer of the client is written over whatever status the row has by then: if an operator
-- denied the call while the client was asked, the client's grant still turns the row to approved.
pub finish_overrides :
    (unmarshal : GoString → Option Bool) (faults : Faults) (tenant : GoString) (decided : ℕ)
    (content : GoString) (a row : Approval) (f : Flow)
    → faults.update ≡ false
    → get tenant a.id f.rows ≡ some row
    → row.status ≡ denied
    → is_empty content ≡ false
    → unmarshal content ≡ some true
    → let (f', o) =
        finish unmarshal faults tenant decided (answered (codes "accept") content) a f in
      (o.decision ≡ approved)
      × (get tenant a.id f'.rows
          ≡ some (record row { status = approved; decided_at = some decided }))
unfolding verdict extract_approve_payload finish str_eq
finish_overrides unmarshal faults tenant decided content a row f ok h was ne u =
    let granted : (verdict unmarshal (answered (codes "accept") content)).0 ≡ approved =
      rw (ne, u) in
    (
      granted,
      subst
          (λ s.
            get tenant a.id
              (finish unmarshal faults tenant decided (answered (codes "accept") content) a
                f).0.rows
            ≡ some (record row { status = s; decided_at = some decided }))
          granted
          (finish_recorded unmarshal faults tenant decided (answered (codes "accept") content) a row
            f ok h),
    )

update_status-hit :
    (tenant id status : GoString) (at : ℕ) (t : Approvals) (a : Approval)
    → get tenant id t ≡ some a
    → (update_status tenant id status at t).1 ≡ true
unfolding get update_status
update_status-hit tenant id status at t a h = ground arith

update_status-miss :
    (tenant id status : GoString) (at : ℕ) (t : Approvals)
    → get tenant id t ≡ none
    → update_status tenant id status at t ≡ (t, false)
unfolding get update_status
update_status-miss tenant id status at t h = ground arith

-- With no fault, an operator's decision is written over a row of any status, a decided one too;
-- any other status, or a row of another tenant, is refused and changes nothing.
pub resolve_manually_lem :
    (faults : Faults) (tenant id status : GoString) (now : ℕ) (f : Flow)
    → faults.update ≡ false
    → faults.get ≡ false
    → ((a : Approval)
        → get tenant id f.rows ≡ some a
        → (status ≡ approved) ⊎ (status ≡ denied)
        → ((resolve_manually faults tenant id status now f).1
            ≡ some (record a { status = status; decided_at = some now }))
          × (get tenant id (resolve_manually faults tenant id status now f).0.rows
              ≡ some (record a { status = status; decided_at = some now })))
      × (get tenant id f.rows ≡ none → resolve_manually faults tenant id status now f ≡ (f, none))
      × (status ≢ approved
          → status ≢ denied
          → resolve_manually faults tenant id status now f ≡ (f, none))
unfolding resolve_manually emit
resolve_manually_lem faults tenant id status now f u g = (
  λ a h s. (
    ground (
      arith,
      str_eq_iff status approved,
      str_eq_iff status denied,
      update_status-hit tenant id status now f.rows a h,
      update_status-get tenant id status now f.rows a h,
    ),
    ground (
      arith,
      str_eq_iff status approved,
      str_eq_iff status denied,
      update_status-hit tenant id status now f.rows a h,
      update_status-get tenant id status now f.rows a h,
    ),
  ),
  λ h. ground (arith, update_status-miss tenant id status now f.rows h),
  λ p q. ground (arith, str_eq_iff status approved, str_eq_iff status denied),
)

lookup-expire_older_than :
    (cutoff : ℕ) (id : GoString) (t : Approvals)
    → lookup id (expire_older_than cutoff t).0 ≡ Option.map (expire cutoff) (lookup id t)
unfolding lookup expire_older_than
lookup-expire_older_than cutoff id [] = refl
lookup-expire_older_than cutoff id ((k, a) ∷ t) = elim (Bool-cases (str_eq k id)) [
  | inl e ↦ rw e
  | inr e ↦ rw e (lookup-expire_older_than cutoff id t)
]

count_overdue :
    (cutoff : ℕ) (t : Approvals)
    → (expire_older_than cutoff t).1 ≡ length (filter (λ r. is_overdue cutoff r.1) t)
unfolding expire_older_than
count_overdue cutoff [] = refl
count_overdue cutoff ((k, a) ∷ t) = elim (Bool-cases (is_overdue cutoff a)) [
  | inl e ↦ rw e (omega (arith, count_overdue cutoff t))
  | inr e ↦ rw e (count_overdue cutoff t)
]

-- A sweep expires exactly the pending rows whose time is before the cutoff, counts them, and
-- leaves every other row, and the audit trail, as it was.
pub sweep_lem :
    (cutoff : ℕ) (f : Flow)
    → ((id : GoString)
        → lookup id (sweep cutoff f).0.rows ≡ Option.map (expire cutoff) (lookup id f.rows))
      × ((sweep cutoff f).1 ≡ length (filter (λ r. is_overdue cutoff r.1) f.rows))
      × ((sweep cutoff f).0.events ≡ f.events)
unfolding sweep
sweep_lem cutoff f =
    (λ id. lookup-expire_older_than cutoff id f.rows, count_overdue cutoff f.rows, refl)
