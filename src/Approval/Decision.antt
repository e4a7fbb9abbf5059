-- ===== src/Approval/Decision.antt =====
-- When a call is let through, and what the table says of it.
use mathlib.Core.Path.{Σ_path}
use portico_gateway.Base.{
  ℕ, Bool, true, false, ◌&&◌, Option, none, some, [], ◌∷◌, ◌≡◌, refl, ◌≢◌, ◌⊎◌, inl, inr, arith,
  GoString, codes, str_eq_iff, str_eq_refl, is_empty, Bool-cases, Option-cases, and-true,
}
use portico_gateway.Base.Assoc.{set, lookup-set}
use portico_gateway.Approval.Table.{Approval, Approvals, update_status, get, approved}
use portico_gateway.Approval.Replay.{IsSameCall, replay_decision_sound}
use portico_gateway.Approval.{
  Ruling, CallContext, Flow, Outcome, Channel, Faults, Reply, broken, answered, Started, finished,
  failed, waiting, emit, store_status, replay_decision, opened, open_pending, start,
  extract_approve_payload, verdict, finish, resume, run, is_approved, fallback_required,
}

pub get-set :
    (tenant id : GoString) (a : Approval) (t : Approvals)
    → a.tenant_id ≡ tenant
    → get tenant id (set id a t) ≡ some a
unfolding get
get-set tenant id a t h =
    ground (arith, lookup-set id id a t, str_eq_refl id, str_eq_iff a.tenant_id tenant)

pub update_status-get :
    (tenant id status : GoString) (at : ℕ) (t : Approvals) (a : Approval)
    → get tenant id t ≡ some a
    → get tenant id (update_status tenant id status at t).0
      ≡ some (record a { status = status; decided_at = some at })
unfolding get update_status
update_status-get tenant id status at t a h =
    ground (
      arith,
      lookup-set id id (record a { status = status; decided_at = some at }) t,
      str_eq_refl id,
    )

module _ (unmarshal : GoString → Option Bool) where
  -- The client accepted, and its content decodes to an approval.
  abbrev pub Grants : Reply → Type 0
  Grants (broken e) = ⊥
  Grants (answered action content) =
      (action ≡ codes "accept") × (unmarshal content ≡ some true) × (content ≢ [])

  nonempty : (s : GoString) → is_empty s ≡ false → s ≢ []
  nonempty [] h = cc
  nonempty (c ∷ s) h = cc

  verdict-Grants : (reply : Reply) → (verdict unmarshal reply).0 ≡ approved → Grants reply
  unfolding verdict extract_approve_payload
  verdict-Grants (broken e) h = cc
  verdict-Grants (answered action content) h = (
    ground (arith, str_eq_iff action (codes "accept")),
    ground arith,
    nonempty content (ground arith),
  )

  -- With no fault of the update, and if the tenant's row is still there, it has the status of the
  -- outcome when `Run` returns, and nothing else of it but the time of the decision is changed.
  pub finish_recorded :
      (faults : Faults) (tenant : GoString) (decided : ℕ) (reply : Reply) (a row : Approval)
      (f : Flow)
      → faults.update ≡ false
      → get tenant a.id f.rows ≡ some row
      → let (f', o) = finish unmarshal faults tenant decided reply a f in
        get tenant a.id f'.rows
        ≡ some (record row { status = o.decision; decided_at = some decided })
  unfolding finish store_status emit
  finish_recorded faults tenant decided reply a row f ok h =
      rw ok (update_status-get tenant a.id (verdict unmarshal reply).0 decided f.rows row h)

module _ (sha256_hex : GoString → GoString) (channel : Channel) (tenant session : GoString)
    (dec : Ruling) (call : CallContext) where
  -- The row that a replayed grant stands for.
  abbrev pub IsGranted : Approvals → Type 0
  IsGranted rows =
      (row : Approval) × (get tenant call.approval_id rows ≡ some row)
      × (row.status ≡ approved)
      × IsSameCall sha256_hex row dec call

  -- What is known of the first half of `Run` by how it ends.
  abbrev Facts : Approvals → Started → Type 0
  Facts rows (finished o) =
      (o.decision ≡ fallback_required)
      ⊎ ((get tenant call.approval_id rows ≡ some o.approval)
          × (o.approval.status ≡ o.decision)
          × IsSameCall sha256_hex o.approval dec call)
  Facts rows failed = Unit
  Facts rows (waiting a timeout) = (channel.elicits session ≡ true) × (channel.sender ≡ true)

  opened-Facts :
      (timeout : ℕ) (a : Approval) (f : Flow) (rows : Approvals) (inserted : Option Approvals)
      → Facts rows (opened channel session timeout a f inserted).1
  unfolding opened
  opened-Facts timeout a f rows none = tt
  opened-Facts timeout a f rows (some t) =
      elim (Bool-cases (channel.elicits session && channel.sender)) [
        | inl e ↦ rw e (and-true (channel.elicits session) channel.sender e)
        | inr e ↦ rw e (inl refl)
      ]

  open_pending-Facts :
      (faults : Faults) (user : GoString) (now nanos : ℕ) (rows : Approvals) (f : Flow)
      → Facts rows
          (open_pending sha256_hex channel faults tenant session user now nanos dec call f).1
  unfolding open_pending
  open_pending-Facts faults user now nanos rows f = opened-Facts _ _ _ rows _

  start-Facts :
      (faults : Faults) (user : GoString) (now nanos : ℕ) (f : Flow)
      → Facts f.rows (start sha256_hex channel faults tenant session user now nanos dec call f).1
  unfolding start
  start-Facts faults user now nanos f = elim (Bool-cases (is_empty call.approval_id)) [
    | inl e ↦ rw e (open_pending-Facts faults user now nanos f.rows f)
    | inr e ↦ elim (Option-cases (replay_decision sha256_hex faults tenant dec call f).1) [
      | inl none' ↦ rw (e, none') (open_pending-Facts faults user now nanos f.rows _)
      | inr (o, q) ↦
          let (g, same, r) =
            replay_decision_sound sha256_hex faults tenant dec call f _ o (Σ_path refl q) in
          rw (e, q) (inr (g, r.stored, same))
    ]
  ]

  resume_approved :
      (unmarshal : GoString → Option Bool) (faults : Faults) (decided : ℕ) (reply : Reply)
      (rows : Approvals) (s : Started) (g f' : Flow) (o : Outcome)
      → Facts rows s
      → resume unmarshal faults tenant decided reply s g ≡ (f', some o)
      → is_approved o ≡ true
      → IsGranted rows
        ⊎ (Grants unmarshal reply × (channel.elicits session ≡ true) × (channel.sender ≡ true))
  unfolding resume is_approved finish
  resume_approved unmarshal faults decided reply rows (finished o') g f' o (inl e) h a =
      absurd (ground (arith, str_eq_iff o.decision approved))
  resume_approved unmarshal faults decided reply rows (finished o') g f' o (inr (q, st, same)) h a =
      inl (o'.approval, q, ground (arith, str_eq_iff o.decision approved), same)
  resume_approved unmarshal faults decided reply rows failed g f' o k h a = absurd (cc)
  resume_approved unmarshal faults decided reply rows (waiting x t) g f' o k h a =
      inr
        (verdict-Grants unmarshal reply (ground (arith, str_eq_iff o.decision approved)), k.0, k.1)

  -- A call is let through only if a row of the same tenant, tool, skill and hash of the arguments
  -- was approved before, or the client was asked, accepted and approved.
  pub run_approved :
      (unmarshal : GoString → Option Bool) (faults : Faults) (user : GoString)
      (now nanos decided : ℕ) (reply : Reply) (f f' : Flow) (o : Outcome)
      → run sha256_hex unmarshal channel faults tenant session user now nanos dec call decided reply
          f
        ≡ (f', some o)
      → is_approved o ≡ true
      → IsGranted f.rows
        ⊎ (Grants unmarshal reply × (channel.elicits session ≡ true) × (channel.sender ≡ true))
  unfolding run
  run_approved unmarshal faults user now nanos decided reply f f' o h a =
      let (g, s) = start sha256_hex channel faults tenant session user now nanos dec call f in
      resume_approved unmarshal faults decided reply f.rows s g f' o
        (start-Facts faults user now nanos f) h a
