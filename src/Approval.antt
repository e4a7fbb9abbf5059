-- ===== src/Approval.antt =====
-- internal/policy/approval/flow.go, over the rows of internal/storage/sqlite/approval_store.go (the
-- child Table). `Run` is in two halves, `start` and `finish`, since other requests may change the
-- rows while it waits for the client. SHA-256 and the decoding of JSON are parameters; a time is a
-- number of milliseconds, as it is stored; a failing statement of the database is a flag of Faults.
pub mod Table
pub mod Replay
pub mod Decision
pub mod Overwrite
mod Tests
use portico_gateway.Base.{
  decimal, ℕ, zero, suc, ◌+◌, ◌*◌, ◌/◌, ◌%◌, Bool, true, false, not, ◌&&◌, ◌||◌, Option, none, some,
  List, [], ◌∷◌, ◌++◌, if◌then◌else◌, ltb, leb, GoString, codes, str_eq, is_empty, length, take,
}
use portico_gateway.Approval.Table.{
  Approval, Approvals, insert, update_status, get, expire_older_than, pending, approved, denied,
  expired,
}

-- The parts of policy.Decision that the flow reads.
pub record Ruling : Type 0 where
  pub tool : GoString
  pub risk_class : GoString
  pub approval_timeout : ℕ

pub record CallContext : Type 0 where
  pub tool : GoString
  pub arguments : GoString
  pub skill_id : GoString
  pub risk_class : GoString
  pub approval_id : GoString

-- An audit event: its type, and what identifies the approval; `note` is the decision or reason.
pub record Event : Type 0 where
  pub kind : GoString
  pub tenant_id : GoString
  pub approval_id : GoString
  pub tool : GoString
  pub note : GoString

pub record Flow : Type 0 where
  pub rows : Approvals
  pub events : List Event
  pub counter : ℕ

pub record Outcome : Type 0 where
  pub approval : Approval
  pub decision : GoString

abbrev pub fallback_required : GoString
fallback_required = codes "fallback_required"

-- `Outcome.Approved` and `Outcome.FallbackRequired`
unfoldable pub is_approved : Outcome → Bool
is_approved o = str_eq o.decision approved

unfoldable pub is_fallback_required : Outcome → Bool
is_fallback_required o = str_eq o.decision fallback_required

-- What the client's session can do: `elicits` is HasElicitation of a session lookup that is not
-- nil, `sender` that there is a sender.
pub record Channel : Type 0 where
  pub elicits : GoString → Bool
  pub sender : Bool

-- Which statements of the database fail.
pub record Faults : Type 0 where
  pub insert : Bool
  pub update : Bool
  pub get : Bool

-- The client's answer: an error (or a timeout), or an action with its raw content.
pub data Reply : Type 0 where
  broken : GoString → Reply
  answered : GoString → GoString → Reply

pub data Started : Type 0 where
  finished : Outcome → Started
  failed : Started
  waiting : Approval → ℕ → Started

unfoldable pub summarize_args : GoString → GoString
summarize_args args =
    if ltb 1024 (length args) then take 1024 args ++ 0xE2 ∷ 0x80 ∷ 0xA6 ∷ [] else args

-- The supplied id, or one from the clock and the counter.
unfoldable pub or_generate_id : GoString → ℕ → Flow → GoString × Flow
unfolding decimal
or_generate_id supplied nanos f =
    if is_empty supplied
    then (
      codes "apr_" ++ decimal nanos ++ b'_' ∷ decimal (f.counter + 1),
      record f { counter = f.counter + 1 },
    )
    else (supplied, f)

unfoldable pub emit : GoString → Approval → GoString → Flow → Flow
emit kind a note f = record f {
  events =
      f.events
      ++ record {
        kind = kind;
        tenant_id = a.tenant_id;
        approval_id = a.id;
        tool = a.tool;
        note = note;
      }
        ∷ [];
}

-- `_ = f.store.UpdateStatus(…)`: an error changes nothing and is dropped.
unfoldable pub store_status : Faults → GoString → GoString → GoString → ℕ → Flow → Flow
store_status faults tenant id status at f =
    if faults.update then f else record f { rows = (update_status tenant id status at f.rows).0 }

-- The `switch` on the status of the row; a replayed grant is audited.
unfoldable pub replay_status : Approval → Flow → Flow × Option Outcome
replay_status a f =
    if str_eq a.status approved
    then (
      emit (codes "approval.replayed") a [] f,
      some (record { approval = a; decision = approved }),
    )
    else if str_eq a.status denied
    then (f, some (record { approval = a; decision = denied }))
    else if str_eq a.status expired
    then (f, some (record { approval = a; decision = expired }))
    else (f, none)

-- The rest of `Run` up to the elicitation, from the result of the insertion.
unfoldable pub opened : Channel → GoString → ℕ → Approval → Flow → Option Approvals → Flow × Started
opened channel session timeout a f none = (f, failed)
opened channel session timeout a f (some rows) =
    let f' = emit (codes "approval.pending") a [] (record f { rows = rows }) in
    if channel.elicits session && channel.sender
    then (f', waiting a timeout)
    else (f', finished (record { approval = a; decision = fallback_required }))

module _ (sha256_hex : GoString → GoString) where
  -- `hashOK && skillOK`, the same tool, a hash that is not empty and is that of the arguments, and
  -- the same skill.
  unfoldable pub same_call : Approval → Ruling → CallContext → Bool
  same_call a dec call = elim a.args_hash [
    | none ↦ false
    | some hash ↦ elim a.skill_id [
      | none ↦ false
      | some skill ↦
          str_eq a.tool dec.tool
          && not (is_empty hash)
          && str_eq hash (sha256_hex call.arguments)
          && str_eq skill call.skill_id
    ]
  ]

  unfoldable pub replay_decision :
      Faults → GoString → Ruling → CallContext → Flow → Flow × Option Outcome
  replay_decision faults tenant dec call f =
      if faults.get then (f, none) else elim (get tenant call.approval_id f.rows) [
        | none ↦ (f, none)
        | some a ↦ if same_call a dec call then replay_status a f else (f, none)
      ]

  unfoldable pub fresh :
      GoString → GoString → GoString → ℕ → ℕ → Ruling → CallContext → GoString → Approval
  fresh tenant session user now timeout dec call id = record {
    id = id;
    tenant_id = tenant;
    session_id = session;
    user_id = user;
    tool = dec.tool;
    args_summary = summarize_args call.arguments;
    risk_class = call.risk_class;
    status = pending;
    created_at = now;
    decided_at = none;
    expires_at = now + timeout;
    skill_id = some call.skill_id;
    args_hash = some (sha256_hex call.arguments);
  }

  -- The pending row, its audit event, and whether the client can be asked.
  unfoldable pub open_pending :
      Channel
      → Faults
      → GoString
      → GoString
      → GoString
      → ℕ
      → ℕ
      → Ruling
      → CallContext
      → Flow
      → Flow × Started
  open_pending channel faults tenant session user now nanos dec call f =
      let timeout = if leb dec.approval_timeout 0 then 300000 else dec.approval_timeout in
      let (id, f') = or_generate_id call.approval_id nanos f in
      let a = fresh tenant session user now timeout dec call id in
      opened channel session timeout a f' (if faults.insert then none else insert a f'.rows)

  -- `Run` up to the elicitation. `now` is the clock in milliseconds, `nanos` in nanoseconds.
  unfoldable pub start :
      Channel
      → Faults
      → GoString
      → GoString
      → GoString
      → ℕ
      → ℕ
      → Ruling
      → CallContext
      → Flow
      → Flow × Started
  start channel faults tenant session user now nanos dec call f =
      if is_empty call.approval_id
      then open_pending channel faults tenant session user now nanos dec call f
      else (let (f', out) = replay_decision faults tenant dec call f in
          elim out [
            | some o ↦ (f', finished o)
            | none ↦ open_pending channel faults tenant session user now nanos dec call f'
          ])

module _ (unmarshal : GoString → Option Bool) where
  -- `extractApprovePayload`, with an error read as a denial.
  unfoldable pub extract_approve_payload : GoString → Bool
  extract_approve_payload raw =
      if is_empty raw then false else elim (unmarshal raw) [ none ↦ false | some b ↦ b ]

  -- The status that a reply gives, with the audit event and its note.
  unfoldable pub verdict : Reply → GoString × GoString × GoString
  verdict (broken e) = (expired, codes "approval.expired", e)
  verdict (answered action content) =
      if str_eq action (codes "accept")
      then (let status = if extract_approve_payload content then approved else denied in
          (status, codes "approval.decided", status))
      else if str_eq action (codes "reject") || str_eq action (codes "cancel")
      then (denied, codes "approval.decided", denied)
      else (expired, codes "approval.expired", codes "unknown_action")

  -- The rest of `Run`, from the client's reply.
  unfoldable pub finish : Faults → GoString → ℕ → Reply → Approval → Flow → Flow × Outcome
  finish faults tenant decided reply a f =
      let (status, kind, note) = verdict reply in
      let a' = record a { status = status; decided_at = some decided } in
      (
        emit kind a' note (store_status faults tenant a.id status decided f),
        record { approval = a'; decision = status },
      )

  -- What `Run` does once it is started.
  unfoldable pub resume : Faults → GoString → ℕ → Reply → Started → Flow → Flow × Option Outcome
  resume faults tenant decided reply (finished o) f = (f, some o)
  resume faults tenant decided reply failed f = (f, none)
  resume faults tenant decided reply (waiting a timeout) f =
      let (f', o) = finish faults tenant decided reply a f in (f', some o)

module _ (sha256_hex : GoString → GoString) (unmarshal : GoString → Option Bool) where
  -- `Run` with nothing in between: `decided` is the clock when the client has replied.
  unfoldable pub run :
      Channel
      → Faults
      → GoString
      → GoString
      → GoString
      → ℕ
      → ℕ
      → Ruling
      → CallContext
      → ℕ
      → Reply
      → Flow
      → Flow × Option Outcome
  run channel faults tenant session user now nanos dec call decided reply f =
      let (f', s) = start sha256_hex channel faults tenant session user now nanos dec call f in
      resume unmarshal faults tenant decided reply s f'

-- `none` is an error: an unknown status, or a row that is not there.
unfoldable pub resolve_manually :
    Faults → GoString → GoString → GoString → ℕ → Flow → Flow × Option Approval
resolve_manually faults tenant id status now f =
    if not (str_eq status approved) && not (str_eq status denied)
    then (f, none)
    else if faults.update
    then (f, none)
    else (let (rows, hit) = update_status tenant id status now f.rows in
        if not hit
        then (record f { rows = rows }, none)
        else if faults.get
        then (record f { rows = rows }, none)
        else elim (get tenant id rows) [
          | none ↦ (record f { rows = rows }, none)
          | some a ↦ (emit (codes "approval.decided") a status (record f { rows = rows }), some a)
        ])

-- `Sweep`
unfoldable pub sweep : ℕ → Flow → Flow × ℕ
sweep cutoff f = let (rows, n) = expire_older_than cutoff f.rows in (record f { rows = rows }, n)
