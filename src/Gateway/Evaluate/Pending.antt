-- ===== src/Gateway/Evaluate/Pending.antt =====
-- A call that asks for an approval of a client that cannot be asked.
use portico_gateway.Base.{
  ℕ, true, false, ◌&&◌, Option, none, some, ◌≡◌, refl, ap, ◌∙◌, arith, GoString, is_empty, str_eq,
  leb, if◌then◌else◌,
}
use portico_gateway.Base.Assoc.{set}
use portico_gateway.Policy.Engine.{Decision}
use portico_gateway.Approval.Table.{Approval, Approvals, get, insert, pending}
use portico_gateway.Approval.Decision.{get-set}
use portico_gateway.Approval.{
  Flow, Outcome, Channel, emit, fresh, or_generate_id, opened, open_pending, start, resume, run,
  fallback_required, is_fallback_required, finished,
}
use portico_gateway.Gateway.Pipeline.{
  Caller, CallToolParams, Pipeline, Run, Evaluated, refused, approval_required_error,
}
use portico_gateway.Gateway.Evaluate.{
  ruling, call_context, after_approval, approve, on_approval, gate,
}

-- A generated id is not empty, and the rows do not change.
generated :
    (supplied : GoString) (nanos : ℕ) (f : Flow)
    → is_empty supplied ≡ true
    → (is_empty (or_generate_id supplied nanos f).0 ≡ false)
      × ((or_generate_id supplied nanos f).1.rows ≡ f.rows)
unfolding or_generate_id
generated supplied nanos f h = (rw h refl, rw h refl)

opened-fallback :
    (channel : Channel) (session : GoString) (timeout : ℕ) (a : Approval) (f : Flow)
    (rows : Approvals)
    → channel.elicits session && channel.sender ≡ false
    → ((opened channel session timeout a f (some rows)).0.rows ≡ rows)
      × ((opened channel session timeout a f (some rows)).1
          ≡ finished (record { approval = a; decision = fallback_required }))
unfolding opened emit
opened-fallback channel session timeout a f rows h = (rw h refl, rw h refl)

module _ (r : Run) (p : Pipeline) (sess : Caller) (params : CallToolParams) where
  -- The row that is opened for the call.
  abbrev pub opened_row : Decision → Flow → Approval
  opened_row dec f =
      fresh r.sha256_hex sess.tenant_id sess.id sess.user_id r.now
        (if leb (ruling dec).approval_timeout 0 then 300000 else (ruling dec).approval_timeout)
        (ruling dec) (call_context r dec params) (or_generate_id r.resume_approval_id r.nanos f).0

  abbrev pub asks_back : Decision → Flow → Outcome
  asks_back dec f = record { approval = opened_row dec f; decision = fallback_required }

  abbrev timeout_of : Decision → ℕ
  timeout_of dec =
      if leb (ruling dec).approval_timeout 0 then 300000 else (ruling dec).approval_timeout

  abbrev with_id : Flow → Flow
  with_id f = (or_generate_id r.resume_approval_id r.nanos f).1

  -- The first half of the approval opens the row.
  start-opens :
      (dec : Decision) (f : Flow)
      → is_empty r.resume_approval_id ≡ true
      → r.faults.insert ≡ false
      → is_empty sess.tenant_id ≡ false
      → start r.sha256_hex r.channel r.faults sess.tenant_id sess.id sess.user_id r.now r.nanos
          (ruling dec)
          (call_context r dec params)
          f
        ≡ opened r.channel sess.id
            (timeout_of dec)
            (opened_row dec f)
            (with_id f)
            (some (set (opened_row dec f).id (opened_row dec f) (with_id f).rows))
  unfolding start open_pending insert fresh
  start-opens dec f he hi ht = rw (he, hi, ht, (generated r.resume_approval_id r.nanos f he).0) refl

  approve-fallback :
      (dec : Decision) (f : Flow)
      → is_empty r.resume_approval_id ≡ true
      → r.channel.elicits sess.id && r.channel.sender ≡ false
      → r.faults.insert ≡ false
      → is_empty sess.tenant_id ≡ false
      → ((approve r sess params dec f).1 ≡ some (asks_back dec f))
        × ((approve r sess params dec f).0.rows
            ≡ set (opened_row dec f).id (opened_row dec f) f.rows)
  unfolding approve run
  approve-fallback dec f he hc hi ht =
      let (ne, same) = generated r.resume_approval_id r.nanos f he in
      let (rows, out) =
        opened-fallback r.channel sess.id (timeout_of dec) (opened_row dec f) (with_id f)
          (set (opened_row dec f).id (opened_row dec f) (with_id f).rows) hc in
      rw (start-opens dec f he hi ht, out)
        (
          unfold resume in refl,
          unfold resume in (rows ∙ ap (λ t. set (opened_row dec f).id (opened_row dec f) t) same),
        )

  gate-asks :
      (dec : Decision) (f : Flow)
      → dec.requires_approval && p.approvals ≡ true
      → gate r p sess params dec f ≡ on_approval p sess dec (approve r sess params dec f)
  unfolding gate
  gate-asks dec f h = rw h refl

  on_approval-fallback :
      (dec : Decision) (q : Flow × Option Outcome) (a : Approval)
      → q.1 ≡ some (record { approval = a; decision = fallback_required })
      → ((on_approval p sess dec q).0.rows ≡ q.0.rows)
        × ((on_approval p sess dec q).2
            ≡ some (
                refused
                  (record dec { allow = false })
                  (some (record { approval = a; decision = fallback_required }))
                  (approval_required_error dec a)))
  unfolding on_approval after_approval is_fallback_required str_eq
  on_approval-fallback dec (f, none) a h = absurd (cc)
  on_approval-fallback dec (f, some o) a h = (ground arith, ground arith)

  -- Where an approval flow is configured, a call of a tenant with a name that asks for an approval,
  -- with a client that cannot be asked and no approval that it resumes, and whose row can be
  -- inserted without a fault, is refused as one that requires an approval; the answer names a row
  -- that stands in the table of the tenant as pending, for the tool and the session of the call and
  -- with the hash of its arguments.
  pub gate-pending :
      (dec : Decision) (f : Flow)
      → dec.requires_approval ≡ true
      → p.approvals ≡ true
      → is_empty r.resume_approval_id ≡ true
      → r.channel.elicits sess.id && r.channel.sender ≡ false
      → r.faults.insert ≡ false
      → is_empty sess.tenant_id ≡ false
      → (a : Approval) × (get sess.tenant_id a.id (gate r p sess params dec f).0.rows ≡ some a)
        × (a.status ≡ pending)
        × (a.tool ≡ dec.tool)
        × (a.session_id ≡ sess.id)
        × (a.args_hash ≡ some (r.sha256_hex params.arguments))
        × ((gate r p sess params dec f).2
            ≡ some (
                refused
                  (record dec { allow = false })
                  (some (asks_back dec f))
                  (approval_required_error dec a)))
  unfolding fresh
  gate-pending dec f hr hp he hc hi ht =
      let (out, rows) = approve-fallback dec f he hc hi ht in
      let a = opened_row dec f in
      let g = gate-asks dec f (ground arith) in
      (
        a,
        ap (λ (e : Evaluated). get sess.tenant_id a.id e.0.rows) g
            ∙ (ap (get sess.tenant_id a.id) (on_approval-fallback dec _ a out).0
                ∙ (ap (get sess.tenant_id a.id) rows ∙ get-set sess.tenant_id a.id a f.rows refl)),
        refl,
        refl,
        refl,
        refl,
        ap (λ (e : Evaluated). e.2) g ∙ (on_approval-fallback dec _ a out).1,
      )
