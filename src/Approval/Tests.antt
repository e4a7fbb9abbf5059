-- ===== src/Approval/Tests.antt =====
-- A flow with one row, asked by its own tenant and by another.
use portico_gateway.Base.{
  decimal, ◌≡◌, refl, ◌⊎◌, Bool, true, false, Option, none, some, [], ◌∷◌, GoString, codes, str_eq,
  str_eq_iff, if◌then◌else◌,
}
use mathlib.Core.Path.{Σ_path}
use portico_gateway.Base.Assoc.{lookup}
use portico_gateway.Approval.Table.{Approval, insert, get, pending, approved, denied}
use portico_gateway.Approval.{
  Ruling, CallContext, Flow, Outcome, Channel, Faults, answered, emit, same_call, replay_status,
  replay_decision, store_status, or_generate_id, fresh, opened, open_pending, start,
  extract_approve_payload, verdict, finish, resume, run, is_approved, summarize_args,
}
use portico_gateway.Approval.Decision.{Grants, IsGranted, run_approved}
use portico_gateway.Approval.Overwrite.{start_takes_row, finish_overrides}

-- A stand-in for the digest, and one for the decoder.
abbrev digest : GoString → GoString
digest args = 1 ∷ args

abbrev decode : GoString → Option Bool
decode content = if str_eq content (codes "yes") then some true else none

abbrev no_faults : Faults
no_faults = record { insert = false; update = false; get = false }

abbrev ruling : Ruling
ruling = record { tool = codes "github.merge"; risk_class = codes "write"; approval_timeout = 0 }

abbrev call : CallContext
call = record {
  tool = codes "github.merge";
  arguments = codes "7";
  skill_id = [];
  risk_class = codes "write";
  approval_id = codes "a1";
}

abbrev row : GoString → Approval
row status = record {
  id = codes "a1";
  tenant_id = codes "acme";
  session_id = [];
  user_id = [];
  tool = codes "github.merge";
  args_summary = codes "7";
  risk_class = codes "write";
  status = status;
  created_at = 0;
  decided_at = none;
  expires_at = 100;
  skill_id = some [];
  args_hash = some (digest (codes "7"));
}

abbrev flow : GoString → Flow
flow status = record { rows = (codes "a1", row status) ∷ []; events = []; counter = 0 }

abbrev asks : Channel
asks = record { elicits = λ s. true; sender = true }

ids : decimal 1203 ≡ codes "1203"
unfolding decimal
ids = refl

abbrev granted : Outcome
granted = record { approval = row approved; decision = approved }

replayed :
    replay_decision digest no_faults (codes "acme") ruling call (flow approved)
    ≡ (emit (codes "approval.replayed") (row approved) [] (flow approved), some granted)
unfolding replay_decision replay_status same_call get lookup str_eq
replayed = refl

-- A fresh call with no id, which the client grants.
abbrev first_call : CallContext
first_call = record call { approval_id = [] }

abbrev first_run : Flow × Option Outcome
first_run =
    run digest decode asks no_faults (codes "acme") [] [] 5 5000000 ruling first_call 9
      (answered (codes "accept") (codes "yes")) (record { rows = []; events = []; counter = 0 })

abbrev first_row : Approval
first_row = record (row approved) {
  id = codes "apr_5000000_1";
  created_at = 5;
  decided_at = some 9;
  expires_at = 300005;
}

first_granted : first_run.1 ≡ some (record { approval = first_row; decision = approved })
unfolding run start open_pending opened or_generate_id fresh insert emit finish resume verdict
    extract_approve_payload store_status summarize_args decimal str_eq
first_granted = refl

run_approved_example :
    IsGranted digest asks (codes "acme") [] ruling first_call []
    ⊎ (Grants decode (answered (codes "accept") (codes "yes")) × (true ≡ true) × (true ≡ true))
unfolding is_approved str_eq
run_approved_example =
    run_approved digest asks (codes "acme") [] ruling first_call decode no_faults [] 5 5000000 9
      (answered (codes "accept") (codes "yes")) (record { rows = []; events = []; counter = 0 })
      first_run.0 (record { approval = first_row; decision = approved }) (Σ_path refl first_granted)
      refl

start_takes_row_example :
    get
      (codes "acme")
      (codes "a1")
      (start digest asks no_faults
        (codes "evil")
        []
        []
        5
        5000000
        ruling
        call
        (flow approved)).0.rows
    ≡ none
unfolding get lookup str_eq
start_takes_row_example =
    start_takes_row digest asks no_faults (codes "evil") [] [] 5 5000000 ruling call (flow approved)
      (codes "acme") (row approved) refl refl refl
      (λ e. cc ((str_eq_iff (codes "evil") (codes "acme")).1 e)) refl

finish_overrides_example :
    let (f, o) =
      finish decode no_faults
        (codes "acme")
        9
        (answered (codes "accept") (codes "yes"))
        (row pending)
        (flow denied) in
    (o.decision ≡ approved)
    × (get (codes "acme") (codes "a1") f.rows
        ≡ some (record (row denied) { status = approved; decided_at = some 9 }))
unfolding get lookup str_eq
finish_overrides_example =
    finish_overrides decode no_faults (codes "acme") 9 (codes "yes") (row pending) (row denied)
      (flow denied) refl refl refl refl refl
