-- ===== src/Approval/Replay.antt =====
-- A replayed decision is that of a row of the same tool, skill and hash of the arguments.
use portico_gateway.Base.{
  true, some, ◌≡◌, ◌⊎◌, inl, inr, sym, subst, arith, GoString, str_eq_iff, Bool-cases, Option-cases,
}
use portico_gateway.Approval.Table.{Approval, get, approved, denied, expired}
use portico_gateway.Approval.{
  Ruling, CallContext, Flow, Outcome, Faults, same_call, replay_status, replay_decision, emit,
}

-- The rows are untouched, and the outcome is the stored decision.
pub record IsReplay (a : Approval) (f f' : Flow) (o : Outcome) : Type 0 where
  pub row : o.approval ≡ a
  pub stored : a.status ≡ o.decision
  pub decided : (o.decision ≡ approved) ⊎ (o.decision ≡ denied) ⊎ (o.decision ≡ expired)
  pub rows : f'.rows ≡ f.rows

replay_status-IsReplay :
    (a : Approval) (f f' : Flow) (o : Outcome)
    → replay_status a f ≡ (f', some o)
    → IsReplay a f f' o
unfolding replay_status emit
replay_status-IsReplay a f f' o h =
    ground
      (arith, str_eq_iff a.status approved, str_eq_iff a.status denied, str_eq_iff a.status expired)

module _ (sha256_hex : GoString → GoString) where
  -- The row is one of the same tool, the same skill and the same hash of the arguments.
  pub record IsSameCall (a : Approval) (dec : Ruling) (call : CallContext) : Type 0 where
    pub tool : a.tool ≡ dec.tool
    pub hash : a.args_hash ≡ some (sha256_hex call.arguments)
    pub skill : a.skill_id ≡ some call.skill_id

  same_call-IsSameCall :
      (a : Approval) (dec : Ruling) (call : CallContext)
      → same_call sha256_hex a dec call ≡ true
      → IsSameCall a dec call
  unfolding same_call
  same_call-IsSameCall a dec call h = elim (Option-cases a.args_hash) [
    | inl e ↦ absurd (ground arith)
    | inr (hash, e) ↦ elim (Option-cases a.skill_id) [
      | inl q ↦ absurd (ground arith)
      | inr (skill, q) ↦ record {
        tool = ground (arith, str_eq_iff a.tool dec.tool);
        hash = ground (arith, str_eq_iff hash (sha256_hex call.arguments));
        skill = ground (arith, str_eq_iff skill call.skill_id);
      }
    ]
  ]

  -- A replayed outcome is the decided status of a row of the tenant under the given id, for the
  -- same tool, skill and hash of the arguments; no row is changed.
  pub replay_decision_sound :
      (faults : Faults) (tenant : GoString) (dec : Ruling) (call : CallContext) (f f' : Flow)
      (o : Outcome)
      → replay_decision sha256_hex faults tenant dec call f ≡ (f', some o)
      → (get tenant call.approval_id f.rows ≡ some o.approval)
        × IsSameCall o.approval dec call
        × IsReplay o.approval f f' o
  unfolding replay_decision
  replay_decision_sound faults tenant dec call f f' o h =
      elim (Option-cases (get tenant call.approval_id f.rows)) [
        | inl e ↦ absurd (ground arith)
        | inr (a, e) ↦ elim (Bool-cases (same_call sha256_hex a dec call)) [
          | inl s ↦
              let r = replay_status-IsReplay a f f' o (ground arith) in
              (
                ground (arith, r.row),
                subst (λ x. IsSameCall x dec call) (sym r.row) (same_call-IsSameCall a dec call s),
                subst (λ x. IsReplay x f f' o) (sym r.row) r,
              )
          | inr s ↦ absurd (ground arith)
        ]
      ]
