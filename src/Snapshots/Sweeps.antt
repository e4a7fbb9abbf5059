-- ===== src/Snapshots/Sweeps.antt =====
-- What one sweep reports, and what a second one adds.
use portico_gateway.Base.{
  false, Option, none, some, List, [], ◌∷◌, ◌++◌, ◌≡◌, refl, sym, ap, ◌∙◌, ◌≢◌, ◌⊎◌, inl, inr,
  GoString, str_eq, str_eq_iff, str_eq_refl, Memᴰ, Bool-cases, All,
}
use portico_gateway.Base.Assoc.{Assoc, lookup, set, lookup-set}
use portico_gateway.Snapshots.{
  Tool, ToolInfo, ServerInfo, Snapshot, Shape, server_tools_fingerprint, index_tools_by_name,
  index_from,
}
use portico_gateway.Snapshots.Drift.{
  ActiveSession, DriftEvent, Detector, emit_key, or_empty_hash, live_tools, bound_snapshot,
  drift_event, record_drift, sweep_server, sweep_servers, sweep_snapshot, sweep_session, sweep,
  diff_tools, index_new_tools, new_refs,
}
use portico_gateway.Snapshots.Differences.{removed_mem}

-- One comparison of a sweep: a server of the snapshot of a session, with its live tools.
pub record Check : Type 0 where
  pub sess : ActiveSession
  pub snap : Snapshot
  pub tools : List Tool
  pub server : ServerInfo

abbrev pub key : Check → GoString
key c = emit_key c.sess.session_id c.server.id

-- No two comparisons are of one session and server.
abbrev pub Distinct : List Check → Type 0
Distinct [] = Unit
Distinct (c ∷ cs) = All (λ c'. key c ≢ key c') cs × Distinct cs

unfoldable pub checks_of :
    ActiveSession → Snapshot → Option (Assoc (List Tool)) → List ServerInfo → List Check
checks_of sess snap per [] = []
checks_of sess snap per (sv ∷ svs) =
    record { sess = sess; snap = snap; tools = live_tools per sv.id; server = sv }
    ∷ checks_of sess snap per svs

unfoldable pub checks_in : ActiveSession → Option (Assoc (List Tool)) → Option Snapshot → List Check
checks_in sess per none = []
checks_in sess per (some snap) = checks_of sess snap per snap.servers

differs : (a b : GoString) → a ≢ b → str_eq a b ≡ false
differs a b h = elim (Bool-cases (str_eq a b)) [
  | inl e ↦ absurd (h ((str_eq_iff a b).0 e))
  | inr e ↦ e
]

module _ (digest : Shape → GoString) (digest_tools : List Tool → GoString) where
  unfoldable pub step : Check → Detector → Detector
  step c d = sweep_server digest digest_tools c.sess c.snap c.tools c.server d

  unfoldable pub run : List Check → Detector → Detector
  run [] d = d
  run (c ∷ cs) d = run cs (step c d)

  run-append : (cs bs : List Check) (d : Detector) → run (cs ++ bs) d ≡ run bs (run cs d)
  unfolding run
  run-append [] bs d = refl
  run-append (c ∷ cs) bs d = run-append cs bs (step c d)

  abbrev pub current : Check → GoString
  current c = server_tools_fingerprint digest_tools c.tools

  -- The catalogue is as recorded, or this very change was reported before.
  abbrev pub IsSettled : Detector → Check → Type 0
  IsSettled d c =
      (current c ≡ c.server.schema_hash)
      ⊎ (or_empty_hash (lookup (key c) d.last_emitted) ≡ current c)

  step-settled : (c : Check) (d : Detector) → IsSettled d c → step c d ≡ d
  unfolding step sweep_server
  step-settled c d (inl e) = rw ((str_eq_iff (current c) c.server.schema_hash).1 e) refl
  step-settled c d (inr e) = elim (Bool-cases (str_eq (current c) c.server.schema_hash)) [
    | inl s ↦ rw s refl
    | inr s ↦
        rw (s, (str_eq_iff (or_empty_hash (lookup (key c) d.last_emitted)) (current c)).1 e) refl
  ]

  emitted_key :
      (c : Check) (d : Detector) (h : GoString)
      → or_empty_hash (lookup (key c) (set (key c) h d.last_emitted)) ≡ h
  emitted_key c d h = rw (lookup-set (key c) (key c) h d.last_emitted, str_eq_refl (key c)) refl

  step-IsSettled : (c : Check) (d : Detector) → IsSettled (step c d) c
  unfolding step sweep_server record_drift
  step-IsSettled c d = elim (Bool-cases (str_eq (current c) c.server.schema_hash)) [
    | inl s ↦ inl ((str_eq_iff (current c) c.server.schema_hash).0 s)
    | inr s ↦
        elim (Bool-cases (str_eq (or_empty_hash (lookup (key c) d.last_emitted)) (current c))) [
          | inl a ↦
              rw (s, a)
                (inr ((str_eq_iff (or_empty_hash (lookup (key c) d.last_emitted)) (current c)).0 a))
          | inr a ↦ rw (s, a) (inr (emitted_key c d (current c)))
        ]
  ]

  other_key :
      (c c' : Check) (d : Detector) (h : GoString)
      → key c ≢ key c'
      → lookup (key c) (set (key c') h d.last_emitted) ≡ lookup (key c) d.last_emitted
  other_key c c' d h ne = elim (Bool-cases (str_eq (key c') (key c))) [
    | inl e ↦ absurd (ne (sym ((str_eq_iff (key c') (key c)).0 e)))
    | inr e ↦ rw (lookup-set (key c') (key c) h d.last_emitted, e) refl
  ]

  step-keeps :
      (c c' : Check) (d : Detector) → key c ≢ key c' → IsSettled d c → IsSettled (step c' d) c
  unfolding step sweep_server record_drift
  step-keeps c c' d ne (inl e) = inl e
  step-keeps c c' d ne (inr e) = elim (Bool-cases (str_eq (current c') c'.server.schema_hash)) [
    | inl s ↦ rw s (inr e)
    | inr s ↦
        elim (Bool-cases (str_eq (or_empty_hash (lookup (key c') d.last_emitted)) (current c'))) [
          | inl a ↦ rw (s, a) (inr e)
          | inr a ↦ rw (s, a) (inr (ap or_empty_hash (other_key c c' d (current c') ne) ∙ e))
        ]
  ]

  run-keeps :
      (c : Check) (cs : List Check) (d : Detector)
      → All (λ c'. key c ≢ key c') cs
      → IsSettled d c
      → IsSettled (run cs d) c
  unfolding run
  run-keeps c [] d ne h = h
  run-keeps c (c' ∷ cs) d ne h = run-keeps c cs (step c' d) ne.1 (step-keeps c c' d ne.0 h)

  run-AllSettled : (cs : List Check) (d : Detector) → Distinct cs → All (IsSettled (run cs d)) cs
  unfolding run
  run-AllSettled [] d ne = tt
  run-AllSettled (c ∷ cs) d ne =
      (run-keeps c cs (step c d) ne.0 (step-IsSettled c d), run-AllSettled cs (step c d) ne.1)

  run-settled : (cs : List Check) (d : Detector) → All (IsSettled d) cs → run cs d ≡ d
  unfolding run
  run-settled [] d h = refl
  run-settled (c ∷ cs) d h = ap (run cs) (step-settled c d h.0) ∙ run-settled cs d h.1

  sweep_servers-run :
      (sess : ActiveSession) (snap : Snapshot) (per : Option (Assoc (List Tool)))
      (svs : List ServerInfo) (d : Detector)
      → sweep_servers digest digest_tools sess snap per svs d ≡ run (checks_of sess snap per svs) d
  unfolding sweep_servers checks_of run step
  sweep_servers-run sess snap per [] d = refl
  sweep_servers-run sess snap per (sv ∷ svs) d = sweep_servers-run sess snap per svs _

  sweep_snapshot-run :
      (sess : ActiveSession) (per : Option (Assoc (List Tool))) (snap : Option Snapshot)
      (d : Detector)
      → sweep_snapshot digest digest_tools sess per snap d ≡ run (checks_in sess per snap) d
  unfolding sweep_snapshot checks_in
  sweep_snapshot-run sess per none d = unfold run in refl
  sweep_snapshot-run sess per (some snap) d = sweep_servers-run sess snap per snap.servers d

  module _ (probe : GoString → Option (Assoc (List Tool))) (get : GoString → Option Snapshot) where
    -- The comparisons of a sweep, in order.
    unfoldable pub checks : List ActiveSession → List Check
    checks [] = []
    checks (sess ∷ active) =
        checks_in sess (probe sess.tenant_id) (bound_snapshot get sess.snapshot_id) ++ checks active

    sweep-run :
        (active : List ActiveSession) (d : Detector)
        → sweep digest digest_tools probe get active d ≡ run (checks active) d
    unfolding sweep sweep_session checks
    sweep-run [] d = unfold run in refl
    sweep-run (sess ∷ active) d =
        let per = probe sess.tenant_id in
        let snap = bound_snapshot get sess.snapshot_id in
        sweep-run active (sweep_snapshot digest digest_tools sess per snap d)
        ∙ ap (run (checks active)) (sweep_snapshot-run sess per snap d)
        ∙ sym (run-append (checks_in sess per snap) (checks active) d)

    -- A second sweep over the same sessions, snapshots and live catalogues changes nothing, so it
    -- reports nothing again, if no two comparisons have one key.
    pub sweep-sweep :
        (active : List ActiveSession) (d : Detector)
        → Distinct (checks active)
        → sweep digest digest_tools probe get active (sweep digest digest_tools probe get active d)
          ≡ sweep digest digest_tools probe get active d
    sweep-sweep active d ne =
        let e = sweep-run active d in
        sweep-run active (sweep digest digest_tools probe get active d)
        ∙ ap (run (checks active)) e
        ∙ run-settled (checks active) (run (checks active) d) (run-AllSettled (checks active) d ne)
        ∙ sym e

  -- Where the live catalogue of the tenant cannot be read, a server whose recorded hash is not that
  -- of an empty list is reported as having lost every tool of it that the snapshot has, unless
  -- that was reported before.
  pub sweep_server-unreadable :
      (sess : ActiveSession) (snap : Snapshot) (sv : ServerInfo) (d : Detector) (name : GoString)
      (ot : ToolInfo)
      → server_tools_fingerprint digest_tools [] ≢ sv.schema_hash
      → or_empty_hash (lookup (emit_key sess.session_id sv.id) d.last_emitted)
        ≢ server_tools_fingerprint digest_tools []
      → Memᴰ (name, ot) (index_tools_by_name snap.tools)
      → ot.server_id ≡ sv.id
      → (e : DriftEvent) × ((sweep_server digest digest_tools sess snap
            (live_tools none sv.id)
            sv
            d).events
          ≡ d.events ++ e ∷ [])
        × (e.server_id ≡ sv.id)
        × Memᴰ name e.diff.removed
  unfolding sweep_server record_drift drift_event diff_tools
  sweep_server-unreadable sess snap sv d name ot h k m s =
      rw
        (
          differs (server_tools_fingerprint digest_tools []) sv.schema_hash h,
          differs (or_empty_hash (lookup (emit_key sess.session_id sv.id) d.last_emitted))
              (server_tools_fingerprint digest_tools []) k,
        )
        (
          drift_event digest digest_tools sess snap [] sv
              (server_tools_fingerprint digest_tools []),
          refl,
          refl,
          removed_mem sv.id _ (index_tools_by_name snap.tools) name ot m s
              (unfold index_new_tools new_refs index_tools_by_name index_from lookup in refl),
        )
