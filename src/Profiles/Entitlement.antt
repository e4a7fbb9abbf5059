-- ===== src/Profiles/Entitlement.antt =====
-- What a restrictive profile (one that is not the default) permits.
use portico_gateway.Base.{
  true, false, some, List, [], ◌∷◌, ◌≡◌, refl, ◌↔◌, ◌⊎◌, inl, inr, arith, GoString, Memᴰ,
  contains_iff, cut, cut_iff, Option-cases, Without, ◌++◌,
}
use portico_gateway.Namespace.{split_tool}
use portico_gateway.Namespace.Names.{IsQualified, split_tool_iff}
use portico_gateway.Profiles.{Profile, allows_member, allows_tool, allows_a2a_task, listed}

-- An empty list names everything.
abbrev pub Listed : List GoString → GoString → Type 0
Listed members name = (members ≡ []) ⊎ Memᴰ name members

listed_iff :
    (members : List GoString) (name : GoString) → (listed members name ≡ true) ↔ Listed members name
listed_iff [] name = (λ h. inl refl, λ h. refl)
listed_iff (x ∷ xs) name = (
  λ h. inr ((contains_iff (x ∷ xs) name).0 h),
  λ h. elim h [ inl e ↦ absurd (cc) | inr m ↦ (contains_iff (x ∷ xs) name).1 m ],
)

allows_member_iff :
    (owners members : List GoString) (owner name : GoString)
    → (allows_member owners members owner name ≡ true) ↔ (Memᴰ owner owners × Listed members name)
unfolding allows_member
allows_member_iff owners members owner name = (
  λ h. ((contains_iff owners owner).0 (ground arith), (listed_iff members name).0 (ground arith)),
  λ h. rw ((contains_iff owners owner).1 h.0) ((listed_iff members name).1 h.1),
)

module _ (p : Profile) (restrictive : p.is_default ≡ false) where
  -- The tool is the qualified name of a tool of an allowed server, and is listed unless the
  -- profile lists no tool.
  abbrev pub ToolEntitled : GoString → Type 0
  ToolEntitled tool =
      (server : GoString) × (name : GoString) × IsQualified tool server name
      × Memᴰ server p.allowed_mcp_servers
      × Listed p.allowed_tools tool

  allows→entitled : (tool : GoString) → allows_tool (some p) tool ≡ true → ToolEntitled tool
  unfolding allows_tool
  allows→entitled tool h = elim (Option-cases (split_tool tool)) [
    | inl e ↦ absurd (ground arith)
    | inr ((server, name), e) ↦
        let m =
          (allows_member_iff p.allowed_mcp_servers p.allowed_tools server tool).0 (ground arith) in
        (server, name, (split_tool_iff tool server name).0 e, m.0, m.1)
  ]

  entitled→allows : (tool : GoString) → ToolEntitled tool → allows_tool (some p) tool ≡ true
  unfolding allows_tool
  entitled→allows tool (server, name, q, m, l) =
      rw (restrictive, (split_tool_iff tool server name).1 q)
        ((allows_member_iff p.allowed_mcp_servers p.allowed_tools server tool).1 (m, l))

  -- A restrictive profile permits a tool exactly when the name is the qualified name of a tool of
  -- an allowed server, and is one of the allowed tools unless none is listed.
  pub allows_tool_iff : (tool : GoString) → (allows_tool (some p) tool ≡ true) ↔ ToolEntitled tool
  allows_tool_iff tool = (allows→entitled tool, entitled→allows tool)

  -- The task carries the name of an allowed peer before its first dot, and is listed unless the
  -- profile lists no task.
  abbrev pub TaskEntitled : GoString → Type 0
  TaskEntitled task =
      (peer : GoString) × (name : GoString) × (task ≡ peer ++ b'.' ∷ name)
      × Without b'.' peer
      × Memᴰ peer p.allowed_a2a_peers
      × Listed p.allowed_a2a_tasks task

  allows→entitled_task :
      (task : GoString) → allows_a2a_task (some p) task ≡ true → TaskEntitled task
  unfolding allows_a2a_task
  allows→entitled_task task h = elim (Option-cases (cut task b'.')) [
    | inl e ↦ absurd (ground arith)
    | inr ((peer, name), e) ↦
        let m =
          (allows_member_iff p.allowed_a2a_peers p.allowed_a2a_tasks peer task).0 (ground arith) in
        let (joined, no_dot) = (cut_iff task b'.' peer name).0 e in
        (peer, name, joined, no_dot, m.0, m.1)
  ]

  entitled→allows_task :
      (task : GoString) → TaskEntitled task → allows_a2a_task (some p) task ≡ true
  unfolding allows_a2a_task
  entitled→allows_task task (peer, name, joined, no_dot, m, l) =
      rw (restrictive, (cut_iff task b'.' peer name).1 (joined, no_dot))
        ((allows_member_iff p.allowed_a2a_peers p.allowed_a2a_tasks peer task).1 (m, l))

  -- A restrictive profile permits an A2A task exactly when the name is an allowed peer's before
  -- its first dot, and is one of the allowed tasks unless none is listed.
  pub allows_a2a_task_iff :
      (task : GoString) → (allows_a2a_task (some p) task ≡ true) ↔ TaskEntitled task
  allows_a2a_task_iff task = (allows→entitled_task task, entitled→allows_task task)
