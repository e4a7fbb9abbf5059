-- ===== src/CodeMode/Gate.antt =====
-- When an execution is refused, and how many tool calls it may make.
use portico_gateway.Base.{
  ℕ, ◌≤◌, ◌<◌, true, false, List, [], ◌∷◌, ◌≡◌, ◌≢◌, ◌↔◌, ◌⊎◌, refl, arith, GoString, contains_iff,
  Memᴰ,
}
use portico_gateway.CodeMode.{
  Policy, EvalInput, has_levels, evaluate, effective_max_tool_calls, Budget, normalized,
  default_budget, or_default,
}

-- The posture is against the call.
abbrev pub IsRefused : Policy → EvalInput → Type 0
IsRefused p i =
    (p.disabled ≡ true)
    ⊎ ((0 < p.max_execution_bytes) × (p.max_execution_bytes < i.code_bytes))
    ⊎ ((p.allowed_binding_levels ≢ []) × (¬ Memᴰ i.binding_level p.allowed_binding_levels))

has_levels_iff : (ls : List GoString) → (has_levels ls ≡ true) ↔ (ls ≢ [])
has_levels_iff [] = (λ h. absurd (cc), λ h. absurd (h refl))
has_levels_iff (l ∷ ls) = (λ h e. cc, λ h. refl)

-- A call is denied exactly when the session is in Code Mode, it resumes nothing, and the posture is
-- against it; otherwise it needs an approval exactly when the posture asks for one of every call
-- that is not a resumption.
pub evaluate_iff :
    (p : Policy) (i : EvalInput)
    → (((evaluate p i).deny ≡ true) ↔ ((i.enabled ≡ true) × (i.is_resume ≡ false) × IsRefused p i))
      × (((evaluate p i).require_approval ≡ true) ↔ (
          (i.enabled ≡ true)
          × (i.is_resume ≡ false)
          × (p.require_approval_on_execute ≡ true)
          × ¬ IsRefused p i))
unfolding evaluate
evaluate_iff p i =
    let levels = has_levels_iff p.allowed_binding_levels in
    let named = contains_iff p.allowed_binding_levels i.binding_level in
    (
      (ground (arith, levels, named), ground (arith, levels, named)),
      (ground (arith, levels, named), ground (arith, levels, named)),
    )

-- The cap of the posture is a ceiling: the effective cap is one of the two, no more than either of
-- those that are set, and none only where neither is set.
pub effective_max_tool_calls_lem :
    (p : Policy) (n : ℕ)
    → let m = effective_max_tool_calls p n in
      ((m ≡ n) ⊎ (m ≡ p.max_tool_calls_inside))
      × (0 < p.max_tool_calls_inside → m ≤ p.max_tool_calls_inside)
      × (0 < n → m ≤ n)
      × (m ≡ 0 → (n ≡ 0) × (p.max_tool_calls_inside ≡ 0))
unfolding effective_max_tool_calls
effective_max_tool_calls_lem p n = (ground arith, ground arith, ground arith, ground arith)

or_default_twice : (n d : ℕ) → or_default (or_default n d) d ≡ or_default n d
or_default_twice n d = ground arith

-- A normalised budget bounds every dimension, keeps what was set, and is normalised again to
-- itself.
pub normalized_bounds :
    (b : Budget)
    → let n = normalized b in
      (0 < n.max_steps)
      × (0 < n.wall_clock)
      × (0 < n.max_output_bytes)
      × (0 < n.max_tool_calls)
      × (0 < n.max_alloc_bytes)
      × (0 < b.max_steps → n.max_steps ≡ b.max_steps)
      × (0 < b.max_tool_calls → n.max_tool_calls ≡ b.max_tool_calls)
      × (normalized n ≡ n)
unfolding normalized
normalized_bounds b = (
  ground arith,
  ground arith,
  ground arith,
  ground arith,
  ground arith,
  ground arith,
  ground arith,
  rw
      (
        or_default_twice b.max_steps default_budget.max_steps,
        or_default_twice b.wall_clock default_budget.wall_clock,
        or_default_twice b.max_output_bytes default_budget.max_output_bytes,
        or_default_twice b.max_tool_calls default_budget.max_tool_calls,
        or_default_twice b.max_alloc_bytes default_budget.max_alloc_bytes,
      )
      refl,
)
