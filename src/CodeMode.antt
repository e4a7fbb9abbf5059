-- ===== src/CodeMode.antt =====
-- The posture of Code Mode (internal/mcp/codemode/policy.go), and the budget and the output buffer
-- of one execution (internal/mcp/codemode/runtime/budget.go). A number is 0 where Go's is not
-- positive, and durations are nanoseconds.
pub mod Gate
pub mod Output
mod Tests
use portico_gateway.Base.{
  ℕ, ◌+◌, ◌-◌, ◌*◌, ◌^◌, Bool, true, false, not, ◌&&◌, ◌||◌, List, [], ◌∷◌, ◌++◌, if◌then◌else◌,
  ltb, leb, GoString, codes, contains, is_empty, length, take,
}

pub record Policy : Type 0 where
  pub disabled : Bool
  pub max_execution_bytes : ℕ
  pub max_tool_calls_inside : ℕ
  pub allowed_binding_levels : List GoString
  pub require_approval_on_execute : Bool
  pub deny_unsafe_starlark : Bool

pub record EvalInput : Type 0 where
  pub enabled : Bool
  pub binding_level : GoString
  pub code_bytes : ℕ
  pub is_resume : Bool

pub record Decision : Type 0 where
  pub deny : Bool
  pub reason : GoString
  pub require_approval : Bool

abbrev pub reason_execution_too_large : GoString
reason_execution_too_large = codes "code_mode.execution_too_large"

abbrev pub reason_binding_level_denied : GoString
reason_binding_level_denied = codes "code_mode.binding_level_denied"

abbrev pub reason_disabled : GoString
reason_disabled = codes "code_mode.disabled_by_policy"

abbrev zero_decision : Decision
zero_decision = record { deny = false; reason = []; require_approval = false }

abbrev denied : GoString → Decision
denied reason = record { deny = true; reason = reason; require_approval = false }

-- `len(levels) > 0`
abbrev pub has_levels : List GoString → Bool
has_levels [] = false
has_levels (l ∷ ls) = true

unfoldable pub evaluate : Policy → EvalInput → Decision
evaluate p in_ =
    if not in_.enabled
    then zero_decision
    else if in_.is_resume
    then zero_decision
    else if p.disabled
    then denied reason_disabled
    else if ltb 0 p.max_execution_bytes && ltb p.max_execution_bytes in_.code_bytes
    then denied reason_execution_too_large
    else if has_levels p.allowed_binding_levels
        && not (contains p.allowed_binding_levels in_.binding_level)
    then denied reason_binding_level_denied
    else record zero_decision { require_approval = p.require_approval_on_execute }

unfoldable pub effective_max_tool_calls : Policy → ℕ → ℕ
effective_max_tool_calls p session_max =
    if leb p.max_tool_calls_inside 0
    then session_max
    else if leb session_max 0 || ltb p.max_tool_calls_inside session_max
    then p.max_tool_calls_inside
    else session_max

pub record Budget : Type 0 where
  pub max_steps : ℕ
  pub wall_clock : ℕ
  pub max_output_bytes : ℕ
  pub max_tool_calls : ℕ
  pub max_alloc_bytes : ℕ

abbrev pub default_max_output_bytes : ℕ
default_max_output_bytes = 2 ^ 20

abbrev pub default_budget : Budget
default_budget = record {
  max_steps = 100000;
  wall_clock = 30 * 10 ^ 9;
  max_output_bytes = default_max_output_bytes;
  max_tool_calls = 20;
  max_alloc_bytes = 256 * 2 ^ 20;
}

abbrev pub or_default : ℕ → ℕ → ℕ
or_default n default = if leb n 0 then default else n

unfoldable pub normalized : Budget → Budget
normalized b = record {
  max_steps = or_default b.max_steps default_budget.max_steps;
  wall_clock = or_default b.wall_clock default_budget.wall_clock;
  max_output_bytes = or_default b.max_output_bytes default_budget.max_output_bytes;
  max_tool_calls = or_default b.max_tool_calls default_budget.max_tool_calls;
  max_alloc_bytes = or_default b.max_alloc_bytes default_budget.max_alloc_bytes;
}

pub record BoundedBuffer : Type 0 where
  pub buf : GoString
  pub max : ℕ
  pub truncated : Bool

unfoldable pub new_bounded_buffer : ℕ → BoundedBuffer
new_bounded_buffer max = record {
  buf = [];
  max = or_default max default_max_output_bytes;
  truncated = false;
}

unfoldable pub write : GoString → BoundedBuffer → BoundedBuffer
write s b =
    let remaining = b.max - length b.buf in
    if b.truncated
    then b
    else if leb remaining 0
    then record b { truncated = true }
    else if ltb remaining (length s)
    then record b { buf = b.buf ++ take remaining s; truncated = true }
    else record b { buf = b.buf ++ s }

unfoldable pub write_line : GoString → BoundedBuffer → BoundedBuffer
write_line s b = write (10 ∷ []) (write s b)
