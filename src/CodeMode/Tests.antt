-- ===== src/CodeMode/Tests.antt =====
-- A posture that limits the size of a snippet, and a buffer of four bytes.
use portico_gateway.Base.{◌≤◌, true, false, [], ◌∷◌, ◌≡◌, codes, length, take}
use portico_gateway.CodeMode.{Policy, EvalInput, new_bounded_buffer}
use portico_gateway.CodeMode.Output.{output, written, written_front}

abbrev posture : Policy
posture = record {
  disabled = false;
  max_execution_bytes = 100;
  max_tool_calls_inside = 5;
  allowed_binding_levels = codes "server" ∷ [];
  require_approval_on_execute = true;
  deny_unsafe_starlark = false;
}

abbrev large : EvalInput
large = record {
  enabled = true;
  binding_level = codes "server";
  code_bytes = 101;
  is_resume = false;
}

written_front_example :
    let b = written (codes "de" ∷ codes "abc" ∷ []) (new_bounded_buffer 4) in
    (b.buf ≡ take 4 (output (codes "de" ∷ codes "abc" ∷ [])))
    × (b.truncated ≡ false → b.buf ≡ output (codes "de" ∷ codes "abc" ∷ []))
    × (b.truncated ≡ true → 4 ≤ length (output (codes "de" ∷ codes "abc" ∷ [])))
written_front_example = written_front 4 (codes "de" ∷ codes "abc" ∷ [])
