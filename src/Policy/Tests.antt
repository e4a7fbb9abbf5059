-- ===== src/Policy/Tests.antt =====
-- An engine with one server, one skill and a denylist.

use portico_gateway.Base.{
  ◌≡◌, refl, ◌↔◌, ◌⊎◌, true, false, none, some, [], ◌∷◌, codes, Memᴰ, str_eq, contains,
}
use portico_gateway.Base.Assoc.{lookup}
use portico_gateway.Namespace.{split_tool}
use portico_gateway.Policy.Glob.{match_any, matches, path_match}
use portico_gateway.Policy.Risk.{risk_read, canonical_risk, requires_approval_default}
use portico_gateway.Policy.Skills.{Manifest, Owner, find_owning_skill, owns}
use portico_gateway.Policy.Engine.{
  Policy, Snapshot, Decision, Engine, new, lookup_server, find_server, refusal, decide, pass, blank,
  owner, owner_asks, server_risk, risk_of, evaluate_on, evaluate_tool_call, reason_passes,
}
use portico_gateway.Policy.Engine.Admission.{
  IsAdmitted, IsAllowed, evaluate_tool_call_iff, denied-prefix,
}
use portico_gateway.Policy.Engine.Approval.{IsGuarded, requires_approval_iff}

abbrev github : Snapshot
github = record { id = codes "github"; default_risk = some (codes "destructive"); enabled = true }

abbrev review : Manifest
review = record {
  id = codes "review";
  required_tools = codes "github.drop" ∷ [];
  optional_tools = [];
  requires_approval = [];
  risk_classes = (codes "github.drop", codes "read") ∷ [];
}

abbrev acme : Policy
acme = record {
  tool_allowlist = [];
  tool_denylist = codes "github.delete_*" ∷ [];
  approval_timeout = 0;
}

abbrev engine : Engine
engine = new (some (λ t. some (github ∷ []))) (some (some review ∷ [])) none (some (λ t. acme)) [] 0

abbrev drop : Decision
drop = record {
  allow = true;
  reason = reason_passes;
  tool = codes "github.drop";
  server_id = codes "github";
  skill_id = codes "review";
  risk_class = codes "read";
  requires_approval = false;
  approval_timeout = 300000000000;
}

-- The server is destructive, and the call is allowed with no approval.
evaluate_drop : evaluate_tool_call engine (codes "acme") [] (codes "github.drop") ≡ some drop
unfolding evaluate_tool_call evaluate_on decide pass blank owner risk_of server_risk refusal
    lookup_server find_server split_tool match_any matches find_owning_skill owns canonical_risk
    requires_approval_default new contains str_eq lookup path_match
evaluate_drop = refl

evaluate_tool_call_iff_example :
    IsAllowed engine (codes "acme") [] (codes "github.drop")
    ↔ IsAdmitted engine (codes "acme") [] (codes "github.drop")
evaluate_tool_call_iff_example =
    evaluate_tool_call_iff engine (codes "acme") [] (codes "github.drop")

denied-prefix_example : ¬ IsAllowed engine (codes "acme") [] (codes "github.delete_repo")
unfolding new
denied-prefix_example =
    denied-prefix engine (codes "acme") [] (codes "github.delete_") (codes "repo") (Memᴰ.head refl)

requires_approval_iff_example : (drop.requires_approval ≡ true) ↔ (
    IsGuarded drop.risk_class
    ⊎ (owner_asks (owner engine (codes "acme") [] (codes "github.drop")) ≡ true))
requires_approval_iff_example =
    requires_approval_iff engine (codes "acme") [] (codes "github.drop") drop evaluate_drop refl

abbrev review_owner : Owner
review_owner = record {
  skill_id = codes "review";
  risk_override = risk_read;
  requires_approval = false;
}

drop_owner : owner engine (codes "acme") [] (codes "github.drop") ≡ some review_owner
unfolding owner find_owning_skill owns new contains str_eq lookup
drop_owner = refl
