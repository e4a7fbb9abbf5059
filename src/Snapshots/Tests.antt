-- ===== src/Snapshots/Tests.antt =====
-- A session on a server with two tools, whose listing has not changed since the snapshot.
use mathlib.Core.List.Perm
use portico_gateway.Base.{
  str_lt, true, false, Option, none, some, List, [], ◌∷◌, ◌++◌, ◌≡◌, refl, GoString, codes, str_eq,
}
use portico_gateway.Base.Assoc.{Assoc}
use portico_gateway.Snapshots.{
  Tool, ToolInfo, ServerInfo, Snapshot, Shape, tool_fingerprint, server_tools_fingerprint,
  sort_tools, insert_tool,
}
use portico_gateway.Snapshots.Drift.{ActiveSession, new_detector, sweep}
use portico_gateway.Snapshots.Order.{server_tools_fingerprint-perm}
use portico_gateway.Snapshots.Sweeps.{checks, checks_in, checks_of, sweep-sweep}

abbrev merge : Tool
merge = record {
  name = codes "merge";
  description = [];
  input_schema = codes "{}";
  annotations = none;
  icons = [];
}

abbrev shut : Tool
shut = record {
  name = codes "close";
  description = [];
  input_schema = codes "{}";
  annotations = none;
  icons = [];
}

-- Stand-ins for the digests: the names and the class are kept.
abbrev names : List Tool → GoString
names [] = b'.' ∷ []
names (t ∷ tools) = t.name ++ b',' ∷ names tools

abbrev pick : GoString → Tool
pick name = elim (str_eq name (codes "merge")) [ true ↦ merge | false ↦ shut ]

sorted : sort_tools (merge ∷ shut ∷ []) ≡ shut ∷ merge ∷ []
unfolding sort_tools insert_tool str_lt
sorted = refl

server_tools_fingerprint-perm_example :
    server_tools_fingerprint names (merge ∷ shut ∷ [])
    ≡ server_tools_fingerprint names (shut ∷ merge ∷ [])
unfolding str_eq
server_tools_fingerprint-perm_example =
    server_tools_fingerprint-perm names pick (merge ∷ shut ∷ []) (shut ∷ merge ∷ [])
      (Perm.swap shut merge []) (refl, (refl, tt))

abbrev recorded : (Shape → GoString) → ToolInfo
recorded digest =
    let t : ToolInfo = record {
      namespaced_name = codes "github.merge";
      server_id = codes "github";
      description = [];
      input_schema = codes "{}";
      annotations = none;
      risk_class = codes "write";
      requires_approval = false;
      skill_id = [];
      hash = [];
    } in
    record t { hash = tool_fingerprint digest t }

abbrev class_of : Shape → GoString
class_of s = s.risk_class

abbrev bare : ToolInfo
bare = record (recorded class_of) { risk_class = []; hash = [] }

abbrev session : ActiveSession
session = record { tenant_id = codes "acme"; session_id = codes "s1"; snapshot_id = codes "n1" }

abbrev github : ServerInfo
github = record { id = codes "github"; schema_hash = codes "close,merge,." }

abbrev snapshot : Snapshot
snapshot = record { id = codes "n1"; servers = github ∷ []; tools = recorded class_of ∷ [] }

abbrev unreadable : GoString → Option (Assoc (List Tool))
unreadable tenant = none

abbrev stored : GoString → Option Snapshot
stored id = some snapshot

sweep-sweep_example :
    sweep class_of names unreadable stored
      (session ∷ [])
      (sweep class_of names unreadable stored (session ∷ []) new_detector)
    ≡ sweep class_of names unreadable stored (session ∷ []) new_detector
unfolding checks checks_in checks_of
sweep-sweep_example =
    sweep-sweep class_of names unreadable stored (session ∷ []) new_detector (tt, tt)
