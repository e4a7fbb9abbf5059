-- ===== src/Snapshots.antt =====
-- internal/catalog/snapshots: the tools of a snapshot (snapshot.go), their fingerprints
-- (fingerprint.go) and the difference of two catalogues; Drift is drift.go. The canonical JSON of a
-- value with SHA-256 over it is a function of the value: `digest` of a tool's shape, `digest_tools`
-- of a list. Annotations are their canonical JSON.
pub mod Drift
pub mod Order
pub mod Differences
pub mod Sweeps
mod Tests
use portico_gateway.Base.{
  ℕ, Bool, true, false, not, ◌&&◌, ◌||◌, Option, none, some, List, [], ◌∷◌, ◌++◌, ltb, ◌==◌,
  if◌then◌else◌, GoString, codes, str_eq, str_lt,
}
use portico_gateway.Base.Assoc.{Assoc, lookup, set}

-- protocol.Tool, as the downstream server lists it.
pub record Tool : Type 0 where
  pub name : GoString
  pub description : GoString
  pub input_schema : GoString
  pub annotations : Option GoString
  pub icons : GoString

pub record ToolInfo : Type 0 where
  pub namespaced_name : GoString
  pub server_id : GoString
  pub description : GoString
  pub input_schema : GoString
  pub annotations : Option GoString
  pub risk_class : GoString
  pub requires_approval : Bool
  pub skill_id : GoString
  pub hash : GoString

pub record ServerInfo : Type 0 where
  pub id : GoString
  pub schema_hash : GoString

pub record Snapshot : Type 0 where
  pub id : GoString
  pub servers : List ServerInfo
  pub tools : List ToolInfo

-- The fields that a tool's fingerprint reads.
pub record Shape : Type 0 where
  pub namespaced_name : GoString
  pub server_id : GoString
  pub description : GoString
  pub input_schema : GoString
  pub annotations : Option GoString
  pub risk_class : GoString
  pub requires_approval : Bool
  pub skill_id : GoString

unfoldable pub shape : ToolInfo → Shape
shape t = record {
  namespaced_name = t.namespaced_name;
  server_id = t.server_id;
  description = t.description;
  input_schema = t.input_schema;
  annotations = t.annotations;
  risk_class = t.risk_class;
  requires_approval = t.requires_approval;
  skill_id = t.skill_id;
}

unfoldable pub tool_fingerprint : (Shape → GoString) → ToolInfo → GoString
tool_fingerprint digest t = digest (shape t)

-- `sort.Slice` by name.
unfoldable pub insert_tool : Tool → List Tool → List Tool
insert_tool x [] = x ∷ []
insert_tool x (y ∷ ys) =
    let rest = insert_tool x ys in if str_lt y.name x.name then y ∷ rest else x ∷ y ∷ ys

unfoldable pub sort_tools : List Tool → List Tool
sort_tools [] = []
sort_tools (x ∷ xs) = insert_tool x (sort_tools xs)

unfoldable pub server_tools_fingerprint : (List Tool → GoString) → List Tool → GoString
server_tools_fingerprint digest_tools tools = digest_tools (sort_tools tools)

-- The tools under their names; the last of a name stands.
unfoldable pub index_from : Assoc ToolInfo → List ToolInfo → Assoc ToolInfo
index_from m [] = m
index_from m (t ∷ ts) = index_from (set t.namespaced_name t m) ts

unfoldable pub index_tools_by_name : List ToolInfo → Assoc ToolInfo
index_tools_by_name ts = index_from [] ts

unfoldable pub equal_annotations : Option GoString → Option GoString → Bool
equal_annotations none none = true
equal_annotations none (some b) = false
equal_annotations (some a) none = false
equal_annotations (some a) (some b) = str_eq a b

abbrev pub bool_eq : Bool → Bool → Bool
bool_eq true b = b
bool_eq false b = not b

abbrev pub field : Bool → GoString → List GoString
field same name = if same then [] else name ∷ []

unfoldable pub changed_fields : ToolInfo → ToolInfo → List GoString
changed_fields a b =
    field (str_eq a.input_schema b.input_schema) (codes "input_schema")
    ++ (field (str_eq a.description b.description) (codes "description")
        ++ (field (equal_annotations a.annotations b.annotations) (codes "annotations")
            ++ (field (str_eq a.risk_class b.risk_class) (codes "risk_class")
                ++ (field (bool_eq a.requires_approval b.requires_approval)
                      (codes "requires_approval")
                    ++ field (str_eq a.skill_id b.skill_id) (codes "skill_id")))))

pub record ModifiedTool : Type 0 where
  pub name : GoString
  pub fields_changed : List GoString
  pub old_hash : GoString
  pub new_hash : GoString

pub record ToolDiff : Type 0 where
  pub added : List GoString
  pub removed : List GoString
  pub modified : List ModifiedTool

abbrev pub modified_tool : GoString → ToolInfo → ToolInfo → ModifiedTool
modified_tool name ot nt = record {
  name = name;
  fields_changed = changed_fields ot nt;
  old_hash = ot.hash;
  new_hash = nt.hash;
}
