-- ===== src/Snapshots/Drift.antt =====
-- internal/catalog/snapshots/drift.go: one sweep of the detector. The store, the live catalogue and
-- the snapshots are functions; the order of Go's map iteration in a difference is that of the maps
-- here.
use portico_gateway.Base.{
  ℕ, false, not, Option, none, some, List, [], ◌∷◌, ◌++◌, if◌then◌else◌, GoString, str_eq, length,
}
use portico_gateway.Base.Assoc.{Assoc, lookup, set}
use portico_gateway.Snapshots.{
  Tool, ToolInfo, ServerInfo, Snapshot, Shape, tool_fingerprint, server_tools_fingerprint,
  index_tools_by_name, ModifiedTool, ToolDiff, modified_tool,
}

-- ifaces row of an active session.
pub record ActiveSession : Type 0 where
  pub tenant_id : GoString
  pub session_id : GoString
  pub snapshot_id : GoString

-- The schema.drift event.
pub record DriftEvent : Type 0 where
  pub tenant_id : GoString
  pub session_id : GoString
  pub snapshot_id : GoString
  pub server_id : GoString
  pub old_hash : GoString
  pub new_hash : GoString
  pub diff : ToolDiff

-- store.UpsertFingerprint: tenant, server, hash and number of tools.
pub record Fingerprint : Type 0 where
  pub tenant_id : GoString
  pub server_id : GoString
  pub hash : GoString
  pub tools : ℕ

-- `lastEmitted`, with what the sweeps have emitted and stored, the latest last.
pub record Detector : Type 0 where
  pub last_emitted : Assoc GoString
  pub events : List DriftEvent
  pub fingerprints : List Fingerprint

unfoldable pub new_detector : Detector
new_detector = record { last_emitted = []; events = []; fingerprints = [] }

-- The names of `news` that `olds` has not.
unfoldable pub added : Assoc ToolInfo → Assoc ToolInfo → List GoString
added olds [] = []
added olds ((name, nt) ∷ news) =
    let rest = added olds news in elim (lookup name olds) [ none ↦ name ∷ rest | some ot ↦ rest ]

-- What an old tool adds to the removed ones, by the new tool of its name.
unfoldable pub removed_by : GoString → GoString → ToolInfo → Option ToolInfo → List GoString
removed_by server name ot none = if not (str_eq ot.server_id server) then [] else name ∷ []
removed_by server name ot (some nt) = []

-- The old tools of the server that are gone.
unfoldable pub removed : GoString → Assoc ToolInfo → Assoc ToolInfo → List GoString
removed server [] news = []
removed server ((name, ot) ∷ olds) news =
    removed_by server name ot (lookup name news) ++ removed server olds news

-- What an old tool adds to the modified ones, likewise.
unfoldable pub modified_by : GoString → GoString → ToolInfo → Option ToolInfo → List ModifiedTool
modified_by server name ot none = []
modified_by server name ot (some nt) =
    if not (str_eq ot.server_id server)
    then []
    else if not (str_eq ot.hash nt.hash)
    then modified_tool name ot nt ∷ []
    else []

unfoldable pub modified : GoString → Assoc ToolInfo → Assoc ToolInfo → List ModifiedTool
modified server [] news = []
modified server ((name, ot) ∷ olds) news =
    modified_by server name ot (lookup name news) ++ modified server olds news

unfoldable pub diff_tools : Assoc ToolInfo → Assoc ToolInfo → GoString → ToolDiff
diff_tools olds news server = record {
  added = added olds news;
  removed = removed server olds news;
  modified = modified server olds news;
}

-- `sess.SessionID + "|" + sv.ID`
abbrev pub emit_key : GoString → GoString → GoString
emit_key session server = session ++ b'|' ∷ server

-- `d.lastEmitted[emitKey]`, with "" for a key that is not there.
abbrev pub or_empty_hash : Option GoString → GoString
or_empty_hash none = []
or_empty_hash (some h) = h

-- `per[tenantID][serverID]`: no tools where the probe failed or does not know the server.
abbrev pub live_tools : Option (Assoc (List Tool)) → GoString → List Tool
live_tools none server = []
live_tools (some per) server = elim (lookup server per) [ none ↦ [] | some tools ↦ tools ]

module _ (digest : Shape → GoString) where
  unfoldable pub new_ref : GoString → Tool → ToolInfo
  new_ref server t =
      let ti : ToolInfo = record {
        namespaced_name = server ++ b'.' ∷ t.name;
        server_id = server;
        description = t.description;
        input_schema = t.input_schema;
        annotations = t.annotations;
        risk_class = [];
        requires_approval = false;
        skill_id = [];
        hash = [];
      } in
      record ti { hash = tool_fingerprint digest ti }

  unfoldable pub new_refs : GoString → List Tool → List ToolInfo
  new_refs server [] = []
  new_refs server (t ∷ tools) = new_ref server t ∷ new_refs server tools

  unfoldable pub index_new_tools : List Tool → GoString → Assoc ToolInfo
  index_new_tools tools server = index_tools_by_name (new_refs server tools)

-- The snapshot of a session: none for an empty id.
abbrev pub bound_snapshot : (GoString → Option Snapshot) → GoString → Option Snapshot
bound_snapshot get [] = none
bound_snapshot get (c ∷ id) = get (c ∷ id)

module _ (digest : Shape → GoString) (digest_tools : List Tool → GoString) where
  unfoldable pub drift_event :
      ActiveSession → Snapshot → List Tool → ServerInfo → GoString → DriftEvent
  drift_event sess snap tools sv current = record {
    tenant_id = sess.tenant_id;
    session_id = sess.session_id;
    snapshot_id = snap.id;
    server_id = sv.id;
    old_hash = sv.schema_hash;
    new_hash = current;
    diff = diff_tools (index_tools_by_name snap.tools) (index_new_tools digest tools sv.id) sv.id;
  }

  unfoldable pub record_drift :
      ActiveSession → Snapshot → List Tool → ServerInfo → GoString → Detector → Detector
  record_drift sess snap tools sv current d = record {
    last_emitted = set (emit_key sess.session_id sv.id) current d.last_emitted;
    events = d.events ++ drift_event sess snap tools sv current ∷ [];
    fingerprints =
        d.fingerprints
        ++ record {
          tenant_id = sess.tenant_id;
          server_id = sv.id;
          hash = current;
          tools = length tools;
        }
          ∷ [];
  }

  -- The body of the loop over the servers of a snapshot.
  unfoldable pub sweep_server :
      ActiveSession → Snapshot → List Tool → ServerInfo → Detector → Detector
  sweep_server sess snap tools sv d =
      let current = server_tools_fingerprint digest_tools tools in
      if str_eq current sv.schema_hash
      then d
      else if str_eq (or_empty_hash (lookup (emit_key sess.session_id sv.id) d.last_emitted))
          current
      then d
      else record_drift sess snap tools sv current d

  unfoldable pub sweep_servers :
      ActiveSession → Snapshot → Option (Assoc (List Tool)) → List ServerInfo → Detector → Detector
  sweep_servers sess snap per [] d = d
  sweep_servers sess snap per (sv ∷ svs) d =
      sweep_servers sess snap per svs (sweep_server sess snap (live_tools per sv.id) sv d)

  -- A session with its snapshot, if that can be read.
  unfoldable pub sweep_snapshot :
      ActiveSession → Option (Assoc (List Tool)) → Option Snapshot → Detector → Detector
  sweep_snapshot sess per none d = d
  sweep_snapshot sess per (some snap) d = sweep_servers sess snap per snap.servers d

  module _ (probe : GoString → Option (Assoc (List Tool))) (get : GoString → Option Snapshot) where
    unfoldable pub sweep_session : ActiveSession → Detector → Detector
    sweep_session sess d =
        sweep_snapshot sess (probe sess.tenant_id) (bound_snapshot get sess.snapshot_id) d

    -- The sweep over the active sessions.
    unfoldable pub sweep : List ActiveSession → Detector → Detector
    sweep [] d = d
    sweep (sess ∷ active) d = sweep active (sweep_session sess d)
