-- ===== src/VirtualKeys/Store.antt =====
-- The rows of governance_virtual_keys (internal/storage/sqlite/governance_store.go), and the key they
-- hold (VirtualKey of internal/storage/ifaces/governance.go). The tables of the three allow lists are
-- fields of the row, as they are read back.
use portico_gateway.Base.{
  str_lt, contains, not, false, Bool, ◌&&◌, ◌||◌, Option, none, some, List, [], ◌∷◌, if◌then◌else◌,
  GoString, codes, str_eq, is_empty,
}

pub record VirtualKey : Type 0 where
  pub tenant_id : GoString
  pub id : GoString
  pub name : GoString
  pub salt : GoString
  pub hmac : GoString
  pub parent_kind : GoString
  pub parent_id : GoString
  pub profile_id : GoString
  pub scopes : List GoString
  pub provider_allowlist : List GoString
  pub model_allowlist : List GoString
  pub mcp_server_allowlist : List GoString
  pub enabled : Bool
  pub created_at : GoString
  pub rotated_at : GoString
  pub revoked_at : GoString

abbrev pub VirtualKeys : Type 0
VirtualKeys = List VirtualKey

abbrev pub is_row : GoString → GoString → VirtualKey → Bool
is_row tenant id r = str_eq r.tenant_id tenant && str_eq r.id id

-- WHERE tenant_id = ? AND id = ?
unfoldable pub find_row : GoString → GoString → VirtualKeys → Option VirtualKey
find_row tenant id [] = none
find_row tenant id (r ∷ rows) = if is_row tenant id r then some r else find_row tenant id rows

-- `none` is an error, of the arguments or ErrGovernanceNotFound.
unfoldable pub get_virtual_key : GoString → GoString → VirtualKeys → Option VirtualKey
get_virtual_key tenant id rows =
    if is_empty tenant || is_empty id then none else find_row tenant id rows

-- WHERE id = ?, over all tenants; `none` is ErrGovernanceNotFound.
unfoldable pub find_id : GoString → VirtualKeys → Option VirtualKey
find_id id [] = none
find_id id (r ∷ rows) = if str_eq r.id id then some r else find_id id rows

unfoldable pub lookup_virtual_key_by_id : GoString → VirtualKeys → Option VirtualKey
lookup_virtual_key_by_id id rows = if is_empty id then none else find_id id rows

-- The time of the old row, if it has one.
abbrev created_of : VirtualKey → VirtualKey → GoString
created_of vk r = if is_empty r.created_at then vk.created_at else r.created_at

-- ON CONFLICT(tenant_id, id) DO UPDATE; `created_at` is kept.
unfoldable pub upsert : VirtualKey → VirtualKeys → VirtualKeys
upsert vk [] = vk ∷ []
upsert vk (r ∷ rows) =
    let rest = upsert vk rows in
    if is_row vk.tenant_id vk.id r
    then record vk { created_at = created_of vk r } ∷ rows
    else r ∷ rest

-- `replaceVKAllowlist` and the read of the table: the empty items are skipped, and the others come
-- back in the order of the column.
unfoldable pub insert_item : GoString → List GoString → List GoString
insert_item x [] = x ∷ []
insert_item x (y ∷ ys) = let rest = insert_item x ys in if str_lt y x then y ∷ rest else x ∷ y ∷ ys

unfoldable pub listed_items : List GoString → List GoString
listed_items [] = []
listed_items (x ∷ xs) =
    let rest = listed_items xs in if is_empty x then rest else insert_item x rest

-- An item stands twice among those that are written, which the primary key of the table forbids.
unfoldable pub has_repeat : List GoString → Bool
has_repeat [] = false
has_repeat (x ∷ xs) = (not (is_empty x) && contains xs x) || has_repeat xs

-- The key as it is read back, but for the time of its creation and an empty parent kind.
abbrev pub relisted : VirtualKey → VirtualKey
relisted vk = record vk {
  provider_allowlist = listed_items vk.provider_allowlist;
  model_allowlist = listed_items vk.model_allowlist;
  mcp_server_allowlist = listed_items vk.mcp_server_allowlist;
}

-- The row as it is written where there is none yet.
unfoldable pub written : GoString → VirtualKey → VirtualKey
written now vk = record (relisted vk) {
  parent_kind = if is_empty vk.parent_kind then codes "none" else vk.parent_kind;
  created_at = now;
}

-- `none` is an error; `fault` is one of the database, its other constraints included.
unfoldable pub put_virtual_key : Bool → GoString → VirtualKey → VirtualKeys → Option VirtualKeys
put_virtual_key fault now vk rows =
    if is_empty vk.tenant_id || is_empty vk.id || is_empty vk.name
    then none
    else if is_empty vk.salt || is_empty vk.hmac
    then none
    else if fault
    then none
    else if has_repeat vk.provider_allowlist
        || (has_repeat vk.model_allowlist || has_repeat vk.mcp_server_allowlist)
    then none
    else some (upsert (written now vk) rows)
