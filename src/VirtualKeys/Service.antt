-- ===== src/VirtualKeys/Service.antt =====
-- internal/auth/virtual_keys/vk.go: what a resolved key allows, and the lifecycle service over the
-- rows. `none` is an error; the clock is an argument, a time of day in the format of the store.
pub mod Allow
pub mod Lifecycle
pub mod Rotation
use portico_gateway.Base.{
  ℕ, Bool, true, false, not, ◌&&◌, ◌||◌, Option, none, some, List, [], ◌∷◌, if◌then◌else◌, GoString,
  codes, str_eq, is_empty, contains,
}
use portico_gateway.VirtualKeys.Token.{new_id, new_secret, compose_token}
use portico_gateway.VirtualKeys.Store.{VirtualKey, VirtualKeys, get_virtual_key, put_virtual_key}

pub record Resolved : Type 0 where
  pub vk_id : GoString
  pub tenant_id : GoString
  pub name : GoString
  pub scopes : List GoString
  pub provider_allowlist : List GoString
  pub model_allowlist : List GoString
  pub mcp_server_allowlist : List GoString
  pub profile_id : GoString
  pub parent_kind : GoString
  pub parent_id : GoString

unfoldable pub has_scope : Resolved → GoString → Bool
has_scope r s = contains r.scopes s

unfoldable pub allowed : List GoString → GoString → Bool
allowed [] v = true
allowed (x ∷ xs) v = contains (x ∷ xs) v

unfoldable pub allows_provider : Resolved → GoString → Bool
allows_provider r driver = allowed r.provider_allowlist driver

unfoldable pub allows_model : Resolved → GoString → Bool
allows_model r alias = allowed r.model_allowlist alias

unfoldable pub allows_server : Resolved → GoString → Bool
allows_server r server = allowed r.mcp_server_allowlist server

pub record CreateParams : Type 0 where
  pub tenant_id : GoString
  pub name : GoString
  pub scopes : List GoString
  pub provider_allowlist : List GoString
  pub model_allowlist : List GoString
  pub mcp_server_allowlist : List GoString
  pub profile_id : GoString
  pub parent_kind : GoString
  pub parent_id : GoString

pub record Created : Type 0 where
  pub vk : VirtualKey
  pub token : GoString

-- What the random generator delivers for the id, the secret and the salt.
pub record Random : Type 0 where
  pub id : Option (List ℕ)
  pub secret : Option (List ℕ)
  pub salt : Option (List ℕ)

unfoldable pub parent_kind_of : CreateParams → GoString
parent_kind_of p = if is_empty p.parent_kind then codes "none" else p.parent_kind

-- The rows are unchanged where the store refuses.
unfoldable pub stored :
    Bool → GoString → VirtualKey → GoString → VirtualKeys → VirtualKeys × Option Created
stored fault now vk token rows = elim (put_virtual_key fault now vk rows) [
  | none ↦ (rows, none)
  | some rows' ↦ (rows', some (record { vk = vk; token = token }))
]

module _ (compute_hmac : GoString → GoString → GoString) where
  unfoldable pub issued : CreateParams → GoString → GoString → GoString → VirtualKey
  issued p id secret salt = record {
    tenant_id = p.tenant_id;
    id = id;
    name = p.name;
    salt = salt;
    hmac = compute_hmac salt secret;
    parent_kind = parent_kind_of p;
    parent_id = p.parent_id;
    profile_id = p.profile_id;
    scopes = p.scopes;
    provider_allowlist = p.provider_allowlist;
    model_allowlist = p.model_allowlist;
    mcp_server_allowlist = p.mcp_server_allowlist;
    enabled = true;
    created_at = [];
    rotated_at = [];
    revoked_at = [];
  }

  -- The issue of a key, once its id, secret and salt are there.
  unfoldable pub issue :
      Bool
      → GoString
      → CreateParams
      → Option GoString
      → Option GoString
      → Option GoString
      → VirtualKeys
      → VirtualKeys × Option Created
  issue fault now p (some id) (some secret) (some salt) rows =
      stored fault now (issued p id secret salt) (compose_token id secret) rows
  issue fault now p none secret salt rows = (rows, none)
  issue fault now p (some id) none salt rows = (rows, none)
  issue fault now p (some id) (some secret) none rows = (rows, none)

  unfoldable pub create :
      Bool → GoString → Random → CreateParams → VirtualKeys → VirtualKeys × Option Created
  create fault now random p rows =
      if is_empty p.tenant_id || is_empty p.name
      then (rows, none)
      else if not (str_eq (parent_kind_of p) (codes "none")) && is_empty p.parent_id
      then (rows, none)
      else issue fault now p (new_id random.id) (new_secret random.secret) random.salt rows

  -- A fresh secret and salt for a key that is there.
  unfoldable pub reissue :
      Bool
      → GoString
      → GoString
      → Option GoString
      → Option GoString
      → VirtualKey
      → VirtualKeys
      → VirtualKeys × Option Created
  reissue fault now id (some secret) (some salt) vk rows =
      stored fault now
        (record vk { salt = salt; hmac = compute_hmac salt secret; rotated_at = now })
        (compose_token id secret) rows
  reissue fault now id none salt vk rows = (rows, none)
  reissue fault now id (some secret) none vk rows = (rows, none)

  unfoldable pub rotate :
      Bool → GoString → Random → GoString → GoString → VirtualKeys → VirtualKeys × Option Created
  rotate fault now random tenant id rows = elim (get_virtual_key tenant id rows) [
    | none ↦ (rows, none)
    | some vk ↦ reissue fault now id (new_secret random.secret) random.salt vk rows
  ]

-- The flag says that there was no error.
unfoldable pub revoke : Bool → GoString → GoString → GoString → VirtualKeys → VirtualKeys × Bool
revoke fault now tenant id rows = elim (get_virtual_key tenant id rows) [
  | none ↦ (rows, false)
  | some vk ↦
      elim (put_virtual_key fault now (record vk { enabled = false; revoked_at = now }) rows) [
        | none ↦ (rows, false)
        | some rows' ↦ (rows', true)
      ]
]
