-- ===== src/LlmCache.antt =====
-- The exact-hash cache of model answers: internal/llm/cache/key.go and the LRU driver of
-- internal/llm/cache/inmem/driver.go, over the types of internal/llm/cache/ifaces. The list of the
-- driver and its index by key are one list of nodes, the most recently used first. SHA-256 with its
-- hexadecimal form is a parameter; the clock is an argument, and a zero time is `none`.
pub mod Lru
pub mod Bounds
pub mod Hits
pub mod Effects
mod Tests
use portico_gateway.Base.{
  ℕ, zero, suc, ◌+◌, ◌*◌, ◌^◌, Bool, true, false, not, ◌&&◌, Option, none, some, List, [], ◌∷◌,
  ◌++◌, if◌then◌else◌, ltb, leb, GoString, codes, str_eq, is_empty, length, filter,
}

pub record Key : Type 0 where
  pub tenant_id : GoString
  pub scope : GoString
  pub scope_id : GoString
  pub alias : GoString
  pub normalized_input : GoString
  pub mode : GoString
  pub extra_salt : GoString

-- The driver reads neither the similarity nor the cost.
pub record Entry : Type 0 where
  pub payload : GoString
  pub mode : GoString
  pub created_at : Option ℕ
  pub expires_at : Option ℕ
  pub tokens : ℕ

pub record Prefix : Type 0 where
  pub tenant_id : GoString
  pub alias : GoString
  pub scope_id : GoString
  pub all : Bool

abbrev pub mode_semantic : GoString
mode_semantic = codes "semantic"

abbrev pub key_sep : ℕ
key_sep = 0x1f

pub record Node : Type 0 where
  pub key : GoString
  pub tenant_id : GoString
  pub scope : GoString
  pub scope_id : GoString
  pub alias : GoString
  pub entry : Entry

pub record MemCache : Type 0 where
  pub max_entries : ℕ
  pub ttl : ℕ
  pub nodes : List Node
  pub hits : ℕ
  pub misses : ℕ

abbrev pub default_max_entries : ℕ
default_max_entries = 1024

abbrev pub default_ttl : ℕ
default_ttl = 5 * (60 * 10 ^ 9)

-- `intOpt` and `durOpt` on an option that is a number, if it is there.
unfoldable pub int_opt : Option ℕ → ℕ → ℕ
int_opt none default = default
int_opt (some n) default = if ltb 0 n then n else default

unfoldable pub new_driver : Option ℕ → Option ℕ → MemCache
new_driver max_entries ttl = record {
  max_entries = int_opt max_entries default_max_entries;
  ttl = int_opt ttl default_ttl;
  nodes = [];
  hits = 0;
  misses = 0;
}

-- `c.items[ck]`
unfoldable pub find : GoString → List Node → Option Node
find ck [] = none
find ck (n ∷ ns) = if str_eq n.key ck then some n else find ck ns

-- `removeElement`, by the key of the node.
unfoldable pub remove : GoString → List Node → List Node
remove ck [] = []
remove ck (n ∷ ns) = let rest = remove ck ns in if str_eq n.key ck then ns else n ∷ rest

unfoldable pub is_expired : ℕ → Entry → Bool
is_expired now e = elim e.expires_at [ none ↦ false | some t ↦ ltb t now ]

-- The list without its last node.
unfoldable pub drop_back : List Node → List Node
drop_back [] = []
drop_back (n ∷ []) = []
drop_back (n ∷ m ∷ ns) = n ∷ drop_back (m ∷ ns)

-- The loop of `evictLocked`; the number of the nodes is enough fuel.
unfoldable pub evict_from : ℕ → ℕ → List Node → List Node
evict_from max zero ns = ns
evict_from max (suc f) ns =
    let rest = evict_from max f (drop_back ns) in if ltb max (length ns) then rest else ns

unfoldable pub evict_locked : ℕ → List Node → List Node
evict_locked max ns = if leb max 0 then ns else evict_from max (length ns) ns

unfoldable pub miss : MemCache → MemCache × Option Entry
miss c = (record c { misses = c.misses + 1 }, none)

-- What `Lookup` does with the node it finds.
unfoldable pub served : ℕ → Key → MemCache → Option Node → MemCache × Option Entry
served now key c none = miss c
served now key c (some n) =
    if is_expired now n.entry
    then miss (record c { nodes = remove n.key c.nodes })
    else if not (str_eq n.tenant_id key.tenant_id)
    then miss c
    else (record c { nodes = n ∷ remove n.key c.nodes; hits = c.hits + 1 }, some n.entry)

-- The times that `Store` fills in.
unfoldable pub stamped : ℕ → ℕ → Entry → Entry
stamped now ttl e = record e {
  expires_at = elim e.expires_at [ none ↦ some (now + ttl) | some t ↦ some t ];
  created_at = elim e.created_at [ none ↦ some now | some t ↦ some t ];
}

-- Two fields with the separator in between.
abbrev pub joined : GoString → GoString → GoString
joined s t = s ++ key_sep ∷ t

module _ (hex_sha256 : GoString → GoString) where
  unfoldable pub compose : Key → GoString
  compose k = joined k.tenant_id (
      joined k.scope
        (joined k.scope_id (joined k.alias (hex_sha256 (k.normalized_input ++ k.extra_salt)))))

  unfoldable pub lookup : ℕ → Key → MemCache → MemCache × Option Entry
  lookup now key c =
      if str_eq key.mode mode_semantic
      then miss c
      else served now key c (find (compose key) c.nodes)

  unfoldable pub node_of : Key → Entry → Node
  node_of key e = record {
    key = compose key;
    tenant_id = key.tenant_id;
    scope = key.scope;
    scope_id = key.scope_id;
    alias = key.alias;
    entry = e;
  }

  -- An entry that is there is replaced in its node, which keeps the rest and moves to the front.
  unfoldable pub placed : Key → Entry → MemCache → Option Node → MemCache
  placed key e c (some n) = record c { nodes = record n { entry = e } ∷ remove n.key c.nodes }
  placed key e c none = record c { nodes = evict_locked c.max_entries (node_of key e ∷ c.nodes) }

  unfoldable pub store : ℕ → Key → Entry → MemCache → MemCache
  store now key e c = placed key (stamped now c.ttl e) c (find (compose key) c.nodes)

-- `matchPrefix`
unfoldable pub match_prefix : Prefix → Node → Bool
match_prefix p n =
    if p.all
    then true
    else if not (is_empty p.alias)
    then str_eq n.alias p.alias
    else if not (is_empty p.scope_id)
    then str_eq n.scope_id p.scope_id
    else true

unfoldable pub selects : Prefix → Node → Bool
selects p n = str_eq n.tenant_id p.tenant_id && match_prefix p n

-- The walk from the back: what is left, and how many nodes went.
unfoldable pub purge : Prefix → List Node → List Node × ℕ
purge p [] = ([], 0)
purge p (n ∷ ns) =
    let (rest, removed) = purge p ns in
    if selects p n then (rest, removed + 1) else (n ∷ rest, removed)

unfoldable pub invalidate : Prefix → MemCache → MemCache × ℕ
invalidate p c =
    if is_empty p.tenant_id
    then (c, 0)
    else (let (rest, removed) = purge p c.nodes in (record c { nodes = rest }, removed))

-- The entries of `Stats`.
unfoldable pub live_entries : ℕ → GoString → MemCache → ℕ
live_entries now tenant c =
    length (filter (λ n. str_eq n.tenant_id tenant && not (is_expired now n.entry)) c.nodes)

unfoldable pub close : MemCache → MemCache
close c = record c { nodes = [] }
