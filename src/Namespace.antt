-- ===== src/Namespace.antt =====
-- internal/catalog/namespace/namespace.go and the prompt names of uri.go: the qualified names under
-- which the gateway aggregates the tools and the prompts of its downstream servers.
pub mod Names
mod Tests
use portico_gateway.Base.{
  ℕ, suc, ◌-◌, Bool, true, false, ◌&&◌, ◌||◌, Option, none, some, List, [], ◌∷◌, ◌++◌, leb, ◌==◌,
  if◌then◌else◌, GoString, length, take, drop, index_byte,
}

is_id_head : ℕ → Bool
is_id_head c = (leb b'a' c && leb c b'z') || (leb b'0' c && leb c b'9')

is_id_tail : ℕ → Bool
unfolding is_id_head
is_id_tail c = is_id_head c || c == b'_' || c == b'-'

all_id_tail : GoString → Bool
unfolding is_id_tail
all_id_tail [] = true
all_id_tail (c ∷ s) = is_id_tail c && all_id_tail s

-- `^[a-z0-9][a-z0-9_-]{0,31}$`; true is a nil error.
unfoldable pub validate_server_id : GoString → Bool
unfolding all_id_tail
validate_server_id [] = false
validate_server_id (c ∷ s) = is_id_head c && all_id_tail s && leb (length s) 31

unfoldable pub join_tool : GoString → GoString → GoString
join_tool server tool = server ++ b'.' ∷ tool

-- The cut of `SplitTool` at an index that `strings.IndexByte` found.
unfoldable pub split_at : GoString → ℕ → Option (GoString × GoString)
split_at q i = if leb i 0 || i == length q - 1 then none else some (take i q, drop (suc i) q)

-- `none` is ok=false.
unfoldable pub split_tool : GoString → Option (GoString × GoString)
unfolding split_at index_byte
split_tool q = elim (index_byte q b'.') [ none ↦ none | some i ↦ split_at q i ]

unfoldable pub rewrite_prompt_name : GoString → GoString → GoString
rewrite_prompt_name server original = server ++ b'.' ∷ original

unfoldable pub restore_prompt_name : GoString → Option (GoString × GoString)
unfolding split_at index_byte
restore_prompt_name q = elim (index_byte q b'.') [ none ↦ none | some i ↦ split_at q i ]
