-- ===== src/VirtualKeys/Tests.antt =====
-- A key that is created, resolved, remembered and revoked.
use portico_gateway.Base.{
  contains, none, ◌≤◌, ◌≡◌, ◌≢◌, refl, ◌↔◌, true, false, some, [], ◌∷◌, ◌++◌, arith, GoString,
  codes, str_eq, length, has_prefix, index_byte,
}
use portico_gateway.Base.Assoc.{lookup, set}
use portico_gateway.VirtualKeys.Token.{
  parse_token, parse_rest, checked, compose_token, encode_to_string, new_id, new_secret, byte_at,
}
use portico_gateway.VirtualKeys.Token.Laws.{IsSegments, parse_token_iff}
use portico_gateway.VirtualKeys.Store.{
  VirtualKey, find_row, find_id, get_virtual_key, lookup_virtual_key_by_id, upsert, written,
  relisted, listed_items, has_repeat, insert_item, put_virtual_key,
}
use portico_gateway.VirtualKeys.Service.{
  CreateParams, Random, parent_kind_of, stored, rotate, reissue, issued, issue, create, revoke,
}
use portico_gateway.VirtualKeys.Resolver.{
  Resolver, new_resolver, granted, hydrate, peek, peek_entry, remember, invalidate_vk, verify_hmac,
  judge, settle, after_peek, after_parse, resolve, max_cache_entries,
}
use portico_gateway.VirtualKeys.Resolver.Steps.{Known, Opens, Reach, here, next, keep}
use portico_gateway.VirtualKeys.Resolver.Sound.{resolve_sound}
use portico_gateway.VirtualKeys.Resolver.Bounds.{cache_bounded}
use portico_gateway.VirtualKeys.Resolver.Rotated.{rotate_denies}
use portico_gateway.VirtualKeys.Resolver.Revoked.{revoke_denies, remember_reopens, create_resolves}

-- The digest is the salt with the secret behind it, and a token is its own hash.
abbrev mac : GoString → GoString → GoString
mac salt secret = salt ++ secret

abbrev hash : GoString → GoString
hash token = token

abbrev params : CreateParams
params = record {
  tenant_id = codes "acme";
  name = codes "ci";
  scopes = codes "tools" ∷ [];
  provider_allowlist = codes "openai" ∷ [];
  model_allowlist = [];
  mcp_server_allowlist = [];
  profile_id = [];
  parent_kind = [];
  parent_id = [];
}

abbrev random : Random
random = record { id = some (171 ∷ []); secret = some (70 ∷ 9 ∷ []); salt = some (7 ∷ []) }

abbrev row : VirtualKey
row = record {
  tenant_id = codes "acme";
  id = codes "vk_ab";
  name = codes "ci";
  salt = 7 ∷ [];
  hmac = 7 ∷ codes "89";
  parent_kind = codes "none";
  parent_id = [];
  profile_id = [];
  scopes = codes "tools" ∷ [];
  provider_allowlist = codes "openai" ∷ [];
  model_allowlist = [];
  mcp_server_allowlist = [];
  enabled = true;
  created_at = [];
  rotated_at = [];
  revoked_at = [];
}

abbrev token : GoString
token = codes "pk-portico-vk_ab.89"

-- The row as it stands in the table.
abbrev kept : VirtualKey
kept = record row { created_at = codes "t0" }

creates :
    create mac false (codes "t0") random params []
    ≡ (kept ∷ [], some (record { vk = row; token = token }))
unfolding create issue issued stored parent_kind_of new_id new_secret encode_to_string byte_at
    compose_token put_virtual_key upsert written str_eq listed_items has_repeat insert_item contains
creates = refl

parses : parse_token token ≡ some (codes "vk_ab", codes "89")
unfolding parse_token parse_rest checked has_prefix index_byte
parses = refl

resolves :
    (resolve mac hash false 5 6 [] token (kept ∷ []) (new_resolver 0)).1 ≡ granted (hydrate kept)
unfolding resolve after_parse after_peek settle judge verify_hmac peek peek_entry new_resolver
    parse_token parse_rest checked lookup lookup_virtual_key_by_id find_id str_eq has_prefix
    index_byte
resolves = refl

segments : IsSegments (codes "vk_ab") (codes "89")
unfolding has_prefix
segments = record { marked = refl; long = omega arith; no_sep = ground arith; has_secret = cc }

parse_token_iff_example : (parse_token token ≡ some (codes "vk_ab", codes "89")) ↔ (
    (token ≡ compose_token (codes "vk_ab") (codes "89")) × IsSegments (codes "vk_ab") (codes "89"))
parse_token_iff_example = parse_token_iff token (codes "vk_ab") (codes "89")

opens : Opens mac hash token kept
opens = record {
  secret = codes "89";
  parsed = parses;
  verified = unfold verify_hmac str_eq in refl;
  enabled = refl;
  not_revoked = refl;
}

-- A resolver that has remembered the key.
abbrev warm : Resolver
warm = remember 6 [] token kept (new_resolver 0)

-- The key is the only one that the store has answered.
abbrev Row : VirtualKey → Type 0
Row vk = vk ≡ kept

reached : Reach mac hash Row (new_resolver 0) warm
reached = next here (keep 6 [] token kept refl opens)

cache_bounded_example : length warm.cache ≤ max_cache_entries
cache_bounded_example = cache_bounded mac hash Row 0 warm reached

warm_grants : (resolve mac hash false 5 6 [] token [] warm).1 ≡ granted (hydrate kept)
unfolding resolve after_parse after_peek settle judge verify_hmac peek peek_entry remember
    new_resolver parse_token parse_rest checked lookup set str_eq has_prefix index_byte
warm_grants = refl

none-Known : Known mac hash Row []
unfolding lookup_virtual_key_by_id find_id
none-Known id vk h = absurd (ground arith)

resolve_sound_example :
    (vk : VirtualKey) × Row vk × Opens mac hash token vk × (hydrate kept ≡ hydrate vk)
resolve_sound_example =
    resolve_sound mac hash Row 0 warm false 5 6 [] token [] (hydrate kept) reached none-Known
      (λ other h. h) warm_grants

abbrev revoked : VirtualKey
revoked = record kept { enabled = false; revoked_at = codes "t1" }

revokes :
    revoke false (codes "t1") (codes "acme") (codes "vk_ab") (kept ∷ []) ≡ (revoked ∷ [], true)
unfolding revoke get_virtual_key find_row put_virtual_key upsert written str_eq listed_items
    has_repeat insert_item contains
revokes = refl

revoke_denies_example :
    (resolve mac hash false 7 8 [] token (revoked ∷ []) (invalidate_vk (codes "vk_ab") warm)).1
    ≢ granted (hydrate kept)
unfolding get_virtual_key find_row find_id str_eq
revoke_denies_example =
    revoke_denies mac hash Row false false (codes "t1") (codes "acme") (codes "vk_ab") (codes "89")
      token [] 0 7 8 (kept ∷ []) (revoked ∷ []) kept warm (hydrate kept) reached refl refl refl
      revokes parses (λ other h. h)

remember_reopens_example :
    let judged =
      judge mac false (codes "89") (lookup_virtual_key_by_id (codes "vk_ab") (kept ∷ [])) in
    let dropped = invalidate_vk (codes "vk_ab") warm in
    ((resolve mac hash false 7 8 [] token (revoked ∷ []) (settle 6 [] token judged dropped).0).1
      ≡ granted (hydrate kept))
    × ((resolve mac hash false 7 8 [] token (revoked ∷ []) dropped).1 ≢ granted (hydrate kept))
unfolding get_virtual_key find_row find_id lookup_virtual_key_by_id judge verify_hmac str_eq
    new_resolver remember
remember_reopens_example =
    remember_reopens mac hash Row false false (codes "t1") (codes "acme") (codes "vk_ab")
      (codes "89") token [] [] 0 7 8 6 (kept ∷ []) (revoked ∷ []) kept kept warm (hydrate kept)
      reached refl refl refl revokes parses (λ other h. h) refl (omega arith)

create_resolves_example :
    ((resolve mac hash false 5 6 [] token (kept ∷ []) (new_resolver 0)).1
      ≡ granted (hydrate (relisted row)))
    × (row.tenant_id ≡ params.tenant_id)
    × (row.scopes ≡ params.scopes)
unfolding find_row find_id new_resolver lookup
create_resolves_example =
    create_resolves mac hash false (codes "t0") params 171 70 [] (9 ∷ []) (some (7 ∷ [])) []
      (kept ∷ []) (record { vk = row; token = token }) 5 6 [] (new_resolver 0) creates refl refl

abbrev rotated : VirtualKey
rotated = record kept { salt = 8 ∷ []; hmac = 8 ∷ codes "8"; rotated_at = codes "t1" }

abbrev anew : Random
anew = record { id = none; secret = some (70 ∷ []); salt = some (8 ∷ []) }

rotates :
    rotate mac false (codes "t1") anew (codes "acme") (codes "vk_ab") (kept ∷ [])
    ≡ (rotated ∷ [], some (record { vk = rotated; token = codes "pk-portico-vk_ab.8" }))
unfolding rotate reissue stored new_secret byte_at compose_token get_virtual_key find_row
    put_virtual_key upsert written str_eq listed_items has_repeat insert_item contains
rotates = refl

rotate_denies_example :
    (resolve mac hash false 7 8 [] token (rotated ∷ []) (invalidate_vk (codes "vk_ab") warm)).1
    ≢ granted (hydrate kept)
unfolding get_virtual_key find_row find_id str_eq
rotate_denies_example =
    rotate_denies mac hash Row false false (codes "t1") (codes "acme") (codes "vk_ab") (codes "89")
      (codes "8") token [] anew 0 7 8 (kept ∷ []) (rotated ∷ []) kept
      (record { vk = rotated; token = codes "pk-portico-vk_ab.8" }) warm (hydrate kept) reached refl
      refl refl rotates parses (unfold compose_token in refl) (λ e. cc) (λ other h. h)
