-- ===== src/VirtualKeys/Token.antt =====
-- internal/auth/virtual_keys/format.go. What `rand.Read` delivers is an argument: the bytes, or
-- `none` for its error.
pub mod Laws
use portico_gateway.Base.{
  ℕ, zero, suc, ◌-◌, ◌%◌, ◌/◌, Bool, true, false, not, ◌||◌, Option, none, some, List, [], ◌∷◌,
  ◌++◌, map, if◌then◌else◌, leb, GoString, codes, is_empty, has_prefix, index_byte, length, take,
  drop,
}

abbrev pub token_prefix : GoString
token_prefix = codes "pk-portico-"

abbrev pub id_prefix : GoString
id_prefix = codes "vk_"

abbrev pub token_sep : ℕ
token_sep = b'.'

abbrev pub base62 : GoString
base62 = codes "0123456789ABCDEFGHIJKLMNOPQRSTUVWXYZabcdefghijklmnopqrstuvwxyz"

abbrev pub hex_digits : GoString
hex_digits = codes "0123456789abcdef"

-- `s[n]`; 0 where Go panics.
unfoldable pub byte_at : GoString → ℕ → ℕ
byte_at [] n = 0
byte_at (c ∷ s) zero = c
byte_at (c ∷ s) (suc n) = byte_at s n

-- `hex.EncodeToString`
unfoldable pub encode_to_string : List ℕ → GoString
unfolding byte_at
encode_to_string [] = []
encode_to_string (b ∷ bs) =
    byte_at hex_digits (b / 16) ∷ byte_at hex_digits (b % 16) ∷ encode_to_string bs

unfoldable pub new_id : Option (List ℕ) → Option GoString
new_id none = none
new_id (some b) = some (id_prefix ++ encode_to_string b)

unfoldable pub new_secret : Option (List ℕ) → Option GoString
unfolding byte_at
new_secret none = none
new_secret (some b) = some (map (λ v. byte_at base62 (v % length base62)) b)

unfoldable pub compose_token : GoString → GoString → GoString
compose_token id secret = token_prefix ++ id ++ token_sep ∷ secret

unfoldable pub looks_like_vk : GoString → Bool
looks_like_vk bearer = has_prefix bearer token_prefix

-- The checks on the two segments.
unfoldable pub checked : GoString → GoString → Option (GoString × GoString)
checked id secret =
    if not (has_prefix id id_prefix) || leb (length id) (length id_prefix)
    then none
    else if is_empty secret
    then none
    else some (id, secret)

-- What stands behind the prefix, cut at the first separator.
unfoldable pub parse_rest : GoString → Option (GoString × GoString)
parse_rest rest = elim (index_byte rest token_sep) [
  | none ↦ none
  | some i ↦
      if leb i 0 || leb (length rest - 1) i then none else checked (take i rest) (drop (suc i) rest)
]

-- `none` is ErrMalformedToken.
unfoldable pub parse_token : GoString → Option (GoString × GoString)
parse_token token =
    if not (has_prefix token token_prefix)
    then none
    else parse_rest (drop (length token_prefix) token)
