-- ===== src/VirtualKeys/Token/Laws.antt =====
-- A token is parsed exactly where it was composed.
use portico_gateway.Base.{
  is_empty-nil, ℕ, zero, suc, ◌<◌, ◌%◌, ◌/◌, true, some, List, [], ◌∷◌, ◌++◌, map, ◌≡◌, refl, ◌≢◌,
  ◌↔◌, inl, inr, subst, arith, ap, ap₂, ◌∙◌, Option-cases, Bool-cases, GoString, Without, length,
  length-append, take, drop, index_byte, index_byte-append, index_byte-SplitsAt, take-length-append,
  drop-length-append, drop-append, has_prefix, has_prefix-append, has_prefix-drop, is_empty-ne-nil,
  length-pos,
}
use portico_gateway.VirtualKeys.Token.{
  hex_digits, token_prefix, id_prefix, token_sep, base62, byte_at, encode_to_string, new_id,
  new_secret, compose_token, checked, parse_rest, parse_token,
}

-- The two segments of a well-formed token.
pub record IsSegments (id secret : GoString) : Type 0 where
  pub marked : has_prefix id id_prefix ≡ true
  pub long : length id_prefix < length id
  pub no_sep : Without token_sep id
  pub has_secret : secret ≢ []

checked-parts :
    (a b id secret : GoString)
    → checked a b ≡ some (id, secret)
    → (a ≡ id)
      × (b ≡ secret)
      × (has_prefix a id_prefix ≡ true)
      × (length id_prefix < length a)
      × (b ≢ [])
unfolding checked
checked-parts a b id secret h =
    (ground arith, ground arith, ground arith, ground arith, ground (arith, is_empty-ne-nil b))

checked-IsSegments :
    (id secret : GoString) → IsSegments id secret → checked id secret ≡ some (id, secret)
unfolding checked
checked-IsSegments id secret s = ground (arith, s.marked, s.long, s.has_secret, is_empty-nil secret)

parse_rest-parts :
    (rest id secret : GoString)
    → parse_rest rest ≡ some (id, secret)
    → (rest ≡ id ++ token_sep ∷ secret) × IsSegments id secret
unfolding parse_rest
parse_rest-parts rest id secret h = elim (Option-cases (index_byte rest token_sep)) [
  | inl e ↦ absurd (ground arith)
  | inr (i, e) ↦
      let s = index_byte-SplitsAt rest token_sep i e in
      let (pa, pb, m, l, n) =
        checked-parts (take i rest) (drop (suc i) rest) id secret (ground arith) in
      (
        s.whole ∙ ap₂ (λ (a b : GoString). a ++ token_sep ∷ b) pa pb,
        record {
          marked = subst (λ a. has_prefix a id_prefix ≡ true) pa m;
          long = subst (λ a. length id_prefix < length a) pa l;
          no_sep = subst (Without token_sep) pa s.first;
          has_secret = subst (λ b. b ≢ []) pb n;
        },
      )
]

parse_rest-append :
    (id secret : GoString)
    → IsSegments id secret
    → parse_rest (id ++ token_sep ∷ secret) ≡ some (id, secret)
unfolding parse_rest
parse_rest-append id secret s = ground (
  arith,
  index_byte-append token_sep id secret s.no_sep,
  s.long,
  length-pos secret s.has_secret,
  length-append id (token_sep ∷ secret),
  take-length-append id (token_sep ∷ secret),
  drop-length-append id secret token_sep,
  checked-IsSegments id secret s,
)

parse_token-parts :
    (token id secret : GoString)
    → parse_token token ≡ some (id, secret)
    → (token ≡ compose_token id secret) × IsSegments id secret
unfolding parse_token compose_token
parse_token-parts token id secret h = elim (Bool-cases (has_prefix token token_prefix)) [
  | inr e ↦ absurd (ground arith)
  | inl e ↦
      let (q, s) = parse_rest-parts (drop (length token_prefix) token) id secret (rw e at h) in
      (has_prefix-drop token token_prefix e ∙ ap (λ r. token_prefix ++ r) q, s)
]

pub parse_token-compose_token :
    (id secret : GoString)
    → IsSegments id secret
    → parse_token (compose_token id secret) ≡ some (id, secret)
unfolding parse_token compose_token
parse_token-compose_token id secret s =
    rw (has_prefix-append token_prefix (id ++ token_sep ∷ secret))
      (rw (drop-append token_prefix (id ++ token_sep ∷ secret)) (parse_rest-append id secret s))

-- A token parses to an id and a secret exactly when it is composed of them, the id begins with its
-- marker, is longer than it and holds no separator, and the secret is not empty.
pub parse_token_iff :
    (token id secret : GoString)
    → (parse_token token ≡ some (id, secret))
      ↔ ((token ≡ compose_token id secret) × IsSegments id secret)
parse_token_iff token id secret =
    (parse_token-parts token id secret, λ h. rw h.0 (parse_token-compose_token id secret h.1))

byte_at-ne : (c n : ℕ) (s : GoString) → 0 ≢ c → Without c s → byte_at s n ≢ c
unfolding byte_at
byte_at-ne c n [] z w = z
byte_at-ne c zero (a ∷ s) z w = w.0
byte_at-ne c (suc n) (a ∷ s) z w = byte_at-ne c n s z w.1

hex_digits-Without : Without token_sep hex_digits
hex_digits-Without = ground arith

hex_digit : (n : ℕ) → byte_at hex_digits n ≢ token_sep
hex_digit n = byte_at-ne token_sep n hex_digits (ground arith) hex_digits-Without

encode_to_string-Without : (b : List ℕ) → Without token_sep (encode_to_string b)
unfolding encode_to_string
encode_to_string-Without [] = tt
encode_to_string-Without (x ∷ b) =
    (hex_digit (x / 16), (hex_digit (x % 16), encode_to_string-Without b))

-- What the generators make is well formed.
pub new_id-IsSegments :
    (b c : List ℕ) (id secret : GoString)
    → b ≢ []
    → c ≢ []
    → new_id (some b) ≡ some id
    → new_secret (some c) ≡ some secret
    → IsSegments id secret
unfolding new_id new_secret encode_to_string
new_id-IsSegments [] c id secret hb hc p q = absurd (hb refl)
new_id-IsSegments (x ∷ b) [] id secret hb hc p q = absurd (hc refl)
new_id-IsSegments (x ∷ b) (y ∷ c) id secret hb hc p q =
    let i : id_prefix ++ encode_to_string (x ∷ b) ≡ id = ground arith in
    let s : map (λ v. byte_at base62 (v % length base62)) (y ∷ c) ≡ secret = ground arith in
    subst (λ i. IsSegments i secret) i
      (subst (λ s. IsSegments (id_prefix ++ encode_to_string (x ∷ b)) s) s
        (record {
          marked = has_prefix-append id_prefix (encode_to_string (x ∷ b));
          long = omega arith;
          no_sep = (ground arith, (ground arith, (ground arith, encode_to_string-Without (x ∷ b))));
          has_secret = cc;
        }))
