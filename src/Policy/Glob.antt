-- ===== src/Policy/Glob.antt =====
-- `matchAny` of internal/policy/engine.go, with Go's `path.Match` written out over bytes: a pattern
-- and a name are ASCII, so that a rune is one byte. `none` is path.ErrBadPattern. The loops over the
-- chunks of a pattern take its length as fuel, since each round takes at least one byte.
pub mod Laws
pub mod Fuel
mod Tests
use portico_gateway.Base.{
  ℕ, zero, suc, Bool, true, false, not, ◌&&◌, ◌||◌, Option, none, some, List, [], ◌∷◌, leb, ◌==◌,
  if◌then◌else◌, GoString, str_eq, is_empty, length, has_prefix, codes, index_byte,
}

-- The state of a character class: is it negated, did a range match, was there a range, and the
-- rune that it is held against.
pub record Class : Type 0 where
  pub negated : Bool
  pub matched : Bool
  pub some_range : Bool
  pub rune : ℕ

-- Where `matchChunk` stands in a chunk: at a plain byte, behind a backslash, or in a class.
pub data Mode : Type 0 where
  plain escaped : Mode
  class_start class_item class_escape : Class → Mode
  class_low class_high class_high_escape : Class → ℕ → Mode

-- The mode, whether the match has failed, and what is left of the name.
abbrev State : Type 0
State = Mode × Bool × GoString

in_range : Class → ℕ → ℕ → Class
in_range k lo hi = record k {
  matched = k.matched || (leb lo k.rune && leb k.rune hi);
  some_range = true;
}

abbrev first : GoString → ℕ
first [] = 0
first (c ∷ s) = c

abbrev rest : GoString → GoString
rest [] = []
rest (c ∷ s) = s

-- `match == negated`
class_failed : Class → Bool
class_failed k = if k.matched then k.negated else not k.negated

class_at : Class → ℕ → Bool → GoString → Option State
unfolding class_failed
class_at k c failed s =
    if c == b']' && k.some_range
    then some (plain, failed || class_failed k, s)
    else if c == b'-' || c == b']'
    then none
    else if c == 92
    then some (class_escape k, failed, s)
    else some (class_low k c, failed, s)

literal : ℕ → Bool → GoString → Option State
literal c true s = some (plain, true, s)
literal c false s = some (plain, not (c == first s), rest s)

class_open : Bool → GoString → Option State
class_open true s = some (
  class_start (record { negated = false; matched = false; some_range = false; rune = 0 }),
  true,
  s,
)
class_open false s = some (
  class_start (record { negated = false; matched = false; some_range = false; rune = first s }),
  false,
  rest s,
)

any_byte : Bool → GoString → Option State
any_byte true s = some (plain, true, s)
any_byte false s = some (plain, first s == b'/', rest s)

plain_at : ℕ → Bool → GoString → Option State
unfolding literal class_open any_byte
plain_at c failed s =
    if c == b'['
    then class_open failed s
    else if c == b'?'
    then any_byte failed s
    else if c == 92
    then some (escaped, failed, s)
    else literal c failed s

-- One byte of the chunk.
advance : Mode → ℕ → Bool → GoString → Option State
unfolding plain_at class_at in_range
advance plain c failed s = plain_at c (failed || is_empty s) s
advance escaped c failed s = literal c failed s
advance (class_start k) c failed s =
    if c == b'^'
    then some (class_item (record k { negated = true }), failed, s)
    else class_at k c failed s
advance (class_item k) c failed s = class_at k c failed s
advance (class_escape k) c failed s = some (class_low k c, failed, s)
advance (class_low k lo) c failed s =
    if c == b'-' then some (class_high k lo, failed, s) else class_at (in_range k lo lo) c failed s
advance (class_high k lo) c failed s =
    if c == b'-' || c == b']'
    then none
    else if c == 92
    then some (class_high_escape k lo, failed, s)
    else some (class_item (in_range k lo c), failed, s)
advance (class_high_escape k lo) c failed s = some (class_item (in_range k lo c), failed, s)

-- `matchChunk`: the rest of the name where the chunk matches.
match_chunk : Mode → Bool → GoString → GoString → Option (Option GoString)
unfolding advance
match_chunk plain true [] s = some none
match_chunk plain false [] s = some (some s)
match_chunk mode failed [] s = none
match_chunk mode failed (c ∷ chunk) s = elim (advance mode c failed s) [
  | none ↦ none
  | some (mode', failed', s') ↦ match_chunk mode' failed' chunk s'
]

-- The two halves of `scanChunk`: the stars in front, and the chunk up to the next star.
unfoldable pub skip_stars : GoString → GoString
skip_stars [] = []
skip_stars (c ∷ p) = let r = skip_stars p in if c == b'*' then r else c ∷ p

abbrev starts_star : GoString → Bool
starts_star [] = false
starts_star (c ∷ p) = c == b'*'

-- The first flag is a pending backslash, the second an open class.
unfoldable pub scan : Bool → Bool → GoString → GoString × GoString
scan escape range [] = ([], [])
scan true range (c ∷ p) = let (chunk, more) = scan false range p in (c ∷ chunk, more)
scan false range (c ∷ p) =
    let (chunk, more) =
      scan (c == 92) (if c == b'[' then true else if c == b']' then false else range) p in
    if c == b'*' && not range then ([], c ∷ p) else (c ∷ chunk, more)

pub data Skip : Type 0 where
  found : GoString → Skip
  not_found bad : Skip

-- A star skips one byte more at a time, and no slash.
skip_name : GoString → Bool → GoString → Skip
skip_name chunk last [] = not_found
skip_name chunk last (c ∷ s) =
    let more = skip_name chunk last s in
    if c == b'/' then not_found else elim (match_chunk plain false chunk s) [
      | none ↦ bad
      | some none ↦ more
      | some (some t) ↦ if last && not (is_empty t) then more else found t
    ]

-- The check that what is left of the pattern is well formed.
rest_is_valid : ℕ → GoString → Bool
rest_is_valid zero p = true
rest_is_valid (suc f) p =
    let (chunk, more) = scan false false (skip_stars p) in
    let later = rest_is_valid f more in
    if is_empty p
    then true
    else elim (match_chunk plain false chunk []) [ none ↦ false | some r ↦ later ]

no_match : GoString → Option Bool
unfolding rest_is_valid
no_match p = if rest_is_valid (length p) p then some false else none

-- One round of the loop: the stars and the chunk in front of the pattern are held against the name,
-- and the rounds behind it are `next`.
unfoldable pub round :
    GoString → GoString → GoString → GoString → (GoString → Option Bool) → Option Bool
unfolding match_chunk skip_name no_match
round p chunk more s next =
    let star = starts_star p in
    if is_empty p
    then some (is_empty s)
    else if star && is_empty chunk
    then some (elim (index_byte s b'/') [ none ↦ true | some i ↦ false ])
    else elim (match_chunk plain false chunk s) [
      | none ↦ none
      | some (some t) ↦
          let rest = next t in
          if is_empty t || not (is_empty more)
          then rest
          else if star
          then elim (skip_name chunk (is_empty more) s) [
            | found u ↦ next u
            | not_found ↦ no_match more
            | bad ↦ none
          ]
          else no_match more
      | some none ↦
          if star
          then elim (skip_name chunk (is_empty more) s) [
            | found u ↦ next u
            | not_found ↦ no_match more
            | bad ↦ none
          ]
          else no_match more
    ]

-- `scanChunk`.
unfoldable pub scan_chunk : GoString → GoString × GoString
unfolding scan skip_stars
scan_chunk p = scan false false (skip_stars p)

unfoldable pub glob : ℕ → GoString → GoString → Option Bool
unfolding round scan_chunk
glob zero p s = some (is_empty s)
glob (suc f) p s = let (chunk, more) = scan_chunk p in round p chunk more s (λ t. glob f more t)

-- `path.Match(p, s)`
unfoldable pub path_match : GoString → GoString → Option Bool
unfolding glob index_byte
path_match p s = glob (suc (length p)) p s

-- `strings.HasSuffix(p, "*")`, and the pattern without that star.
unfoldable pub ends_star : GoString → Bool
ends_star [] = false
ends_star (c ∷ []) = c == b'*'
ends_star (c ∷ d ∷ p) = ends_star (d ∷ p)

unfoldable pub trim_star : GoString → GoString
trim_star [] = []
trim_star (c ∷ []) = if c == b'*' then [] else c ∷ []
trim_star (c ∷ d ∷ p) = c ∷ trim_star (d ∷ p)

abbrev is_match : Option Bool → Bool
is_match (some true) = true
is_match _ = false

-- The tests of the loop body.
unfoldable pub matches : GoString → GoString → Bool
unfolding ends_star trim_star str_eq has_prefix
matches p name =
    if is_empty p
    then false
    else str_eq p (codes "*")
      || is_match (path_match p name)
      || (ends_star p && has_prefix name (trim_star p))

unfoldable pub match_any : List GoString → GoString → Bool
match_any [] name = false
match_any (p ∷ patterns) name = matches p name || match_any patterns name
