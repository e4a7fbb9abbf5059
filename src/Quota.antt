-- ===== src/Quota.antt =====
-- internal/llm/quota/enforcer.go: a tenant's rolling windows of requests and tokens. The clock is
-- an argument, in nanoseconds; a limit is 0 where it is not positive.
pub mod Rate
mod Tests
use portico_gateway.Base.{
  ℕ, ◌+◌, ◌*◌, ◌^◌, Bool, true, false, ◌&&◌, Option, none, some, List, [], ◌∷◌, ◌++◌, if◌then◌else◌,
  ltb, leb, GoString, codes, length, filter,
}
use portico_gateway.Base.Assoc.{Assoc, lookup, set}

pub record Limits : Type 0 where
  pub requests_per_minute : ℕ
  pub tokens_per_minute : ℕ
  pub tokens_per_day : ℕ

pub record Usage : Type 0 where
  pub at : ℕ
  pub tokens : ℕ

pub record Window : Type 0 where
  pub requests : List ℕ
  pub tokens : List Usage

abbrev pub Windows : Type 0
Windows = Assoc Window

abbrev pub minute : ℕ
minute = 60 * 10 ^ 9

abbrev pub day : ℕ
day = 24 * (60 * minute)

-- `t.After(now.Add(-d))`
abbrev pub within : ℕ → ℕ → ℕ → Bool
within d now t = ltb now (t + d)

unfoldable pub prune : ℕ → Window → Window
prune now w = record {
  requests = filter (within minute now) w.requests;
  tokens = filter (λ u. within day now u.at) w.tokens;
}

unfoldable pub total : List Usage → ℕ
total [] = 0
total (u ∷ us) = u.tokens + total us

-- The tokens of the last minute, and all that are left.
unfoldable pub sums : ℕ → Window → ℕ × ℕ
sums now w = (total (filter (λ u. within minute now u.at) w.tokens), total w.tokens)

abbrev empty_or : Option Window → Window
empty_or none = record { requests = []; tokens = [] }
empty_or (some w) = w

-- The window of the tenant, empty if there is none yet.
unfoldable pub window_of : GoString → Windows → Window
window_of tenant e = empty_or (lookup tenant e)

-- The first limit that is reached.
unfoldable pub breached : ℕ → Limits → Window → Option GoString
breached now lim w =
    let (in_minute, in_day) = sums now w in
    if ltb 0 lim.requests_per_minute && leb lim.requests_per_minute (length w.requests)
    then some (codes "requests_per_minute")
    else if ltb 0 lim.tokens_per_minute && leb lim.tokens_per_minute in_minute
    then some (codes "tokens_per_minute")
    else if ltb 0 lim.tokens_per_day && leb lim.tokens_per_day in_day
    then some (codes "tokens_per_day")
    else none

-- What `Check` makes of the pruned window: the request is recorded if no limit is reached.
unfoldable pub admit : ℕ → Window → Option GoString → Window
admit now w (some limit) = w
admit now w none = record w { requests = w.requests ++ now ∷ [] }

-- `none` lets the request through; else the name of the limit.
unfoldable pub check : ℕ → GoString → Limits → Windows → Windows × Option GoString
check now tenant lim e =
    let w = prune now (window_of tenant e) in
    let over = breached now lim w in (set tenant (admit now w over) e, over)

unfoldable pub record_usage : ℕ → GoString → ℕ → Windows → Windows
record_usage now tenant tokens e =
    if leb tokens 0
    then e
    else (let w = window_of tenant e in
        set tenant (record w { tokens = w.tokens ++ record { at = now; tokens = tokens } ∷ [] }) e)
