-- ===== src/Quota/Tests.antt =====
-- Two requests of a tenant that may make one in a minute.
use portico_gateway.Base.{◌≤◌, ◌≡◌, refl, none, some, [], ◌∷◌, arith, codes, str_eq, length}
use portico_gateway.Base.Assoc.{lookup, set}
use portico_gateway.Quota.{Limits, Windows, prune, total, sums, window_of, breached, admit, check}
use portico_gateway.Quota.Rate.{Run, start, passed, refused, last_minute, Run_rate}

abbrev once : Limits
once = record { requests_per_minute = 1; tokens_per_minute = 0; tokens_per_day = 0 }

-- The windows after the first request.
abbrev first : Windows
first = (codes "acme", record { requests = 5 ∷ []; tokens = [] }) ∷ []

passes : check 5 (codes "acme") once [] ≡ (first, none)
unfolding check breached admit prune sums total window_of lookup set str_eq
passes = refl

refuses : check 6 (codes "acme") once first ≡ (first, some (codes "requests_per_minute"))
unfolding check breached admit prune sums total window_of lookup set str_eq
refuses = refl

ran :
    Run
      (codes "acme")
      once
      6
      (check 6 (codes "acme") once (check 5 (codes "acme") once []).0).0
      (5 ∷ [])
unfolding check breached admit prune sums total window_of lookup set str_eq
ran = refused 6 (codes "requests_per_minute") (passed 5 start (omega arith) refl) (omega arith) refl

Run_rate_example : length (last_minute 6 (5 ∷ [])) ≤ 1
Run_rate_example = Run_rate (codes "acme") once 6 _ (5 ∷ []) ran (omega arith)
