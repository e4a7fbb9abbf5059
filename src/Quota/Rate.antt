-- ===== src/Quota/Rate.antt =====
-- How many requests a tenant is let through in a minute, over any sequence of calls of the enforcer.
use portico_gateway.Base.{
  ℕ, ◌≤◌, ◌<◌, none, some, List, [], ◌∷◌, ◌++◌, ◌≡◌, ◌≢◌, refl, inl, inr, sym, ap, ◌∙◌, arith,
  GoString, str_eq, str_eq_iff, str_eq_refl, Bool-cases, if◌then◌else◌, leb, length, filter,
  length-append, length-filter-le,
}
use portico_gateway.Base.Assoc.{lookup, set, lookup-set}
use portico_gateway.Quota.{
  Limits, Window, Windows, within, minute, prune, window_of, sums, breached, admit, check,
  record_usage,
}

-- The calls of the enforcer up to a time, by a clock that never goes back, and the times at which
-- requests of the tenant were let through, the first of them first.
pub data Run (tenant : GoString) (lim : Limits) : ℕ → Windows → List ℕ → Type 0 where
  start : Run tenant lim 0 [] []
  passed :
      {t : ℕ} {e : Windows} {log : List ℕ} (now : ℕ)
      → Run tenant lim t e log
      → t ≤ now
      → (check now tenant lim e).1 ≡ none
      → Run tenant lim now (check now tenant lim e).0 (log ++ now ∷ [])
  refused :
      {t : ℕ} {e : Windows} {log : List ℕ} (now : ℕ) (limit : GoString)
      → Run tenant lim t e log
      → t ≤ now
      → (check now tenant lim e).1 ≡ some limit
      → Run tenant lim now (check now tenant lim e).0 log
  elsewhere :
      {t : ℕ} {e : Windows} {log : List ℕ} (now : ℕ) (other : GoString) (lim' : Limits)
      → Run tenant lim t e log
      → t ≤ now
      → other ≢ tenant
      → Run tenant lim now (check now other lim' e).0 log
  used :
      {t : ℕ} {e : Windows} {log : List ℕ} (now : ℕ) (other : GoString) (tokens : ℕ)
      → Run tenant lim t e log
      → t ≤ now
      → Run tenant lim now (record_usage now other tokens e) log

-- The times of a list that the minute before `t` holds.
abbrev pub last_minute : ℕ → List ℕ → List ℕ
last_minute t xs = filter (within minute t) xs

last_minute-append :
    (t : ℕ) (xs ys : List ℕ) → last_minute t (xs ++ ys) ≡ last_minute t xs ++ last_minute t ys
last_minute-append t [] ys = refl
last_minute-append t (x ∷ xs) ys = ground (arith, last_minute-append t xs ys)

-- What was dropped earlier is dropped later.
last_minute_twice :
    (s t : ℕ) (xs : List ℕ) → s ≤ t → last_minute t (last_minute s xs) ≡ last_minute t xs
last_minute_twice s t [] le = refl
last_minute_twice s t (x ∷ xs) le = ground (arith, last_minute_twice s t xs le)

-- The window knows every passed request that still counts.
abbrev Knows : GoString → ℕ → Windows → List ℕ → Type 0
Knows tenant now e log =
    (t : ℕ) → now ≤ t → last_minute t (window_of tenant e).requests ≡ last_minute t log

window_of-set :
    (tenant other : GoString) (w : Window) (e : Windows)
    → window_of tenant (set other w e) ≡ (if str_eq other tenant then w else window_of tenant e)
unfolding window_of
window_of-set tenant other w e = elim (Bool-cases (str_eq other tenant)) [
  | inl s ↦ rw s (ground (arith, lookup-set other tenant w e))
  | inr s ↦ rw s (ground (arith, lookup-set other tenant w e))
]

window_of-set_self :
    (tenant : GoString) (w : Window) (e : Windows) → window_of tenant (set tenant w e) ≡ w
window_of-set_self tenant w e = window_of-set tenant tenant w e ∙ rw (str_eq_refl tenant) refl

window_of-set_other :
    (tenant other : GoString) (w : Window) (e : Windows)
    → other ≢ tenant
    → window_of tenant (set other w e) ≡ window_of tenant e
window_of-set_other tenant other w e ne = elim (Bool-cases (str_eq other tenant)) [
  | inl s ↦ absurd (ne ((str_eq_iff other tenant).0 s))
  | inr s ↦ window_of-set tenant other w e ∙ rw s refl
]

requests-record_usage :
    (tenant other : GoString) (now tokens : ℕ) (e : Windows)
    → (window_of tenant (record_usage now other tokens e)).requests ≡ (window_of tenant e).requests
unfolding record_usage
requests-record_usage tenant other now tokens e = elim (Bool-cases (leb tokens 0)) [
  | inl z ↦ rw z refl
  | inr z ↦
      let w : Window = record {
        requests = (window_of other e).requests;
        tokens = (window_of other e).tokens ++ record { at = now; tokens = tokens } ∷ [];
      } in
      elim (Bool-cases (str_eq other tenant)) [
        | inl s ↦
            let eq : window_of tenant (set other w e) ≡ w =
              window_of-set tenant other w e ∙ rw s refl in
            rw z (
              ap (λ (x : Window). x.requests) eq
              ∙ ap (λ t. (window_of t e).requests) ((str_eq_iff other tenant).0 s))
        | inr s ↦
            let eq : window_of tenant (set other w e) ≡ window_of tenant e =
              window_of-set tenant other w e ∙ rw s refl in
            rw z (ap (λ (x : Window). x.requests) eq)
      ]
]

-- The window of the tenant after a check, by its outcome.
requests-check :
    (tenant : GoString) (lim : Limits) (now : ℕ) (e : Windows)
    → (window_of tenant (check now tenant lim e).0).requests
      ≡ (admit now (prune now (window_of tenant e)) (check now tenant lim e).1).requests
unfolding check
requests-check tenant lim now e =
    ap (λ (x : Window). x.requests)
      (window_of-set_self tenant
        (admit now (prune now (window_of tenant e))
          (breached now lim (prune now (window_of tenant e))))
        e)

requests-passed :
    (tenant : GoString) (lim : Limits) (now : ℕ) (e : Windows)
    → (check now tenant lim e).1 ≡ none
    → (window_of tenant (check now tenant lim e).0).requests
      ≡ last_minute now (window_of tenant e).requests ++ now ∷ []
unfolding admit prune
requests-passed tenant lim now e h = requests-check tenant lim now e ∙ rw h refl

requests-refused :
    (tenant limit : GoString) (lim : Limits) (now : ℕ) (e : Windows)
    → (check now tenant lim e).1 ≡ some limit
    → (window_of tenant (check now tenant lim e).0).requests
      ≡ last_minute now (window_of tenant e).requests
unfolding admit prune
requests-refused tenant limit lim now e h = requests-check tenant lim now e ∙ rw h refl

window_of-check_other :
    (tenant other : GoString) (lim : Limits) (now : ℕ) (e : Windows)
    → other ≢ tenant
    → window_of tenant (check now other lim e).0 ≡ window_of tenant e
unfolding check
window_of-check_other tenant other lim now e ne = window_of-set_other tenant other _ e ne

-- Fewer requests than the limit stood in the window of a request that passes.
passed-lt :
    (tenant : GoString) (lim : Limits) (now : ℕ) (e : Windows)
    → 0 < lim.requests_per_minute
    → (check now tenant lim e).1 ≡ none
    → length (last_minute now (window_of tenant e).requests) < lim.requests_per_minute
unfolding check breached prune sums
passed-lt tenant lim now e pos h = ground arith

Run-Knows :
    (tenant : GoString) (lim : Limits) (now : ℕ) (e : Windows) (log : List ℕ)
    → Run tenant lim now e log
    → Knows tenant now e log
Run-Knows tenant lim _ _ _ start t le = unfold window_of lookup in refl
Run-Knows tenant lim _ _ _ (passed {t = t'} {e = e} {log = log} now m past h) t le =
    ap (last_minute t) (requests-passed tenant lim now e h)
    ∙ last_minute-append t (last_minute now (window_of tenant e).requests) (now ∷ [])
    ∙ ap (λ xs. xs ++ last_minute t (now ∷ []))
        (last_minute_twice now t (window_of tenant e).requests le
          ∙ Run-Knows tenant lim t' e log m t (omega arith))
    ∙ sym (last_minute-append t log (now ∷ []))
Run-Knows tenant lim _ _ _ (refused {t = t'} {e = e} {log = log} now limit m past h) t le =
    ap (last_minute t) (requests-refused tenant limit lim now e h)
    ∙ last_minute_twice now t (window_of tenant e).requests le
    ∙ Run-Knows tenant lim t' e log m t (omega arith)
Run-Knows tenant lim _ _ _ (elsewhere {t = t'} {e = e} {log = log} now other lim' m past ne) t le =
    ap (λ (w : Window). last_minute t w.requests) (window_of-check_other tenant other lim' now e ne)
    ∙ Run-Knows tenant lim t' e log m t (omega arith)
Run-Knows tenant lim _ _ _ (used {t = t'} {e = e} {log = log} now other tokens m past) t le =
    ap (last_minute t) (requests-record_usage tenant other now tokens e)
    ∙ Run-Knows tenant lim t' e log m t (omega arith)

last_minute-le :
    (s t n : ℕ) (log : List ℕ)
    → s ≤ t
    → length (last_minute s log) ≤ n
    → length (last_minute t log) ≤ n
last_minute-le s t n log le h = omega (
  arith,
  h,
  ap length (last_minute_twice s t log le),
  length-filter-le {0} (within minute t) (last_minute s log),
)

passed-le :
    (tenant : GoString) (lim : Limits) (t now : ℕ) (e : Windows) (log : List ℕ)
    → Run tenant lim t e log
    → t ≤ now
    → 0 < lim.requests_per_minute
    → (check now tenant lim e).1 ≡ none
    → length (last_minute now (log ++ now ∷ [])) ≤ lim.requests_per_minute
passed-le tenant lim t now e log m past pos h =
    let k : length (last_minute now log) < lim.requests_per_minute = omega (
      arith,
      passed-lt tenant lim now e pos h,
      ap length (Run-Knows tenant lim t e log m now past),
    ) in
    omega (
      arith,
      k,
      ap length (last_minute-append now log (now ∷ [])),
      length-append {0} (last_minute now log) (last_minute now (now ∷ [])),
      length-filter-le {0} (within minute now) (now ∷ []),
    )

-- Over any calls of the enforcer, by any tenants and with any token usage, at most as many requests
-- of a tenant with a limit on them were let through in the last minute as the limit says.
pub Run_rate :
    (tenant : GoString) (lim : Limits) (now : ℕ) (e : Windows) (log : List ℕ)
    → Run tenant lim now e log
    → 0 < lim.requests_per_minute
    → length (last_minute now log) ≤ lim.requests_per_minute
Run_rate tenant lim _ _ _ start pos = omega arith
Run_rate tenant lim _ _ _ (passed {t = t} {e = e} {log = log} now m past h) pos =
    passed-le tenant lim t now e log m past pos h
Run_rate tenant lim _ _ _ (refused {t = t} {e = e} {log = log} now limit m past h) pos =
    last_minute-le t now lim.requests_per_minute log past (Run_rate tenant lim t e log m pos)
Run_rate tenant lim _ _ _ (elsewhere {t = t} {e = e} {log = log} now other lim' m past ne) pos =
    last_minute-le t now lim.requests_per_minute log past (Run_rate tenant lim t e log m pos)
Run_rate tenant lim _ _ _ (used {t = t} {e = e} {log = log} now other tokens m past) pos =
    last_minute-le t now lim.requests_per_minute log past (Run_rate tenant lim t e log m pos)

-- A check or a record of usage leaves the windows of every other tenant as they were.
pub tenants_apart :
    (tenant other : GoString) (lim : Limits) (now tokens : ℕ) (e : Windows)
    → other ≢ tenant
    → (window_of tenant (check now other lim e).0 ≡ window_of tenant e)
      × (window_of tenant (record_usage now other tokens e) ≡ window_of tenant e)
unfolding record_usage
tenants_apart tenant other lim now tokens e ne = (
  window_of-check_other tenant other lim now e ne,
  elim (Bool-cases (leb tokens 0)) [
    | inl z ↦ rw z refl
    | inr z ↦ rw z (window_of-set_other tenant other _ e ne)
  ],
)
