-- ===== src/Budgets/Enforcer/Violated.antt =====
-- Which budget refuses a call.
use mathlib.Core.List.Memᴰ
use portico_gateway.Base.{
  ℕ, true, Option, none, some, List, [], ◌∷◌, ◌++◌, ◌≡◌, ◌⊎◌, refl, inl, inr, subst, sym, ap, arith,
  GoString, Memᴰ, Bool-cases, Option-cases,
}
use portico_gateway.Budgets.Window.{window_for}
use portico_gateway.Budgets.Enforcer.{
  Scope, Float, Usage, metric, Budget, Violation, Store, Verdict, headroom, failed, violates,
  used_for, compare_used, check_window, check_budget, and_then, check_budgets, check_scope,
  pre_check,
}
use portico_gateway.Budgets.Enforcer.Room.{ScopeHasRoom, check_scope_iff}

module _ (F : Float) (store : Store F) (tenant : GoString) (now : ℕ) (amount : Usage F) where
  -- The budget that a violation names, and the use that it reports.
  pub record IsExceeded (sc : Scope) (v : Violation F) : Type 0 where
    pub level : v.level ≡ sc.kind
    pub sum : v.would ≡ F.add v.used (metric F amount v.metric)
    pub above : F.greater v.would v.limit ≡ true

  compare_used-IsExceeded :
      (sc : Scope) (b : Budget F) (o : Option F.Carrier) (v : Violation F)
      → compare_used F store tenant sc b (metric F amount b.metric) o ≡ violates v
      → IsExceeded sc v
  unfolding compare_used
  compare_used-IsExceeded sc b none v h = absurd (cc)
  compare_used-IsExceeded sc b (some used) v h =
      elim (Bool-cases (F.greater (F.add used (metric F amount b.metric)) b.limit_val)) [
        | inr g ↦ absurd (ground arith)
        | inl g ↦
            let found : Violation F = record {
              level = sc.kind;
              metric = b.metric;
              budget_id = b.id;
              limit = b.limit_val;
              used = used;
              would = F.add used (metric F amount b.metric);
            } in
            let same : found ≡ v = ground arith in
            subst (IsExceeded sc) same (record { level = refl; sum = refl; above = g })
      ]

  check_budget-IsExceeded :
      (sc : Scope) (b : Budget F) (v : Violation F)
      → check_budget F store tenant now amount sc b ≡ violates v
      → IsExceeded sc v
  unfolding check_budget check_window
  check_budget-IsExceeded sc b v h =
      elim (Bool-cases (F.at_most (metric F amount b.metric) F.zero)) [
        | inl z ↦ absurd (ground arith)
        | inr z ↦ elim (Option-cases (window_for now b.period b.alignment)) [
          | inl e ↦ absurd (ground arith)
          | inr (w, e) ↦
              compare_used-IsExceeded sc b (used_for F store tenant b.id w.key) v (rw (z, e) at h)
        ]
      ]

  -- The first of the two that is not headroom.
  and_then-violates :
      (x y : Verdict F) (v : Violation F)
      → and_then F store tenant x y ≡ violates v
      → (x ≡ violates v) ⊎ ((x ≡ headroom) × (y ≡ violates v))
  unfolding and_then
  and_then-violates headroom y v h = inr (refl, h)
  and_then-violates failed y v h = absurd (cc)
  and_then-violates (violates x) y v h = inl h

  check_budgets-IsExceeded :
      (sc : Scope) (bs : List (Budget F)) (v : Violation F)
      → check_budgets F store tenant now amount sc bs ≡ violates v
      → IsExceeded sc v
  unfolding check_budgets
  check_budgets-IsExceeded sc [] v h = absurd (cc)
  check_budgets-IsExceeded sc (b ∷ bs) v h =
      elim (and_then-violates (check_budget F store tenant now amount sc b)
        (check_budgets F store tenant now amount sc bs) v h) [
          | inl x ↦ check_budget-IsExceeded sc b v x
          | inr (x, y) ↦ check_budgets-IsExceeded sc bs v y
        ]

  check_scope-IsExceeded :
      (sc : Scope) (o : Option (List (Budget F))) (v : Violation F)
      → check_scope F store tenant now amount sc o ≡ violates v
      → IsExceeded sc v
  unfolding check_scope
  check_scope-IsExceeded sc none v h = absurd (cc)
  check_scope-IsExceeded sc (some bs) v h = check_budgets-IsExceeded sc bs v h

  -- A violation is of the most specific scope that refuses: every scope in front of it can be read
  -- and has room, its kind is the level, and the reported use with what the call adds is above the
  -- reported limit.
  pub pre_check-violates :
      (scopes : List Scope) (v : Violation F)
      → pre_check F store tenant now amount scopes ≡ violates v
      → (before : List Scope) × (sc : Scope) × (after : List Scope) × (scopes
          ≡ before ++ sc ∷ after)
        × ((s : Scope) → Memᴰ s before → ScopeHasRoom F store tenant now amount s)
        × IsExceeded sc v
  unfolding pre_check
  pre_check-violates [] v h = absurd (cc)
  pre_check-violates (sc ∷ scopes) v h =
      let answer = store.list_budgets_by_scope tenant sc.kind sc.id in
      elim (and_then-violates (check_scope F store tenant now amount sc answer)
        (pre_check F store tenant now amount scopes) v h) [
          | inl x ↦
              ([], sc, scopes, refl, (λ s m. elim m [ ]), check_scope-IsExceeded sc answer v x)
          | inr (x, y) ↦
              let (before, s, after, e, room, exceeded) = pre_check-violates scopes v y in
              (
                sc ∷ before,
                s,
                after,
                ap (λ r. sc ∷ r) e,
                (λ t m. elim (Memᴰ.cases_cons m) [
                  | inl q ↦
                      subst (ScopeHasRoom F store tenant now amount) (sym q)
                        ((check_scope_iff F store tenant now amount sc).0 x)
                  | inr r ↦ room t r
                ]),
                exceeded,
              )
        ]
