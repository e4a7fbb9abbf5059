-- ===== src/Budgets/Enforcer/Room.antt =====
-- When a call has headroom, and which budget refuses it.
use mathlib.Core.List.Memᴰ
use portico_gateway.Base.{
  ℕ, true, false, some, List, [], ◌∷◌, ◌≡◌, ◌↔◌, ◌⊎◌, refl, inl, inr, subst, sym, arith, GoString,
  Memᴰ, Bool-cases, Option-cases,
}
use portico_gateway.Budgets.Window.{Window, window_for}
use portico_gateway.Budgets.Enforcer.{
  Scope, Float, Usage, metric, Budget, Store, Verdict, headroom, failed, violates, used_for,
  compare_used, check_window, check_budget, and_then, check_budgets, check_scope, pre_check,
}

module _ (F : Float) (store : Store F) (tenant : GoString) (now : ℕ) (amount : Usage F) where
  -- The call uses nothing of the budget's metric, or its use still fits the budget's window.
  abbrev pub HasRoom : Budget F → Type 0
  HasRoom b =
      (F.at_most (metric F amount b.metric) F.zero ≡ true)
      ⊎ ((w : Window) × (used : F.Carrier) × (window_for now b.period b.alignment ≡ some w)
          × (used_for F store tenant b.id w.key ≡ some used)
          × (F.greater (F.add used (metric F amount b.metric)) b.limit_val ≡ false))

  and_then_iff :
      (v u : Verdict F)
      → (and_then F store tenant v u ≡ headroom) ↔ ((v ≡ headroom) × (u ≡ headroom))
  unfolding and_then
  and_then_iff headroom u = (λ h. (refl, h), λ h. h.1)
  and_then_iff failed u = (λ h. absurd (cc), λ h. absurd (cc))
  and_then_iff (violates x) u = (λ h. absurd (cc), λ h. absurd (cc))

  check_budget-HasRoom :
      (sc : Scope) (b : Budget F)
      → check_budget F store tenant now amount sc b ≡ headroom
      → HasRoom b
  unfolding check_budget check_window compare_used
  check_budget-HasRoom sc b h = elim (Bool-cases (F.at_most (metric F amount b.metric) F.zero)) [
    | inl z ↦ inl z
    | inr z ↦ elim (Option-cases (window_for now b.period b.alignment)) [
      | inl e ↦ absurd (ground arith)
      | inr (w, e) ↦ elim (Option-cases (used_for F store tenant b.id w.key)) [
        | inl u ↦ absurd (ground arith)
        | inr (used, u) ↦ inr (w, used, e, u, ground arith)
      ]
    ]
  ]

  HasRoom-check_budget :
      (sc : Scope) (b : Budget F)
      → HasRoom b
      → check_budget F store tenant now amount sc b ≡ headroom
  unfolding check_budget check_window compare_used
  HasRoom-check_budget sc b (inl z) = rw z refl
  HasRoom-check_budget sc b (inr (w, used, e, u, g)) =
      elim (Bool-cases (F.at_most (metric F amount b.metric) F.zero)) [
        | inl z ↦ rw z refl
        | inr z ↦ rw (z, e, u, g) refl
      ]

  check_budgets-HasRoom :
      (sc : Scope) (bs : List (Budget F))
      → check_budgets F store tenant now amount sc bs ≡ headroom
      → (b : Budget F) → Memᴰ b bs
      → HasRoom b
  unfolding check_budgets
  check_budgets-HasRoom sc [] h b m = elim m [ ]
  check_budgets-HasRoom sc (x ∷ bs) h b m =
      let (p, q) =
        (and_then_iff (check_budget F store tenant now amount sc x)
            (check_budgets F store tenant now amount sc bs)).0
          h in
      elim (Memᴰ.cases_cons m) [
        | inl e ↦ subst HasRoom (sym e) (check_budget-HasRoom sc x p)
        | inr r ↦ check_budgets-HasRoom sc bs q b r
      ]

  HasRoom-check_budgets :
      (sc : Scope) (bs : List (Budget F))
      → ((b : Budget F) → Memᴰ b bs → HasRoom b)
      → check_budgets F store tenant now amount sc bs ≡ headroom
  unfolding check_budgets
  HasRoom-check_budgets sc [] h = refl
  HasRoom-check_budgets sc (x ∷ bs) h =
      (and_then_iff (check_budget F store tenant now amount sc x)
          (check_budgets F store tenant now amount sc bs)).1
        (
          HasRoom-check_budget sc x (h x (Memᴰ.head refl)),
          HasRoom-check_budgets sc bs (λ b m. h b (Memᴰ.tail m)),
        )

  -- The budgets of the scope can be read, and all have room.
  abbrev pub ScopeHasRoom : Scope → Type 0
  ScopeHasRoom sc =
      (bs : List (Budget F)) × (store.list_budgets_by_scope tenant sc.kind sc.id ≡ some bs)
      × ((b : Budget F) → Memᴰ b bs → HasRoom b)

  pub check_scope_iff :
      (sc : Scope)
      → (check_scope F store tenant now amount sc (store.list_budgets_by_scope tenant sc.kind sc.id)
          ≡ headroom)
        ↔ ScopeHasRoom sc
  unfolding check_scope
  check_scope_iff sc = (
    λ h. elim (Option-cases (store.list_budgets_by_scope tenant sc.kind sc.id)) [
      | inl e ↦ absurd (ground arith)
      | inr (bs, e) ↦ (bs, e, check_budgets-HasRoom sc bs (rw e at h))
    ],
    λ h. rw (h.1) (HasRoom-check_budgets sc h.0 h.2),
  )

  pre_check-ScopeHasRoom :
      (scopes : List Scope)
      → pre_check F store tenant now amount scopes ≡ headroom
      → (sc : Scope) → Memᴰ sc scopes
      → ScopeHasRoom sc
  unfolding pre_check
  pre_check-ScopeHasRoom [] h sc m = elim m [ ]
  pre_check-ScopeHasRoom (x ∷ scopes) h sc m =
      let (p, q) =
        (and_then_iff
            (check_scope F store tenant now amount x
              (store.list_budgets_by_scope tenant x.kind x.id))
            (pre_check F store tenant now amount scopes)).0
          h in
      elim (Memᴰ.cases_cons m) [
        | inl e ↦ subst ScopeHasRoom (sym e) ((check_scope_iff x).0 p)
        | inr r ↦ pre_check-ScopeHasRoom scopes q sc r
      ]

  ScopeHasRoom-pre_check :
      (scopes : List Scope)
      → ((sc : Scope) → Memᴰ sc scopes → ScopeHasRoom sc)
      → pre_check F store tenant now amount scopes ≡ headroom
  unfolding pre_check
  ScopeHasRoom-pre_check [] h = refl
  ScopeHasRoom-pre_check (x ∷ scopes) h =
      (and_then_iff
          (check_scope F store tenant now amount x (store.list_budgets_by_scope tenant x.kind x.id))
          (pre_check F store tenant now amount scopes)).1
        (
          (check_scope_iff x).1 (h x (Memᴰ.head refl)),
          ScopeHasRoom-pre_check scopes (λ sc m. h sc (Memᴰ.tail m)),
        )

  -- A call has headroom exactly when the budgets of every scope can be read and all have room: the
  -- call uses nothing of the metric, or what was used in the window and what it adds is not above
  -- the limit.
  pub pre_check_iff :
      (scopes : List Scope)
      → (pre_check F store tenant now amount scopes ≡ headroom)
        ↔ ((sc : Scope) → Memᴰ sc scopes → ScopeHasRoom sc)
  pre_check_iff scopes = (pre_check-ScopeHasRoom scopes, ScopeHasRoom-pre_check scopes)
