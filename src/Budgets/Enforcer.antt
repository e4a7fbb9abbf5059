-- ===== src/Budgets/Enforcer.antt =====
-- internal/budgets/enforcer.go. An amount is a float64, of which only the operations in use are
-- known: a sum and two comparisons, which NaN keeps apart. The store is a parameter, with `none` for
-- an error, and `some none` for a ledger that is not there.
pub mod Room
pub mod Violated
use portico_gateway.Base.{
  ℕ, Bool, true, false, not, Option, none, some, List, [], ◌∷◌, if◌then◌else◌, GoString, codes,
  str_eq,
}
use portico_gateway.Budgets.Window.{Window, window_for}

pub record Scope : Type 0 where
  pub kind : GoString
  pub id : GoString

pub record Float : Type 1 where
  pub Carrier : Type 0
  pub zero : Carrier
  pub add : Carrier → Carrier → Carrier
  pub greater : Carrier → Carrier → Bool
  pub at_most : Carrier → Carrier → Bool

module _ (F : Float) where
  pub record Usage : Type 0 where
    pub requests : F.Carrier
    pub tokens : F.Carrier
    pub cost_usd : F.Carrier

  unfoldable pub metric : Usage → GoString → F.Carrier
  metric u m =
      if str_eq m (codes "requests")
      then u.requests
      else if str_eq m (codes "tokens")
      then u.tokens
      else if str_eq m (codes "cost_usd")
      then u.cost_usd
      else F.zero

  -- The fields of ifaces.Budget that the enforcer reads.
  pub record Budget : Type 0 where
    pub id : GoString
    pub metric : GoString
    pub period : GoString
    pub alignment : GoString
    pub limit_val : F.Carrier

  pub record Violation : Type 0 where
    pub level : GoString
    pub metric : GoString
    pub budget_id : GoString
    pub limit : F.Carrier
    pub used : F.Carrier
    pub would : F.Carrier

  pub record Store : Type 0 where
    pub list_budgets_by_scope : GoString → GoString → GoString → Option (List Budget)
    pub get_ledger : GoString → GoString → GoString → Option (Option F.Carrier)

  -- What a check comes to: an error, a violation, or nothing.
  pub data Verdict : Type 0 where
    headroom failed : Verdict
    violates : Violation → Verdict

  module _ (store : Store) (tenant : GoString) where
    abbrev or_zero : Option (Option F.Carrier) → Option F.Carrier
    or_zero none = none
    or_zero (some none) = some F.zero
    or_zero (some (some used)) = some used

    unfoldable pub used_for : GoString → GoString → Option F.Carrier
    used_for budget window = or_zero (store.get_ledger tenant budget window)

    unfoldable pub compare_used : Scope → Budget → F.Carrier → Option F.Carrier → Verdict
    compare_used sc b amt none = failed
    compare_used sc b amt (some used) =
        if F.greater (F.add used amt) b.limit_val
        then violates (record {
          level = sc.kind;
          metric = b.metric;
          budget_id = b.id;
          limit = b.limit_val;
          used = used;
          would = F.add used amt;
        })
        else headroom

    unfoldable pub check_window : Scope → Budget → F.Carrier → Option Window → Verdict
    check_window sc b amt none = failed
    check_window sc b amt (some w) = compare_used sc b amt (used_for b.id w.key)

    -- The body of the inner loop.
    unfoldable pub check_budget : ℕ → Usage → Scope → Budget → Verdict
    check_budget now amount sc b =
        let amt = metric amount b.metric in
        if F.at_most amt F.zero
        then headroom
        else check_window sc b amt (window_for now b.period b.alignment)

    -- The loop goes on only where there is headroom.
    unfoldable pub and_then : Verdict → Verdict → Verdict
    and_then headroom v = v
    and_then failed v = failed
    and_then (violates x) v = violates x

    unfoldable pub check_budgets : ℕ → Usage → Scope → List Budget → Verdict
    check_budgets now amount sc [] = headroom
    check_budgets now amount sc (b ∷ bs) =
        and_then (check_budget now amount sc b) (check_budgets now amount sc bs)

    unfoldable pub check_scope : ℕ → Usage → Scope → Option (List Budget) → Verdict
    check_scope now amount sc none = failed
    check_scope now amount sc (some bs) = check_budgets now amount sc bs

    unfoldable pub pre_check : ℕ → Usage → List Scope → Verdict
    pre_check now amount [] = headroom
    pre_check now amount (sc ∷ scopes) =
        and_then (check_scope now amount sc (store.list_budgets_by_scope tenant sc.kind sc.id))
          (pre_check now amount scopes)
